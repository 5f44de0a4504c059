-- ===== src/Compute/Retry.antt =====
-- `resource.RetryContext` of the Terraform SDK, which compute/clusters.go calls. The SDK is not part
-- of the program: the function is a parameter, with what its documentation promises.
use terraform_provider_datab.Base.{
  ℕ, zero, suc, ◌≡◌, ◌∙◌, sym, refl, arith, Option, none, some, List,
}
use terraform_provider_datab.Common.Errors.{Error, Result, ok, err}

-- What the retried function returns: `nil`, `RetryableError(err)` or `NonRetryableError(err)`.
pub data Verdict : Type 0 where
  finished : Verdict
  retryable non_retryable : Error → Verdict

-- The retried function: it may assign the variables that it captures, and make requests.
abbrev pub Attempt : Type 0 → Type 0 → Type 0
Attempt S Req = S → List Req → Verdict × S × List Req

abbrev pub Outcome : Type 0 → Type 0 → Type 0
Outcome S Req = Option Error × S × List Req

module _ {S Req : Type 0} where
  abbrev after : Verdict × S × List Req → (Error → S → List Req → Outcome S Req) → Outcome S Req
  after (finished, s, log) again = (none, s, log)
  after (retryable e, s, log) again = again e s log
  after (non_retryable e, s, log) again = (some e, s, log)

  -- At most `n` attempts. They stop at the first that is finished or not retryable; when the time is
  -- over the error of the last attempt is returned.
  unfoldable pub rounds : ℕ → Error → Attempt S Req → S → List Req → Outcome S Req
  rounds zero last f s log = (some last, s, log)
  rounds (suc n) last f s log = after (f s log) (λ e t l. rounds n e f t l)

  module _ (P : S → Type 0) (f : Attempt S Req)
      (h : (s : S) (log : List Req) (s' : S) (log' : List Req)
        → f s log ≡ (finished, s', log')
        → P s') where
    after_finished :
        (again : Error → S → List Req → Outcome S Req) (s : S) (log : List Req) (s' : S)
        (log' : List Req)
        → ((e : Error) (t : S) (l : List Req) → again e t l ≡ (none, s', log') → P s')
        → (out : Verdict × S × List Req) → f s log ≡ out
        → after out again ≡ (none, s', log')
        → P s'
    after_finished again s log s' log' ih (finished, t, l) q e = h s log s' log' (q ∙ cc)
    after_finished again s log s' log' ih (retryable r, t, l) q e = ih r t l e
    after_finished again s log s' log' ih (non_retryable r, t, l) q e = absurd (ground arith)

    -- What holds whenever an attempt is finished holds when the attempts have ended well.
    pub rounds_finished :
        (n : ℕ) (last : Error) (s : S) (log : List Req) (s' : S) (log' : List Req)
        → rounds n last f s log ≡ (none, s', log')
        → P s'
    unfolding rounds
    rounds_finished zero last s log s' log' e = absurd (ground arith)
    rounds_finished (suc n) last s log s' log' e =
        after_finished _ s log s' log' (λ r t l. rounds_finished n r t l s' log') (f s log) refl e

  module _ (P : List Req → Type 0) (f : Attempt S Req)
      (h : (s : S) (log : List Req) → P log → P (f s log).2) where
    after-Keeps :
        (again : Error → S → List Req → Outcome S Req)
        → ((e : Error) (t : S) (l : List Req) → P l → P (again e t l).2)
        → (out : Verdict × S × List Req) → P out.2
        → P (after out again).2
    after-Keeps again ih (finished, t, l) p = p
    after-Keeps again ih (retryable r, t, l) p = ih r t l p
    after-Keeps again ih (non_retryable r, t, l) p = p

    -- What every attempt keeps of the log is kept by all of them.
    pub rounds-Keeps :
        (n : ℕ) (last : Error) (s : S) (log : List Req) → P log → P (rounds n last f s log).2
    unfolding rounds
    rounds-Keeps zero last s log p = p
    rounds-Keeps (suc n) last s log p =
        after-Keeps _ (λ r t l. rounds-Keeps n r t l) (f s log) (h s log p)

  -- How attempts end: well, where `Q` holds then, or not, where `P` still holds of the log.
  module _ (P : List Req → Type 0) (Q : S → List Req → Type 0) where
    abbrev pub AttemptEnds : Verdict × S × List Req → Type 0
    AttemptEnds (finished, s, log) = Q s log
    AttemptEnds (retryable e, s, log) = P log
    AttemptEnds (non_retryable e, s, log) = P log

    abbrev pub OutcomeEnds : Outcome S Req → Type 0
    OutcomeEnds (none, s, log) = Q s log
    OutcomeEnds (some e, s, log) = P log

    after-OutcomeEnds :
        (again : Error → S → List Req → Outcome S Req)
        → ((e : Error) (s : S) (log : List Req) → P log → OutcomeEnds (again e s log))
        → (out : Verdict × S × List Req) → AttemptEnds out
        → OutcomeEnds (after out again)
    after-OutcomeEnds again ih (finished, s, log) h = h
    after-OutcomeEnds again ih (retryable e, s, log) h = ih e s log h
    after-OutcomeEnds again ih (non_retryable e, s, log) h = h

    pub rounds-OutcomeEnds :
        (f : Attempt S Req)
        → ((s : S) (log : List Req) → P log → AttemptEnds (f s log))
        → (n : ℕ) (last : Error) (s : S) (log : List Req) → P log
        → OutcomeEnds (rounds n last f s log)
    unfolding rounds
    rounds-OutcomeEnds f h zero last s log p = p
    rounds-OutcomeEnds f h (suc n) last s log p =
        after-OutcomeEnds _ (λ e t l q. rounds-OutcomeEnds f h n e t l q) (f s log) (h s log p)

-- The function itself: how many attempts fit into the timeout may depend on everything.
pub record RetryContext (S Req : Type 0) : Type 0 where
  pub retry : Attempt S Req → S → List Req → Outcome S Req
  pub timeout_error : Error
  pub retry-rounds :
      (f : Attempt S Req) (s : S) (log : List Req)
      → (n : ℕ) × (retry f s log ≡ rounds n timeout_error f s log)

-- The error of the attempts, where the retried function assigns no variable.
abbrev pub waited : {Req : Type 0} → Outcome (Unit {0}) Req → Result (Unit {0}) × List Req
waited (none, s, log) = (ok tt, log)
waited (some e, s, log) = (err e, log)

module _ {Req : Type 0} where
  pub waited-log : (out : Outcome (Unit {0}) Req) → (waited out).1 ≡ out.2
  waited-log (none, s, log) = refl
  waited-log (some e, s, log) = refl

  -- How waiting ends: well, where `Q` holds of the log then, or not, where `P` still holds of it.
  abbrev pub WaitEnds :
      (List Req → Type 0) → (List Req → Type 0) → Result (Unit {0}) × List Req → Type 0
  WaitEnds P Q (ok _, log) = Q log
  WaitEnds P Q (err e, log) = P log

  pub waited-WaitEnds :
      (P Q : List Req → Type 0) (out : Outcome (Unit {0}) Req)
      → OutcomeEnds P (λ _ log. Q log) out
      → WaitEnds P Q (waited out)
  waited-WaitEnds P Q (none, s, log) h = h
  waited-WaitEnds P Q (some e, s, log) h = h

module _ {S Req : Type 0} (sdk : RetryContext S Req) where
  pub retry_finished :
      (P : S → Type 0) (f : Attempt S Req)
      → ((s : S) (log : List Req) (s' : S) (log' : List Req)
          → f s log ≡ (finished, s', log')
          → P s')
      → (s : S) (log : List Req) (s' : S) (log' : List Req) → sdk.retry f s log ≡ (none, s', log')
      → P s'
  retry_finished P f h s log s' log' e =
      let (n, same) = sdk.retry-rounds f s log in
      rounds_finished P f h n sdk.timeout_error s log s' log' (sym same ∙ e)

  pub retry-Keeps :
      (P : List Req → Type 0) (f : Attempt S Req)
      → ((s : S) (log : List Req) → P log → P (f s log).2)
      → (s : S) (log : List Req) → P log
      → P (sdk.retry f s log).2
  retry-Keeps P f h s log p =
      let (n, same) = sdk.retry-rounds f s log in
      rw same (rounds-Keeps P f h n sdk.timeout_error s log p)

  pub retry-OutcomeEnds :
      (P : List Req → Type 0) (Q : S → List Req → Type 0) (f : Attempt S Req)
      → ((s : S) (log : List Req) → P log → AttemptEnds P Q (f s log))
      → (s : S) (log : List Req) → P log
      → OutcomeEnds P Q (sdk.retry f s log)
  retry-OutcomeEnds P Q f h s log p =
      let (n, same) = sdk.retry-rounds f s log in
      rw same (rounds-OutcomeEnds P Q f h n sdk.timeout_error s log p)
