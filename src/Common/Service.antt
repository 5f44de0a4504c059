-- ===== src/Common/Service.antt =====
-- Calls of a remote service. The service is not part of the program, so it is a parameter: a
-- function that answers each request from the requests made before it, the newest at the head.
-- A method of the program takes the service and the log of requests, and gives back its result
-- and the longer log, whether it succeeds or fails.
use terraform_provider_datab.Base.{◌≡◌, List, ◌∷◌, refl, arith}
use terraform_provider_datab.Common.Errors.{Error, Result, ok, err}

abbrev pub Server : (Req : Type 0) → (Req → Type 0) → Type 0
Server Req Reply = List Req → (r : Req) → Result (Reply r)

abbrev pub Call : Type 0 → Type 0 → Type 0
Call Req A = List Req → Result A × List Req

module _ {Req : Type 0} where
  abbrev pub pure : {A : Type 0} → A → Call Req A
  pure a log = (ok a, log)

  abbrev pub fail : {A : Type 0} → Error → Call Req A
  fail e log = (err e, log)

  -- One request and its answer.
  abbrev pub send : {Reply : Req → Type 0} → Server Req Reply → (r : Req) → Call Req (Reply r)
  send server r log = (server log r, r ∷ log)

  abbrev pub continue :
      {A B : Type 0} → Result A × List Req → (A → Call Req B) → Result B × List Req
  continue (ok a, log) f = f a log
  continue (err e, log) f = (err e, log)

  -- The rest of a method, after a check `if err != nil { return err }`.
  infixl 5 ◌>>=◌ ◌>>◌
  abbrev pub ◌>>=◌ : {A B : Type 0} → Call Req A → (A → Call Req B) → Call Req B
  ◌>>=◌ m f log = continue (m log) f

  abbrev pub ◌>>◌ : {A B : Type 0} → Call Req A → Call Req B → Call Req B
  m >> n = m >>= λ _. n

  abbrev pub handle_result :
      {A B : Type 0} → Result A × List Req → (Result A → Call Req B) → Result B × List Req
  handle_result (r, log) f = f r log

  -- The rest of a method that looks at the error itself.
  abbrev pub handle : {A B : Type 0} → Call Req A → (Result A → Call Req B) → Call Req B
  handle m f log = handle_result (m log) f

module _ {Req : Type 0} {A B : Type 0} where
  -- A method that goes on after its first part, and succeeds, has succeeded in that part.
  pub continue-eq-ok :
      (out : Result A × List Req) (f : A → Call Req B) {b : B} {log : List Req}
      → continue out f ≡ (ok b, log)
      → (a : A) × (log' : List Req) × (out ≡ (ok a, log')) × (f a log' ≡ (ok b, log))
  continue-eq-ok (ok a, log') f h = (a, log', refl, h)
  continue-eq-ok (err e, log') f h = absurd (ground arith)

  -- What both parts keep of the log is kept.
  pub continue-Keeps :
      (P : List Req → Type 0) (out : Result A × List Req) (f : A → Call Req B)
      → P out.1
      → ((a : A) (log : List Req) → P log → P (f a log).1)
      → P (continue out f).1
  continue-Keeps P (ok a, log) f p h = h a log p
  continue-Keeps P (err e, log) f p h = p

  pub handle_result-Keeps :
      (P : List Req → Type 0) (out : Result A × List Req) (f : Result A → Call Req B)
      → P out.1
      → ((r : Result A) (log : List Req) → P log → P (f r log).1)
      → P (handle_result out f).1
  handle_result-Keeps P (r, log) f p h = h r log p
