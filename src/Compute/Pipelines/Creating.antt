-- ===== src/Compute/Pipelines/Creating.antt =====
-- How the creation of a pipeline may end.
use mathlib.Core.List.{Memᴰ}
use terraform_provider_datab.Base.{
  ◌≡◌, ◌≢◌, refl, ap, ◌∙◌, ◌⊎◌, inl, inr, String, Bool, true, false, none, some, List, ◌∷◌, ◌==◌,
  arith, eq_iff, Bool-cases, Option-cases,
}
use terraform_provider_datab.Common.Errors.{Error, ok, err, is_missing, Result-cases}
use terraform_provider_datab.Common.Service.{Server}
use terraform_provider_datab.Compute.Retry.{
  RetryContext, Outcome, AttemptEnds, OutcomeEnds, retry-OutcomeEnds,
}
use terraform_provider_datab.Compute.Pipelines.{
  PipelineSpec, PipelineInfo, Request, create_pipeline_at, get_pipeline, delete_pipeline_at, Reply,
  Ending, returns, panics, ending, after_delete, state_attempt, wait_for_state, deleted_attempt,
  delete_pipeline, clean_up, create_pipeline,
}

module _ (server : Server Request Reply) where
  -- The last request has read the pipeline: it is running, or it is not failed and not continuous.
  pub data HasSettled (id : String) : List Request → Type 0 where
    runs :
        {log : List Request} (i : PipelineInfo)
        → server log (get_pipeline id) ≡ ok i
        → i.state ≡ some "RUNNING"
        → HasSettled id (get_pipeline id ∷ log)
    triggered :
        {log : List Request} (i : PipelineInfo) (state : String) (spec : PipelineSpec)
        → server log (get_pipeline id) ≡ ok i
        → i.state ≡ some state
        → state ≢ "FAILED"
        → i.spec ≡ some spec
        → spec.continuous ≡ false
        → HasSettled id (get_pipeline id ∷ log)

  -- The last request has read a description of the pipeline without a state, or without a specification.
  pub data ReadNil (id : String) : List Request → Type 0 where
    no_state :
        {log : List Request} (i : PipelineInfo)
        → server log (get_pipeline id) ≡ ok i
        → i.state ≡ none
        → ReadNil id (get_pipeline id ∷ log)
    no_spec :
        {log : List Request} (i : PipelineInfo)
        → server log (get_pipeline id) ≡ ok i
        → i.spec ≡ none
        → ReadNil id (get_pipeline id ∷ log)

module _ (server : Server Request Reply) (sdk : RetryContext Bool Request) where
  -- How waiting may stop.
  abbrev Stops : String → Bool → List Request → Type 0
  Stops id true log = ReadNil server id log
  Stops id false log = HasSettled server id log

  attempt-ends :
      (id : String) (s : Bool) (log : List Request)
      → AttemptEnds (λ _. Unit {0}) (Stops id) (state_attempt server sdk id "RUNNING" s log)
  attempt-ends id s log = elim (Result-cases (server log (get_pipeline id))) [
    | inl (x, e) ↦ rw e tt
    | inr (i, e) ↦ elim (Option-cases i.state) [
      | inl n ↦ rw (e, n) (no_state i e n)
      | inr (state, n) ↦ elim (Bool-cases (state == "RUNNING")) [
        | inl f ↦ rw (e, n, f) (runs i e (n ∙ ap some ((eq_iff state "RUNNING").0 f)))
        | inr f ↦ elim (Bool-cases (state == "FAILED")) [
          | inl g ↦ rw (e, n, f, g) tt
          | inr g ↦ elim (Option-cases i.spec) [
            | inl m ↦ rw (e, n, f, g, m) (no_spec i e m)
            | inr (spec, m) ↦ elim (Bool-cases spec.continuous) [
              | inl c ↦ rw (e, n, f, g, m, c) tt
              | inr c ↦
                  rw (e, n, f, g, m, c)
                    (triggered i state spec e n (ground (arith, eq_iff state "FAILED")) m c)
            ]
          ]
        ]
      ]
    ]
  ]

  abbrev Settles : String → Ending (Unit {0}) × List Request → Type 0
  Settles id (panics, log) = ReadNil server id log
  Settles id (returns (ok _), log) = HasSettled server id log
  Settles id (returns (err e), log) = Unit

  ending-Settles :
      (id : String) (out : Outcome Bool Request)
      → OutcomeEnds (λ _. Unit {0}) (Stops id) out
      → Settles id (ending out)
  ending-Settles id (none, true, log) h = h
  ending-Settles id (none, false, log) h = h
  ending-Settles id (some e, s, log) h = tt

  wait_for_state-Settles :
      (id : String) (log : List Request) → Settles id (wait_for_state server sdk id "RUNNING" log)
  unfolding wait_for_state
  wait_for_state-Settles id log =
      ending-Settles id (sdk.retry (state_attempt server sdk id "RUNNING") false log) (
        retry-OutcomeEnds sdk (λ _. Unit {0}) (Stops id) (state_attempt server sdk id "RUNNING")
          (λ s l _. attempt-ends id s l) false log tt)

  abbrev IsDeleted : String → List Request → Type 0
  IsDeleted id log = Memᴰ (delete_pipeline_at id) log

  abbrev Removes : String → Bool → List Request → Type 0
  Removes id true log = IsDeleted id log × ReadNil server id log
  Removes id false log = IsDeleted id log

  deleted_attempt-ends :
      (id : String) (s : Bool) (log : List Request)
      → IsDeleted id log
      → AttemptEnds (IsDeleted id) (Removes id) (deleted_attempt server sdk id s log)
  deleted_attempt-ends id s log d = elim (Result-cases (server log (get_pipeline id))) [
    | inl (x, e) ↦ elim (Bool-cases (is_missing x)) [
      | inl f ↦ rw (e, f) (Memᴰ.tail d)
      | inr f ↦ rw (e, f) (Memᴰ.tail d)
    ]
    | inr (i, e) ↦ elim (Option-cases i.state) [
      | inl n ↦ rw (e, n) (Memᴰ.tail d, no_state i e n)
      | inr (state, n) ↦ rw (e, n) (Memᴰ.tail d)
    ]
  ]

  -- A deletion has sent its request, and it panics only on a description without a state.
  abbrev Deletes : String → Ending (Unit {0}) × List Request → Type 0
  Deletes id (panics, log) = IsDeleted id log × ReadNil server id log
  Deletes id (returns r, log) = IsDeleted id log

  ending-Deletes :
      (id : String) (out : Outcome Bool Request)
      → OutcomeEnds (IsDeleted id) (Removes id) out
      → Deletes id (ending out)
  ending-Deletes id (none, true, log) h = h
  ending-Deletes id (none, false, log) h = h
  ending-Deletes id (some e, s, log) h = h

  delete_pipeline-Deletes :
      (id : String) (log : List Request) → Deletes id (delete_pipeline server sdk id log)
  unfolding delete_pipeline
  delete_pipeline-Deletes id log = elim (Result-cases (server log (delete_pipeline_at id))) [
    | inl (x, e) ↦ rw e (Memᴰ.head refl)
    | inr (a, e) ↦ rw e (
        ending-Deletes id
          (sdk.retry (deleted_attempt server sdk id) false (delete_pipeline_at id ∷ log))
          (retry-OutcomeEnds sdk (IsDeleted id) (Removes id) (deleted_attempt server sdk id)
            (deleted_attempt-ends id) false (delete_pipeline_at id ∷ log) (Memᴰ.head refl)))
  ]

  abbrev pub Provisions : PipelineSpec → List Request → Ending String × List Request → Type 0
  Provisions s log (returns (ok id), log') =
      (server log (create_pipeline_at s) ≡ ok id) × HasSettled server id log'
  Provisions s log (returns (err e), log') =
      (server log (create_pipeline_at s) ≡ err e)
      ⊎ ((id : String) × (server log (create_pipeline_at s) ≡ ok id) × IsDeleted id log')
  Provisions s log (panics, log') =
      (id : String) × (server log (create_pipeline_at s) ≡ ok id) × ReadNil server id log'

  deleted-Provisions :
      (s : PipelineSpec) (id : String) (log : List Request) (e : Error)
      → server log (create_pipeline_at s) ≡ ok id
      → (out : Ending (Unit {0}) × List Request) → Deletes id out
      → Provisions s log (after_delete e out)
  deleted-Provisions s id log e m (panics, l) (d, n) = (id, m, n)
  deleted-Provisions s id log e m (returns (ok _), l) d = inr (id, m, d)
  deleted-Provisions s id log e m (returns (err e2), l) d = inr (id, m, d)

  clean_up-Provisions :
      (s : PipelineSpec) (id : String) (log : List Request)
      → server log (create_pipeline_at s) ≡ ok id
      → (out : Ending (Unit {0}) × List Request) → Settles id out
      → Provisions s log (clean_up server sdk id out)
  clean_up-Provisions s id log m (panics, l) h = (id, m, h)
  clean_up-Provisions s id log m (returns (ok _), l) h = (m, h)
  clean_up-Provisions s id log m (returns (err e), l) h =
      deleted-Provisions s id log e m (delete_pipeline server sdk id l)
        (delete_pipeline-Deletes id l)

  -- Creating a pipeline either returns an error since the service refuses it; or, where the service makes
  -- one, it returns its ID only after the last request has read it RUNNING, or not FAILED and not
  -- continuous, or it returns an error after it has sent a request that deletes that pipeline; and
  -- it panics only where the service made one and the last request has read a description of it
  -- without a state or without a specification.
  pub create_pipeline-Provisions :
      (s : PipelineSpec) (log : List Request) → Provisions s log (create_pipeline server sdk s log)
  unfolding create_pipeline
  create_pipeline-Provisions s log = elim (Result-cases (server log (create_pipeline_at s))) [
    | inl (x, e) ↦ rw e (inl e)
    | inr (id, e) ↦
        let log' = create_pipeline_at s ∷ log in
        rw e (
          clean_up-Provisions s id log e (wait_for_state server sdk id "RUNNING" log')
            (wait_for_state-Settles id log'))
  ]
