-- ===== src/Compute/Jobs/Running.antt =====
-- A job that is restarted has no other active run.
use terraform_provider_datab.Base.{
  ℕ, ◌≡◌, refl, subst, ◌⊎◌, inl, inr, String, Bool, none, some, List, [], ◌∷◌, ◌==◌, arith, eq_iff,
  Bool-cases,
}
use terraform_provider_datab.Common.Errors.{Result, ok, Result-cases}
use terraform_provider_datab.Common.Service.{Server}
use terraform_provider_datab.Compute.Retry.{
  RetryContext, Outcome, waited, AttemptEnds, OutcomeEnds, retry-OutcomeEnds,
}
use terraform_provider_datab.Compute.Jobs.{
  JobRun, Request, list_active_runs, cancel_run, get_run, run_now_at, Reply, run_attempt,
  wait_for_run_state, runs_cancel, start_job, restart_after, restart_job,
}

module _ (server : Server Request Reply) where
  -- The last request has read the run, in this state of its life.
  pub data HasState (run_id : ℕ) (desired : String) : List Request → Type 0 where
    seen :
        {log : List Request} (run : JobRun)
        → server log (get_run run_id) ≡ ok run
        → run.state.life_cycle_state ≡ desired
        → HasState run_id desired (get_run run_id ∷ log)

  -- The job was started, and the run that this gave has been seen running.
  abbrev pub Starts : ℕ → List Request → List Request → Type 0
  Starts job_id log log' =
      (run : JobRun) × (server log (run_now_at job_id) ≡ ok run)
      × HasState run.run_id "RUNNING" log'

  -- The one active run was cancelled and seen terminated, up to the log `middle`.
  abbrev pub Cancels : ℕ → List Request → List Request → Type 0
  Cancels run_id log middle =
      (server log (cancel_run run_id) ≡ ok tt) × HasState run_id "TERMINATED" middle

module _ (server : Server Request Reply) (sdk : RetryContext (Unit {0}) Request)
    (parse_int : ℕ → String → Result ℕ) (show : ℕ → String) (less : String → String → Bool) where
  attempt-ends :
      (run_id : ℕ) (desired : String) (s : Unit {0}) (log : List Request)
      → AttemptEnds
          (λ _. Unit {0})
          (λ (_ : Unit {0}) l. HasState server run_id desired l)
          (run_attempt server sdk parse_int show less run_id desired s log)
  attempt-ends run_id desired s log = elim (Result-cases (server log (get_run run_id))) [
    | inl (x, e) ↦ rw e tt
    | inr (run, e) ↦ elim (Bool-cases (run.state.life_cycle_state == desired)) [
      | inl f ↦ rw (e, f) (seen run e (ground (arith, eq_iff run.state.life_cycle_state desired)))
      | inr f ↦ elim (Bool-cases (run.state.life_cycle_state == "INTERNAL_ERROR")) [
        | inl g ↦ rw (e, f, g) tt
        | inr g ↦ rw (e, f, g) tt
      ]
    ]
  ]

  waited-HasState :
      (run_id : ℕ) (desired : String) (out : Outcome (Unit {0}) Request) (log' : List Request)
      → OutcomeEnds (λ _. Unit {0}) (λ _ l. HasState server run_id desired l) out
      → waited out ≡ (ok tt, log')
      → HasState server run_id desired log'
  waited-HasState run_id desired (none, s, l) log' h e =
      let p : l ≡ log' = ground arith in subst (HasState server run_id desired) p h
  waited-HasState run_id desired (some x, s, l) log' h e = absurd (ground arith)

  wait_for_run_state-HasState :
      (run_id : ℕ) (desired : String) (log log' : List Request)
      → wait_for_run_state server sdk parse_int show less run_id desired log ≡ (ok tt, log')
      → HasState server run_id desired log'
  unfolding wait_for_run_state
  wait_for_run_state-HasState run_id desired log log' e =
      waited-HasState run_id desired
        (sdk.retry (run_attempt server sdk parse_int show less run_id desired) tt log) log'
        (retry-OutcomeEnds sdk (λ _. Unit {0}) (λ _ l. HasState server run_id desired l)
          (run_attempt server sdk parse_int show less run_id desired)
          (λ s l _. attempt-ends run_id desired s l) tt log tt)
        e

  start_job-Starts :
      (job_id : ℕ) (log log' : List Request)
      → start_job server sdk parse_int show less job_id log ≡ (ok tt, log')
      → Starts server job_id log log'
  unfolding start_job
  start_job-Starts job_id log log' h = elim (Result-cases (server log (run_now_at job_id))) [
    | inl (x, e) ↦ absurd (let k = rw (e, start_job) at h in ground arith)
    | inr (run, e) ↦ (
      run,
      e,
      wait_for_run_state-HasState run.run_id "RUNNING" (run_now_at job_id ∷ log) log'
          (rw (e, start_job) at h),
    )
  ]

  runs_cancel-Cancels :
      (run_id : ℕ) (log middle : List Request)
      → runs_cancel server sdk parse_int show less run_id log ≡ (ok tt, middle)
      → Cancels server run_id log middle
  unfolding runs_cancel
  runs_cancel-Cancels run_id log middle h = elim (Result-cases (server log (cancel_run run_id))) [
    | inl (x, e) ↦ absurd (let k = rw (e, runs_cancel) at h in ground arith)
    | inr (_, e) ↦ (
      ground arith,
      wait_for_run_state-HasState run_id "TERMINATED" (cancel_run run_id ∷ log) middle
          (rw (e, runs_cancel) at h),
    )
  ]

  -- What follows on the list of the active runs.
  abbrev pub Restarts : ℕ → List JobRun → List Request → List Request → Type 0
  Restarts job_id runs log log' =
      ((runs ≡ []) × Starts server job_id log log')
      ⊎ ((run : JobRun) × (middle : List Request) × (runs ≡ run ∷ [])
          × Cancels server run.run_id log middle
          × Starts server job_id middle log')

  restart_after-Restarts :
      (job_id : ℕ) (runs : List JobRun) (log log' : List Request)
      → restart_after server sdk parse_int show less job_id runs log ≡ (ok tt, log')
      → Restarts job_id runs log log'
  restart_after-Restarts job_id [] log log' h = inl (refl, start_job-Starts job_id log log' h)
  restart_after-Restarts job_id (run ∷ other_run ∷ more) log log' h = absurd (ground arith)
  restart_after-Restarts job_id (run ∷ []) log log' h =
      let cancelled = runs_cancel server sdk parse_int show less run.run_id log in
      elim (Result-cases cancelled.0) [
        | inl (x, e) ↦ absurd (let k = rw e at h in ground arith)
        | inr (_, e) ↦
            let whole : cancelled ≡ (ok tt, cancelled.1) = ground arith in
            inr (
              run,
              cancelled.1,
              refl,
              runs_cancel-Cancels run.run_id log cancelled.1 whole,
              start_job-Starts job_id cancelled.1 log' (rw e at h),
            )
      ]

  -- Where Restart of an ID succeeds: the ID is the number of a job; the service has listed its active
  -- runs; there was none, or one that was cancelled and then seen TERMINATED; and after that the job
  -- was started, and its new run was seen RUNNING by the last request.
  pub restart_job-Restarts :
      (id : String) (log log' : List Request)
      → restart_job server sdk parse_int show less id log ≡ (ok tt, log')
      → (job_id : ℕ) × (runs : List JobRun) × (parse_int 32 id ≡ ok job_id)
        × (server log (list_active_runs job_id) ≡ ok runs)
        × Restarts job_id runs (list_active_runs job_id ∷ log) log'
  unfolding restart_job
  restart_job-Restarts id log log' h = elim (Result-cases (parse_int 32 id)) [
    | inl (x, e) ↦ absurd (let k = rw (e, restart_job) at h in ground arith)
    | inr (job_id, e) ↦ elim (Result-cases (server log (list_active_runs job_id))) [
      | inl (x, f) ↦ absurd (let k = rw (e, restart_job, f) at h in ground arith)
      | inr (runs, f) ↦ (
        job_id,
        runs,
        e,
        f,
        restart_after-Restarts job_id runs (list_active_runs job_id ∷ log) log'
            (rw (e, restart_job, f) at h),
      )
    ]
  ]
