-- ===== src/Tests/Jobs.antt =====
-- A service with one job, whose active run is replaced. Numbers are written as so many strokes, which are
-- counted to read them.
use text.Mathlib.TextLemmas.{length-nil, length-cons}
use terraform_provider_datab.Base.{
  ℕ, zero, suc, ◌≤◌, ◌<◌, ◌≡◌, refl, ap, ◌∙◌, ◌⊎◌, arith, String, count, Bool, true, false, none,
  some, List, [], ◌∷◌, if◌then◌else◌, ltb, sort_by,
}
use terraform_provider_datab.Common.Errors.{Error, Result, other, ok, err}
use terraform_provider_datab.Common.Service.{Server}
use terraform_provider_datab.Compute.Retry.{RetryContext, rounds}
use terraform_provider_datab.Compute.Jobs.{
  JobSettings, Job, JobRun, Request, list_jobs_at, list_active_runs, cancel_run, get_run,
  run_now_at, create_job_at, reset_job, get_job, delete_job_at, api_2_0, Reply, api_version,
  sort_tasks_by_key, wait_for_run_state, runs_cancel, start_job, restart_job, create_context,
}
use terraform_provider_datab.Compute.Jobs.Running.{Restarts, restart_job-Restarts}
use terraform_provider_datab.Compute.Jobs.Addressing.{Reaches, IsLost, create_context-Reaches}

unfoldable strokes : ℕ → String
strokes zero = ""
strokes (suc n) = String.◌∷◌ "|" (strokes n)

count-strokes : (n : ℕ) → count (strokes n) ≡ n
unfolding strokes
count-strokes zero = length-nil
count-strokes (suc n) = length-cons "|" (strokes n) ∙ ap suc (count-strokes n)

abbrev parse_strokes : ℕ → String → Result ℕ
parse_strokes bits s =
    if ltb (count s) 2147483648 then ok (count s) else err (other "value out of range")

parse_small : (n : ℕ) → n < 2147483648 → parse_strokes 32 (strokes n) ≡ ok n
parse_small n lt =
    let small : ltb n 2147483648 ≡ true = ground arith in rw (count-strokes n, small) refl

parse_large : (n : ℕ) → 2147483648 ≤ n → (e : Error) × (parse_strokes 32 (strokes n) ≡ err e)
parse_large n le =
    let large : ltb n 2147483648 ≡ false = ground arith in
    (other "value out of range", rw (count-strokes n, large) refl)

abbrev run_in : ℕ → String → JobRun
run_in run_id state = record {
  job_id = 3;
  run_id = run_id;
  state = record { result_state = ""; life_cycle_state = state; state_message = "" };
}

abbrev state_of : ℕ → String
state_of zero = "TERMINATED"
state_of (suc n) = "RUNNING"

abbrev settings : JobSettings
settings = record {
  name = "etl";
  existing_cluster_id = "c-1";
  new_cluster = none;
  tasks = [];
  format = "";
  max_concurrent_runs = 1;
}

-- The run numbered 0 is active; new runs are numbered 1.
abbrev service : Server Request Reply
service log list_jobs_at = ok []
service log (list_active_runs job_id) = ok (run_in 0 "RUNNING" ∷ [])
service log (cancel_run run_id) = ok tt
service log (get_run run_id) = ok (run_in run_id (state_of run_id))
service log (run_now_at job_id) = ok (run_in 1 "PENDING")
service log (create_job_at version js) = ok (record { job_id = 3; settings = some js })
service log (reset_job version job_id js) = ok tt
service log (get_job version job_id) = ok (record { job_id = job_id; settings = some settings })
service log (delete_job_at version job_id) = ok tt

abbrev three : RetryContext (Unit {0}) Request
three = record {
  retry = rounds 3 (other "timeout");
  timeout_error = other "timeout";
  retry-rounds = λ f s log. (3, refl);
}

abbrev less : String → String → Bool
less a b = ltb (count a) (count b)

abbrev restarted : List Request
restarted = get_run 1 ∷ run_now_at 3 ∷ get_run 0 ∷ cancel_run 0 ∷ list_active_runs 3 ∷ []

restart_run : restart_job service three parse_strokes strokes less "|||" [] ≡ (ok tt, restarted)
unfolding restart_job runs_cancel start_job wait_for_run_state rounds
restart_run = refl

restart_job-Restarts_example :
    (job_id : ℕ) × (runs : List JobRun) × (parse_strokes 32 "|||" ≡ ok job_id)
    × (service [] (list_active_runs job_id) ≡ ok runs)
    × Restarts service three parse_strokes strokes less job_id runs
        (list_active_runs job_id ∷ [])
        restarted
restart_job-Restarts_example =
    restart_job-Restarts service three parse_strokes strokes less "|||" [] restarted restart_run

create_run :
    create_context service three parse_strokes strokes less settings false []
    ≡ (ok (strokes 3), create_job_at api_2_0 settings ∷ [])
unfolding create_context sort_by
create_run = refl

create_context-Reaches_example :
    (job : Job) × (service []
        (create_job_at (api_version settings) (sort_tasks_by_key less settings))
      ≡ ok job)
    × (strokes 3 ≡ strokes job.job_id)
    × (((job.job_id < 2147483648)
          × Reaches service three parse_strokes strokes less (strokes 3) job.job_id)
        ⊎ ((2147483648 ≤ job.job_id) × IsLost service three parse_strokes strokes less (strokes 3)))
create_context-Reaches_example =
    create_context-Reaches service three parse_strokes strokes less parse_small parse_large settings
      false [] (create_job_at api_2_0 settings ∷ []) (strokes 3) create_run
