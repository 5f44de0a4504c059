-- ===== src/Compute/Jobs.antt =====
-- compute/resource_job.go: the jobs API, and the handlers of the resource. Of the settings of a job there are
-- the fields that the code reads. `parse_int` is `strconv.ParseInt` on ten digits, by its number of
-- bits, and `show` is `%d`.
pub mod Running
pub mod Addressing
use terraform_provider_datab.Base.{
  ℕ, String, ◌<>◌, Bool, true, false, not, Option, none, some, List, [], ◌∷◌, if◌then◌else◌, ◌==◌,
  ◌&&◌, ◌||◌, ltb, contains, sort_by, length,
}
use terraform_provider_datab.Common.Errors.{
  Error, api, other, error_text, Result, ok, err, is_missing_api,
}
use terraform_provider_datab.Common.Service.{Server, Call, pure, fail, send, ◌>>=◌, ◌>>◌, handle}
use terraform_provider_datab.Compute.Retry.{
  Verdict, finished, retryable, non_retryable, RetryContext, waited,
}
use terraform_provider_datab.Compute.Clusters.Model.{Cluster}
use terraform_provider_datab.Compute.Clusters.Configuration.{validate_cluster_definition}

pub record JobTaskSettings : Type 0 where
  pub task_key : String
  pub new_cluster : Option Cluster

pub record JobSettings : Type 0 where
  pub name : String
  pub existing_cluster_id : String
  pub new_cluster : Option Cluster
  pub tasks : List JobTaskSettings
  pub format : String
  pub max_concurrent_runs : ℕ

pub record Job : Type 0 where
  pub job_id : ℕ
  pub settings : Option JobSettings

pub record RunState : Type 0 where
  pub result_state : String
  pub life_cycle_state : String
  pub state_message : String

pub record JobRun : Type 0 where
  pub job_id : ℕ
  pub run_id : ℕ
  pub state : RunState

pub data ApiVersion : Type 0 where
  api_2_0 api_2_1 : ApiVersion

-- The requests to the API of the version that the context holds; the runs listed are the active ones.
pub data Request : Type 0 where
  list_jobs_at : Request
  list_active_runs : (job_id : ℕ) → Request
  cancel_run get_run : (run_id : ℕ) → Request
  run_now_at : (job_id : ℕ) → Request
  create_job_at : ApiVersion → JobSettings → Request
  reset_job : ApiVersion → (job_id : ℕ) → JobSettings → Request
  get_job delete_job_at : ApiVersion → (job_id : ℕ) → Request

abbrev pub Reply : Request → Type 0
Reply list_jobs_at = List Job
Reply (list_active_runs job_id) = List JobRun
Reply (cancel_run run_id) = Unit
Reply (get_run run_id) = JobRun
Reply (run_now_at job_id) = JobRun
Reply (create_job_at version settings) = Job
Reply (reset_job version job_id settings) = Unit
Reply (get_job version job_id) = Job
Reply (delete_job_at version job_id) = Unit

abbrev is_empty {ℓ} : {A : Type ℓ} → List A → Bool
is_empty [] = true
is_empty (x ∷ xs) = false

-- `isMultiTask`, and the version of the API that it asks for
abbrev pub api_version : JobSettings → ApiVersion
api_version js = if js.format == "MULTI_TASK" || not (is_empty js.tasks) then api_2_1 else api_2_0

-- `sortTasksByKey`; `less` compares texts as Go does.
abbrev pub sort_tasks_by_key : (String → String → Bool) → JobSettings → JobSettings
sort_tasks_by_key less js = record js {
  tasks = sort_by (λ a b. less a.task_key b.task_key) js.tasks;
}

-- `wrapMissingJobError`, on an error
unfoldable pub wrap_missing_job_error : Error → String → Error
wrap_missing_job_error (other text) id = other text
wrap_missing_job_error (api e) id =
    if is_missing_api e
    then api e
    else if contains e.message ("Job " <> (id <> " does not exist."))
    then api (record e { status_code = 404 })
    else api e

abbrev cannot_get : String → String → Error
cannot_get desired text = other ("cannot get job " <> (desired <> (": " <> text)))

-- The function that `waitForRunState` retries.
abbrev pub judge_run : String → Result JobRun → Verdict
judge_run desired (err e) = non_retryable (cannot_get desired (error_text e))
judge_run desired (ok run) =
    if run.state.life_cycle_state == desired
    then finished
    else if run.state.life_cycle_state == "INTERNAL_ERROR"
    then non_retryable (cannot_get desired run.state.state_message)
    else retryable
        (other ("run is " <> (run.state.life_cycle_state <> (": " <> run.state.state_message))))

abbrev too_many_runs : String → Error
too_many_runs number = other (
    "`always_running` must be specified only with "
    <> ("`max_concurrent_runs = 1`. There are " <> (number <> " active runs")))

module _ (server : Server Request Reply) (sdk : RetryContext (Unit {0}) Request)
    (parse_int : ℕ → String → Result ℕ) (show : ℕ → String) (less : String → String → Bool) where
  abbrev pub list_jobs : Call Request (List Job)
  list_jobs = send server list_jobs_at

  abbrev pub run_attempt : ℕ → String → Unit {0} → List Request → Verdict × Unit {0} × List Request
  run_attempt run_id desired s log =
      let (r, log') = send server (get_run run_id) log in (judge_run desired r, tt, log')

  -- `waitForRunState`
  unfoldable pub wait_for_run_state : ℕ → String → Call Request (Unit {0})
  wait_for_run_state run_id desired log = waited (sdk.retry (run_attempt run_id desired) tt log)

  -- `RunsCancel`
  unfoldable pub runs_cancel : ℕ → Call Request (Unit {0})
  runs_cancel run_id = send server (cancel_run run_id) >> wait_for_run_state run_id "TERMINATED"

  -- `RunNow`
  abbrev pub run_now : ℕ → Call Request ℕ
  run_now job_id = send server (run_now_at job_id) >>= λ run. pure run.run_id

  abbrev named : (Error → Error) → {A : Type 0} → Result A → Call Request A
  named f (ok a) = pure a
  named f (err e) = fail (f e)

  -- `Start`
  unfoldable pub start_job : ℕ → Call Request (Unit {0})
  start_job job_id = do
    run_id ← handle (run_now job_id) (named (λ e. other ("cannot start job run: " <> error_text e)))
    wait_for_run_state run_id "RUNNING"

  abbrev cannot_cancel : ℕ → Error → Error
  cannot_cancel run_id e = other ("cannot cancel run " <> (show run_id <> (": " <> error_text e)))

  abbrev pub restart_after : ℕ → List JobRun → Call Request (Unit {0})
  restart_after job_id [] = start_job job_id
  restart_after job_id (run ∷ []) =
      handle (runs_cancel run.run_id) (named (cannot_cancel run.run_id)) >> start_job job_id
  restart_after job_id (run ∷ other_run ∷ more) =
      fail (too_many_runs (show (length (run ∷ other_run ∷ more))))

  -- What follows on the number that is parsed from an ID.
  abbrev pub with_number : {A : Type 0} → Result ℕ → (ℕ → Call Request A) → Call Request A
  with_number (ok job_id) f = f job_id
  with_number (err e) f = fail e

  abbrev pub with_job_id : {A : Type 0} → String → (ℕ → Call Request A) → Call Request A
  with_job_id id f = with_number (parse_int 32 id) f

  -- `Restart`
  unfoldable pub restart_job : String → Call Request (Unit {0})
  restart_job id =
      with_job_id id
        (λ job_id. send server (list_active_runs job_id) >>= λ runs. restart_after job_id runs)

  -- `Create`
  abbrev pub create_job : JobSettings → Call Request Job
  create_job js = send server (create_job_at (api_version js) (sort_tasks_by_key less js))

  -- `Update`
  abbrev pub update_job : String → JobSettings → Call Request (Unit {0})
  update_job id js = with_job_id id (λ job_id.
      handle (send server (reset_job (api_version js) job_id js))
        (named (λ e. wrap_missing_job_error e id)))

  abbrev sorted_job : Job → Job
  sorted_job job = elim job.settings [
    | none ↦ job
    | some js ↦ record job { settings = some (sort_tasks_by_key less js) }
  ]

  -- `Read`
  abbrev pub read_job : ApiVersion → String → Call Request Job
  read_job version id = with_job_id id (λ job_id.
      handle (send server (get_job version job_id)) (named (λ e. wrap_missing_job_error e id))
      >>= λ job. pure (sorted_job job))

  -- `Delete`
  abbrev pub delete_job : ApiVersion → String → Call Request (Unit {0})
  delete_job version id = with_job_id id (λ job_id.
      handle (send server (delete_job_at version job_id))
        (named (λ e. wrap_missing_job_error e id)))

  -- The handlers. The settings are those of the resource's data, and `always_running` its own field; the
  -- ID that a creation sets before it fails is left out.
  unfoldable pub create_context : JobSettings → Bool → Call Request String
  create_context js always_running = do
    job ← create_job js
    _ ← (if always_running then start_job job.job_id else pure tt)
    pure (show job.job_id)

  -- Nothing where the answer has no settings, which `Read` of the resource takes for granted.
  abbrev pub read_context : JobSettings → String → Call Request (Option JobSettings)
  read_context js id = read_job (api_version js) id >>= λ job. pure job.settings

  unfoldable pub update_context : JobSettings → Bool → String → Call Request (Unit {0})
  update_context js always_running id =
      update_job id js >> (if always_running then restart_job id else pure tt)

  abbrev pub delete_context : JobSettings → String → Call Request (Unit {0})
  delete_context js id = delete_job (api_version js) id

abbrev in_task : String → Option Error → Option Error
in_task name none = none
in_task name (some e) = some (other (name <> (" invalid: " <> error_text e)))

abbrev or_else : Option Error → Option Error → Option Error
or_else none later = later
or_else (some e) later = some e

abbrev check_task : JobTaskSettings → Option Error
check_task task = elim task.new_cluster [
  | none ↦ none
  | some cluster ↦ in_task ("task " <> task.task_key) (validate_cluster_definition cluster)
]

unfoldable pub check_tasks : List JobTaskSettings → Option Error
check_tasks [] = none
check_tasks (task ∷ tasks) = or_else (check_task task) (check_tasks tasks)

abbrev check_job_cluster : Option Cluster → Option Error
check_job_cluster none = none
check_job_cluster (some cluster) = elim (validate_cluster_definition cluster) [
  | none ↦ none
  | some e ↦ some (other ("invalid job cluster: " <> error_text e))
]

-- `CustomizeDiff`
unfoldable pub customize_diff : JobSettings → Bool → Option Error
customize_diff js always_running =
    if always_running && ltb 1 js.max_concurrent_runs
    then some (other "`always_running` must be specified only with `max_concurrent_runs = 1`")
    else or_else (check_tasks js.tasks) (check_job_cluster js.new_cluster)
