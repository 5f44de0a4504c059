-- ===== src/Compute/Execution.antt =====
-- compute/commands.go: the execution of a command on a cluster. A status is a text without percent sign,
-- so that `fmt.Errorf` keeps it.
pub mod Whitespace
pub mod Session
pub mod Protocol
use terraform_provider_datab.Base.{
  String, ◌<>◌, Bool, true, false, not, Option, none, some, List, if◌then◌else◌, ◌==◌, ◌||◌,
}
use terraform_provider_datab.Common.Errors.{Error, other, error_text, Result, ok, err}
use terraform_provider_datab.Common.Service.{Server, Call, pure, fail, send, ◌>>=◌, ◌>>◌, handle}
use terraform_provider_datab.Common.Commands.{CommandResults}
use terraform_provider_datab.Compute.Retry.{
  Verdict, finished, retryable, non_retryable, RetryContext, waited,
}
use terraform_provider_datab.Compute.States.{state_text}
use terraform_provider_datab.Compute.Clusters.Model.{
  ClusterInfo, is_running_or_resizing, wrap_missing_cluster_error,
}
use terraform_provider_datab.Compute.Execution.Whitespace.{trim_leading_whitespace}

-- The answer of the commands API; that of the contexts API has an ID or a status too.
pub record Command : Type 0 where
  pub id : String
  pub status : String
  pub results : Option CommandResults

-- The fields of `genericCommandRequest` that each request fills.
pub data Request : Type 0 where
  get_cluster : (cluster_id : String) → Request
  create_context : (language cluster_id : String) → Request
  get_context delete_context : (context_id cluster_id : String) → Request
  create_command : (context_id cluster_id language command : String) → Request
  get_command : (command_id context_id cluster_id : String) → Request

abbrev pub Reply : Request → Type 0
Reply (get_cluster cluster_id) = ClusterInfo
Reply (create_context language cluster_id) = String
Reply (get_context context_id cluster_id) = String
Reply (delete_context context_id cluster_id) = Unit
Reply (create_command context_id cluster_id language command) = String
Reply (get_command command_id context_id cluster_id) = Command

abbrev pub judge_command : Result Command → Verdict
judge_command (err e) = non_retryable e
judge_command (ok info) =
    if info.status == "Cancelling" || (info.status == "Cancelled" || info.status == "Error")
    then non_retryable (other ("Command cannot finish: " <> info.status))
    else if info.status == "Finished"
    then finished
    else retryable (other info.status)

abbrev pub judge_context : Result String → Verdict
judge_context (err e) = non_retryable e
judge_context (ok status) =
    if status == "Error"
    then non_retryable (other status)
    else if status == "Running"
    then finished
    else retryable (other status)

abbrev pub not_running : String → ClusterInfo → Error
not_running cluster_id cluster = other (
    "Cluster "
    <> (cluster_id <> (" has to be running or resizing, but is " <> state_text cluster.state)))

-- `CommandResults{ResultType: "error", Summary: text}`
abbrev pub error_results : String → CommandResults
error_results summary = record {
  result_type = "error";
  summary = summary;
  cause = "";
  text_data = "";
  rows = none;
  pos = 0;
}

abbrev pub results_of : Option CommandResults → CommandResults
results_of none = error_results "Command has no results"
results_of (some results) = results

abbrev pub results_or_error :
    Result (Option CommandResults) × List Request → CommandResults × List Request
results_or_error (err e, log) = (error_results (error_text e), log)
results_or_error (ok results, log) = (results_of results, log)

module _ (server : Server Request Reply) (sdk : RetryContext (Unit {0}) Request) where
  abbrev pub get_running_cluster : String → Call Request ClusterInfo
  get_running_cluster cluster_id = handle (send server (get_cluster cluster_id)) (λ r. elim r [
    | err e ↦ fail (wrap_missing_cluster_error e cluster_id)
    | ok cluster ↦
        if not (is_running_or_resizing cluster)
        then fail (not_running cluster_id cluster)
        else pure cluster
  ])

  abbrev pub finish_attempt :
      String → String → String → Unit {0} → List Request → Verdict × Unit {0} × List Request
  finish_attempt command_id context_id cluster_id s log =
      let (r, log') = send server (get_command command_id context_id cluster_id) log in
      (judge_command r, tt, log')

  -- `waitForCommandFinished`
  unfoldable pub wait_for_command_finished : String → String → String → Call Request (Unit {0})
  wait_for_command_finished command_id context_id cluster_id log =
      waited (sdk.retry (finish_attempt command_id context_id cluster_id) tt log)

  abbrev pub ready_attempt :
      String → String → Unit {0} → List Request → Verdict × Unit {0} × List Request
  ready_attempt context_id cluster_id s log =
      let (r, log') = send server (get_context context_id cluster_id) log in
      (judge_context r, tt, log')

  -- `waitForContextReady`
  unfoldable pub wait_for_context_ready : String → String → Call Request (Unit {0})
  wait_for_context_ready context_id cluster_id log =
      waited (sdk.retry (ready_attempt context_id cluster_id) tt log)

  -- The part of `Execute` after the context is created.
  unfoldable pub run_in_context :
      String → String → String → String → Call Request (Option CommandResults)
  run_in_context cluster_id language command_str context_id = do
    _ ← wait_for_context_ready context_id cluster_id
    command_id ← send server (create_command context_id cluster_id language command_str)
    _ ← wait_for_command_finished command_id context_id cluster_id
    command ← send server (get_command command_id context_id cluster_id)
    send server (delete_context context_id cluster_id)
    pure command.results

  unfoldable pub run : String → String → String → Call Request (Option CommandResults)
  run cluster_id language command_str = do
    _ ← get_running_cluster cluster_id
    context_id ← send server (create_context language cluster_id)
    run_in_context cluster_id language (trim_leading_whitespace command_str) context_id

  -- `Execute`
  abbrev pub execute : String → String → String → List Request → CommandResults × List Request
  execute cluster_id language command_str log =
      results_or_error (run cluster_id language command_str log)
