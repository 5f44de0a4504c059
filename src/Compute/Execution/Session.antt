-- ===== src/Compute/Execution/Session.antt =====
-- The contract of `Execute`: the session of an execution with the service, as phases.
use terraform_provider_datab.Base.{◌≡◌, String, true, Option, List, [], ◌∷◌}
use terraform_provider_datab.Common.Errors.{ok}
use terraform_provider_datab.Common.Service.{Server}
use terraform_provider_datab.Common.Commands.{CommandResults}
use terraform_provider_datab.Compute.Clusters.Model.{ClusterInfo, is_running_or_resizing}
use terraform_provider_datab.Compute.Execution.{
  Command, Request, get_cluster, create_context, get_context, delete_context, create_command,
  get_command, Reply,
}

pub data Phase : Type 0 where
  begin found : Phase
  opened ready : (context_id : String) → Phase
  submitted ended : (context_id command_id : String) → Phase
  fetched : (context_id : String) (results : Option CommandResults) → Phase

module _ (server : Server Request Reply) (cluster_id language command : String) where
  -- The one request that each phase may make.
  abbrev pub next : Phase → Request
  next begin = get_cluster cluster_id
  next found = create_context language cluster_id
  next (opened context_id) = get_context context_id cluster_id
  next (ready context_id) = create_command context_id cluster_id language command
  next (submitted context_id command_id) = get_command command_id context_id cluster_id
  next (ended context_id command_id) = get_command command_id context_id cluster_id
  next (fetched context_id results) = delete_context context_id cluster_id

  -- The requests that lead to a phase, and the answers that allow to go on.
  pub data Follows : Phase → List Request → Type 0 where
    started : Follows begin []
    look :
        {log : List Request} (info : ClusterInfo)
        → Follows begin log
        → server log (next begin) ≡ ok info
        → is_running_or_resizing info ≡ true
        → Follows found (next begin ∷ log)
    acquire :
        {log : List Request} (context_id : String)
        → Follows found log
        → server log (next found) ≡ ok context_id
        → Follows (opened context_id) (next found ∷ log)
    poll_context :
        {log : List Request} (context_id : String)
        → Follows (opened context_id) log
        → Follows (opened context_id) (next (opened context_id) ∷ log)
    see_ready :
        {log : List Request} (context_id : String)
        → Follows (opened context_id) log
        → server log (next (opened context_id)) ≡ ok "Running"
        → Follows (ready context_id) (next (opened context_id) ∷ log)
    submit :
        {log : List Request} (context_id command_id : String)
        → Follows (ready context_id) log
        → server log (next (ready context_id)) ≡ ok command_id
        → Follows (submitted context_id command_id) (next (ready context_id) ∷ log)
    poll_command :
        {log : List Request} (context_id command_id : String)
        → Follows (submitted context_id command_id) log
        → Follows (submitted context_id command_id) (next (submitted context_id command_id) ∷ log)
    see_finished :
        {log : List Request} (context_id command_id : String) (info : Command)
        → Follows (submitted context_id command_id) log
        → server log (next (submitted context_id command_id)) ≡ ok info
        → info.status ≡ "Finished"
        → Follows (ended context_id command_id) (next (submitted context_id command_id) ∷ log)
    fetch :
        {log : List Request} (context_id command_id : String) (info : Command)
        → Follows (ended context_id command_id) log
        → server log (next (ended context_id command_id)) ≡ ok info
        → Follows (fetched context_id info.results) (next (ended context_id command_id) ∷ log)

  -- A session that closes the context that it opened.
  pub data Closes : Option CommandResults → List Request → Type 0 where
    close :
        {log : List Request} (context_id : String) (results : Option CommandResults)
        → Follows (fetched context_id results) log
        → server log (next (fetched context_id results)) ≡ ok tt
        → Closes results (next (fetched context_id results) ∷ log)

  -- A session that stops in a phase, or in its request.
  pub data Stops : List Request → Type 0 where
    stop : {log : List Request} (p : Phase) → Follows p log → Stops log
    break : {log : List Request} (p : Phase) → Follows p log → Stops (next p ∷ log)
