-- ===== src/Compute/Clusters/Api.antt =====
-- compute/clusters.go: the methods that create, edit, start, terminate, delete and reuse clusters.
-- Where a Go method returns a value beside an error, the value is dropped: no caller reads it.
use terraform_provider_datab.Base.{
  String, ◌<>◌, Bool, Option, none, some, List, not, contains, if◌then◌else◌,
}
use terraform_provider_datab.Common.Errors.{Error, other, error_text, Result, ok, err, is_missing}
use terraform_provider_datab.Common.Service.{Server, Call, pure, fail, send, ◌>>=◌, ◌>>◌, handle}
use terraform_provider_datab.Compute.Retry.{
  Verdict, finished, retryable, non_retryable, RetryContext, Outcome,
}
use terraform_provider_datab.Compute.States.{
  ClusterState, pending, running, restarting, resizing, terminating, terminated, error, unknown,
  unlisted, same_state, state_text, can_reach,
}
use terraform_provider_datab.Compute.Clusters.Model.{
  Cluster, ClusterInfo, Request, create, edit, get, start, restart, delete, permanent_delete, pin,
  unpin, Reply, is_running_or_resizing, wrap_missing_cluster_error, termination_details,
}

abbrev pub no_info : ClusterInfo
no_info = record {
  cluster_id = "";
  cluster_name = "";
  state = unlisted "";
  state_message = "";
  termination_reason = none;
}

abbrev pub cannot_transition : String → ClusterInfo → ClusterState → Error
cannot_transition id info desired = other (
    id
    <> (" is not able to transition from "
        <> (state_text info.state
            <> (" to "
                <> (state_text desired
                    <> (": "
                        <> (info.state_message
                            <> (termination_details info.termination_reason
                                <> (". Please see "
                                    <> ("https://docs.databricks.com/dev-tools/api/latest/clusters.html#clusterclusterstate"
                                        <> " for more details"))))))))))

abbrev pub has_to_be : String → ClusterInfo → ClusterState → Error
has_to_be id info desired =
    other (id <> (" is " <> (state_text info.state <> (", but has to be " <> state_text desired))))

-- The function that `waitForClusterStatus` retries, on the answer of `Get`.
abbrev pub judge : String → ClusterState → ClusterInfo → Result ClusterInfo → Verdict × ClusterInfo
judge id desired result (err e) =
    if is_missing e then (retryable e, result) else (non_retryable e, result)
judge id desired result (ok info) =
    if same_state info.state desired
    then (finished, info)
    else if not (can_reach info.state desired)
    then (non_retryable (cannot_transition id info desired), info)
    else (retryable (has_to_be id info desired), info)

abbrev pub wait_outcome : Outcome ClusterInfo Request → Result ClusterInfo × List Request
wait_outcome (none, info, log) = (ok info, log)
wait_outcome (some e, info, log) = (err e, log)

-- A start is refused because another one is under way: that is no failure.
abbrev pub is_pending_refusal : String → Error → Bool
is_pending_refusal id e =
    contains (error_text e) ("Cluster " <> (id <> " is in unexpected state Pending."))

module _ (server : Server Request Reply) where
  unfoldable pub get_cluster : String → Call Request ClusterInfo
  get_cluster id =
      handle (send server (get id))
        (λ r. elim r [ ok info ↦ pure info | err e ↦ fail (wrap_missing_cluster_error e id) ])

  unfoldable pub wait_attempt :
      String → ClusterState → ClusterInfo → List Request → Verdict × ClusterInfo × List Request
  wait_attempt id desired result log =
      let (r, log') = get_cluster id log in
      let (v, info) = judge id desired result r in (v, info, log')

  abbrev pub restart_cluster : String → Call Request (Unit {0})
  restart_cluster id = send server (restart id)

  abbrev pub pin_cluster : String → Call Request (Unit {0})
  pin_cluster id = send server (pin id)

  abbrev pub unpin_cluster : String → Call Request (Unit {0})
  unpin_cluster id = send server (unpin id)

module _ (server : Server Request Reply) (sdk : RetryContext ClusterInfo Request) where
  unfoldable pub wait_for_cluster_status : String → ClusterState → Call Request ClusterInfo
  wait_for_cluster_status id desired log =
      wait_outcome (sdk.retry (wait_attempt server id desired) no_info log)

  -- The `switch` of `StartAndGetInfo`: an answer that ends the method, or nothing where it goes on.
  abbrev pub before_start : ClusterInfo → ClusterState → Call Request (Option ClusterInfo)
  before_start info running = pure (some info)
  before_start info pending =
      wait_for_cluster_status info.cluster_id running >>= λ done. pure (some done)
  before_start info resizing =
      wait_for_cluster_status info.cluster_id running >>= λ done. pure (some done)
  before_start info restarting =
      wait_for_cluster_status info.cluster_id running >>= λ done. pure (some done)
  before_start info terminating =
      wait_for_cluster_status info.cluster_id terminated >>= λ done. pure none
  before_start info terminated = pure none
  before_start info error = pure none
  before_start info unknown = pure none
  before_start info (unlisted text) = pure none

  abbrev pub start_and_wait : String → Call Request ClusterInfo
  start_and_wait id = handle (send server (start id)) (λ r. elim r [
    | ok _ ↦ wait_for_cluster_status id running
    | err e ↦ if is_pending_refusal id e then wait_for_cluster_status id running else fail e
  ])

  abbrev pub after_switch : String → Option ClusterInfo → Call Request ClusterInfo
  after_switch id (some info) = pure info
  after_switch id none = start_and_wait id

  unfoldable pub start_and_get_info : String → Call Request ClusterInfo
  start_and_get_info id = do
    info ← get_cluster server id
    going ← before_start info info.state
    after_switch id going

  unfoldable pub start_cluster : String → Call Request (Unit {0})
  start_cluster id = start_and_get_info id >>= λ _. pure tt

  unfoldable pub terminate : String → Call Request (Unit {0})
  terminate id = do send server (delete id); _ ← wait_for_cluster_status id terminated; pure tt

  unfoldable pub permanent_delete_cluster : String → Call Request (Unit {0})
  permanent_delete_cluster id = do
    terminate id
    handle (send server (permanent_delete id)) (λ r. elim r [
      | ok _ ↦ pure tt
      | err e ↦
          if not (contains (error_text e) "unpin the cluster first")
          then fail e
          else unpin_cluster server id >> send server (permanent_delete id)
    ])

  -- What happens to the created cluster once waiting for it has ended.
  abbrev pub clean_up : String → Result ClusterInfo → Call Request ClusterInfo
  clean_up id (ok info) = pure info
  clean_up id (err e) =
      handle (permanent_delete_cluster id)
        (λ r. elim r [ ok _ ↦ fail e | err delete_error ↦ fail delete_error ])

  unfoldable pub create_cluster : Cluster → Call Request ClusterInfo
  create_cluster cluster = do
    id ← send server (create cluster)
    handle (wait_for_cluster_status id running) (clean_up id)

-- `quote` is Go's `%#v` of a text.
module _ (server : Server Request Reply) (sdk : RetryContext ClusterInfo Request)
    (quote : String → String) where
  -- The `switch` of `Edit`, which has no default: a state of another text falls through.
  abbrev pub before_edit : ClusterInfo → ClusterState → Call Request ClusterInfo
  before_edit info running = pure info
  before_edit info terminated = pure info
  before_edit info (unlisted text) = pure info
  before_edit info pending = wait_for_cluster_status server sdk info.cluster_id running
  before_edit info resizing = wait_for_cluster_status server sdk info.cluster_id running
  before_edit info restarting = wait_for_cluster_status server sdk info.cluster_id running
  before_edit info terminating = wait_for_cluster_status server sdk info.cluster_id terminated
  before_edit info error = fail (other ("unexpected state: " <> quote info.state_message))
  before_edit info unknown = fail (other ("unexpected state: " <> quote info.state_message))

  unfoldable pub edit_cluster : Cluster → Call Request ClusterInfo
  edit_cluster cluster = do
    found ← get_cluster server cluster.cluster_id
    info ← before_edit found found.state
    send server (edit cluster)
    if is_running_or_resizing info then start_and_get_info server sdk info.cluster_id else pure info
