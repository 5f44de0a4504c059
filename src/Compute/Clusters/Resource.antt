-- ===== src/Compute/Clusters/Resource.antt =====
-- The handlers of compute/resource_cluster.go, with the calls of compute/libraries.go.
use terraform_provider_datab.Base.{
  ℕ, String, ◌<>◌, Bool, true, false, not, Option, none, some, List, [], ◌∷◌, ◌||◌, if◌then◌else◌,
  ◌==◌, sort_by,
}
use terraform_provider_datab.Common.Errors.{other, Result, ok, err, is_missing}
use terraform_provider_datab.Common.Service.{Server, Call, pure, fail, send, ◌>>=◌, ◌>>◌}
use terraform_provider_datab.Compute.Retry.{
  Verdict, finished, retryable, non_retryable, RetryContext, Outcome,
}
use terraform_provider_datab.Compute.States.{terminated, same_state}
use terraform_provider_datab.Compute.Libraries.{
  ClusterLibraryList, ClusterLibraryStatuses, type_and_key, library_of, diff, is_empty,
  is_retry_needed,
}
use terraform_provider_datab.Compute.Clusters.Model.{
  Cluster, ClusterInfo, EventsRequest, Request, cluster_status, install, uninstall, Reply,
  is_running_or_resizing,
}
use terraform_provider_datab.Compute.Clusters.Api.{
  get_cluster, pin_cluster, unpin_cluster, start_and_get_info, terminate, permanent_delete_cluster,
  create_cluster, edit_cluster,
}
use terraform_provider_datab.Compute.Clusters.Configuration.{
  ClusterData, validate_cluster_definition, modify_cluster_request, has_cluster_config_changed,
  fix_instance_pool_change,
}
use terraform_provider_datab.Compute.Clusters.Events.{
  Gathered, gathered, panics, runs_on, list_events,
}

-- `ToLibraryList`; `less` compares texts as Go does.
abbrev pub to_library_list : (String → String → Bool) → ClusterLibraryStatuses → ClusterLibraryList
to_library_list less cls = record {
  cluster_id = cls.cluster_id;
  libraries =
      sort_by
        (λ a b.
          let (a_type, a_key) = type_and_key a in
          let (b_type, b_key) = type_and_key b in less (a_type <> a_key) (b_type <> b_key))
        (library_of cls.library_statuses);
}

abbrev no_statuses : ClusterLibraryStatuses
no_statuses = record { cluster_id = ""; library_statuses = [] }

abbrev judge_retry : Bool × Option String → Verdict
judge_retry (true, none) = retryable (other "")
judge_retry (true, some text) = retryable (other text)
judge_retry (false, none) = finished
judge_retry (false, some text) = non_retryable (other text)

-- `show` is `%d`.
abbrev pub judge_libraries :
    (ℕ → String) → ClusterInfo → Result ClusterLibraryStatuses → Verdict × ClusterLibraryStatuses
judge_libraries show info (err e) =
    if is_missing e then (retryable e, no_statuses) else (non_retryable e, no_statuses)
judge_libraries show info (ok cls) =
    if not (is_running_or_resizing info)
    then (finished, cls)
    else (judge_retry (is_retry_needed show cls), cls)

abbrev pub statuses_outcome :
    Outcome ClusterLibraryStatuses Request → Result ClusterLibraryStatuses × List Request
statuses_outcome (none, cls, log) = (ok cls, log)
statuses_outcome (some e, cls, log) = (err e, log)

abbrev pub has_libraries : ClusterLibraryList → Bool
has_libraries list = not (is_empty list.libraries)

abbrev pub configured : String → ClusterData → ClusterLibraryList
configured id d = record { cluster_id = id; libraries = d.libraries }

module _ (server : Server Request Reply) (sdk : RetryContext ClusterInfo Request)
    (libraries_sdk : RetryContext ClusterLibraryStatuses Request) (quote : String → String)
    (show : ℕ → String) where
  abbrev pub libraries_attempt :
      ClusterInfo
      → ClusterLibraryStatuses
      → List Request
      → Verdict × ClusterLibraryStatuses × List Request
  libraries_attempt info s log =
      let (r, log') = send server (cluster_status info.cluster_id) log in
      let (v, cls) = judge_libraries show info r in (v, cls, log')

  -- `waitForLibrariesInstalled`
  unfoldable pub wait_for_libraries_installed : ClusterInfo → Call Request ClusterLibraryStatuses
  wait_for_libraries_installed info log =
      statuses_outcome (libraries_sdk.retry (libraries_attempt info) no_statuses log)

  abbrev pub when : Bool → Call Request (Unit {0}) → Call Request (Unit {0})
  when true m = m
  when false m = pure tt

  -- `updateLibraries`
  unfoldable pub update_libraries :
      ClusterInfo → ClusterLibraryList → ClusterLibraryList → Call Request (Unit {0})
  update_libraries info to_install to_uninstall = do
    _ ← when (has_libraries to_uninstall) (send server (uninstall to_uninstall))
    _ ← when (has_libraries to_install) (send server (install to_install))
    _ ← wait_for_libraries_installed info
    pure tt

  abbrev pub checked : Cluster → Call Request (Unit {0})
  checked cluster = elim (validate_cluster_definition cluster) [ none ↦ pure tt | some e ↦ fail e ]

  -- `resourceClusterCreate`, with the ID that it sets; one that is set before a failure is left out
  unfoldable pub create_context : ClusterData → Call Request String
  create_context d = do
    _ ← checked d.cluster
    info ← create_cluster server sdk (modify_cluster_request d.cluster)
    _ ← when d.is_pinned (pin_cluster server info.cluster_id)
    _ ← when (has_libraries (configured info.cluster_id d)) (
        send server (install (configured info.cluster_id d))
        >> (wait_for_libraries_installed info >>= λ _. pure tt))
    pure info.cluster_id

  -- The description that an update goes on with.
  unfoldable pub edited_or_read : ClusterData → Call Request ClusterInfo
  edited_or_read d =
      if has_cluster_config_changed d
      then (checked d.cluster
          >> edit_cluster server sdk quote (
              fix_instance_pool_change d
                (modify_cluster_request (record d.cluster { cluster_id = d.id }))))
      else get_cluster server d.id

  abbrev pub change_pin : ClusterData → Call Request (Unit {0})
  change_pin d =
      if d.was_pinned
      then (if d.is_pinned then pure tt else unpin_cluster server d.id)
      else (if d.is_pinned then pin_cluster server d.id else pure tt)

  abbrev pub started_for_libraries : String → ClusterInfo → Call Request ClusterInfo
  started_for_libraries id info =
      if not (is_running_or_resizing info) then start_and_get_info server sdk id else pure info

  abbrev pub restore : String → ClusterInfo → Call Request (Unit {0})
  restore id info = when (same_state info.state terminated) (terminate server sdk id)

  unfoldable pub apply_changes :
      String → ClusterInfo → ClusterLibraryList × ClusterLibraryList → Call Request (Unit {0})
  apply_changes id info (to_install, to_uninstall) =
      if has_libraries to_uninstall || has_libraries to_install
      then (started_for_libraries id info >>= λ running_info.
          update_libraries running_info to_install to_uninstall >> restore id info)
      else pure tt

  unfoldable pub change_libraries : ClusterData → ClusterInfo → Call Request (Unit {0})
  change_libraries d info = send server (cluster_status d.id) >>= λ cls.
      apply_changes d.id info (diff (configured d.id d) cls)

  -- `resourceClusterUpdate`
  unfoldable pub update_context : ClusterData → Call Request (Unit {0})
  update_context d = do info ← edited_or_read d; _ ← change_pin d; change_libraries d info

  abbrev pub pin_request : String → EventsRequest
  pin_request id = record {
    cluster_id = id;
    offset = 0;
    limit = 1;
    order = "DESC";
    event_types = "PINNED" ∷ "UNPINNED" ∷ [];
  }

  -- Nothing where the gathering of the events does not end well.
  abbrev pub last_is_pin : Gathered → Option Bool
  last_is_pin (gathered []) = some false
  last_is_pin (gathered (e ∷ more)) = some (e.event_type == "PINNED")
  last_is_pin panics = none
  last_is_pin runs_on = none

  -- `setPinnedStatus`, with what it sets
  unfoldable pub pinned_status : ℕ → String → Call Request (Option Bool)
  pinned_status fuel id =
      list_events server fuel (pin_request id) 1 >>= λ found. pure (last_is_pin found)

  abbrev read_libraries :
      (String → String → Bool)
      → ClusterInfo
      → Option Bool
      → Call Request (Option (ClusterInfo × Bool × ClusterLibraryList))
  read_libraries less info none = pure none
  read_libraries less info (some pinned) = wait_for_libraries_installed info >>= λ cls.
      pure (some (info, pinned, to_library_list less cls))

  -- `resourceClusterRead`: the description, whether the cluster is pinned, and its libraries
  unfoldable pub read_context :
      ℕ
      → (String → String → Bool)
      → String
      → Call Request (Option (ClusterInfo × Bool × ClusterLibraryList))
  read_context fuel less id = do
    info ← get_cluster server id
    pinned ← pinned_status fuel id
    read_libraries less info pinned

  -- The `Delete` of `ResourceCluster`
  abbrev pub delete_context : String → Call Request (Unit {0})
  delete_context id = permanent_delete_cluster server sdk id
