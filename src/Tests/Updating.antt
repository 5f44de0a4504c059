-- ===== src/Tests/Updating.antt =====
-- A terminated cluster that runs once it is started; a jar is configured that it does not have.
use terraform_provider_datab.Base.{
  ℕ, zero, suc, ◌≤◌, ◌<◌, ◌≡◌, refl, arith, String, Bool, true, false, none, List, [], ◌∷◌, insert,
  lookup,
}
use terraform_provider_datab.Common.Errors.{other, ok, err}
use terraform_provider_datab.Common.Service.{Server}
use terraform_provider_datab.Compute.Retry.{RetryContext, rounds}
use terraform_provider_datab.Compute.States.{
  ClusterState, pending, running, terminated, can_reach, can_reach_loop, can_reach_within,
}
use terraform_provider_datab.Compute.Libraries.{
  Library, ClusterLibraryList, ClusterLibraryStatuses, type_and_key, index_by_key, missing_from,
  diff, tally_status, tally_from, is_retry_needed,
}
use terraform_provider_datab.Compute.Clusters.Model.{
  ClusterInfo, Request, create, edit, get, start, restart, delete, permanent_delete, pin, unpin,
  list, list_node_types, list_spark_versions, list_zones, events, cluster_status, install,
  uninstall, Reply,
}
use terraform_provider_datab.Compute.Clusters.Api.{
  get_cluster, wait_attempt, wait_for_cluster_status, start_and_get_info, terminate,
}
use terraform_provider_datab.Compute.Clusters.Configuration.{
  ClusterData, has_cluster_config_changed,
}
use terraform_provider_datab.Compute.Clusters.Resource.{
  wait_for_libraries_installed, update_libraries, edited_or_read, change_pin, apply_changes,
  change_libraries, update_context,
}
use terraform_provider_datab.Compute.Clusters.Waiting.{polled, wait_for_cluster_status-arrives}
use terraform_provider_datab.Compute.Clusters.Updating.{Pins, Settles, update_context-Settles}

abbrev is_up : List Request → Bool
is_up [] = false
is_up (start id ∷ log) = true
is_up (delete id ∷ log) = false
is_up (_ ∷ log) = is_up log

abbrev has_jar : List Request → Bool
has_jar [] = false
has_jar (install libraries ∷ log) = true
has_jar (_ ∷ log) = has_jar log

abbrev info_in : ClusterState → ClusterInfo
info_in state = record {
  cluster_id = "c-1";
  cluster_name = "shared";
  state = state;
  state_message = "";
  termination_reason = none;
}

abbrev info_if : Bool → ClusterInfo
info_if true = info_in running
info_if false = info_in terminated

abbrev jar : Library
jar = record { jar = "a.jar"; egg = ""; whl = ""; pypi = none; maven = none; cran = none }

abbrev statuses_if : Bool → ClusterLibraryStatuses
statuses_if true = record {
  cluster_id = "c-1";
  library_statuses =
      record {
        library = jar;
        status = "INSTALLED";
        is_library_installed_on_all_clusters = false;
        messages = [];
      }
      ∷ [];
}
statuses_if false = record { cluster_id = "c-1"; library_statuses = [] }

abbrev service : Server Request Reply
service log (create c) = ok "c-1"
service log (get id) = ok (info_if (is_up log))
service log list = ok []
service log (edit c) = ok tt
service log (start id) = ok tt
service log (restart id) = ok tt
service log (delete id) = ok tt
service log (permanent_delete id) = ok tt
service log (pin id) = ok tt
service log (unpin id) = ok tt
service log list_node_types = ok []
service log list_spark_versions = ok []
service log list_zones = err (other "no zones")
service log (events request) = ok (record { events = []; next_page = none; total_count = 0 })
service log (cluster_status id) = ok (statuses_if (has_jar log))
service log (install libraries) = ok tt
service log (uninstall libraries) = ok tt

abbrev five : {S : Type 0} → RetryContext S Request
five = record {
  retry = rounds 5 (other "timeout");
  timeout_error = other "timeout";
  retry-rounds = λ f s log. (5, refl);
}

abbrev data_of : ClusterData
data_of = record {
  id = "c-1";
  cluster = record {
    cluster_id = "c-1";
    num_workers = 1;
    cluster_name = "shared";
    spark_version = "7.3.x-scala2.12";
    node_type_id = "i3.xlarge";
    autotermination_minutes = 60;
    autoscale = none;
    enable_elastic_disk = false;
    driver_node_type_id = "";
    instance_pool_id = "";
    driver_instance_pool_id = "";
    aws_attributes = none;
    azure_attributes = none;
    gcp_attributes = none;
    spark_conf = [];
    custom_tags = [];
  };
  libraries = jar ∷ [];
  is_pinned = false;
  changed_keys = "library" ∷ [];
  was_pinned = false;
  old_instance_pool_id = "";
  old_driver_instance_pool_id = "";
}

abbrev quote : String → String
quote s = s

abbrev show : ℕ → String
show n = "some"

read_run :
    edited_or_read service five five quote show data_of []
    ≡ (ok (info_in terminated), get "c-1" ∷ [])
unfolding edited_or_read has_cluster_config_changed get_cluster
read_run = refl

abbrev jars : ClusterLibraryList
jars = record { cluster_id = "c-1"; libraries = jar ∷ [] }

abbrev updated : List Request
updated =
    get "c-1"
    ∷ delete "c-1"
    ∷ cluster_status "c-1"
    ∷ install jars
    ∷ get "c-1"
    ∷ start "c-1"
    ∷ get "c-1"
    ∷ cluster_status "c-1"
    ∷ get "c-1"
    ∷ []

update_run : update_context service five five quote show data_of [] ≡ (ok tt, updated)
unfolding update_context change_libraries apply_changes update_libraries
    wait_for_libraries_installed edited_or_read has_cluster_config_changed get_cluster
    start_and_get_info terminate wait_for_cluster_status wait_attempt rounds type_and_key
    index_by_key missing_from diff insert lookup tally_status tally_from is_retry_needed
update_run = refl

update_context-Settles_example :
    (pinned : List Request) × (cls : ClusterLibraryStatuses) × (change_pin service five five quote
        show data_of
        (get "c-1" ∷ [])
      ≡ (ok tt, pinned))
    × Pins data_of (get "c-1" ∷ []) pinned
    × (service pinned (cluster_status "c-1") ≡ ok cls)
    × Settles service five five quote show data_of cls (cluster_status "c-1" ∷ pinned) updated
update_context-Settles_example =
    update_context-Settles service five five quote show data_of (info_in terminated) []
      (get "c-1" ∷ []) updated read_run refl update_run

-- A cluster that is pending at the first two polls, and runs at the third.
abbrev booting_state : List Request → ClusterState
booting_state (get a ∷ get b ∷ log) = running
booting_state log = pending

abbrev booting : Server Request Reply
booting log (get id) = ok (info_in (booting_state log))
booting log r = service log r

abbrev answers : ℕ → ClusterInfo
answers zero = info_in pending
answers (suc zero) = info_in pending
answers (suc (suc k)) = info_in running

polls : (k : ℕ) → k ≤ 2 → booting (polled "c-1" k []) (get "c-1") ≡ ok (answers k)
polls zero le = refl
polls (suc zero) le = refl
polls (suc (suc zero)) le = refl
polls (suc (suc (suc k))) le = absurd (omega (arith, le))

on_the_way : (k : ℕ) → k < 2 → can_reach (answers k).state running ≡ true
unfolding can_reach can_reach_within can_reach_loop
on_the_way zero lt = refl
on_the_way (suc zero) lt = refl
on_the_way (suc (suc k)) lt = absurd (omega (arith, lt))

wait_for_cluster_status-arrives_example :
    (info : ClusterInfo) × (log' : List Request) × (wait_for_cluster_status booting five "c-1"
        running []
      ≡ (ok info, log'))
    × (info.state ≡ running)
wait_for_cluster_status-arrives_example =
    wait_for_cluster_status-arrives booting "c-1" running five 2 answers [] (omega arith) polls
      on_the_way refl
