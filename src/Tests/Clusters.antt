-- ===== src/Tests/Clusters.antt =====
-- A service with one cluster, which is running once it was created or started, and terminated once
-- it was deleted; another whose cluster fails; and five attempts of every retried call.
use mathlib.Core.List.{Memᴰ}
use terraform_provider_datab.Base.{
  ◌≡◌, ◌≢◌, ◌↔◌, refl, ◌⊎◌, Bool, true, false, none, some, List, [], ◌∷◌, All,
}
use terraform_provider_datab.Common.Errors.{other, ok, err}
use terraform_provider_datab.Common.Service.{Server}
use terraform_provider_datab.Compute.Retry.{RetryContext, rounds}
use terraform_provider_datab.Compute.States.{
  ClusterState, pending, running, resizing, terminated, terminating, error, can_reach,
  can_reach_loop, can_reach_within,
}
use terraform_provider_datab.Compute.States.Reach.{Reaches, can_reach_iff, can_reach_total}
use terraform_provider_datab.Compute.Clusters.Model.{
  Cluster, ClusterInfo, Request, create, edit, get, start, restart, delete, permanent_delete, pin,
  unpin, list, list_node_types, list_spark_versions, list_zones, events, cluster_status, install,
  uninstall, Reply,
}
use terraform_provider_datab.Compute.Clusters.Api.{
  cannot_transition, get_cluster, wait_attempt, wait_for_cluster_status, start_and_get_info,
  start_cluster, terminate, permanent_delete_cluster, create_cluster, edit_cluster,
}
use terraform_provider_datab.Compute.Clusters.Requests.{create_cluster-cleans_up}
use terraform_provider_datab.Compute.Clusters.Editing.{HasSettled, edit_cluster-HasSettled}
use terraform_provider_datab.Compute.Clusters.Reuse.{
  Cloud, reuse_cluster, get_or_create_running_cluster,
}
use terraform_provider_datab.Compute.Clusters.Reusing.{IsReused, get_or_create-reuses}

abbrev is_up : List Request → Bool
is_up [] = false
is_up (create c ∷ log) = true
is_up (start id ∷ log) = true
is_up (delete id ∷ log) = false
is_up (_ ∷ log) = is_up log

abbrev info_in : ClusterState → ClusterInfo
info_in state = record {
  cluster_id = "c-1";
  cluster_name = "shared";
  state = state;
  state_message = "";
  termination_reason = none;
}

abbrev answer : ClusterState → ClusterState → Bool → ClusterInfo
answer up down true = info_in up
answer up down false = info_in down

-- `up` is the state that the cluster comes to when it is created or started.
abbrev service : ClusterState → Server Request Reply
service up log (create c) = ok "c-1"
service up log (get id) = ok (answer up terminated (is_up log))
service up log list = ok (info_in running ∷ [])
service up log (edit c) = ok tt
service up log (start id) = ok tt
service up log (restart id) = ok tt
service up log (delete id) = ok tt
service up log (permanent_delete id) = ok tt
service up log (pin id) = ok tt
service up log (unpin id) = ok tt
service up log list_node_types = ok []
service up log list_spark_versions = ok []
service up log list_zones = err (other "no zones")
service up log (events request) = ok (record { events = []; next_page = none; total_count = 0 })
service up log (cluster_status id) = ok (record { cluster_id = id; library_statuses = [] })
service up log (install libraries) = ok tt
service up log (uninstall libraries) = ok tt

abbrev five : RetryContext ClusterInfo Request
five = record {
  retry = rounds 5 (other "timeout");
  timeout_error = other "timeout";
  retry-rounds = λ f s log. (5, refl);
}

abbrev small : Cluster
small = record {
  cluster_id = "c-1";
  num_workers = 1;
  cluster_name = "shared";
  spark_version = "7.3.x-scala2.12";
  node_type_id = "i3.xlarge";
  autotermination_minutes = 60;
  autoscale = none;
  enable_elastic_disk = false;
  driver_node_type_id = "";
  instance_pool_id = "";
  driver_instance_pool_id = "";
  aws_attributes = none;
  azure_attributes = none;
  gcp_attributes = none;
  spark_conf = [];
  custom_tags = [];
}

can_reach_iff_example : (can_reach terminated terminating ≡ true) ↔ Reaches terminated terminating
can_reach_iff_example = can_reach_iff terminated terminating

can_reach_total_example : (b : Bool) × (can_reach_within 16 pending terminated ≡ some b)
can_reach_total_example = can_reach_total pending terminated

start_run :
    start_and_get_info (service running) five "c-1" []
    ≡ (ok (info_in running), get "c-1" ∷ start "c-1" ∷ get "c-1" ∷ [])
unfolding start_and_get_info get_cluster wait_for_cluster_status wait_attempt rounds
start_run = refl

create_run :
    create_cluster (service running) five small []
    ≡ (ok (info_in running), get "c-1" ∷ create small ∷ [])
unfolding create_cluster get_cluster wait_for_cluster_status wait_attempt rounds
create_run = refl

abbrev after_failure : List Request
after_failure = permanent_delete "c-1" ∷ get "c-1" ∷ delete "c-1" ∷ get "c-1" ∷ create small ∷ []

failed_create_run :
    create_cluster (service error) five small []
    ≡ (err (cannot_transition "c-1" (info_in error) running), after_failure)
unfolding create_cluster get_cluster wait_for_cluster_status wait_attempt rounds
    permanent_delete_cluster terminate can_reach can_reach_within can_reach_loop
failed_create_run = refl

create_cluster-cleans_up_example : Memᴰ (delete "c-1") after_failure
create_cluster-cleans_up_example =
    create_cluster-cleans_up (service error) five small [] "c-1"
      (cannot_transition "c-1" (info_in error) running) after_failure refl failed_create_run

edit_run :
    edit_cluster (service running) five (λ s. s) small []
    ≡ (ok (info_in terminated), edit small ∷ get "c-1" ∷ [])
unfolding edit_cluster get_cluster
edit_run = refl

edit_cluster-HasSettled_example : HasSettled (service running) five (λ s. s) small []
unfolding edit_cluster get_cluster
edit_cluster-HasSettled_example =
    edit_cluster-HasSettled (service running) five (λ s. s) small [] tt (λ h. h.0 tt)

abbrev aws : Cloud
aws = record { is_azure = false; is_aws = true; is_gcp = false }

reuse_run :
    get_or_create_running_cluster (service running) five aws (λ v w. false) (λ n. "") "shared" [] []
    ≡ (ok (info_in running), list ∷ [])
unfolding get_or_create_running_cluster reuse_cluster start_cluster start_and_get_info get_cluster
    wait_for_cluster_status wait_attempt rounds
reuse_run = refl

get_or_create-reuses_example :
    (clusters : List ClusterInfo) × (service running [] list ≡ ok clusters)
    × (IsReused (service running) five "shared" clusters (list ∷ []) (info_in running)
        ⊎ (((info_in running).state ≡ running)
            × All
                (λ cl. cl.cluster_name ≡ "shared" → (cl.state ≢ running) × (cl.state ≢ resizing))
                clusters))
get_or_create-reuses_example =
    get_or_create-reuses (service running) five aws (λ v w. false) (λ n. "") "shared" [] []
      (info_in running) (list ∷ []) reuse_run
