-- ===== src/Compute/Clusters/Model.antt =====
-- compute/model.go and compute/clusters.go, the requests and answers of the Clusters API. Of a
-- cluster's configuration and description there are the fields that the methods read or write.
use terraform_provider_datab.Base.{
  ℕ, String, ◌<>◌, Bool, Option, none, some, List, ◌||◌, join, contains, if◌then◌else◌, map,
}
use terraform_provider_datab.Common.Errors.{Error, api, other, is_missing_api}
use terraform_provider_datab.Compute.States.{ClusterState, running, resizing, same_state}
use terraform_provider_datab.Compute.Libraries.{ClusterLibraryList, ClusterLibraryStatuses}
use terraform_provider_datab.Compute.Selection.NodeTypes.{NodeType}
use terraform_provider_datab.Compute.Selection.SparkVersions.{SparkVersion}

pub record AwsAttributes : Type 0 where
  pub availability : String
  pub zone_id : String
  pub instance_profile_arn : String

pub record AzureAttributes : Type 0 where
  pub availability : String

pub record GcpAttributes : Type 0 where
  pub use_preemptible_executors : Bool
  pub google_service_account : String

pub record AutoScale : Type 0 where
  pub min_workers : ℕ
  pub max_workers : ℕ

-- The configuration that is sent.
pub record Cluster : Type 0 where
  pub cluster_id : String
  pub num_workers : ℕ
  pub cluster_name : String
  pub spark_version : String
  pub node_type_id : String
  pub autotermination_minutes : ℕ
  pub autoscale : Option AutoScale
  pub enable_elastic_disk : Bool
  pub driver_node_type_id : String
  pub instance_pool_id : String
  pub driver_instance_pool_id : String
  pub aws_attributes : Option AwsAttributes
  pub azure_attributes : Option AzureAttributes
  pub gcp_attributes : Option GcpAttributes
  pub spark_conf : List (String × String)
  pub custom_tags : List (String × String)

pub record TerminationReason : Type 0 where
  pub code : String
  pub type_name : String
  pub parameters : List (String × String)

-- The description that comes back.
pub record ClusterInfo : Type 0 where
  pub cluster_id : String
  pub cluster_name : String
  pub state : ClusterState
  pub state_message : String
  pub termination_reason : Option TerminationReason

pub record ZonesInfo : Type 0 where
  pub zones : List String
  pub default_zone : String

pub record EventsRequest : Type 0 where
  pub cluster_id : String
  pub offset : ℕ
  pub limit : ℕ
  pub order : String
  pub event_types : List String

pub record ClusterEvent : Type 0 where
  pub cluster_id : String
  pub event_type : String

pub record EventsResponse : Type 0 where
  pub events : List ClusterEvent
  pub next_page : Option EventsRequest
  pub total_count : ℕ

-- The requests of the Clusters API and of the Libraries API.
pub data Request : Type 0 where
  create edit : Cluster → Request
  get start restart delete permanent_delete pin unpin : String → Request
  list list_node_types list_spark_versions list_zones : Request
  events : EventsRequest → Request
  cluster_status : String → Request
  install uninstall : ClusterLibraryList → Request

-- What each request is answered with: `/clusters/create` gives the new cluster's ID.
abbrev pub Reply : Request → Type 0
Reply (create cluster) = String
Reply (edit cluster) = Unit
Reply (get id) = ClusterInfo
Reply (start id) = Unit
Reply (restart id) = Unit
Reply (delete id) = Unit
Reply (permanent_delete id) = Unit
Reply (pin id) = Unit
Reply (unpin id) = Unit
Reply list = List ClusterInfo
Reply list_node_types = List NodeType
Reply list_spark_versions = List SparkVersion
Reply list_zones = ZonesInfo
Reply (events request) = EventsResponse
Reply (cluster_status id) = ClusterLibraryStatuses
Reply (install libraries) = Unit
Reply (uninstall libraries) = Unit

abbrev pub is_running_or_resizing : ClusterInfo → Bool
is_running_or_resizing ci = same_state ci.state running || same_state ci.state resizing

-- A cluster that the service reports by another code is missing too.
unfoldable pub wrap_missing_cluster_error : Error → String → Error
wrap_missing_cluster_error (other text) id = other text
wrap_missing_cluster_error (api e) id =
    if is_missing_api e
    then api e
    else if contains e.message ("Cluster " <> (id <> " does not exist"))
    then api (record e { status_code = 404 })
    else api e

-- `%v` of a map, whose entries are printed in the order of their keys: here, the list's order.
abbrev pub show_map : List (String × String) → String
show_map entries = "map[" <> (join " " (map (λ e. e.0 <> (":" <> e.1)) entries) <> "]")

abbrev pub termination_details : Option TerminationReason → String
termination_details none = ""
termination_details (some r) =
    ", Termination info: code: "
    <> (r.code <> (", type: " <> (r.type_name <> (", parameters: " <> show_map r.parameters))))
