-- ===== src/Compute/Clusters/Reuse.antt =====
-- compute/clusters.go: the listings, and `GetOrCreateRunningCluster`, which reuses a cluster by its
-- name. The mutex that it holds keeps the calls of one process apart; a call is modelled alone.
use terraform_provider_datab.Base.{
  ℕ, String, ◌<>◌, Bool, true, false, Option, none, some, List, [], ◌∷◌, not, length, ltb,
  if◌then◌else◌, ◌==◌,
}
use terraform_provider_datab.Common.Errors.{other, ok, err}
use terraform_provider_datab.Common.Service.{Server, Call, pure, fail, send, ◌>>=◌, handle}
use terraform_provider_datab.Compute.Retry.{RetryContext}
use terraform_provider_datab.Compute.Selection.NodeTypes.{
  NodeType, NodeTypeRequest, get_smallest_node_type,
}
use terraform_provider_datab.Compute.Selection.SparkVersions.{
  SparkVersionRequest, latest_spark_version, version_or_default,
}
use terraform_provider_datab.Compute.Clusters.Model.{
  Cluster, ClusterInfo, Request, list, list_node_types, list_spark_versions, list_zones, Reply,
  ZonesInfo, is_running_or_resizing,
}
use terraform_provider_datab.Compute.Clusters.Api.{start_cluster, create_cluster}

-- Which cloud the client is configured for.
pub record Cloud : Type 0 where
  pub is_azure : Bool
  pub is_aws : Bool
  pub is_gcp : Bool

-- `NodeTypeRequest{LocalDisk: true}`
abbrev pub local_disk_request : NodeTypeRequest
local_disk_request = record {
  min_memory_gb = 0;
  gb_per_core = 0;
  min_cores = 0;
  min_gpus = 0;
  local_disk = true;
  category = "";
  photon_worker_capable = false;
  photon_driver_capable = false;
  is_io_cache_enabled = false;
  support_port_forwarding = false;
}

-- `SparkVersionRequest{Latest: true, LongTermSupport: true}`
abbrev pub long_term_request : SparkVersionRequest
long_term_request = record {
  long_term_support = true;
  beta = false;
  latest = true;
  ml = false;
  genomics = false;
  gpu = false;
  scala = "";
  spark_version = "";
  photon = false;
}

module _ (server : Server Request Reply) where
  abbrev pub zones_of : Call Request ZonesInfo
  zones_of = send server list_zones

  abbrev pub node_type_of : Cloud → NodeTypeRequest → List NodeType → Call Request String
  node_type_of cloud r listed = elim (get_smallest_node_type cloud.is_azure cloud.is_gcp r listed) [
    | none ↦ fail (other "runtime error: integer divide by zero")
    | some id ↦ pure id
  ]

  -- `GetSmallestNodeType`: an error of the listing is ignored, and leaves no node types.
  unfoldable pub smallest_node_type : Cloud → NodeTypeRequest → Call Request String
  smallest_node_type cloud r = handle (send server list_node_types) (λ listed. elim listed [
    | ok nodes ↦ node_type_of cloud r nodes
    | err e ↦ node_type_of cloud r []
  ])

  -- `LatestSparkVersionOrDefault`
  unfoldable pub spark_version_or_default :
      (String → String → Bool) → SparkVersionRequest → Call Request String
  spark_version_or_default newer req = handle (send server list_spark_versions) (λ listed.
      elim listed [
        | ok versions ↦ pure (version_or_default newer (latest_spark_version newer req versions))
        | err e ↦ pure (version_or_default newer (err e))
      ])

module _ (server : Server Request Reply) (sdk : RetryContext ClusterInfo Request) where
  -- The loop of `GetOrCreateRunningCluster` over the listed clusters.
  unfoldable pub reuse_cluster : String → List ClusterInfo → Call Request (Option ClusterInfo)
  reuse_cluster name [] = pure none
  reuse_cluster name (cl ∷ clusters) =
      let others = reuse_cluster name clusters in
      let started =
        handle (start_cluster server sdk cl.cluster_id)
          (λ r. elim r [ ok _ ↦ pure (some cl) | err e ↦ others ]) in
      if cl.cluster_name == name
      then (if not (is_running_or_resizing cl) then started else pure (some cl))
      else others

  abbrev pub autoterminating_cluster : Cloud → String → String → String → Cluster
  autoterminating_cluster cloud name node_type version = record {
    cluster_id = "";
    num_workers = 1;
    cluster_name = name;
    spark_version = version;
    node_type_id = node_type;
    autotermination_minutes = 10;
    autoscale = none;
    enable_elastic_disk = false;
    driver_node_type_id = "";
    instance_pool_id = "";
    driver_instance_pool_id = "";
    aws_attributes =
        if cloud.is_aws
        then some (record { availability = "SPOT"; zone_id = ""; instance_profile_arn = "" })
        else none;
    azure_attributes = none;
    gcp_attributes = none;
    spark_conf = [];
    custom_tags = [];
  }

  abbrev pub with_custom : Cluster → List Cluster → Cluster
  with_custom r [] = r
  with_custom r (cluster ∷ _) = cluster

  abbrev pub create_unless :
      Cloud
      → (String → String → Bool)
      → String
      → List Cluster
      → Option ClusterInfo
      → Call Request ClusterInfo
  create_unless cloud newer name custom (some cl) = pure cl
  create_unless cloud newer name custom none = do
    node_type ← smallest_node_type server cloud local_disk_request
    version ← spark_version_or_default server newer long_term_request
    create_cluster server sdk
        (with_custom (autoterminating_cluster cloud name node_type version) custom)

  -- `show` prints a number.
  unfoldable pub get_or_create_running_cluster :
      Cloud
      → (String → String → Bool)
      → (ℕ → String)
      → String
      → List Cluster
      → Call Request ClusterInfo
  get_or_create_running_cluster cloud newer show name custom =
      if ltb 1 (length custom)
      then fail (other ("you can only specify 1 custom cluster conf, not " <> show (length custom)))
      else do
        clusters ← send server list
        found ← reuse_cluster name clusters
        create_unless cloud newer name custom found
