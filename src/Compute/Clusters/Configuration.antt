-- ===== src/Compute/Clusters/Configuration.antt =====
-- compute/resource_cluster.go: the data of the resource, and what is checked and changed in the configuration before
-- it is sent. The data is the configuration that the schemas carry over, with the old values that the
-- code compares.
use terraform_provider_datab.Base.{
  String, ◌<>◌, Bool, true, false, not, Option, none, some, List, ◌&&◌, ◌||◌, if◌then◌else◌, ◌==◌,
  ltb, any, lookup, has_prefix,
}
use terraform_provider_datab.Common.Errors.{Error, other}
use terraform_provider_datab.Compute.Libraries.{Library}
use terraform_provider_datab.Compute.Clusters.Model.{Cluster, AwsAttributes, GcpAttributes}

pub record ClusterData : Type 0 where
  pub id : String
  pub cluster : Cluster
  pub libraries : List Library
  pub is_pinned : Bool
  -- What an update compares with: the keys that have changed, and old values.
  pub changed_keys : List String
  pub was_pinned : Bool
  pub old_instance_pool_id : String
  pub old_driver_instance_pool_id : String

-- `sparkConfDiffSuppressFunc`
abbrev pub suppress_spark_conf : String → String → String → Bool
suppress_spark_conf k old new =
    (k == "spark_conf.%" && (old == "1" && new == "0"))
    || k == "spark_conf.spark.databricks.delta.preview.enabled"

-- `DiffSuppressFunc` of `is_pinned`
abbrev pub suppress_is_pinned : String → String → Bool
suppress_is_pinned old new = if old == "" && new == "false" then true else old == new

abbrev entry : String → List (String × String) → String
entry k entries = elim (lookup k entries) [ none ↦ "" | some v ↦ v ]

abbrev is_single_node : Cluster → Bool
is_single_node cluster =
    entry "spark.databricks.cluster.profile" cluster.spark_conf == "singleNode"
    && (has_prefix (entry "spark.master" cluster.spark_conf) "local"
        && entry "ResourceClass" cluster.custom_tags == "SingleNode")

abbrev is_given {ℓ} : {A : Type ℓ} → Option A → Bool
is_given none = false
is_given (some a) = true

-- `validateClusterDefinition`
unfoldable pub validate_cluster_definition : Cluster → Option Error
validate_cluster_definition cluster =
    if ltb 0 cluster.num_workers || is_given cluster.autoscale
    then none
    else if is_single_node cluster
    then none
    else some (
        other (
          "NumWorkers could be 0 only for SingleNode clusters. "
          <> "See https://docs.databricks.com/clusters/single-node.html for more details"))

abbrev only_profile : Option AwsAttributes → Option AwsAttributes
only_profile none = none
only_profile (some a) =
    some (record { availability = ""; zone_id = ""; instance_profile_arn = a.instance_profile_arn })

abbrev only_account : Option GcpAttributes → Option GcpAttributes
only_account none = none
only_account (some a) = some (record {
  use_preemptible_executors = false;
  google_service_account = a.google_service_account;
})

-- `modifyClusterRequest`
unfoldable pub modify_cluster_request : Cluster → Cluster
modify_cluster_request c = if c.instance_pool_id == "" then c else record c {
  aws_attributes = only_profile c.aws_attributes;
  azure_attributes = none;
  gcp_attributes = only_account c.gcp_attributes;
  enable_elastic_disk = false;
  node_type_id = "";
  driver_node_type_id = "";
}

-- `hasClusterConfigChanged`
unfoldable pub has_cluster_config_changed : ClusterData → Bool
has_cluster_config_changed d = any (λ k. not (k == "library" || k == "is_pinned")) d.changed_keys

-- `fixInstancePoolChangeIfAny`; the new pools are those of the configuration.
unfoldable pub fix_instance_pool_change : ClusterData → Cluster → Cluster
fix_instance_pool_change d cluster =
    if not (d.old_instance_pool_id == d.cluster.instance_pool_id)
      && (d.old_driver_instance_pool_id == d.old_instance_pool_id
          && d.old_driver_instance_pool_id == d.cluster.driver_instance_pool_id)
    then record cluster { driver_instance_pool_id = cluster.instance_pool_id }
    else cluster
