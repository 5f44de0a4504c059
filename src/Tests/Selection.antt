-- ===== src/Tests/Selection.antt =====
-- Two node types, one with a local disk, and two versions of the runtime; the longer text of a version
-- counts as the newer one.
use terraform_provider_datab.Base.{
  ℕ, ◌≡◌, refl, String, count, Bool, true, false, Option, none, some, List, [], ◌∷◌, arith, ltb,
  sort_by, IsStrictOrder, contains, has_prefix, drop_chars, insert_last, sort_from,
}
use terraform_provider_datab.Common.Errors.{ok}
use terraform_provider_datab.Compute.Selection.NodeTypes.{
  NodeInstanceType, NodeType, NodeTypeRequest, get_smallest_node_type,
}
use terraform_provider_datab.Compute.Selection.NodeTypes.Smallest.{get_smallest_node_type_panics}
use terraform_provider_datab.Compute.Selection.SparkVersions.{
  SparkVersion, SparkVersionRequest, extract_dbr_versions, span_digits, matches_request,
  matching_versions, less_version, pick_version, latest_spark_version,
}
use terraform_provider_datab.Compute.Selection.SparkVersions.Latest.{
  IsLatest, latest_spark_version-IsLatest,
}

abbrev node : String → ℕ → ℕ → Option NodeInstanceType → NodeType
node id memory cores disks = record {
  node_type_id = id;
  memory_mb = memory;
  milli_cores = cores;
  num_gpus = 0;
  is_io_cache_enabled = false;
  support_port_forwarding = false;
  category = "General Purpose";
  instance_type_id = id;
  is_deprecated = false;
  node_instance_type = disks;
  photon_worker_capable = false;
  photon_driver_capable = false;
}

abbrev one_disk : Option NodeInstanceType
one_disk = some (record { local_disks = 1; local_disk_size_gb = 100; local_nvme_disks = 0 })

abbrev no_disks : Option NodeInstanceType
no_disks = some (record { local_disks = 0; local_disk_size_gb = 0; local_nvme_disks = 0 })

abbrev listed : List NodeType
listed = node "m5.large" 8192 2000 no_disks ∷ node "i3.xlarge" 31232 4000 one_disk ∷ []

abbrev with_disk : NodeTypeRequest
with_disk = record {
  min_memory_gb = 4;
  gb_per_core = 4;
  min_cores = 0;
  min_gpus = 0;
  local_disk = true;
  category = "";
  photon_worker_capable = false;
  photon_driver_capable = false;
  is_io_cache_enabled = false;
  support_port_forwarding = false;
}

get_smallest_node_type_panics_example :
    get_smallest_node_type false true with_disk (node "shared-core" 8192 500 none ∷ []) ≡ none
get_smallest_node_type_panics_example =
    get_smallest_node_type_panics false true with_disk (node "shared-core" 8192 500 none) []
      (omega arith) ((omega arith, omega arith), tt)

abbrev longer : String → String → Bool
longer v w = ltb (count w) (count v)

longer_order : IsStrictOrder longer
longer_order = record { asymm = λ a b h. ground arith; comparison = λ a b c h. ground arith }

abbrev lts : SparkVersionRequest
lts = record {
  long_term_support = false;
  beta = false;
  latest = true;
  ml = false;
  genomics = false;
  gpu = false;
  scala = "2.12";
  spark_version = "";
  photon = false;
}

abbrev versions : List SparkVersion
versions =
    record { version = "7.3.x-scala2.12"; description = "7.3 LTS (Apache Spark 3.0.1)" }
    ∷ record { version = "10.4.x-scala2.12"; description = "10.4 (Apache Spark 3.2.1)" }
    ∷ []

version_run : latest_spark_version longer lts versions ≡ ok "10.4.x-scala2.12"
unfolding latest_spark_version matching_versions matches_request contains has_prefix pick_version
    less_version extract_dbr_versions span_digits drop_chars sort_by sort_from insert_last
version_run = refl

latest_spark_version-IsLatest_example : IsLatest longer lts "10.4.x-scala2.12" versions
latest_spark_version-IsLatest_example =
    latest_spark_version-IsLatest longer longer_order lts versions "10.4.x-scala2.12" version_run
