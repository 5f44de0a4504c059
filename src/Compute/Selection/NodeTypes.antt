-- ===== src/Compute/Selection/NodeTypes.antt =====
-- compute/model.go `NodeTypeList.Sort` and compute/clusters.go `GetSmallestNodeType`. Sizes are not
-- negative; the number of cores, a float there, is counted in thousandths.
pub mod Smallest
use terraform_provider_datab.Base.{
  ℕ, ◌/◌, ◌≤◌, ◌<◌, ◌≡◌, refl, ◌≢◌, ◌⊎◌, inl, inr, String, Bool, true, false, not, ◌&&◌, ◌||◌,
  Option, none, some, List, [], ◌∷◌, arith, ltb, eqb, if◌then◌else◌, equal_fold, sort_by, ◌==◌, All,
  All-sort_by, un_All-sort_by, Bool-cases,
}
use Prim.Native.String.{compare as text_compare}
use Prim.Native.Nat.{Ordering}

pub record NodeInstanceType : Type 0 where
  pub local_disks : ℕ
  pub local_disk_size_gb : ℕ
  pub local_nvme_disks : ℕ

pub record NodeType : Type 0 where
  pub node_type_id : String
  pub memory_mb : ℕ
  pub milli_cores : ℕ
  pub num_gpus : ℕ
  pub is_io_cache_enabled : Bool
  pub support_port_forwarding : Bool
  pub category : String
  pub instance_type_id : String
  pub is_deprecated : Bool
  pub node_instance_type : Option NodeInstanceType
  pub photon_worker_capable : Bool
  pub photon_driver_capable : Bool

pub record NodeTypeRequest : Type 0 where
  pub min_memory_gb : ℕ
  pub gb_per_core : ℕ
  pub min_cores : ℕ
  pub min_gpus : ℕ
  pub local_disk : Bool
  pub category : String
  pub photon_worker_capable : Bool
  pub photon_driver_capable : Bool
  pub is_io_cache_enabled : Bool
  pub support_port_forwarding : Bool

abbrev pub same_bool : Bool → Bool → Bool
same_bool true b = b
same_bool false b = not b

abbrev text_less : String → String → Bool
text_less s t = elim (text_compare s t) [ Ordering.lt ↦ true | _ ↦ false ]

abbrev less_size : NodeType → NodeType → Bool
less_size a b =
    if not (eqb a.memory_mb b.memory_mb)
    then ltb a.memory_mb b.memory_mb
    else if not (eqb a.milli_cores b.milli_cores)
    then ltb a.milli_cores b.milli_cores
    else if not (eqb a.num_gpus b.num_gpus)
    then ltb a.num_gpus b.num_gpus
    else text_less a.instance_type_id b.instance_type_id

abbrev less_disks : Option NodeInstanceType → Option NodeInstanceType → Bool → Bool
less_disks (some i) (some j) later =
    if not (eqb i.local_disks j.local_disks)
    then ltb i.local_disks j.local_disks
    else if not (eqb i.local_disk_size_gb j.local_disk_size_gb)
    then ltb i.local_disk_size_gb j.local_disk_size_gb
    else later
less_disks _ _ later = later

-- The comparison that `Sort` sorts by.
unfoldable pub less_node_type : NodeType → NodeType → Bool
less_node_type a b =
    if not (same_bool a.is_deprecated b.is_deprecated)
    then not a.is_deprecated
    else less_disks a.node_instance_type b.node_instance_type (less_size a b)

-- How the test of one node type ends: it is passed over, it is taken, or Go panics on a division by
-- zero.
pub data Test : Type 0 where
  skip take crash : Test

abbrev pub lacks_local_disk : Option NodeInstanceType → Bool
lacks_local_disk none = false
lacks_local_disk (some i) = ltb i.local_disks 1 && ltb i.local_nvme_disks 1

-- The tests that follow the one on memory per core.
unfoldable pub test_features : NodeTypeRequest → NodeType → Test
test_features r nt =
    if ltb 0 r.min_cores && ltb (nt.milli_cores / 1000) r.min_cores
    then skip
    else if ltb 0 r.min_gpus && ltb nt.num_gpus r.min_gpus
    then skip
    else if r.local_disk && lacks_local_disk nt.node_instance_type
    then skip
    else if not (r.category == "") && not (equal_fold nt.category r.category)
    then skip
    else if r.is_io_cache_enabled && not (same_bool nt.is_io_cache_enabled r.is_io_cache_enabled)
    then skip
    else if r.support_port_forwarding
        && not (same_bool nt.support_port_forwarding r.support_port_forwarding)
    then skip
    else if r.photon_driver_capable
        && not (same_bool nt.photon_driver_capable r.photon_driver_capable)
    then skip
    else if r.photon_worker_capable
        && not (same_bool nt.photon_worker_capable r.photon_worker_capable)
    then skip
    else take

-- The body of the loop. The memory per core is an integer division by the whole cores.
unfoldable pub test_node_type : NodeTypeRequest → NodeType → Test
test_node_type r nt =
    if ltb 0 r.min_memory_gb && ltb (nt.memory_mb / 1024) r.min_memory_gb
    then skip
    else if ltb 0 r.gb_per_core
    then (if eqb (nt.milli_cores / 1000) 0
        then crash
        else (if ltb (nt.memory_mb / 1024 / (nt.milli_cores / 1000)) r.gb_per_core
            then skip
            else test_features r nt))
    else test_features r nt

-- The loop; `none` is the panic.
unfoldable pub first_node_type : NodeTypeRequest → String → List NodeType → Option String
first_node_type r default [] = some default
first_node_type r default (nt ∷ rest) = elim (test_node_type r nt) [
  | skip ↦ first_node_type r default rest
  | take ↦ some nt.node_type_id
  | crash ↦ none
]

-- `defaultSmallestNodeType`, from what the client says of its cloud.
abbrev pub default_smallest_node_type : Bool → Bool → String
default_smallest_node_type is_azure is_gcp =
    if is_azure then "Standard_D3_v2" else if is_gcp then "n1-standard-4" else "i3.xlarge"

-- `GetSmallestNodeType` on the node types that were listed: none, where the listing failed.
unfoldable pub get_smallest_node_type :
    Bool → Bool → NodeTypeRequest → List NodeType → Option String
unfolding first_node_type less_node_type test_node_type test_features
get_smallest_node_type is_azure is_gcp r [] = some (default_smallest_node_type is_azure is_gcp)
get_smallest_node_type is_azure is_gcp r (nt ∷ more) =
    first_node_type r (default_smallest_node_type is_azure is_gcp)
      (sort_by less_node_type (nt ∷ more))
