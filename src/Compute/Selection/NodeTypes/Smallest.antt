-- ===== src/Compute/Selection/NodeTypes/Smallest.antt =====
-- What `GetSmallestNodeType` answers with, against the request's conditions written out.
use mathlib.Core.List.{Memᴰ}
use terraform_provider_datab.Base.{
  subst, sym, ◌/◌, ◌≤◌, ◌<◌, ◌≡◌, refl, ◌≢◌, ◌⊎◌, inl, inr, String, Bool, true, false, none, some,
  List, [], ◌∷◌, arith, equal_fold, sort_by, All, All-sort_by, un_All-sort_by,
}
use terraform_provider_datab.Compute.Selection.NodeTypes.{
  NodeType, NodeTypeRequest, less_node_type, Test, skip, take, crash, lacks_local_disk,
  test_features, test_node_type, first_node_type, get_smallest_node_type,
}

-- The conditions that come after memory per core.
pub record HasFeatures (r : NodeTypeRequest) (nt : NodeType) : Type 0 where
  pub cores : r.min_cores ≤ nt.milli_cores / 1000
  pub gpus : r.min_gpus ≤ nt.num_gpus
  pub local_disk : (r.local_disk ≡ false) ⊎ (lacks_local_disk nt.node_instance_type ≡ false)
  pub category : (r.category ≡ "") ⊎ (equal_fold nt.category r.category ≡ true)
  pub io_cache : (r.is_io_cache_enabled ≡ false) ⊎ (nt.is_io_cache_enabled ≡ true)
  pub forwarding : (r.support_port_forwarding ≡ false) ⊎ (nt.support_port_forwarding ≡ true)
  pub driver : (r.photon_driver_capable ≡ false) ⊎ (nt.photon_driver_capable ≡ true)
  pub worker : (r.photon_worker_capable ≡ false) ⊎ (nt.photon_worker_capable ≡ true)

-- All conditions of a request.
pub record Meets (r : NodeTypeRequest) (nt : NodeType) : Type 0 where
  pub memory : r.min_memory_gb ≤ nt.memory_mb / 1024
  pub per_core : r.gb_per_core ≤ nt.memory_mb / 1024 / (nt.milli_cores / 1000)
  pub features : HasFeatures r nt

test_features-ne-crash : (r : NodeTypeRequest) (nt : NodeType) → test_features r nt ≢ crash
unfolding test_features
test_features-ne-crash r nt h = ground arith

-- How the loop ends with an answer.
abbrev pub Chosen : NodeTypeRequest → String → List NodeType → String → Type 0
Chosen r default listed id =
    ((nt : NodeType) × Memᴰ nt listed × Meets r nt × (id ≡ nt.node_type_id))
    ⊎ ((id ≡ default) × All (λ nt. ¬ Meets r nt) listed)

Test-cases : (t : Test) → ((t ≡ skip) ⊎ (t ≡ take)) ⊎ (t ≡ crash)
Test-cases skip = inl (inl refl)
Test-cases take = inl (inr refl)
Test-cases crash = inr refl

test_node_type-ne-crash :
    (r : NodeTypeRequest) (nt : NodeType) → 1000 ≤ nt.milli_cores → test_node_type r nt ≢ crash
unfolding test_node_type
test_node_type-ne-crash r nt h e = ground (arith, test_features-ne-crash r nt)

first_node_type_total :
    (r : NodeTypeRequest) (default : String) (listed : List NodeType)
    → All (λ nt. 1000 ≤ nt.milli_cores) listed
    → (id : String) × (first_node_type r default listed ≡ some id)
unfolding first_node_type
first_node_type_total r default [] h = (default, refl)
first_node_type_total r default (nt ∷ rest) (p, h) = elim (Test-cases (test_node_type r nt)) [
  | inl (inl e) ↦ rw (e, first_node_type) (first_node_type_total r default rest h)
  | inl (inr e) ↦ (nt.node_type_id, rw (e, first_node_type))
  | inr e ↦ absurd (test_node_type-ne-crash r nt p e)
]

-- If every listed node type has at least one whole core, `GetSmallestNodeType` answers: it does not
-- panic.
get_smallest_node_type_total :
    (is_azure is_gcp : Bool) (r : NodeTypeRequest) (listed : List NodeType)
    → All (λ nt. 1000 ≤ nt.milli_cores) listed
    → (id : String) × (get_smallest_node_type is_azure is_gcp r listed ≡ some id)
unfolding get_smallest_node_type
get_smallest_node_type_total is_azure is_gcp r [] h = (_, refl)
get_smallest_node_type_total is_azure is_gcp r (nt ∷ more) h =
    first_node_type_total r _ (sort_by less_node_type (nt ∷ more))
      (All-sort_by less_node_type (λ n. 1000 ≤ n.milli_cores) (nt ∷ more) h)

abbrev IsTiny : NodeTypeRequest → NodeType → Type 0
IsTiny r nt = (nt.milli_cores < 1000) × (r.min_memory_gb ≤ nt.memory_mb / 1024)

test_node_type_crashes :
    (r : NodeTypeRequest) (nt : NodeType)
    → 0 < r.gb_per_core
    → IsTiny r nt
    → test_node_type r nt ≡ crash
unfolding test_node_type
test_node_type_crashes r nt h tiny = ground arith

first_node_type_panics :
    (r : NodeTypeRequest) (default : String) (listed : List NodeType)
    → 0 < r.gb_per_core
    → All (IsTiny r) listed
    → (listed ≡ []) ⊎ (first_node_type r default listed ≡ none)
unfolding first_node_type
first_node_type_panics r default [] h tiny = inl refl
first_node_type_panics r default (nt ∷ rest) h (p, _) =
    inr (rw (test_node_type_crashes r nt h p, first_node_type))

-- With a request for memory per core, `GetSmallestNodeType` panics as soon as the listed node types
-- all have less than one core and as much memory as is asked for, and there is one at least.
pub get_smallest_node_type_panics :
    (is_azure is_gcp : Bool) (r : NodeTypeRequest) (nt : NodeType) (more : List NodeType)
    → 0 < r.gb_per_core
    → All (λ n. (n.milli_cores < 1000) × (r.min_memory_gb ≤ n.memory_mb / 1024)) (nt ∷ more)
    → get_smallest_node_type is_azure is_gcp r (nt ∷ more) ≡ none
unfolding get_smallest_node_type
get_smallest_node_type_panics is_azure is_gcp r nt more h small =
    elim (first_node_type_panics r _ (sort_by less_node_type (nt ∷ more)) h
      (All-sort_by less_node_type (IsTiny r) (nt ∷ more) small)) [
        | inl e ↦ absurd (
            (un_All-sort_by less_node_type (λ _. ⊥) (nt ∷ more)
              (subst (All (λ _. ⊥)) (sym e) tt)).0)
        | inr e ↦ e
      ]
