-- ===== src/Exporter/Emitting.antt =====
-- exporter/context.go: `Has`, `Find`, `Add`, `ResourceName` and `Emit`. `none` stands for a panic of Go.
-- `Emit` calls itself through `Import`; here it does so to a given depth, below which nothing is
-- emitted. The provider's schemas, the reading of a resource, the regular expressions and the hash of
-- the Go library are parameters.
pub mod Counting
pub mod Unique
pub mod Dropping
use Prim.Native.Char.{Char, code}
use Prim.Native.String
use terraform_provider_datab.Base.{
  ℕ, zero, suc, String, ◌<>◌, Bool, true, false, not, ◌&&◌, ◌||◌, Option, none, some, List, [], ◌∷◌,
  ◌++◌, if◌then◌else◌, ◌==◌, leb, contains, lookup, insert, any,
}
use terraform_provider_datab.Common.Errors.{Error, Result, ok, err}
use terraform_provider_datab.Exporter.Model.{
  Data, Resource, ResourceApproximation, Imported, Importable, ImportContext, match_pair,
  resource_text,
}

abbrev pub or_else : Option Bool → Option Bool → Option Bool
or_else none later = none
or_else (some true) later = some true
or_else (some false) later = later

-- `i.Attributes[k].(string) == v`, which panics where the attribute is missing
abbrev pub instance_has : String → String → List (String × String) → Option Bool
instance_has k v attributes = elim (lookup k attributes) [ none ↦ none | some x ↦ some (x == v) ]

unfoldable pub any_instance : String → String → List (List (String × String)) → Option Bool
any_instance k v [] = some false
any_instance k v (i ∷ more) = or_else (instance_has k v i) (any_instance k v more)

unfoldable pub any_resource : String → String → String → List ResourceApproximation → Option Bool
any_resource ty k v [] = some false
any_resource ty k v (sr ∷ more) =
    let later = any_resource ty k v more in
    if sr.resource_type == ty then or_else (any_instance k v sr.instances) later else later

-- `Has`
unfoldable pub has : ImportContext → Resource → Option Bool
has ic r =
    let (k, v) = match_pair r in
    if any (λ s. s == resource_text r) ic.importing
    then some true
    else any_resource r.resource_type k v ic.state

abbrev pub approximation : ImportContext → Resource → Data → ResourceApproximation
approximation ic r data_of = record {
  resource_type = r.resource_type;
  name = r.name;
  mode = if r.mode == "" then "managed" else r.mode;
  module_name = ic.module_name;
  instances = insert "id" r.id data_of.attributes ∷ [];
}

abbrev pub add_new : ImportContext → Resource → Data → ImportContext
add_new ic r d = if d.id == "" then ic else record ic {
  state = ic.state ++ approximation ic r d ∷ [];
  scope = ic.scope ++ (record r { mode = if r.mode == "" then "managed" else r.mode }) ∷ [];
}

abbrev pub add_unless : ImportContext → Resource → Option Bool → Option ImportContext
add_unless ic r none = none
add_unless ic r (some true) = some ic
add_unless ic r (some false) = elim r.state_data [ none ↦ none | some d ↦ some (add_new ic r d) ]

-- `Add`
unfoldable pub add : ImportContext → Resource → Option ImportContext
add ic r = add_unless ic r (has ic r)

-- `Find`: the names along the path to the attribute `pick` of the first instance that matches.
abbrev pub traversal : ResourceApproximation → String → List String
traversal sr pick =
    if sr.mode == "data"
    then "data" ∷ sr.resource_type ∷ sr.name ∷ pick ∷ []
    else sr.resource_type ∷ sr.name ∷ pick ∷ []

abbrev pub matches_instance : Resource → List (String × String) → Bool
matches_instance r attributes = elim (lookup r.attribute attributes) [
  | none ↦ false
  | some x ↦ x == r.value
]

unfoldable pub find_in : Resource → String → List ResourceApproximation → Option (List String)
find_in r pick [] = none
find_in r pick (sr ∷ more) =
    let later = find_in r pick more in
    if sr.resource_type == r.resource_type && any (matches_instance r) sr.instances
    then some (traversal sr pick)
    else later

abbrev pub find : ImportContext → Resource → String → Option (List String)
find ic r pick = find_in r pick ic.state

-- What the context takes from outside: `pr.Schema` has the resource; the importables; `ReadContext`,
-- with the data that it fills, or nothing where it fails; and the functions that fix a name.
pub record Provider : Type 0 where
  pub is_available : String → Bool
  pub importable : String → Option Importable
  pub read : Resource → Option Data
  pub fix_name : String → String
  pub hash_name : String → String

abbrev starts_with_digit : String → Bool
starts_with_digit String.[] = false
starts_with_digit (String.◌∷◌ c s) = leb 48 (code c) && leb (code c) 57

abbrev pub or_hash : Provider → String → String → String
or_hash provider id name =
    if starts_with_digit name || name == ""
    then provider.hash_name (if name == "" then id else name)
    else name

abbrev own_name : Importable → Resource → String
own_name ir r =
    if r.name == "" then elim ir.name_of [ none ↦ "" | some f ↦ f r.state_data ] else r.name

abbrev or_id : String → String → String
or_id id name = if name == "" then id else name

-- `ResourceName`; `fix_name` lowers the case and applies the regular expressions.
unfoldable pub resource_name : Provider → ImportContext → Importable → Resource → String
resource_name provider ic ir r =
    or_hash provider r.id (provider.fix_name (ic.prefix <> or_id r.id (own_name ir r)))

-- The search for a resource without ID; nothing where `Emit` returns.
abbrev searched : Option (Resource → Result String) → Resource → Option Resource
searched none r = none
searched (some f) r = elim (f r) [
  | err e ↦ none
  | ok id ↦ if id == "" then none else some (record r { id = id })
]

unfoldable pub with_id : Importable → Resource → Option Resource
with_id ir r = if r.id == "" then searched ir.search r else some r

abbrev pub with_id_of : Resource → Data → Data
with_id_of r d = if d.id == "" then record d { id = r.id } else d

-- The data of a resource, read where there is none.
unfoldable pub with_data : Provider → Resource → Option Resource
with_data provider r = elim r.state_data [
  | some d ↦ some r
  | none ↦ elim (provider.read r) [
    | none ↦ none
    | some d ↦ some (record r { state_data = some (with_id_of r d) })
  ]
]

abbrev pub marked : ImportContext → Resource → ImportContext
marked ic r = record ic { importing = resource_text r ∷ ic.importing }

abbrev pub imported_resource : Resource → Imported → Resource
imported_resource r i = record r { mode = i.mode; state_data = i.state_data }

module _ (provider : Provider) where
  abbrev pub Emitter : Type 0
  Emitter = Resource → ImportContext → Option ImportContext

  unfoldable pub emit_each : Emitter → List Resource → ImportContext → Option ImportContext
  emit_each inner [] ic = some ic
  emit_each inner (r ∷ more) ic = elim (inner r ic) [
    | none ↦ none
    | some ic' ↦ emit_each inner more ic'
  ]

  abbrev pub after_import : Imported → Resource → Option ImportContext → Option ImportContext
  after_import i r none = none
  after_import i r (some ic) = elim i.failure [
    | some e ↦ some ic
    | none ↦ add ic (imported_resource r i)
  ]

  abbrev pub import_and_add :
      Emitter → Option (Resource → Imported) → Resource → ImportContext → Option ImportContext
  import_and_add inner none r ic = add ic r
  import_and_add inner (some f) r ic = after_import (f r) r (emit_each inner (f r).emitted ic)

  abbrev pub named : Importable → ImportContext → Resource → Resource
  named ir ic r = record r { name = resource_name provider ic ir r }

  abbrev pub emit_read :
      Emitter → Importable → Option Resource → ImportContext → Option ImportContext
  emit_read inner ir none ic = some ic
  emit_read inner ir (some r) ic = import_and_add inner ir.custom_import (named ir ic r) ic

  abbrev pub emit_found :
      Emitter → Importable → Option Resource → ImportContext → Option ImportContext
  emit_found inner ir none ic = some ic
  emit_found inner ir (some r) ic = emit_read inner ir (with_data provider r) ic

  abbrev pub emit_importable :
      Emitter → Option Importable → Resource → ImportContext → Option ImportContext
  emit_importable inner none r ic = some ic
  emit_importable inner (some ir) r ic =
      if contains ic.services ir.service then emit_found inner ir (with_id ir r) ic else some ic

  abbrev pub emit_marked : Emitter → Resource → ImportContext → Option ImportContext
  emit_marked inner r ic =
      if provider.is_available r.resource_type
      then emit_importable inner (provider.importable r.resource_type) r ic
      else some ic

  abbrev pub emit_unless : Emitter → Option Bool → Resource → ImportContext → Option ImportContext
  emit_unless inner none r ic = none
  emit_unless inner (some true) r ic = some ic
  emit_unless inner (some false) r ic = emit_marked inner r (marked ic r)

  -- `Emit`
  unfoldable pub emit : ℕ → Emitter
  emit zero r ic = some ic
  emit (suc depth) r ic =
      if (match_pair r).1 == "" then some ic else emit_unless (emit depth) (has ic r) r ic
