-- ===== src/Tests/Exporter.antt =====
-- A provider with one kind of resource; names are kept as they are.
use terraform_provider_datab.Base.{
  ◌≡◌, ◌≢◌, refl, eq_iff, String, true, none, some, [], ◌∷◌, arith, contains, has_prefix,
}
use terraform_provider_datab.Exporter.Model.{
  Resource, Importable, ImportContext, match_pair, resource_text,
}
use terraform_provider_datab.Exporter.Emitting.{
  any_instance, any_resource, has, approximation, add, Provider, with_id, with_data, marked,
  resource_name, emit,
}
use terraform_provider_datab.Exporter.Emitting.Counting.{IsUnique}
use terraform_provider_datab.Exporter.Emitting.Unique.{emit-IsUnique}
use terraform_provider_datab.Exporter.Emitting.Dropping.{emit_drops}

abbrev secret_scope : Importable
secret_scope = record { service = "secrets"; name_of = none; search = none; custom_import = none }

abbrev provider : Provider
provider = record {
  is_available = λ ty. true;
  importable = λ ty. some secret_scope;
  read = λ r. some (record { id = r.id; attributes = ("name", r.id) ∷ [] });
  fix_name = λ s. s;
  hash_name = λ s. s;
}

abbrev empty : ImportContext
empty = record {
  module_name = "";
  state = [];
  scope = [];
  importing = [];
  services = "secrets";
  prefix = "";
  match_text = "";
}

abbrev scope_of : String → String → Resource
scope_of name id = record {
  resource_type = "databricks_secret_scope";
  id = id;
  attribute = "";
  value = "";
  name = name;
  mode = "";
  state_data = none;
}

abbrev after : ImportContext
after = record empty {
  state =
      approximation empty (record (scope_of "" "db") { name = "db" })
        (record { id = "db"; attributes = ("name", "db") ∷ [] })
      ∷ [];
  scope =
      record (scope_of "db" "db") {
        mode = "managed";
        state_data = some (record { id = "db"; attributes = ("name", "db") ∷ [] });
      }
      ∷ [];
  importing = resource_text (scope_of "" "db") ∷ [];
}

emit_run : emit provider 1 (scope_of "" "db") empty ≡ some after
unfolding emit has match_pair resource_text any_resource any_instance with_id with_data
    resource_name add contains has_prefix
emit_run = refl

emit-IsUnique_example : IsUnique after
emit-IsUnique_example =
    emit-IsUnique provider 1 (scope_of "" "db") empty after (λ ty id. omega arith) emit_run

abbrev unchanged_but_marked : ImportContext
unchanged_but_marked = marked empty (scope_of "db" "db")

drop_run : emit provider 1 (scope_of "db" "db") empty ≡ some unchanged_but_marked
unfolding emit has match_pair resource_text any_resource any_instance with_id with_data
    resource_name add contains has_prefix
drop_run = refl

has_id : ◌≢◌ {A = String} "db" ""
has_id = ground (arith, eq_iff "db" "")

fixed_name :
    resource_name provider empty secret_scope (record (scope_of "db" "db") {
      state_data = some (record { id = "db"; attributes = ("name", "db") ∷ [] });
    })
    ≡ "db"
unfolding resource_name
fixed_name = refl

read_run :
    with_data provider (scope_of "db" "db")
    ≡ some (record (scope_of "db" "db") {
      state_data = some (record { id = "db"; attributes = ("name", "db") ∷ [] });
    })
unfolding with_data
read_run = refl

emit_drops_example :
    (unchanged_but_marked.state ≡ empty.state) × (unchanged_but_marked.scope ≡ empty.scope)
emit_drops_example =
    emit_drops provider 0 (scope_of "db" "db")
      (record (scope_of "db" "db") {
        state_data = some (record { id = "db"; attributes = ("name", "db") ∷ [] });
      })
      secret_scope empty unchanged_but_marked has_id refl refl read_run fixed_name drop_run
