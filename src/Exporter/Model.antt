-- ===== src/Exporter/Model.antt =====
-- exporter/model.go and the context of exporter/context.go. The Go map of a state's attributes is a list
-- of entries, whose values are texts; `Data` is the resource's data of the Terraform SDK, with the
-- attributes that its `State()` gives.
use terraform_provider_datab.Base.{String, ◌<>◌, not, ◌&&◌, Option, List, if◌then◌else◌, ◌==◌}
use terraform_provider_datab.Common.Errors.{Error, Result}

pub record Data : Type 0 where
  pub id : String
  pub attributes : List (String × String)

pub record Resource : Type 0 where
  pub resource_type : String
  pub id : String
  pub attribute : String
  pub value : String
  pub name : String
  pub mode : String
  pub state_data : Option Data

-- An instance of `instanceApproximation` is its attributes.
pub record ResourceApproximation : Type 0 where
  pub resource_type : String
  pub name : String
  pub mode : String
  pub module_name : String
  pub instances : List (List (String × String))

-- What the custom `Import` of a resource does: it may change the mode and the data, it emits other
-- resources, and it may fail after that.
pub record Imported : Type 0 where
  pub mode : String
  pub state_data : Option Data
  pub emitted : List Resource
  pub failure : Option Error

pub record Importable : Type 0 where
  pub service : String
  pub name_of : Option (Option Data → String)
  pub search : Option (Resource → Result String)
  pub custom_import : Option (Resource → Imported)

-- The fields of `importContext` that emitting reads or changes.
pub record ImportContext : Type 0 where
  pub module_name : String
  pub state : List ResourceApproximation
  pub scope : List Resource
  pub importing : List String
  pub services : String
  pub prefix : String
  pub match_text : String

-- `MatchPair`
unfoldable pub match_pair : Resource → String × String
match_pair r =
    if r.id == "" && (not (r.attribute == "") && not (r.value == ""))
    then (r.attribute, r.value)
    else ("id", r.id)

abbrev known_name : String → String
known_name name = if name == "" then "<unknown>" else name

-- `String`, the hash code of a resource
unfoldable pub resource_text : Resource → String
resource_text r =
    let (k, v) = match_pair r in
    r.resource_type <> ("[" <> (known_name r.name <> ("] (" <> (k <> (": " <> (v <> ")"))))))

abbrev module_path : String → String
module_path name = if name == "" then "" else name <> "."

-- `ImportCommand`
unfoldable pub import_command : ImportContext → Resource → String
import_command ic r =
    "terraform import "
    <> (module_path ic.module_name
        <> (r.resource_type <> ("." <> (r.name <> (" \"" <> (r.id <> "\""))))))
