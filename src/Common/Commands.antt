-- ===== src/Common/Commands.antt =====
-- common/commands.go: the results of a command. The data of a table is a list of rows of texts: all
-- destinations that the callers scan into are strings. The regexp and html libraries are parameters.
pub mod Scanning
use terraform_provider_datab.Base.{
  ℕ, suc, ◌+◌, String, ◌<>◌, Bool, true, false, not, Option, none, some, List, [], ◌∷◌,
  if◌then◌else◌, ◌==◌, leb, length, take, drop, join, replace_all,
}
use Prim.Native.String

pub record CommandResults : Type 0 where
  pub result_type : String
  pub summary : String
  pub cause : String
  -- The text of a result of type `text`.
  pub text_data : String
  -- The rows of a result of type `table`; nothing where the data is no list.
  pub rows : Option (List (List String))
  pub pos : ℕ

-- `Failed`
abbrev pub failed : CommandResults → Bool
failed cr = cr.result_type == "error"

-- What `Error` takes from the regexp and html libraries: the texts that the tags are removed from and
-- the entities are replaced in, and the groups of the first match of each expression.
pub record Patterns : Type 0 where
  pub without_prompt : String → String
  pub without_tags : String → String
  pub unescape : String → String
  pub exception : String → Option String
  pub execution_error : String → Option (String × String × String)
  pub error_message : String → Option String

-- `strings.TrimRight(s, " ")`
unfoldable pub trim_spaces : String → String
trim_spaces String.[] = ""
trim_spaces (String.◌∷◌ c s) =
    let rest = trim_spaces s in
    if rest == ""
    then (if String.◌∷◌ c String.[] == " " then "" else String.◌∷◌ c rest)
    else String.◌∷◌ c rest

module _ (patterns : Patterns) where
  -- `Text`
  unfoldable pub text_of : CommandResults → String
  text_of cr = if not (cr.result_type == "text") then "" else patterns.without_prompt cr.text_data

  abbrev from_cause : CommandResults → String → String
  from_cause cr summary = elim (patterns.execution_error cr.cause) [
    | some (error, code, description) ↦ join "\n" (error ∷ code ∷ description ∷ [])
    | none ↦ elim (patterns.error_message cr.cause) [ some message ↦ message | none ↦ summary ]
  ]

  abbrev from_summary : CommandResults → String → String
  from_summary cr summary = elim (patterns.exception summary) [
    | some exception ↦ trim_spaces (replace_all exception "; nested exception is:" "")
    | none ↦ from_cause cr summary
  ]

  -- `Error`
  unfoldable pub failure_text : CommandResults → String
  failure_text cr =
      if not (failed cr)
      then ""
      else from_summary cr (patterns.unescape (patterns.without_tags cr.summary))

-- What a call of `Scan` does: it fills the destinations, or there is no row left, or Go panics on a
-- column that is missing.
pub data Scanned : Type 0 where
  filled : List String → CommandResults → Scanned
  finished : Scanned
  panics : Scanned

abbrev pub scan_columns : ℕ → List String → CommandResults → Scanned
scan_columns n cols cr =
    if leb n (length cols) then filled (take n cols) (record cr { pos = cr.pos + 1 }) else panics

abbrev pub scan_next : ℕ → List (List String) → CommandResults → Scanned
scan_next n [] cr = finished
scan_next n (cols ∷ more) cr = scan_columns n cols cr

abbrev pub scan_rows : ℕ → Option (List (List String)) → CommandResults → Scanned
scan_rows n none cr = finished
scan_rows n (some rows) cr = scan_next n (drop cr.pos rows) cr

-- `Scan` into `n` strings
unfoldable pub scan : ℕ → CommandResults → Scanned
scan n cr = if not (cr.result_type == "table") then finished else scan_rows n cr.rows cr
