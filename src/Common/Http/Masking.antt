-- ===== src/Common/Http/Masking.antt =====
-- common/http.go: what of a request or a response is written to the log. A value of JSON is an object,
-- a text, an array, or a scalar, which is kept as its text; the map of an object is its list of fields.
-- The JSON library and `%d` are parameters. A text is measured in its characters: they are its bytes,
-- if it is ASCII.
pub mod Redaction
pub mod Length
use Prim.Native.String
use terraform_provider_datab.Base.{
  ℕ, zero, suc, ◌-◌, String, ◌<>◌, count, Bool, true, false, ◌||◌, Option, none, some,
  if◌then◌else◌, ◌==◌, ltb,
}

mutual
  pub data Json : Type 0 where
    object : Fields → Json
    text : String → Json
    array : Items → Json
    scalar : String → Json

  pub data Fields : Type 0 where
    no_fields : Fields
    field : String → Json → Fields → Fields

  pub data Items : Type 0 where
    no_items : Items
    item : Json → Items → Items

-- `j[:n]`
unfoldable pub take_chars : ℕ → String → String
take_chars zero s = ""
take_chars (suc n) String.[] = ""
take_chars (suc n) (String.◌∷◌ c s) = String.◌∷◌ c (take_chars n s)

abbrev pub redacted : Json
redacted = text "**REDACTED**"

abbrev pub is_secret : String → Bool
is_secret k = k == "string_value" || (k == "token_value" || k == "content")

module _ (show : ℕ → String) where
  abbrev pub more_bytes : ℕ → String
  more_bytes diff = "... (" <> (show diff <> " more bytes)")

  -- `onlyNBytes`
  unfoldable pub only_n_bytes : String → ℕ → String
  only_n_bytes j num_bytes =
      if ltb num_bytes (count j)
      then take_chars num_bytes j <> more_bytes (count j - num_bytes)
      else j

  -- `recursiveMask`, for a client with this `DebugTruncateBytes`
  unfoldable mutual
    pub mask_value : ℕ → Json → Json
    mask_value n (object fields) = object (recursive_mask n fields)
    mask_value n (text s) = text (only_n_bytes s n)
    mask_value n (array items) = array items
    mask_value n (scalar s) = scalar s

    pub recursive_mask : ℕ → Fields → Fields
    recursive_mask n no_fields = no_fields
    recursive_mask n (field k v more) =
        let masked = mask_value n v in
        let rest = recursive_mask n more in field k (if is_secret k then redacted else masked) rest

  abbrev pub max_bytes : ℕ → ℕ
  max_bytes n = if ltb 1024 n then n else 1024

  abbrev dump : (Fields → String) → ℕ → Option Fields → String
  dump print n none = ""
  dump print n (some request_map) =
      only_n_bytes (print (recursive_mask n request_map)) (max_bytes n)

  -- `redactedDump`; `print` is `MarshalIndent`, which does not fail on a map of JSON values.
  unfoldable pub redacted_dump : (String → Option Fields) → (Fields → String) → ℕ → String → String
  redacted_dump unmarshal print n body = if body == "" then "" else dump print n (unmarshal body)
