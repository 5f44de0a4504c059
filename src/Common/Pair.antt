-- ===== src/Common/Pair.antt =====
-- common/pair.go: the IDs that hold two names. The data of a resource is its ID and its attributes,
-- each as the text that `%v` prints; `strconv.ParseInt` of the Go library is a parameter, which gives
-- the number as that text. The functions of a `BindResource` are requests to one service: all the
-- callers of `BindResource` leave both attributes as strings.
pub mod Packing
use terraform_provider_datab.Base.{
  String, ◌<>◌, Bool, true, false, Option, none, some, List, [], if◌then◌else◌, ◌==◌, cut, lookup,
  insert,
}
use terraform_provider_datab.Common.Errors.{Error, other, Result, ok, err}
use terraform_provider_datab.Common.Service.{Server, Call, pure, fail, send, ◌>>=◌, ◌>>◌}

pub record Pair : Type 0 where
  pub left : String
  pub right : String
  pub separator : String
  -- Is the type of the right attribute in the schema `TypeInt`?
  pub right_is_int : Bool

-- `NewPairSeparatedID`
abbrev pub new_pair_separated_id : String → String → String → Pair
new_pair_separated_id left right separator = record {
  left = left;
  right = right;
  separator = separator;
  right_is_int = false;
}

-- `NewPairID`
abbrev pub new_pair_id : String → String → Pair
new_pair_id left right = new_pair_separated_id left right "|"

pub record ResourceData : Type 0 where
  pub id : String
  pub attributes : List (String × String)

-- `d.Get(name)` of an attribute.
abbrev pub get : ResourceData → String → String
get d name = elim (lookup name d.attributes) [ none ↦ "" | some v ↦ v ]

abbrev pub set : ResourceData → String → String → ResourceData
set d name v = record d { attributes = insert name v d.attributes }

abbrev pub set_id : ResourceData → String → ResourceData
set_id d id = record d { id = id }

abbrev pub invalid : ResourceData → String → Result (String × String) × ResourceData
invalid d text = (err (other text), set_id d "")

-- `Pack`
abbrev pub pack : Pair → ResourceData → ResourceData
pack p d = set_id d (get d p.left <> (p.separator <> get d p.right))

pub data Request : Type 0 where
  read_context create_context delete_context : (left right : String) → Request

abbrev pub Reply : Request → Type 0
Reply r = Unit

module _ (parse_int : String → Result String) where
  abbrev set_right : Pair → ResourceData → String → String → Result (String × String) × ResourceData
  set_right p d l r =
      if p.right_is_int
      then elim (parse_int r) [
        | err e ↦ (err e, set d p.left l)
        | ok n ↦ (ok (l, r), set (set d p.left l) p.right n)
      ]
      else (ok (l, r), set (set d p.left l) p.right r)

  abbrev pub unpack_parts :
      Pair → ResourceData → Option (String × String) → Result (String × String) × ResourceData
  unpack_parts p d none = invalid d ("invalid ID: " <> d.id)
  unpack_parts p d (some (l, r)) =
      if l == ""
      then invalid d (p.left <> " cannot be empty")
      else if r == ""
      then invalid d (p.right <> " cannot be empty")
      else set_right p d l r

  -- `Unpack`: its results, and the data that it has changed.
  unfoldable pub unpack : Pair → ResourceData → Result (String × String) × ResourceData
  unpack p d = unpack_parts p d (cut p.separator d.id)

  module _ (server : Server Request Reply) where
    abbrev pub unpacked :
        {A : Type 0}
        → Result (String × String) × ResourceData
        → (String → String → ResourceData → Call Request A)
        → Call Request A
    unpacked (err e, d) f = fail e
    unpacked (ok (l, r), d) f = f l r d

    -- The `Read` of `BindResource`.
    unfoldable pub read_binding : Pair → ResourceData → Call Request ResourceData
    read_binding p d = unpacked (unpack p d) (λ l r d'. send server (read_context l r) >> pure d')

    -- The `Create` of `BindResource`.
    unfoldable pub create_binding : Pair → ResourceData → Call Request ResourceData
    create_binding p d =
        if get d p.left == ""
        then fail (other (p.left <> " cannot be empty"))
        else if get d p.right == ""
        then fail (other (p.right <> " cannot be empty"))
        else send server (create_context (get d p.left) (get d p.right)) >> pure (pack p d)

    -- The `Delete` of `BindResource`.
    unfoldable pub delete_binding : Pair → ResourceData → Call Request (Unit {0})
    delete_binding p d = unpacked (unpack p d) (λ l r d'. send server (delete_context l r))
