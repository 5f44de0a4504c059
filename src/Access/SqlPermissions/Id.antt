-- ===== src/Access/SqlPermissions/Id.antt =====
-- The resource ID and the object that it is read back as.
use Prim.Native.Char.{Char}
use text.Mathlib.TextLemmas.{nil-append, cons-append, append-nil}
use terraform_provider_datab.Base.{
  ◌≡◌, refl, sym, ◌∙◌, ap, String, ◌<>◌, true, false, Option, none, some, arith, ◌==◌, Bool-cases,
  inl, inr, Free, cut, cut_first, replace_from, replace_all, remove_plain, remove_here,
  if◌then◌else◌, equal_fold, subst,
}
use terraform_provider_datab.Common.Errors.{ok}
use terraform_provider_datab.Access.SqlPermissions.{
  SqlPermissions, no_permissions, ObjectType, table, view, database, catalog, any_file,
  anonymous_function, actual_database, quoted_key, type_and_key, id_of, sql_permissions_id,
  load_table, load_view, load_kind, load_parts, load_table_acl,
}

abbrev tick : Char
tick = "`"

abbrev slash : Char
slash = "/"

abbrev dot : Char
dot = "."

-- The names hold no backtick, and the database holds no dot.
pub record HasPlainNames (ta : SqlPermissions) : Type 0 where
  pub database : Free b'`' ta.database
  pub undotted : Free b'.' ta.database
  pub table : Free b'`' ta.table
  pub view : Free b'`' ta.view

tick_append : (s : String) → "`" <> s ≡ String.◌∷◌ tick s
tick_append s = cons-append tick "" s ∙ ap (String.◌∷◌ tick) (nil-append s)

slash_append : (s : String) → "/" <> s ≡ String.◌∷◌ slash s
slash_append s = cons-append slash "" s ∙ ap (String.◌∷◌ slash) (nil-append s)

dot_append : (s : String) → "." <> s ≡ String.◌∷◌ dot s
dot_append s = cons-append dot "" s ∙ ap (String.◌∷◌ dot) (nil-append s)

between_append : (s : String) → "`.`" <> s ≡ String.◌∷◌ tick ("." <> String.◌∷◌ tick s)
between_append s =
    cons-append tick ".`" s
    ∙ ap (String.◌∷◌ tick)
        (cons-append dot "`" s ∙ ap (String.◌∷◌ dot) (tick_append s) ∙ sym (dot_append _))

abbrev strip : String → String
strip s = replace_from "`" "" s 0

strip_end : (name : String) → Free b'`' name → strip (name <> "`") ≡ name
unfolding replace_from
strip_end name h =
    remove_plain tick name "`" h ∙ ap (λ t. name <> t) (remove_here tick "") ∙ append-nil name

strip-quoted_key :
    (db name : String)
    → Free b'`' db
    → Free b'`' name
    → strip (quoted_key db name) ≡ db <> (String.◌∷◌ dot name)
strip-quoted_key db name h k =
    ap strip (tick_append (db <> ("`.`" <> (name <> "`"))))
    ∙ remove_here tick (db <> ("`.`" <> (name <> "`")))
    ∙ remove_plain tick db ("`.`" <> (name <> "`")) h
    ∙ ap (λ t. db <> t)
        (ap strip (between_append (name <> "`"))
          ∙ remove_here tick ("." <> String.◌∷◌ tick (name <> "`"))
          ∙ remove_plain tick "." (String.◌∷◌ tick (name <> "`")) (omega arith, tt)
          ∙ ap (λ t. "." <> t) (remove_here tick (name <> "`") ∙ strip_end name k)
          ∙ dot_append name)

cut-id : (kind key : String) → Free b'/' kind → cut "/" (kind <> ("/" <> key)) ≡ some (kind, key)
cut-id kind key h = ap (λ t. cut "/" (kind <> t)) (slash_append key) ∙ cut_first slash kind key h

-- What `loadTableACL` makes of an ID with a documented kind.
load_id :
    (kind key : String)
    → Free b'/' kind
    → load_table_acl (kind <> ("/" <> key)) ≡ load_kind kind key
unfolding load_table_acl
load_id kind key h = ap (load_parts (kind <> ("/" <> key))) (cut-id kind key h)

load_kind_table : (rest : String) → load_kind "table" rest ≡ load_table (cut "." rest)
unfolding equal_fold
load_kind_table rest = refl

load_kind_view : (rest : String) → load_kind "view" rest ≡ load_view (cut "." rest)
unfolding equal_fold
load_kind_view rest = refl

module _ (db name : String) (plain : Free b'`' db) (undotted : Free b'.' db)
    (k : Free b'`' name) where
  loads_table :
      load_table_acl (id_of (some (table, quoted_key db name)))
      ≡ ok (record no_permissions { database = db; table = name })
  unfolding replace_all
  loads_table =
      load_id "table" _ (omega arith)
      ∙ ap (load_kind "table") (strip-quoted_key db name plain k)
      ∙ load_kind_table _
      ∙ ap load_table (cut_first dot db name undotted)

  loads_view :
      load_table_acl (id_of (some (view, quoted_key db name)))
      ≡ ok (record no_permissions { database = db; view = name })
  unfolding replace_all
  loads_view =
      load_id "view" _ (omega arith)
      ∙ ap (load_kind "view") (strip-quoted_key db name plain k)
      ∙ load_kind_view _
      ∙ ap load_view (cut_first dot db name undotted)

loads_database :
    (db : String)
    → Free b'`' db
    → load_table_acl (id_of (some (database, db))) ≡ ok (record no_permissions { database = db })
unfolding replace_all equal_fold
loads_database db h =
    load_id "database" _ (omega arith)
    ∙ ap (load_kind "database")
        (ap strip (sym (append-nil db)) ∙ remove_plain tick db "" h ∙ append-nil db)

loads_catalog :
    load_table_acl (id_of (some (catalog, ""))) ≡ ok (record no_permissions { catalog = true })
unfolding replace_all equal_fold
loads_catalog = load_id "catalog" "" (omega arith)

loads_any_file :
    load_table_acl (id_of (some (any_file, ""))) ≡ ok (record no_permissions { any_file = true })
unfolding replace_all equal_fold
loads_any_file = load_id "any file" "" (omega arith)

loads_anonymous_function :
    load_table_acl (id_of (some (anonymous_function, "")))
    ≡ ok (record no_permissions { anonymous_function = true })
unfolding replace_all equal_fold
loads_anonymous_function = load_id "anonymous function" "" (omega arith)

-- What is read back from an ID is the object.
abbrev ReadsBack : Option (ObjectType × String) → Type 0
ReadsBack none = Unit
ReadsBack (some (ty, key)) =
    (loaded : SqlPermissions) × (load_table_acl (id_of (some (ty, key))) ≡ ok loaded)
    × (type_and_key loaded ≡ some (ty, key))

actual_database-plain : (ta : SqlPermissions) → HasPlainNames ta → Free b'`' (actual_database ta)
actual_database-plain ta h = elim (Bool-cases (ta.database == "")) [
  | inl e ↦ rw e (omega arith)
  | inr e ↦ rw e h.database
]

actual_database-undotted : (ta : SqlPermissions) → HasPlainNames ta → Free b'.' (actual_database ta)
actual_database-undotted ta h = elim (Bool-cases (ta.database == "")) [
  | inl e ↦ rw e (omega arith)
  | inr e ↦ rw e h.undotted
]

actual_database-ne : (ta : SqlPermissions) → (actual_database ta == "") ≡ false
actual_database-ne ta = elim (Bool-cases (ta.database == "")) [ inl e ↦ rw e refl | inr e ↦ rw e e ]

module _ (db name : String) (named : (name == "") ≡ false) (in_db : (db == "") ≡ false) where
  type_and_key_table :
      type_and_key (record no_permissions { database = db; table = name })
      ≡ some (table, quoted_key db name)
  unfolding type_and_key
  type_and_key_table = rw (named, in_db)

  type_and_key_view :
      type_and_key (record no_permissions { database = db; view = name })
      ≡ some (view, quoted_key db name)
  unfolding type_and_key
  type_and_key_view = rw (named, in_db)

type_and_key_database :
    (db : String)
    → (db == "") ≡ false
    → type_and_key (record no_permissions { database = db }) ≡ some (database, db)
unfolding type_and_key
type_and_key_database db e = rw e

ReadsBack-flags :
    (ta : SqlPermissions)
    → ReadsBack (
        if ta.catalog
        then some (catalog, "")
        else if ta.any_file
        then some (any_file, "")
        else if ta.anonymous_function
        then some (anonymous_function, "")
        else none)
unfolding type_and_key
ReadsBack-flags ta = elim (Bool-cases ta.catalog) [
  | inl c ↦ rw c (_, loads_catalog, refl)
  | inr c ↦ elim (Bool-cases ta.any_file) [
    | inl f ↦ rw (c, f) (_, loads_any_file, refl)
    | inr f ↦ elim (Bool-cases ta.anonymous_function) [
      | inl a ↦ rw (c, f, a) (_, loads_anonymous_function, refl)
      | inr a ↦ rw (c, f, a) tt
    ]
  ]
]

reads_back : (ta : SqlPermissions) → HasPlainNames ta → ReadsBack (type_and_key ta)
unfolding type_and_key
reads_back ta h =
    let plain = actual_database-plain ta h in
    let undotted = actual_database-undotted ta h in
    let in_db = actual_database-ne ta in
    elim (Bool-cases (ta.table == "")) [
      | inr t ↦ rw t (
        _,
        loads_table (actual_database ta) ta.table plain undotted h.table,
        type_and_key_table (actual_database ta) ta.table t in_db,
      )
      | inl t ↦ elim (Bool-cases (ta.view == "")) [
        | inr v ↦
            rw (t, v)
              (
                _,
                loads_view (actual_database ta) ta.view plain undotted h.view,
                type_and_key_view (actual_database ta) ta.view v in_db,
              )
        | inl v ↦ elim (Bool-cases (ta.database == "")) [
          | inr d ↦
              rw (t, v, d)
                (_, loads_database ta.database h.database, type_and_key_database ta.database d)
          | inl d ↦ rw (t, v, d) (ReadsBack-flags ta)
        ]
      ]
    ]

-- For an object whose names hold no backtick and whose database holds no dot, the resource ID is read
-- back by `loadTableACL` without an error, as an object of the same type and the same key.
pub load_table_acl-sql_permissions_id :
    (ta : SqlPermissions) (ty : ObjectType) (key : String)
    → HasPlainNames ta
    → type_and_key ta ≡ some (ty, key)
    → (loaded : SqlPermissions) × (load_table_acl (sql_permissions_id ta) ≡ ok loaded)
      × (type_and_key loaded ≡ some (ty, key))
unfolding sql_permissions_id
load_table_acl-sql_permissions_id ta ty key h e =
    let (loaded, l, k) = subst ReadsBack e (reads_back ta h) in
    (loaded, ap (λ o. load_table_acl (id_of o)) e ∙ l, k)
