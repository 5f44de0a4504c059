-- ===== src/Access/SqlPermissions.antt =====
-- access/resource_sql_permissions.go: table access control by SQL statements. Starting the cluster
-- that runs them is left out. The command executor is a parameter: it answers a statement from the
-- statements run before it, the newest at the head.
pub mod Id
pub mod Assigned
pub mod Grants
pub mod Statements
use terraform_provider_datab.Base.{
  ℕ, String, ◌<>◌, Bool, true, false, not, ◌&&◌, ◌||◌, Option, none, some, List, [], ◌∷◌, ◌++◌,
  if◌then◌else◌, ◌==◌, join, contains, has_prefix, equal_fold, cut, replace_all,
}
use terraform_provider_datab.Common.Errors.{Error, other, not_found, Result, ok, err}
use terraform_provider_datab.Common.Service.{Call, pure, fail, ◌>>=◌, ◌>>◌}

pub record PrivilegeAssignment : Type 0 where
  pub principal : String
  pub privileges : List String

pub record SqlPermissions : Type 0 where
  pub table : String
  pub view : String
  pub database : String
  pub catalog : Bool
  pub any_file : Bool
  pub anonymous_function : Bool
  pub cluster_id : String
  pub privilege_assignments : List PrivilegeAssignment

-- `SqlPermissions{}`
abbrev pub no_permissions : SqlPermissions
no_permissions = record {
  table = "";
  view = "";
  database = "";
  catalog = false;
  any_file = false;
  anonymous_function = false;
  cluster_id = "";
  privilege_assignments = [];
}

-- The types that `typeAndKey` returns, as texts and in lower case.
pub data ObjectType : Type 0 where
  table view database catalog any_file anonymous_function : ObjectType

abbrev pub type_text : ObjectType → String
type_text table = "TABLE"
type_text view = "VIEW"
type_text database = "DATABASE"
type_text catalog = "CATALOG"
type_text any_file = "ANY FILE"
type_text anonymous_function = "ANONYMOUS FUNCTION"

abbrev pub lower_text : ObjectType → String
lower_text table = "table"
lower_text view = "view"
lower_text database = "database"
lower_text catalog = "catalog"
lower_text any_file = "any file"
lower_text anonymous_function = "anonymous function"

abbrev pub actual_database : SqlPermissions → String
actual_database ta = if ta.database == "" then "default" else ta.database

abbrev pub quoted_key : String → String → String
quoted_key db name = "`" <> (db <> ("`.`" <> (name <> "`")))

-- `typeAndKey`; nothing where Go returns two empty texts.
unfoldable pub type_and_key : SqlPermissions → Option (ObjectType × String)
type_and_key ta =
    if not (ta.table == "")
    then some (table, quoted_key (actual_database ta) ta.table)
    else if not (ta.view == "")
    then some (view, quoted_key (actual_database ta) ta.view)
    else if not (ta.database == "")
    then some (database, ta.database)
    else if ta.catalog
    then some (catalog, "")
    else if ta.any_file
    then some (any_file, "")
    else if ta.anonymous_function
    then some (anonymous_function, "")
    else none

abbrev pub id_of : Option (ObjectType × String) → String
id_of none = ""
id_of (some (ty, key)) = lower_text ty <> ("/" <> replace_all key "`" "")

-- `ID`
unfoldable pub sql_permissions_id : SqlPermissions → String
sql_permissions_id ta = id_of (type_and_key ta)

abbrev pub load_view : Option (String × String) → Result SqlPermissions
load_view none = err (other "view must have two elements")
load_view (some (db, name)) = ok (record no_permissions { database = db; view = name })

abbrev pub load_table : Option (String × String) → Result SqlPermissions
load_table none = err (other "table must have two elements")
load_table (some (db, name)) = ok (record no_permissions { database = db; table = name })

abbrev pub load_kind : String → String → Result SqlPermissions
load_kind kind rest =
    if equal_fold kind "database"
    then ok (record no_permissions { database = rest })
    else if equal_fold kind "view"
    then load_view (cut "." rest)
    else if equal_fold kind "table"
    then load_table (cut "." rest)
    else if equal_fold kind "catalog"
    then ok (record no_permissions { catalog = true })
    else if equal_fold kind "any file"
    then ok (record no_permissions { any_file = true })
    else if equal_fold kind "anonymous function"
    then ok (record no_permissions { anonymous_function = true })
    else err (other ("illegal ID type: " <> kind))

abbrev pub load_parts : String → Option (String × String) → Result SqlPermissions
load_parts id none = err (other ("ID must be two elements: " <> id))
load_parts id (some (kind, rest)) = load_kind kind rest

-- `loadTableACL`
unfoldable pub load_table_acl : String → Result SqlPermissions
load_table_acl id = load_parts id (cut "/" id)

-- A row of the answer to `SHOW GRANT`.
pub record GrantRow : Type 0 where
  pub principal : String
  pub action : String
  pub object_type : String
  pub object_key : String

-- Adds an action to the last assignment of the principal; nothing where there is no such assignment.
unfoldable pub add_to_last :
    String → String → List PrivilegeAssignment → Option (List PrivilegeAssignment)
add_to_last principal action [] = none
add_to_last principal action (a ∷ more) = elim (add_to_last principal action more) [
  | some more' ↦ some (a ∷ more')
  | none ↦
      if a.principal == principal
      then some (record a { privileges = a.privileges ++ action ∷ [] } ∷ more)
      else none
]

abbrev pub or_new :
    String
    → String
    → List PrivilegeAssignment
    → Option (List PrivilegeAssignment)
    → List PrivilegeAssignment
or_new principal action old (some assignments) = assignments
or_new principal action old none =
    old ++ (record { principal = principal; privileges = action ∷ [] }) ∷ []

unfoldable pub add_privilege : String → String → List PrivilegeAssignment → List PrivilegeAssignment
add_privilege principal action old = or_new principal action old (add_to_last principal action old)

-- Is the row about this object, and an action that is kept?
unfoldable pub is_relevant : ObjectType → String → GrantRow → Bool
unfolding equal_fold has_prefix
is_relevant ty key row =
    let is_catalog = row.object_type == "CATALOG$" in
    let current_type = if is_catalog then "CATALOG" else row.object_type in
    let current_key = if is_catalog then "" else row.object_key in
    if not (equal_fold current_type (type_text ty))
    then false
    else if not (equal_fold current_key key)
    then false
    else if has_prefix row.action "DENIED_"
    then false
    else if row.action == "OWN"
    then false
    else true

-- The loop of `read` over the rows.
unfoldable pub collect_grants :
    ObjectType → String → List PrivilegeAssignment → List GrantRow → List PrivilegeAssignment
collect_grants ty key found [] = found
collect_grants ty key found (row ∷ rows) =
    collect_grants ty key
      (if is_relevant ty key row then add_privilege row.principal row.action found else found) rows

pub record Statement : Type 0 where
  pub cluster_id : String
  pub language : String
  pub command : String

-- `CommandResults`: a failure with its text, or the rows.
pub data CommandResults : Type 0 where
  failed : String → CommandResults
  succeeded : List GrantRow → CommandResults

abbrev pub Executor : Type 0
Executor = List Statement → Statement → CommandResults

abbrev pub sql : SqlPermissions → String → Statement
sql ta command = record { cluster_id = ta.cluster_id; language = "sql"; command = command }

abbrev pub show_grant : SqlPermissions → ObjectType → String → Statement
show_grant ta ty key = sql ta ("SHOW GRANT ON " <> (type_text ty <> (" " <> key)))

abbrev pub revoke_all : SqlPermissions → ObjectType → String → PrivilegeAssignment → Statement
revoke_all ta ty key a = sql ta (
    "REVOKE ALL PRIVILEGES ON "
    <> (type_text ty <> (" " <> (key <> (" FROM `" <> (a.principal <> "`"))))))

abbrev pub grant : SqlPermissions → ObjectType → String → PrivilegeAssignment → Statement
grant ta ty key a = sql ta (
    "GRANT "
    <> (join ", " a.privileges
        <> (" ON " <> (type_text ty <> (" " <> (key <> (" TO `" <> (a.principal <> "`"))))))))

module _ (executor : Executor) where
  abbrev pub execute : Statement → Call Statement CommandResults
  execute s log = (ok (executor log s), s ∷ log)

  abbrev pub read_failure : String → Error
  read_failure text =
      if contains text "does not exist" || contains text "RESOURCE_DOES_NOT_EXIST"
      then not_found text
      else other ("cannot read current grants: " <> text)

  abbrev pub read_rows :
      SqlPermissions → ObjectType → String → CommandResults → Call Statement SqlPermissions
  read_rows ta ty key (failed text) = fail (read_failure text)
  read_rows ta ty key (succeeded rows) =
      pure (record ta { privilege_assignments = collect_grants ty key [] rows })

  abbrev pub read_object :
      SqlPermissions → Option (ObjectType × String) → Call Statement SqlPermissions
  read_object ta none = fail (other "invalid ID")
  read_object ta (some (ty, key)) = execute (show_grant ta ty key) >>= read_rows ta ty key

  -- `read`
  unfoldable pub read_permissions : SqlPermissions → Call Statement SqlPermissions
  read_permissions ta = read_object ta (type_and_key ta)

  abbrev pub check_done : Statement → CommandResults → Call Statement (Unit {0})
  check_done s (succeeded rows) = pure tt
  check_done s (failed text) = fail (other ("cannot execute " <> (s.command <> (": " <> text))))

  abbrev pub apply_object :
      (ObjectType → String → Statement) → Option (ObjectType × String) → Call Statement (Unit {0})
  apply_object qb none = fail (other "invalid ID")
  apply_object qb (some (ty, key)) = execute (qb ty key) >>= check_done (qb ty key)

  -- `apply`
  unfoldable pub apply_statement :
      SqlPermissions → (ObjectType → String → Statement) → Call Statement (Unit {0})
  apply_statement ta qb = apply_object qb (type_and_key ta)

  -- The loops of `revoke` and `enforce` over assignments.
  unfoldable pub apply_each :
      SqlPermissions
      → (PrivilegeAssignment → ObjectType → String → Statement)
      → List PrivilegeAssignment
      → Call Statement (Unit {0})
  apply_each ta qb [] = pure tt
  apply_each ta qb (a ∷ more) = apply_statement ta (qb a) >> apply_each ta qb more

  abbrev pub revoke_existing : SqlPermissions → Result SqlPermissions → Call Statement (Unit {0})
  revoke_existing ta (err e) = fail e
  revoke_existing ta (ok loaded) = do
    existing ← read_permissions (record loaded { cluster_id = ta.cluster_id })
    apply_each ta (λ a ty key. revoke_all ta ty key a) existing.privilege_assignments

  -- `revoke`
  unfoldable pub revoke : SqlPermissions → Call Statement (Unit {0})
  revoke ta = revoke_existing ta (load_table_acl (sql_permissions_id ta))

  -- `enforce`
  unfoldable pub enforce : SqlPermissions → Call Statement (Unit {0})
  enforce ta = revoke ta >> apply_each ta (λ a ty key. grant ta ty key a) ta.privilege_assignments
