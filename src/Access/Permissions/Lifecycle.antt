-- ===== src/Access/Permissions/Lifecycle.antt =====
-- access/resource_permissions.go: which field names the object, what is read into the state, and the
-- handlers of the resource `databricks_permissions`. The resource's data is its ID, its text fields,
-- its object type and its access control list; converting the list to and from the data is left to the
-- Terraform SDK.
use terraform_provider_datab.Base.{
  ◌≡◌, refl, String, ◌<>◌, Bool, true, false, not, ◌&&◌, ◌||◌, Option, none, some, List, [], ◌∷◌,
  if◌then◌else◌, ◌==◌, any, lookup, insert,
}
use terraform_provider_datab.Common.Errors.{other, error_text, is_missing, Result, ok, err}
use terraform_provider_datab.Common.Service.{Server, Call, pure, fail, send, ◌>>=◌, ◌>>◌, handle}
use terraform_provider_datab.Access.Permissions.{
  AccessControl, AccessControlChange, ObjectAcl, Request, me, read_status, Reply,
  to_access_control_change, update_permissions, read_permissions, delete_permissions,
}

pub record Mapping : Type 0 where
  pub field : String
  pub object_type : String
  pub resource_type : String
  pub allowed_permission_levels : List String
  -- Is the value a path, whose object is looked up?
  pub by_path : Bool

abbrev simple : String → String → String → List String → Mapping
simple field object_type resource_type levels = record {
  field = field;
  object_type = object_type;
  resource_type = resource_type;
  allowed_permission_levels = levels;
  by_path = false;
}

abbrev by_path_of : String → String → String → List String → Mapping
by_path_of field object_type resource_type levels =
    record (simple field object_type resource_type levels) { by_path = true }

abbrev files_levels : List String
files_levels = "CAN_READ" ∷ "CAN_RUN" ∷ "CAN_EDIT" ∷ "CAN_MANAGE" ∷ []

abbrev sql_levels : List String
sql_levels = "CAN_EDIT" ∷ "CAN_RUN" ∷ "CAN_MANAGE" ∷ []

-- `permissionsResourceIDFields`
abbrev pub permissions_resource_id_fields : List Mapping
permissions_resource_id_fields =
    simple "cluster_policy_id" "cluster-policy" "cluster-policies" ("CAN_USE" ∷ [])
    ∷ simple "instance_pool_id" "instance-pool" "instance-pools"
        ("CAN_ATTACH_TO" ∷ "CAN_MANAGE" ∷ [])
    ∷ simple "cluster_id" "cluster" "clusters" ("CAN_ATTACH_TO" ∷ "CAN_RESTART" ∷ "CAN_MANAGE" ∷ [])
    ∷ simple "job_id" "job" "jobs" ("CAN_VIEW" ∷ "CAN_MANAGE_RUN" ∷ "IS_OWNER" ∷ "CAN_MANAGE" ∷ [])
    ∷ simple "notebook_id" "notebook" "notebooks" files_levels
    ∷ by_path_of "notebook_path" "notebook" "notebooks" files_levels
    ∷ simple "directory_id" "directory" "directories" files_levels
    ∷ by_path_of "directory_path" "directory" "directories" files_levels
    ∷ simple "repo_id" "repo" "repos" files_levels
    ∷ simple "authorization" "tokens" "authorization" ("CAN_USE" ∷ [])
    ∷ simple "authorization" "passwords" "authorization" ("CAN_USE" ∷ [])
    ∷ simple "sql_endpoint_id" "endpoints" "sql/endpoints" ("CAN_USE" ∷ "CAN_MANAGE" ∷ [])
    ∷ simple "sql_dashboard_id" "dashboard" "sql/dashboards" sql_levels
    ∷ simple "sql_alert_id" "alert" "sql/alerts" sql_levels
    ∷ simple "sql_query_id" "query" "sql/queries" sql_levels
    ∷ []

pub record ResourceData : Type 0 where
  pub id : String
  pub fields : List (String × String)
  pub object_type : String
  pub access_control : List AccessControlChange

-- `d.GetOk(field)`: a field that is not set, or empty, gives nothing.
abbrev pub get_ok : List (String × String) → String → Option String
get_ok fields name = elim (lookup name fields) [
  | none ↦ none
  | some v ↦ if v == "" then none else some v
]

-- The last element of a path so far; `ended` says that a slash has been read after it.
unfoldable pub base_name_from : String → Bool → String → String
base_name_from name ended String.[] = name
base_name_from name ended (String.◌∷◌ c s) =
    let is_slash = String.◌∷◌ c String.[] == "/" in
    let so_far = if ended then "" else name in
    base_name_from (if is_slash then name else so_far <> String.◌∷◌ c String.[]) is_slash s

abbrev or_slash : String → String
or_slash name = if name == "" then "/" else name

-- `path.Base`
abbrev pub base_name : String → String
base_name s = if s == "" then "." else or_slash (base_name_from "" false s)

base_name_tests :
    (base_name "/clusters/7" ≡ "7") × (base_name "/a/b/" ≡ "b") × (base_name "//" ≡ "/")
unfolding base_name_from
base_name_tests = (refl, refl, refl)

-- The first loop of `ToPermissionsEntity`.
unfoldable pub modifiable : String → String → List AccessControl → List AccessControlChange
modifiable id my_name [] = []
modifiable id my_name (ac ∷ more) =
    let rest = modifiable id my_name more in
    if ac.group_name == "admins" && not (id == "/authorization/passwords")
    then rest
    else if my_name == ac.user_name || my_name == ac.service_principal_name
    then rest
    else elim (to_access_control_change ac) [ some change ↦ change ∷ rest | none ↦ rest ]

abbrev first_mapping : String → List Mapping → Option Mapping
first_mapping object_type [] = none
first_mapping object_type (m ∷ more) =
    if m.object_type == object_type then some m else first_mapping object_type more

-- The second loop: the field that names the object is set, unless the object is named by its path.
abbrev named_by : Option Mapping → ObjectAcl → ResourceData → Result ResourceData
named_by none oa d = err (other ("unknown object type " <> oa.object_type))
named_by (some m) oa d = elim (get_ok d.fields (m.object_type <> "_path")) [
  | some path ↦ ok (record d { object_type = m.object_type })
  | none ↦ ok (record d {
    object_type = m.object_type;
    fields = insert m.field (base_name oa.object_id) d.fields;
  })
]

-- `ToPermissionsEntity` and the copy into the data.
unfoldable pub to_permissions_entity : ObjectAcl → ResourceData → String → Result ResourceData
to_permissions_entity oa d my_name =
    named_by (first_mapping oa.object_type permissions_resource_id_fields) oa
      (record d { access_control = modifiable d.id my_name oa.access_control_list })

abbrev is_empty : List AccessControlChange → Bool
is_empty [] = true
is_empty (c ∷ more) = false

abbrev without_id : ResourceData → ResourceData
without_id d = record d { id = "" }

abbrev stored : ResourceData → Result ResourceData → Call Request ResourceData
stored d (err e) = fail e
stored d (ok d') = if is_empty d'.access_control then pure (without_id d) else pure d'

-- `stringInSlice`
abbrev pub string_in_slice : String → List String → Bool
string_in_slice a list = any (λ b. b == a) list

-- The inner loop of `CustomizeDiff`, over the access controls.
unfoldable pub check_controls : Mapping → String → List AccessControlChange → Result (Unit {0})
check_controls m my_name [] = ok tt
check_controls m my_name (c ∷ more) =
    if not (string_in_slice c.permission_level m.allowed_permission_levels)
    then err (
        other (
          "permission_level "
          <> (c.permission_level <> (" is not supported with " <> (m.field <> " objects")))))
    else if c.user_name == my_name
    then err (
        other (
          "it is not possible to decrease administrative permissions for the current user: "
          <> my_name))
    else check_controls m my_name more

-- The outer loop, over the mappings whose field is set.
unfoldable pub check_mappings : List Mapping → String → ResourceData → Result (Unit {0})
check_mappings [] my_name d = ok tt
check_mappings (m ∷ more) my_name d = elim (get_ok d.fields m.field) [
  | none ↦ check_mappings more my_name d
  | some v ↦ elim (check_controls m my_name d.access_control) [
    | err e ↦ err e
    | ok _ ↦ check_mappings more my_name d
  ]
]

module _ (server : Server Request Reply) where
  -- `readContext`
  unfoldable pub read_context : ResourceData → Call Request ResourceData
  read_context d = handle (read_permissions server d.id) (λ r. elim r [
    | err e ↦ if is_missing e then pure (without_id d) else fail e
    | ok oa ↦ send server me >>= (λ my_name. stored d (to_permissions_entity oa d my_name))
  ])

  -- `idRetriever`
  abbrev retrieve_id : Mapping → String → Call Request String
  retrieve_id m v =
      if m.by_path
      then handle (send server (read_status v)) (λ r. elim r [
        | ok id ↦ pure id
        | err e ↦ fail (other ("Cannot load path " <> (v <> (": " <> error_text e))))
      ])
      else pure v

  abbrev create_as : Mapping → ResourceData → String → Call Request ResourceData
  create_as m d v = retrieve_id m v >>= λ id.
      let object_id = "/" <> (m.resource_type <> ("/" <> id)) in
      update_permissions server object_id d.access_control
      >> read_context (record d { id = object_id })

  -- The loop of `CreateContext`.
  unfoldable pub create_from : List Mapping → ResourceData → Call Request ResourceData
  create_from [] d = fail (other "At least one type of resource identifiers must be set")
  create_from (m ∷ more) d = elim (get_ok d.fields m.field) [
    | none ↦ create_from more d
    | some v ↦ create_as m d v
  ]

  -- `CreateContext`
  abbrev pub create_context : ResourceData → Call Request ResourceData
  create_context d = create_from permissions_resource_id_fields d

  -- `UpdateContext`
  abbrev pub update_context : ResourceData → Call Request ResourceData
  update_context d = update_permissions server d.id d.access_control >> read_context d

  -- `DeleteContext`
  unfoldable pub delete_context : ResourceData → Call Request (Unit {0})
  delete_context d =
      handle (delete_permissions server d.id)
        (λ r. elim r [ ok _ ↦ pure tt | err e ↦ if is_missing e then pure tt else fail e ])

  -- `CustomizeDiff`, for a client with the given host.
  unfoldable pub customize_diff : String → ResourceData → Call Request (Unit {0})
  customize_diff host d =
      if host == ""
      then pure tt
      else send server me
        >>= (λ my_name log. (check_mappings permissions_resource_id_fields my_name d, log))
