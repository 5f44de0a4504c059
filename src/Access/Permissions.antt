-- ===== src/Access/Permissions.antt =====
-- access/resource_permissions.go: the permissions of workspace objects. The requests of the
-- Permissions API, of the SCIM call `Me`, of the Jobs API and of the workspace's status call go to one
-- remote service.
pub mod Ownership
pub mod Reading
pub mod Lifecycle
use terraform_provider_datab.Base.{
  ℕ, zero, suc, String, ◌<>◌, Bool, true, false, not, ◌&&◌, ◌||◌, Option, none, some, List, [], ◌∷◌,
  ◌++◌, if◌then◌else◌, ◌==◌, has_prefix, drop_chars, replace_all, any, count,
}
use terraform_provider_datab.Common.Errors.{
  Error, ApiError, api, other, error_text, is_missing, Result, ok, err,
}
use terraform_provider_datab.Common.Service.{
  Server, Call, pure, fail, send, ◌>>=◌, ◌>>◌, handle, handle_result,
}

pub record Permission : Type 0 where
  pub permission_level : String
  pub inherited : Bool

pub record AccessControl : Type 0 where
  pub user_name : String
  pub group_name : String
  pub service_principal_name : String
  pub all_permissions : List Permission
  pub permission_level : String

pub record AccessControlChange : Type 0 where
  pub user_name : String
  pub group_name : String
  pub service_principal_name : String
  pub permission_level : String

pub record ObjectAcl : Type 0 where
  pub object_id : String
  pub object_type : String
  pub access_control_list : List AccessControl

abbrev pub change_with : AccessControl → String → AccessControlChange
change_with ac level = record {
  user_name = ac.user_name;
  group_name = ac.group_name;
  service_principal_name = ac.service_principal_name;
  permission_level = level;
}

-- The loop of `toAccessControlChange`: the first permission that is not inherited.
abbrev pub first_direct : List Permission → Option String
first_direct [] = none
first_direct (p ∷ more) = if p.inherited then first_direct more else some p.permission_level

abbrev pub top_level : AccessControl → Option AccessControlChange
top_level ac =
    if not (ac.permission_level == "") then some (change_with ac ac.permission_level) else none

-- `toAccessControlChange`; nothing where its second result is false.
unfoldable pub to_access_control_change : AccessControl → Option AccessControlChange
to_access_control_change ac = elim (first_direct ac.all_permissions) [
  | some level ↦ some (change_with ac level)
  | none ↦ top_level ac
]

-- `urlPathForObjectID`
unfoldable pub url_path_for_object_id : String → String
unfolding has_prefix drop_chars
url_path_for_object_id id =
    if has_prefix id "/sql/" && not (has_prefix id "/sql/endpoints")
    then "/preview/sql/permissions" <> drop_chars 4 id
    else "/permissions" <> id

pub data Request : Type 0 where
  put post patch : String → List AccessControlChange → Request
  get : String → Request
  me : Request
  read_job : String → Request
  read_status : String → Request

-- `Me` gives the user's name, a job its creator, a path its object's number as a text.
abbrev pub Reply : Request → Type 0
Reply (put path acl) = Unit
Reply (post path acl) = Unit
Reply (patch path acl) = Unit
Reply (get path) = ObjectAcl
Reply me = String
Reply (read_job id) = String
Reply (read_status path) = String

abbrev pub user_with : String → String → AccessControlChange
user_with name level = record {
  user_name = name;
  group_name = "";
  service_principal_name = "";
  permission_level = level;
}

abbrev pub admins_manage : AccessControlChange
admins_manage = record {
  user_name = "";
  group_name = "admins";
  service_principal_name = "";
  permission_level = "CAN_MANAGE";
}

abbrev pub is_owner : AccessControlChange → Bool
is_owner c = c.permission_level == "IS_OWNER"

abbrev pub with_admins : String → List AccessControlChange → List AccessControlChange
with_admins id acl = if id == "/authorization/tokens" then acl ++ admins_manage ∷ [] else acl

-- What `Delete` keeps: everything direct of the group of admins.
unfoldable pub kept_for_admins : String → List AccessControl → List AccessControlChange
kept_for_admins id [] = []
kept_for_admins id (acl ∷ more) =
    let rest = kept_for_admins id more in
    if acl.group_name == "admins" && not (id == "/authorization/passwords")
    then elim (to_access_control_change acl) [ some change ↦ change ∷ rest | none ↦ rest ]
    else rest

module _ (server : Server Request Reply) where
  -- What is sent for an SQL object once the calling user is known.
  abbrev pub put_sql : String → List AccessControlChange → String → Call Request (Unit {0})
  put_sql id acl name =
      let acl' = acl ++ (user_with name "CAN_MANAGE") ∷ [] in
      if has_prefix id "/sql/endpoints/"
      then send server (patch (url_path_for_object_id id) acl')
      else send server (post (url_path_for_object_id id) acl')

  -- `PermissionsAPI.put`
  unfoldable pub put_permissions : String → List AccessControlChange → Call Request (Unit {0})
  put_permissions id acl =
      if has_prefix id "/sql/"
      then send server me >>= put_sql id acl
      else send server (put (url_path_for_object_id id) acl)

  -- `PermissionsAPI.Update`. The count of owners is compared with zero only.
  unfoldable pub update_permissions : String → List AccessControlChange → Call Request (Unit {0})
  update_permissions id given =
      let acl = with_admins id given in
      if has_prefix id "/jobs" && not (any is_owner acl)
      then send server me >>= (λ name. put_permissions id (acl ++ (user_with name "IS_OWNER") ∷ []))
      else put_permissions id acl

  -- `PermissionsAPI.Read`
  abbrev pub read_permissions : String → Call Request ObjectAcl
  read_permissions id = send server (get (url_path_for_object_id id))

  -- `PermissionsAPI.Delete`
  unfoldable pub delete_permissions : String → Call Request (Unit {0})
  delete_permissions id = do
    acl ← read_permissions id
    let kept = kept_for_admins id acl.access_control_list
    (if has_prefix id "/jobs"
        then send server (read_job (replace_all id "/jobs/" ""))
          >>= (λ creator. put_permissions id (kept ++ (user_with creator "IS_OWNER") ∷ []))
        else put_permissions id kept)
