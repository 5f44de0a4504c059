-- ===== src/Tests/Access.antt =====
-- The permissions of one table, of one job, and of the tokens of a workspace.
use mathlib.Core.List.{Memᴰ}
use terraform_provider_datab.Base.{
  ◌≤◌, ◌≡◌, ◌≢◌, eq_iff, refl, String, true, false, some, List, [], ◌∷◌, ◌++◌, arith, All, map, cut,
  has_prefix, drop_chars, replace_all, replace_from, equal_fold,
}
use terraform_provider_datab.Common.Errors.{ok}
use terraform_provider_datab.Common.Service.{Server}
use terraform_provider_datab.Access.SqlPermissions.{
  PrivilegeAssignment, SqlPermissions, no_permissions, table, type_and_key, sql_permissions_id,
  load_table_acl, GrantRow, add_to_last, add_privilege, is_relevant, collect_grants, Statement,
  succeeded, Executor, show_grant, revoke_all, grant, read_permissions, apply_statement, apply_each,
  revoke, enforce,
}
use terraform_provider_datab.Access.SqlPermissions.Id.{
  HasPlainNames, load_table_acl-sql_permissions_id,
}
use terraform_provider_datab.Access.SqlPermissions.Assigned.{assigned}
use terraform_provider_datab.Access.SqlPermissions.Grants.{
  granted, shown_actions, granted-collect_grants,
}
use terraform_provider_datab.Access.SqlPermissions.Statements.{push_all, enforce-log}
use terraform_provider_datab.Access.Permissions.{
  AccessControl, AccessControlChange, ObjectAcl, Request, put, post, patch, get, me, read_job,
  read_status, Reply, user_with, to_access_control_change, url_path_for_object_id, kept_for_admins,
  put_permissions, update_permissions, delete_permissions,
}
use terraform_provider_datab.Access.Permissions.Ownership.{
  Written, WritesOwner, update_permissions-WritesOwner, delete_permissions-keeps_admins,
}
use terraform_provider_datab.Access.Permissions.Lifecycle.{ResourceData, modifiable}
use terraform_provider_datab.Access.Permissions.Reading.{IsModifiable, modifiable-IsModifiable}

abbrev to_ada : PrivilegeAssignment
to_ada = record { principal = "ada"; privileges = "SELECT" ∷ [] }

abbrev one_table : SqlPermissions
one_table = record no_permissions {
  table = "t";
  database = "d";
  cluster_id = "c-1";
  privilege_assignments = to_ada ∷ [];
}

one_table-HasPlainNames : HasPlainNames one_table
one_table-HasPlainNames = record {
  database = (omega arith, tt);
  undotted = (omega arith, tt);
  table = (omega arith, tt);
  view = tt;
}

key_run : type_and_key one_table ≡ some (table, "`d`.`t`")
unfolding type_and_key
key_run = refl

load_table_acl-sql_permissions_id_example :
    (loaded : SqlPermissions) × (load_table_acl (sql_permissions_id one_table) ≡ ok loaded)
    × (type_and_key loaded ≡ some (table, "`d`.`t`"))
load_table_acl-sql_permissions_id_example =
    load_table_acl-sql_permissions_id one_table table "`d`.`t`" one_table-HasPlainNames key_run

abbrev rows_shown : List GrantRow
rows_shown =
    record { principal = "bob"; action = "MODIFY"; object_type = "TABLE"; object_key = "`d`.`t`" }
    ∷ record { principal = "bob"; action = "OWN"; object_type = "TABLE"; object_key = "`d`.`t`" }
    ∷ record { principal = "bob"; action = "SELECT"; object_type = "TABLE"; object_key = "`d`.`t`" }
    ∷ []

granted-collect_grants_example :
    (granted "bob" (collect_grants table "`d`.`t`" [] rows_shown)
      ≡ granted "bob" [] ++ shown_actions table "`d`.`t`" "bob" rows_shown)
    × (assigned "bob" (collect_grants table "`d`.`t`" [] rows_shown) ≤ 1)
granted-collect_grants_example =
    granted-collect_grants table "`d`.`t`" "bob" [] rows_shown (omega arith)

abbrev shows_rows : Executor
shows_rows log s = succeeded rows_shown

abbrev enforced : List Statement
enforced = push_all (map (grant one_table table "`d`.`t`") (to_ada ∷ [])) (
    push_all
      (map (revoke_all one_table table "`d`.`t`") (collect_grants table "`d`.`t`" [] rows_shown))
      (show_grant one_table table "`d`.`t`" ∷ []))

enforce_run : enforce shows_rows one_table [] ≡ (ok tt, enforced)
unfolding enforce revoke load_table_acl sql_permissions_id type_and_key read_permissions
    collect_grants add_privilege add_to_last is_relevant apply_each apply_statement cut has_prefix
    drop_chars replace_all replace_from equal_fold
enforce_run = refl

enforce-log_example :
    (rows : List GrantRow) × (shows_rows [] (show_grant one_table table "`d`.`t`") ≡ succeeded rows)
    × (enforced
        ≡ push_all (map (grant one_table table "`d`.`t`") (to_ada ∷ [])) (
            push_all
              (map (revoke_all one_table table "`d`.`t`") (collect_grants table "`d`.`t`" [] rows))
              (show_grant one_table table "`d`.`t`" ∷ [])))
enforce-log_example =
    enforce-log shows_rows one_table table "`d`.`t`" [] enforced one_table-HasPlainNames key_run
      enforce_run

abbrev admins_direct : AccessControl
admins_direct = record {
  user_name = "";
  group_name = "admins";
  service_principal_name = "";
  all_permissions = record { permission_level = "CAN_MANAGE"; inherited = false } ∷ [];
  permission_level = "";
}

abbrev acl_of_job : ObjectAcl
acl_of_job = record {
  object_id = "/jobs/7";
  object_type = "job";
  access_control_list = admins_direct ∷ [];
}

abbrev workspace : Server Request Reply
workspace log (put path acl) = ok tt
workspace log (post path acl) = ok tt
workspace log (patch path acl) = ok tt
workspace log (get path) = ok acl_of_job
workspace log me = ok "ada"
workspace log (read_job id) = ok "bob"
workspace log (read_status path) = ok "7"

abbrev after_update : List Request
after_update = (update_permissions workspace "/jobs/7" (user_with "eve" "CAN_VIEW" ∷ []) []).1

update_run :
    update_permissions workspace "/jobs/7" (user_with "eve" "CAN_VIEW" ∷ []) []
    ≡ (ok tt, after_update)
unfolding update_permissions put_permissions url_path_for_object_id has_prefix drop_chars
update_run = refl

job_prefix : has_prefix "/jobs/7" "/jobs" ≡ true
unfolding has_prefix
job_prefix = refl

update_permissions-WritesOwner_example : WritesOwner workspace after_update
update_permissions-WritesOwner_example =
    update_permissions-WritesOwner workspace "/jobs/7" (user_with "eve" "CAN_VIEW" ∷ []) []
      after_update job_prefix update_run

abbrev after_delete : List Request
after_delete = (delete_permissions workspace "/clusters/7" []).1

delete_run : delete_permissions workspace "/clusters/7" [] ≡ (ok tt, after_delete)
unfolding delete_permissions put_permissions url_path_for_object_id kept_for_admins has_prefix
    drop_chars to_access_control_change
delete_run = refl

no_passwords : ◌≢◌ {A = String} "/clusters/7" "/authorization/passwords"
no_passwords = ground (arith, eq_iff "/clusters/7" "/authorization/passwords")

delete_permissions-keeps_admins_example :
    (acl : ObjectAcl) × (written : List AccessControlChange) × (workspace []
        (get (url_path_for_object_id "/clusters/7"))
      ≡ ok acl)
    × Written written after_delete
    × ((ac : AccessControl) (change : AccessControlChange)
        → Memᴰ ac acl.access_control_list
        → ac.group_name ≡ "admins"
        → to_access_control_change ac ≡ some change
        → Memᴰ change written)
delete_permissions-keeps_admins_example =
    delete_permissions-keeps_admins workspace "/clusters/7" [] after_delete no_passwords delete_run

modifiable-IsModifiable_example :
    All (IsModifiable "/jobs/7" "ada") (modifiable "/jobs/7" "ada" (admins_direct ∷ []))
modifiable-IsModifiable_example = modifiable-IsModifiable "/jobs/7" "ada" (admins_direct ∷ [])

abbrev planned : ResourceData
planned = record {
  id = "";
  fields = ("cluster_id", "7") ∷ [];
  object_type = "";
  access_control = user_with "eve" "CAN_RESTART" ∷ [];
}
