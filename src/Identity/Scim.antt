-- ===== src/Identity/Scim.antt =====
-- identity/scim.go: complex values, and the entitlements in the data of a resource. The data is the four
-- fields that the entitlements have in the schema; the SDK's `Set` fails on a name that is not in it.
pub mod Entitlements
use terraform_provider_datab.Base.{
  String, Bool, true, false, Option, none, some, List, [], ◌∷◌, ◌++◌, if◌then◌else◌, ◌==◌, ◌||◌,
  lookup,
}
use terraform_provider_datab.Common.Errors.{Error, Result, ok, err}

pub record ComplexValue : Type 0 where
  pub value : String
  pub display : String
  pub ref : String
  pub type_name : String

pub record EntitlementData : Type 0 where
  pub allow_cluster_create : Bool
  pub allow_instance_pool_create : Bool
  pub allow_sql_analytics_access : Bool
  pub workspace_access : Bool

-- `HasValue`
unfoldable pub has_value : List ComplexValue → String → Bool
has_value [] value = false
has_value (v ∷ cv) value = let rest = has_value cv value in if v.value == value then true else rest

-- `entitlementMapping`, which gives an empty text for a missing key
abbrev pub field_name : String → String
field_name value =
    if value == "allow-cluster-create"
    then "allow_cluster_create"
    else if value == "allow-instance-pool-create"
    then "allow_instance_pool_create"
    else if value == "databricks-sql-access"
    then "allow_sql_analytics_access"
    else if value == "workspace-access"
    then "workspace_access"
    else ""

abbrev pub and_then :
    Result EntitlementData → (EntitlementData → Result EntitlementData) → Result EntitlementData
and_then (err e) f = err e
and_then (ok d) f = f d

-- `invalid_address` is the error of the SDK.
module _ (invalid_address : String → Error) where
  -- `d.Set(name, true)`
  abbrev pub set_true : String → EntitlementData → Result EntitlementData
  set_true name d =
      if name == "allow_cluster_create"
      then ok (record d { allow_cluster_create = true })
      else if name == "allow_instance_pool_create"
      then ok (record d { allow_instance_pool_create = true })
      else if name == "allow_sql_analytics_access"
      then ok (record d { allow_sql_analytics_access = true })
      else if name == "workspace_access"
      then ok (record d { workspace_access = true })
      else err (invalid_address name)

  -- `readIntoData`
  unfoldable pub read_into_data : List ComplexValue → EntitlementData → Result EntitlementData
  read_into_data [] d = ok d
  read_into_data (ent ∷ e) d =
      and_then (set_true (field_name ent.value) d) (λ d'. read_into_data e d')

abbrev entitlement : Bool → String → List ComplexValue
entitlement true value = record { value = value; display = ""; ref = ""; type_name = "" } ∷ []
entitlement false value = []

-- `readEntitlementsFromData`
abbrev pub read_entitlements : EntitlementData → List ComplexValue
read_entitlements d =
    entitlement d.allow_cluster_create "allow-cluster-create"
    ++ (entitlement d.allow_instance_pool_create "allow-instance-pool-create"
        ++ (entitlement d.allow_sql_analytics_access "databricks-sql-access"
            ++ entitlement d.workspace_access "workspace-access"))
