-- ===== src/Tests/Identity.antt =====
-- A group that may create clusters in the data, where the service holds access to the workspace alone; and
-- a service with this one group.
use terraform_provider_datab.Base.{◌≡◌, refl, true, false, [], ◌∷◌}
use terraform_provider_datab.Common.Errors.{other, ok}
use terraform_provider_datab.Common.Service.{Server}
use terraform_provider_datab.Identity.Scim.{
  ComplexValue, EntitlementData, read_into_data, read_entitlements,
}
use terraform_provider_datab.Identity.Scim.Entitlements.{IsMerged, read_into_data-IsMerged}
use terraform_provider_datab.Identity.Groups.{
  ScimGroup, Request, post_group, get_group, delete_group_at, filter_groups, put_group, Reply,
  update_name_and_entitlements, update_context,
}

abbrev access : ComplexValue
access = record { value = "workspace-access"; display = ""; ref = ""; type_name = "" }

abbrev old : EntitlementData
old = record {
  allow_cluster_create = true;
  allow_instance_pool_create = false;
  allow_sql_analytics_access = false;
  workspace_access = false;
}

abbrev merged : EntitlementData
merged = record {
  allow_cluster_create = true;
  allow_instance_pool_create = false;
  allow_sql_analytics_access = false;
  workspace_access = true;
}

-- The field of an entitlement that the service does not hold stays set.
merge_run : read_into_data (λ name. other name) (access ∷ []) old ≡ ok merged
unfolding read_into_data
merge_run = refl

read_into_data-IsMerged_example : IsMerged (access ∷ []) old merged
read_into_data-IsMerged_example =
    read_into_data-IsMerged (λ name. other name) (access ∷ []) old merged merge_run

abbrev group : ScimGroup
group = record {
  id = "g-1";
  schemas = [];
  display_name = "data";
  members = record { value = "u-1"; display = "ann"; ref = ""; type_name = "" } ∷ [];
  groups = [];
  roles = [];
  entitlements = access ∷ [];
}

abbrev service : Server Request Reply
service log (post_group g) = ok group
service log (get_group id) = ok group
service log (delete_group_at id) = ok tt
service log (filter_groups filter) = ok (group ∷ [])
service log (put_group id g) = ok tt

update_run :
    (update_context service
      (record { id = "g-1"; display_name = "science"; entitlements = merged })
      []).1
    ≡ put_group "g-1" (record group {
      id = "";
      schemas = "urn:ietf:params:scim:schemas:core:2.0:Group" ∷ [];
      display_name = "science";
      entitlements = read_entitlements merged;
    })
      ∷ get_group "g-1"
      ∷ []
unfolding update_context update_name_and_entitlements
update_run = refl
