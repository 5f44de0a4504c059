-- ===== src/Identity/Groups.antt =====
-- identity/groups.go and identity/resource_group.go: the groups API, and the handlers of the resource.
use terraform_provider_datab.Base.{String, ◌<>◌, List, [], ◌∷◌}
use terraform_provider_datab.Common.Errors.{Error, other, Result, ok, err}
use terraform_provider_datab.Common.Service.{Server, Call, pure, fail, send, ◌>>=◌}
use terraform_provider_datab.Identity.Scim.{
  ComplexValue, EntitlementData, read_into_data, read_entitlements,
}

pub record ScimGroup : Type 0 where
  pub id : String
  pub schemas : List String
  pub display_name : String
  pub members : List ComplexValue
  pub groups : List ComplexValue
  pub roles : List ComplexValue
  pub entitlements : List ComplexValue

pub data Request : Type 0 where
  post_group : ScimGroup → Request
  get_group delete_group_at : String → Request
  filter_groups : String → Request
  put_group : String → ScimGroup → Request

abbrev pub Reply : Request → Type 0
Reply (post_group g) = ScimGroup
Reply (get_group id) = ScimGroup
Reply (delete_group_at id) = Unit
Reply (filter_groups filter) = List ScimGroup
Reply (put_group id g) = Unit

abbrev group_schema : String
group_schema = "urn:ietf:params:scim:schemas:core:2.0:Group"

pub record GroupData : Type 0 where
  pub id : String
  pub display_name : String
  pub entitlements : EntitlementData

module _ (server : Server Request Reply) where
  -- `Create`
  abbrev pub create_group : ScimGroup → Call Request ScimGroup
  create_group g = send server (post_group (record g { schemas = group_schema ∷ [] }))

  -- `Read`
  abbrev pub read_group : String → Call Request ScimGroup
  read_group id = send server (get_group id)

  abbrev first_group : String → List ScimGroup → Call Request ScimGroup
  first_group name [] = fail (other ("cannot find group: " <> name))
  first_group name (g ∷ more) = pure g

  -- `ReadByDisplayName`
  unfoldable pub read_by_display_name : String → Call Request ScimGroup
  read_by_display_name name =
      send server (filter_groups ("displayName eq '" <> (name <> "'"))) >>= λ found.
      first_group name found

  -- `UpdateNameAndEntitlements`
  unfoldable pub update_name_and_entitlements :
      String → String → List ComplexValue → Call Request (Unit {0})
  update_name_and_entitlements id name e = read_group id >>= λ g. send server (
      put_group id
        (record g { id = ""; schemas = group_schema ∷ []; display_name = name; entitlements = e }))

  -- `Delete`
  abbrev pub delete_group : String → Call Request (Unit {0})
  delete_group id = send server (delete_group_at id)

  -- The handlers
  unfoldable pub create_context : GroupData → Call Request String
  create_context d =
      create_group (record {
        id = "";
        schemas = [];
        display_name = d.display_name;
        members = [];
        groups = [];
        roles = [];
        entitlements = read_entitlements d.entitlements;
      })
      >>= λ g. pure g.id

  abbrev shown : GroupData → String → Result EntitlementData → Call Request GroupData
  shown d name (err e) = fail e
  shown d name (ok entitlements) =
      pure (record d { display_name = name; entitlements = entitlements })

  unfoldable pub read_context : (String → Error) → GroupData → Call Request GroupData
  read_context invalid_address d = read_group d.id >>= λ g.
      shown d g.display_name (read_into_data invalid_address g.entitlements d.entitlements)

  unfoldable pub update_context : GroupData → Call Request (Unit {0})
  update_context d =
      update_name_and_entitlements d.id d.display_name (read_entitlements d.entitlements)

  abbrev pub delete_context : GroupData → Call Request (Unit {0})
  delete_context d = delete_group d.id
