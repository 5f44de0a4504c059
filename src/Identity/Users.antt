-- ===== src/Identity/Users.antt =====
-- identity/users.go and identity/resource_user.go: the users API without its patches, and the handlers of
-- the resource. A request without schemas, where Go's list is nil, gets that of users.
use terraform_provider_datab.Base.{◌≡◌, refl, String, Bool, List, [], ◌∷◌}
use terraform_provider_datab.Common.Errors.{Error, Result, ok, err}
use terraform_provider_datab.Common.Service.{Server, Call, pure, fail, send, ◌>>=◌}
use terraform_provider_datab.Identity.Scim.{
  ComplexValue, EntitlementData, read_into_data, read_entitlements,
}

pub record ScimUser : Type 0 where
  pub id : String
  pub display_name : String
  pub active : Bool
  pub schemas : List String
  pub user_name : String
  pub application_id : String
  pub groups : List ComplexValue
  pub roles : List ComplexValue
  pub entitlements : List ComplexValue

pub data Request : Type 0 where
  post_user : ScimUser → Request
  filter_users get_user delete_user_at : String → Request
  get_me : Request
  put_user : String → ScimUser → Request

abbrev pub Reply : Request → Type 0
Reply (post_user u) = ScimUser
Reply (filter_users filter) = List ScimUser
Reply (get_user id) = ScimUser
Reply (delete_user_at id) = Unit
Reply get_me = ScimUser
Reply (put_user id u) = Unit

abbrev user_schema : String
user_schema = "urn:ietf:params:scim:schemas:core:2.0:User"

abbrev or_user_schema : List String → List String
or_user_schema [] = user_schema ∷ []
or_user_schema (s ∷ schemas) = s ∷ schemas

abbrev with_schemas : ScimUser → ScimUser
with_schemas u = record u { schemas = or_user_schema u.schemas }

pub record UserData : Type 0 where
  pub id : String
  pub user_name : String
  pub display_name : String
  pub active : Bool
  pub entitlements : EntitlementData

-- `scimUserFromData`
abbrev pub scim_user_from_data : UserData → ScimUser
scim_user_from_data d = record {
  id = "";
  display_name = d.display_name;
  active = d.active;
  schemas = [];
  user_name = d.user_name;
  application_id = "";
  groups = [];
  roles = [];
  entitlements = read_entitlements d.entitlements;
}

module _ (server : Server Request Reply) where
  -- `Create`
  abbrev pub create_user : ScimUser → Call Request ScimUser
  create_user ru = send server (post_user (with_schemas ru))

  -- `Filter`
  abbrev pub filter_by : String → Call Request (List ScimUser)
  filter_by filter = send server (filter_users filter)

  -- `read`
  abbrev pub read_user : String → Call Request ScimUser
  read_user id = send server (get_user id)

  -- `Me`
  abbrev pub me : Call Request ScimUser
  me = send server get_me

  -- `Update`
  unfoldable pub update_user : String → ScimUser → Call Request (Unit {0})
  update_user id request = read_user id >>= λ user.
      send server
        (put_user id (with_schemas (record request { groups = user.groups; roles = user.roles })))

  -- `Delete`
  abbrev pub delete_user : String → Call Request (Unit {0})
  delete_user id = send server (delete_user_at id)

  -- The handlers
  abbrev pub create_context : UserData → Call Request String
  create_context d = create_user (scim_user_from_data d) >>= λ user. pure user.id

  abbrev shown : UserData → ScimUser → Result EntitlementData → Call Request UserData
  shown d user (err e) = fail e
  shown d user (ok entitlements) = pure (record {
    id = d.id;
    user_name = user.user_name;
    display_name = user.display_name;
    active = user.active;
    entitlements = entitlements;
  })

  unfoldable pub read_context : (String → Error) → UserData → Call Request UserData
  read_context invalid_address d = read_user d.id >>= λ user.
      shown d user (read_into_data invalid_address user.entitlements d.entitlements)

  abbrev pub update_context : UserData → Call Request (Unit {0})
  update_context d = update_user d.id (scim_user_from_data d)

  abbrev pub delete_context : UserData → Call Request (Unit {0})
  delete_context d = delete_user d.id

  -- Where the service answers the reading of the user, an update writes the groups and the roles of this
  -- answer.
  update_context-keeps :
      (d : UserData) (log : List Request) (user : ScimUser)
      → server log (get_user d.id) ≡ ok user
      → (update_context d log).1
        ≡ put_user d.id (
            with_schemas
              (record (scim_user_from_data d) { groups = user.groups; roles = user.roles }))
          ∷ get_user d.id
          ∷ log
  unfolding update_user
  update_context-keeps d log user e = rw e refl
