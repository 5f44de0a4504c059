-- ===== src/Mws/Workspaces/Resource.antt =====
-- The handlers of `ResourceWorkspace` in mws/resource_workspace.go. The data of the resource is its ID
-- and the workspace, which the schemas made by reflection carry over field by field.
use terraform_provider_datab.Base.{
  String, ◌<>◌, Bool, true, false, not, Option, none, some, List, [], ◌∷◌, if◌then◌else◌, ◌==◌,
  ◌&&◌, has_suffix,
}
use terraform_provider_datab.Common.Errors.{other, Result, ok, err}
use terraform_provider_datab.Common.Service.{Server, Call, pure, fail, ◌>>=◌, ◌>>◌}
use terraform_provider_datab.Common.Pair.{Pair, pack, unpack}
use terraform_provider_datab.Common.Client.{DatabricksClient, AzureIds, is_aws, is_gcp}
use terraform_provider_datab.Compute.Retry.{RetryContext}
use terraform_provider_datab.Mws.Workspaces.{
  Workspace, Request, Reply, Urls, read_workspace, wait_for_running, delete_workspace,
  create_workspace, update_running,
}

pub record WorkspaceData : Type 0 where
  pub id : String
  pub workspace : Workspace

abbrev pub id_pair : Pair
id_pair = record {
  left = "account_id";
  right = "workspace_id";
  separator = "/";
  right_is_int = true;
}

-- `DiffSuppressFunc` of the deployment name
unfoldable pub suppress_deployment_name : String → String → Bool
suppress_deployment_name old new =
    if old == "" && not (new == "") then false else not (has_suffix new old)

unfoldable pub first_empty : List (String × String) → Option String
first_empty [] = none
first_empty ((name, value) ∷ fields) =
    let rest = first_empty fields in if value == "" then some name else rest

-- `requireFields`
abbrev pub require_fields : Bool → List (String × String) → Call Request (Unit {0})
require_fields on_this_cloud fields =
    if not on_this_cloud then pure tt else elim (first_empty fields) [
      | none ↦ pure tt
      | some name ↦ fail (other (name <> " is required"))
    ]

abbrev pub with_managed_key : Workspace → Workspace
with_managed_key ws =
    if not (ws.customer_managed_key_id == "") && ws.managed_services_customer_managed_key_id == ""
    then record ws {
      managed_services_customer_managed_key_id = ws.customer_managed_key_id;
      customer_managed_key_id = "";
    }
    else ws

-- The ID that `Pack` sets, and the parts that `Unpack` finds in one.
abbrev pub packed_id : String → String → String
packed_id account_id workspace_id =
    (pack id_pair (record {
      id = "";
      attributes = ("account_id", account_id) ∷ ("workspace_id", workspace_id) ∷ [];
    })).id

abbrev pub unpacked_id : (String → Result String) → String → Result (String × String)
unpacked_id parse_int id = (unpack parse_int id_pair (record { id = id; attributes = [] })).0

abbrev pub with_parts :
    {A : Type 0} → Result (String × String) → (String → String → Call Request A) → Call Request A
with_parts (err e) f = fail e
with_parts (ok (account_id, workspace_id)) f = f account_id workspace_id

module _ (server : Server Request Reply) (sdk : RetryContext (Unit {0}) Request) (urls : Urls)
    (client : DatabricksClient) (ids : AzureIds) (parse_int : String → Result String) where
  abbrev pub create_context : WorkspaceData → Call Request WorkspaceData
  create_context d = do
    require_fields (is_aws ids client) (
        ("aws_region", d.workspace.aws_region)
        ∷ ("credentials_id", d.workspace.credentials_id)
        ∷ ("storage_configuration_id", d.workspace.storage_configuration_id)
        ∷ [])
    require_fields (is_gcp client) (("location", d.workspace.location) ∷ [])
    made ← create_workspace server sdk urls client (with_managed_key d.workspace)
    pure (record {
      id = packed_id d.workspace.account_id made.workspace_id;
      workspace = record d.workspace { workspace_id = made.workspace_id };
    })

  abbrev pub read_context : WorkspaceData → Call Request WorkspaceData
  read_context d = with_parts (unpacked_id parse_int d.id) (λ account_id workspace_id. do
    workspace ← read_workspace server sdk urls client account_id workspace_id
    let shown = record workspace { is_no_public_ip_enabled = true }
    wait_for_running server sdk urls client shown
    pure (record { id = d.id; workspace = shown }))

  abbrev pub update_context : WorkspaceData → Call Request (Unit {0})
  update_context d = update_running server sdk urls client (with_managed_key d.workspace)

  abbrev pub delete_context : WorkspaceData → Call Request (Unit {0})
  delete_context d =
      with_parts (unpacked_id parse_int d.id)
        (λ account_id workspace_id. delete_workspace server sdk urls client account_id workspace_id)
