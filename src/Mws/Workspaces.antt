-- ===== src/Mws/Workspaces.antt =====
-- mws/resource_workspace.go and the networks API of mws/resource_network.go, with the types of
-- mws/mws.go. The numbers of workspaces are kept as the texts that are put into paths. Of a workspace
-- there are the fields that the methods read or write. The message of a status is a text without
-- percent sign, so that `fmt.Errorf` keeps it. The parsing of URLs and addresses is a parameter.
pub mod Resource
pub mod Provisioning
use terraform_provider_datab.Base.{
  String, ◌<>◌, Bool, true, false, not, Option, none, some, List, [], ◌∷◌, if◌then◌else◌, ◌==◌,
  ◌&&◌, ◌||◌, contains, split, join,
}
use terraform_provider_datab.Common.Errors.{
  Error, api, other, error_text, Result, ok, err, is_missing,
}
use terraform_provider_datab.Common.Service.{Server, Call, pure, fail, send, ◌>>=◌, ◌>>◌, handle}
use terraform_provider_datab.Common.Client.{DatabricksClient, is_gcp, client_for_host}
use terraform_provider_datab.Compute.Retry.{
  Verdict, finished, retryable, non_retryable, RetryContext, waited,
}

pub record Workspace : Type 0 where
  pub account_id : String
  pub workspace_name : String
  pub deployment_name : String
  pub aws_region : String
  pub credentials_id : String
  pub customer_managed_key_id : String
  pub storage_configuration_id : String
  pub managed_services_customer_managed_key_id : String
  pub storage_customer_managed_key_id : String
  pub network_id : String
  pub is_no_public_ip_enabled : Bool
  pub workspace_id : String
  pub workspace_url : String
  pub workspace_status : String
  pub workspace_status_message : String
  pub cloud : String
  pub location : String

pub record NetworkHealth : Type 0 where
  pub error_type : String
  pub error_message : String

pub record Network : Type 0 where
  pub account_id : String
  pub network_id : String
  pub network_name : String
  pub vpc_status : String
  pub error_messages : List NetworkHealth

-- The requests to the accounts API, and the one to a workspace, by a client of its own.
pub data Request : Type 0 where
  create_workspace_at : Workspace → Request
  get_workspace delete_workspace_at : (account_id workspace_id : String) → Request
  patch_workspace : (account_id workspace_id : String) (fields : List (String × String)) → Request
  list_workspaces list_networks_at : (account_id : String) → Request
  create_network_at : Network → Request
  get_network delete_network_at : (account_id network_id : String) → Request
  list_tokens : DatabricksClient → Request

-- What is sent is answered with the same structure, filled with what the service adds.
abbrev pub Reply : Request → Type 0
Reply (create_workspace_at ws) = Workspace
Reply (get_workspace account_id workspace_id) = Workspace
Reply (delete_workspace_at account_id workspace_id) = Unit
Reply (patch_workspace account_id workspace_id fields) = Unit
Reply (list_workspaces account_id) = List Workspace
Reply (list_networks_at account_id) = List Network
Reply (create_network_at network) = Network
Reply (get_network account_id network_id) = Network
Reply (delete_network_at account_id network_id) = Unit
Reply (list_tokens client) = Unit

-- `Hostname()` of what `url.Parse` gives, and `net.ParseIP`.
pub record Urls : Type 0 where
  pub hostname : String → Option String
  pub is_ip : String → Bool

abbrev first_chunk : String → List String → List String
first_chunk name [] = []
first_chunk name (chunk ∷ chunks) = name ∷ chunks

abbrev hostname_in : Urls → String → Option String → String
hostname_in urls name none = name <> ".cloud.databricks.com"
hostname_in urls name (some host) =
    if urls.is_ip host
    then name <> ".cloud.databricks.com"
    else join "." (first_chunk name (split 46 host))

-- `generateWorkspaceHostname`
unfoldable pub generate_workspace_hostname : Urls → DatabricksClient → Workspace → String
generate_workspace_hostname urls client ws =
    hostname_in urls ws.deployment_name (urls.hostname client.host)

abbrev network_messages : List NetworkHealth → String
network_messages [] = ""
network_messages (health ∷ more) =
    "error: "
    <> (health.error_type
        <> (";error_msg: " <> (health.error_message <> (";" <> network_messages more))))

-- `ws.DeploymentName` of the unit tests
abbrev pub is_test_shim : Workspace → Bool
is_test_shim ws = contains ws.deployment_name "900150983cd24fb0"

abbrev pub both : Error → Error → Error
both e derr = other (error_text e <> (" - " <> error_text derr))

abbrev pub key_field : Workspace → List (String × String)
key_field ws =
    if ws.storage_customer_managed_key_id == ""
    then []
    else ("storage_customer_managed_key_id", ws.storage_customer_managed_key_id) ∷ []

-- What is missing after a deletion is gone; what is still there is waited for.
abbrev pub judge_removed : {A : Type 0} → (A → Error) → Result A → Verdict
judge_removed message (ok a) = retryable (message a)
judge_removed message (err e) = if is_missing e then finished else non_retryable e

abbrev workspace_not_removed : Workspace → Error
workspace_not_removed ws = other (
    "Workspace "
    <> (ws.workspace_name
        <> (" is not removed yet. Workspace status: "
            <> (ws.workspace_status <> (" " <> ws.workspace_status_message)))))

abbrev network_not_removed : Network → Error
network_not_removed network = other (
    "Network "
    <> (network.network_name <> (" is not removed yet. VPC Status: " <> network.vpc_status)))

-- An error of the API means that the workspace is not reachable; any other is no reason to retry.
abbrev pub judge_reachable : Workspace → Result (Unit {0}) → Verdict
judge_reachable ws (ok _) = finished
judge_reachable ws (err (other text)) = finished
judge_reachable ws (err (api e)) = retryable (
    other ("workspace " <> (ws.workspace_url <> (" is not yet reachable: " <> error_text (api e)))))

module _ (server : Server Request Reply) (sdk : RetryContext (Unit {0}) Request) where
  abbrev pub create_network : Network → Call Request Network
  create_network network = send server (create_network_at network)

  abbrev pub read_network : String → String → Call Request Network
  read_network account_id network_id = send server (get_network account_id network_id)

  abbrev pub list_networks : String → Call Request (List Network)
  list_networks account_id = send server (list_networks_at account_id)

  abbrev pub network_removed :
      String → String → Unit {0} → List Request → Verdict × Unit {0} × List Request
  network_removed account_id network_id s log =
      let (r, log') = read_network account_id network_id log in
      (judge_removed network_not_removed r, tt, log')

  unfoldable pub delete_network : String → String → Call Request (Unit {0})
  delete_network account_id network_id =
      send server (delete_network_at account_id network_id) >> λ log.
      waited (sdk.retry (network_removed account_id network_id) tt log)

  module _ (urls : Urls) (client : DatabricksClient) where
    abbrev with_url : Workspace → Workspace
    with_url ws =
        if ws.workspace_url == ""
        then record ws { workspace_url = "https://" <> generate_workspace_hostname urls client ws }
        else ws

    -- `Read`
    unfoldable pub read_workspace : String → String → Call Request Workspace
    read_workspace account_id workspace_id =
        send server (get_workspace account_id workspace_id) >>= λ ws. pure (with_url ws)

    -- `List`
    abbrev pub list_all : String → Call Request (List Workspace)
    list_all account_id = send server (list_workspaces account_id)

    -- `verifyWorkspaceReachable`
    abbrev pub verify_workspace_reachable :
        Workspace → List Request → Verdict × Unit {0} × List Request
    verify_workspace_reachable ws log =
        let (r, log') = send server (list_tokens (client_for_host ws.workspace_url client)) log in
        (judge_reachable ws r, tt, log')

    abbrev cannot_read_network : Error → Error
    cannot_read_network e =
        other ("failed to start workspace. Cannot read network: " <> error_text e)

    abbrev failed_to_create : Workspace → Network → Error
    failed_to_create ws network = other (
        "Workspace failed to create: "
        <> (ws.workspace_status_message
            <> (", network error message: " <> network_messages network.error_messages)))

    abbrev explained : Workspace → Result Network → Error
    explained ws (err e) = cannot_read_network e
    explained ws (ok network) = failed_to_create ws network

    -- `explainWorkspaceFailure`, whose result is always an error
    abbrev pub explain_workspace_failure :
        Workspace → List Request → Verdict × Unit {0} × List Request
    explain_workspace_failure ws log =
        if ws.network_id == ""
        then (non_retryable (other ws.workspace_status_message), tt, log)
        else let (r, log') = read_network ws.account_id ws.network_id log in
          (non_retryable (explained ws r), tt, log')

    -- The `switch` of `WaitForRunning`, on a workspace that was read.
    abbrev pub after_read :
        Workspace → Result Workspace × List Request → Verdict × Unit {0} × List Request
    after_read ws (err e, log) = (non_retryable e, tt, log)
    after_read ws (ok workspace, log) =
        if workspace.workspace_status == "RUNNING"
        then if is_test_shim ws
          then (finished, tt, log)
          else verify_workspace_reachable workspace log
        else if workspace.workspace_status == "CANCELLED" || workspace.workspace_status == "FAILED"
        then explain_workspace_failure workspace log
        else (retryable (other workspace.workspace_status_message), tt, log)

    abbrev pub running_attempt :
        Workspace → Unit {0} → List Request → Verdict × Unit {0} × List Request
    running_attempt ws s log = after_read ws (read_workspace ws.account_id ws.workspace_id log)

    -- `WaitForRunning`
    unfoldable pub wait_for_running : Workspace → Call Request (Unit {0})
    wait_for_running ws log = waited (sdk.retry (running_attempt ws) tt log)

    abbrev pub workspace_removed :
        String → String → Unit {0} → List Request → Verdict × Unit {0} × List Request
    workspace_removed account_id workspace_id s log =
        let (r, log') = read_workspace account_id workspace_id log in
        (judge_removed workspace_not_removed r, tt, log')

    -- `Delete`
    unfoldable pub delete_workspace : String → String → Call Request (Unit {0})
    delete_workspace account_id workspace_id =
        send server (delete_workspace_at account_id workspace_id) >> λ log.
        waited (sdk.retry (workspace_removed account_id workspace_id) tt log)

    abbrev pub with_cloud : Workspace → Workspace
    with_cloud ws = if is_gcp client then record ws { cloud = "gcp" } else ws

    -- What happens to a created workspace once waiting for it has ended.
    abbrev pub clean_up : Workspace → Result (Unit {0}) → Call Request Workspace
    clean_up ws (ok _) = pure ws
    clean_up ws (err e) =
        handle (delete_workspace ws.account_id ws.workspace_id)
          (λ r. elim r [ ok _ ↦ fail e | err derr ↦ fail (both e derr) ])

    -- `Create`, with the workspace that it leaves
    unfoldable pub create_workspace : Workspace → Call Request Workspace
    create_workspace ws = send server (create_workspace_at (with_cloud ws)) >>= λ made.
        handle (wait_for_running made) (clean_up made)

    -- `UpdateRunning`
    unfoldable pub update_running : Workspace → Call Request (Unit {0})
    update_running ws =
        send server (
          patch_workspace ws.account_id ws.workspace_id
            (("credentials_id", ws.credentials_id) ∷ ("network_id", ws.network_id) ∷ key_field ws))
        >> wait_for_running ws
