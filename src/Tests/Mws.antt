-- ===== src/Tests/Mws.antt =====
-- A service that makes a workspace and runs it, or lets it fail; three attempts of every call.
use terraform_provider_datab.Base.{
  ◌≡◌, refl, String, Bool, true, false, none, some, List, [], ◌∷◌, contains, has_prefix, has_suffix,
  drop_chars, split, join,
}
use terraform_provider_datab.Common.Errors.{other, ok, err, not_found}
use terraform_provider_datab.Common.Service.{Server}
use terraform_provider_datab.Common.Client.{DatabricksClient, client_for_host}
use terraform_provider_datab.Compute.Retry.{RetryContext, rounds}
use terraform_provider_datab.Mws.Workspaces.{
  Workspace, Request, create_workspace_at, get_workspace, delete_workspace_at, patch_workspace,
  list_workspaces, list_networks_at, create_network_at, get_network, delete_network_at, list_tokens,
  Reply, Urls, generate_workspace_hostname, read_workspace, wait_for_running, delete_workspace,
  create_workspace,
}
use terraform_provider_datab.Mws.Workspaces.Resource.{suppress_deployment_name}
use terraform_provider_datab.Mws.Workspaces.Provisioning.{Provisions, create_workspace-Provisions}

abbrev workspace : String → Workspace
workspace status = record {
  account_id = "acc";
  workspace_name = "labs";
  deployment_name = "labs";
  aws_region = "eu-west-1";
  credentials_id = "cred";
  customer_managed_key_id = "";
  storage_configuration_id = "root";
  managed_services_customer_managed_key_id = "";
  storage_customer_managed_key_id = "";
  network_id = "";
  is_no_public_ip_enabled = true;
  workspace_id = "12";
  workspace_url = "";
  workspace_status = status;
  workspace_status_message = "";
  cloud = "";
  location = "";
}

abbrev is_deleted : List Request → Bool
is_deleted [] = false
is_deleted (delete_workspace_at a w ∷ log) = true
is_deleted (_ ∷ log) = is_deleted log

abbrev accounts : String → Server Request Reply
accounts status log (create_workspace_at ws) = ok (workspace "PROVISIONING")
accounts status log (get_workspace a w) = elim (is_deleted log) [
  | true ↦ err (not_found "gone")
  | false ↦ ok (workspace status)
]
accounts status log (delete_workspace_at a w) = ok tt
accounts status log (patch_workspace a w fields) = ok tt
accounts status log (list_workspaces a) = ok []
accounts status log (list_networks_at a) = ok []
accounts status log (create_network_at n) = ok n
accounts status log (get_network a n) = err (other "no network")
accounts status log (delete_network_at a n) = ok tt
accounts status log (list_tokens c) = ok tt

abbrev three : RetryContext (Unit {0}) Request
three = record {
  retry = rounds 3 (other "timeout");
  timeout_error = other "timeout";
  retry-rounds = λ f s log. (3, refl);
}

abbrev urls : Urls
urls = record { hostname = λ s. some "accounts.cloud.databricks.com"; is_ip = λ s. false }

abbrev client : DatabricksClient
client = record {
  host = "https://accounts.cloud.databricks.com";
  token = "t";
  username = "";
  password = "";
  profile = "";
  config_file = "";
  google_service_account = "";
  azure_workspace_name = "";
  azure_resource_group = "";
  azure_subscription_id = "";
  azure_databricks_resource_id = "";
  azure_use_pat_for_cli = false;
  azure_use_pat_for_spn = false;
  azure_use_msi = false;
  azure_client_secret = "";
  azure_client_id = "";
  azure_tenant_id = "";
  azurerm_environment = "";
  http_timeout_seconds = 60;
  debug_truncate_bytes = 96;
  rate_limit_per_second = 15;
  auth_visitor = none;
  config_attributes_used = [];
}

hostname_run :
    generate_workspace_hostname urls client (workspace "RUNNING") ≡ "labs.cloud.databricks.com"
unfolding generate_workspace_hostname split join
hostname_run = refl

create_run :
    (create_workspace (accounts "RUNNING") three urls client (workspace "") []).1
    ≡ list_tokens (client_for_host "https://labs.cloud.databricks.com" client)
      ∷ get_workspace "acc" "12"
      ∷ create_workspace_at (workspace "")
      ∷ []
unfolding create_workspace wait_for_running rounds read_workspace generate_workspace_hostname split
    join contains has_prefix
create_run = refl

failed_run :
    (create_workspace (accounts "FAILED") three urls client (workspace "") []).1
    ≡ get_workspace "acc" "12"
      ∷ delete_workspace_at "acc" "12"
      ∷ get_workspace "acc" "12"
      ∷ create_workspace_at (workspace "")
      ∷ []
unfolding create_workspace wait_for_running rounds read_workspace delete_workspace
    generate_workspace_hostname split join contains has_prefix
failed_run = refl

-- The deployment is renamed from `labs` to `research`, and the difference is suppressed.
renaming_run : suppress_deployment_name "acc-labs" "research" ≡ true
unfolding suppress_deployment_name has_suffix drop_chars
renaming_run = refl

create_workspace-Provisions_example :
    Provisions
      (accounts "FAILED")
      three
      urls
      client
      (workspace "")
      []
      (create_workspace (accounts "FAILED") three urls client (workspace "") [])
create_workspace-Provisions_example =
    create_workspace-Provisions (accounts "FAILED") three urls client (workspace "") []
