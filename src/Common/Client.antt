-- ===== src/Common/Client.antt =====
-- common/client.go, with resourceID of common/azure_auth.go: the client, its cloud and its host. Of the
-- client there are the fields that authentication reads or changes.
pub mod Providers
pub mod Authentication
pub mod Hosts
use terraform_provider_datab.Base.{
  ℕ, String, ◌<>◌, Bool, true, false, not, Option, none, some, List, if◌then◌else◌, ◌==◌, ◌&&◌,
  ◌||◌, eqb, contains, has_prefix,
}
use terraform_provider_datab.Common.Errors.{Error}

-- Where an authorizer of Azure gets its tokens from.
pub data AzureMethod : Type 0 where
  service_principal managed_identity azure_cli : AzureMethod

-- The request interceptor `authVisitor`: `header` is what `authorizer(authType, token)` gives; the others
-- take their tokens from outside, `with_pat` by a temporary token.
pub data Authorizer : Type 0 where
  header : (auth_type token : String) → Authorizer
  with_aad with_pat : AzureMethod → Authorizer
  google_accounts google_workspace : Authorizer

pub record DatabricksClient : Type 0 where
  pub host : String
  pub token : String
  pub username : String
  pub password : String
  pub profile : String
  pub config_file : String
  pub google_service_account : String
  pub azure_workspace_name : String
  pub azure_resource_group : String
  pub azure_subscription_id : String
  pub azure_databricks_resource_id : String
  pub azure_use_pat_for_cli : Bool
  pub azure_use_pat_for_spn : Bool
  pub azure_use_msi : Bool
  pub azure_client_secret : String
  pub azure_client_id : String
  pub azure_tenant_id : String
  pub azurerm_environment : String
  pub http_timeout_seconds : ℕ
  pub debug_truncate_bytes : ℕ
  pub rate_limit_per_second : ℕ
  pub auth_visitor : Option Authorizer
  pub config_attributes_used : List String

-- `ParseResourceID` of the Azure library, and the text of a resource.
pub record AzureIds : Type 0 where
  pub parse : String → Option (String × String × String)
  pub print : String → String → String → String

abbrev pub with_parsed :
    Option (String × String × String) → DatabricksClient → String × DatabricksClient
with_parsed none c = ("", c)
with_parsed (some (subscription, group, name)) c = (
  c.azure_databricks_resource_id,
  record c {
    azure_subscription_id = subscription;
    azure_resource_group = group;
    azure_workspace_name = name;
  },
)

-- `resourceID`, which keeps in the client what it finds.
unfoldable pub resource_id : AzureIds → DatabricksClient → String × DatabricksClient
resource_id ids c =
    if not (c.azure_databricks_resource_id == "")
    then if c.azure_subscription_id == "" || c.azure_resource_group == ""
      then with_parsed (ids.parse c.azure_databricks_resource_id) c
      else (c.azure_databricks_resource_id, c)
    else if c.azure_subscription_id == ""
        || (c.azure_resource_group == "" || c.azure_workspace_name == "")
    then ("", c)
    else let id = ids.print c.azure_subscription_id c.azure_resource_group c.azure_workspace_name in
      (id, record c { azure_databricks_resource_id = id })

-- `IsAzure`
unfoldable pub is_azure : AzureIds → DatabricksClient → Bool × DatabricksClient
is_azure ids c =
    let (id, c') = resource_id ids c in
    (not (id == "") || (contains c'.host ".azuredatabricks.net" || c'.azure_use_msi), c')

-- `IsGcp`
abbrev pub is_gcp : DatabricksClient → Bool
is_gcp c = not (c.google_service_account == "") || contains c.host ".gcp.databricks.com"

-- `IsAws`
abbrev pub is_aws : AzureIds → DatabricksClient → Bool
is_aws ids c = let (azure, c') = is_azure ids c in not azure && not (is_gcp c')

-- `fixHost`, on the host
unfoldable pub fixed_host : String → String
fixed_host host =
    if not (host == "") && not (has_prefix host "https://" || has_prefix host "http://")
    then "https://" <> host
    else host

abbrev pub fix_host : DatabricksClient → DatabricksClient
fix_host c = record c { host = fixed_host c.host }

abbrev or_default : ℕ → ℕ → ℕ
or_default n default = if eqb n 0 then default else n

-- The defaults that `Configure` and `configureHTTPCLient` set.
abbrev pub configured : DatabricksClient → DatabricksClient
configured c = record c {
  http_timeout_seconds = or_default c.http_timeout_seconds 60;
  debug_truncate_bytes = or_default c.debug_truncate_bytes 96;
  rate_limit_per_second = or_default c.rate_limit_per_second 15;
}

-- `ClientForHost`
abbrev pub client_for_host : String → DatabricksClient → DatabricksClient
client_for_host url c = record {
  host = url;
  token = c.token;
  username = c.username;
  password = c.password;
  profile = c.profile;
  config_file = c.config_file;
  google_service_account = c.google_service_account;
  azure_workspace_name = "";
  azure_resource_group = "";
  azure_subscription_id = "";
  azure_databricks_resource_id = "";
  azure_use_pat_for_cli = false;
  azure_use_pat_for_spn = false;
  azure_use_msi = false;
  azure_client_secret = "";
  azure_client_id = "";
  azure_tenant_id = "";
  azurerm_environment = c.azurerm_environment;
  http_timeout_seconds = c.http_timeout_seconds;
  debug_truncate_bytes = c.debug_truncate_bytes;
  rate_limit_per_second = c.rate_limit_per_second;
  auth_visitor = none;
  config_attributes_used = c.config_attributes_used;
}
