-- ===== src/Tests/Client.antt =====
-- A client with a user and a password; and one that takes them from a profile of the configuration file.
use text.Mathlib.TextLemmas.{length-append, length-nil}
use terraform_provider_datab.Base.{
  ◌≡◌, ◌≢◌, refl, ap, count, inl, eq_iff, arith, String, ◌<>◌, true, false, none, some, [], ◌∷◌,
  has_prefix, contains, lookup,
}
use terraform_provider_datab.Common.Errors.{other, ok, err}
use terraform_provider_datab.Common.Client.{
  Authorizer, header, DatabricksClient, resource_id, is_azure, fixed_host, client_for_host,
}
use terraform_provider_datab.Common.Client.Providers.{
  Outside, Profile, configure_with_direct_params, configure_with_azure_client_secret,
  configure_with_azure_managed_identity, configure_with_azure_cli,
  configure_with_google_for_accounts_api, configure_with_google_for_workspace,
  configure_with_databricks_cfg,
}
use terraform_provider_datab.Common.Client.Authentication.{try_each, authenticate}
use terraform_provider_datab.Common.Client.Hosts.{
  has_scheme, authenticate-ready, IsAuthorized, client_for_host-authorizer,
}

abbrev account : Profile
account =
    ("host", "https://accounts.cloud.databricks.com")
    ∷ ("username", "ann")
    ∷ ("password", "secret")
    ∷ []

-- The code of a text is the text itself, marked.
abbrev outside : Outside
outside = record {
  ids = record { parse = λ s. none; print = λ s g n. s <> ("/" <> (g <> ("/" <> n))) };
  management_failure = λ m. none;
  platform_failure = λ m. none;
  workspace_url = λ id. err (other "no workspace");
  is_msi_available = false;
  cli_failure = some (other "no CLI");
  oidc_failure = λ c. some (other "no OIDC");
  impersonation_failure = λ c. some (other "no impersonation");
  encode = λ s. "b64(" <> (s <> ")");
  expand = λ s. ok s;
  load = λ file. some (ok (λ profile. account));
}

abbrev unset : DatabricksClient
unset = record {
  host = "";
  token = "";
  username = "";
  password = "";
  profile = "";
  config_file = "";
  google_service_account = "";
  azure_workspace_name = "";
  azure_resource_group = "";
  azure_subscription_id = "";
  azure_databricks_resource_id = "";
  azure_use_pat_for_cli = false;
  azure_use_pat_for_spn = false;
  azure_use_msi = false;
  azure_client_secret = "";
  azure_client_id = "";
  azure_tenant_id = "";
  azurerm_environment = "";
  http_timeout_seconds = 60;
  debug_truncate_bytes = 96;
  rate_limit_per_second = 15;
  auth_visitor = none;
  config_attributes_used = [];
}

abbrev with_user : DatabricksClient
with_user = record unset {
  host = "accounts.cloud.databricks.com";
  username = "ann";
  password = "secret";
}

abbrev user_ready : DatabricksClient
user_ready = record with_user {
  host = "https://accounts.cloud.databricks.com";
  token = "b64(ann:secret)";
  auth_visitor = some (header "Basic" "b64(ann:secret)");
}

user_run : authenticate outside (λ env. "") false with_user ≡ (none, user_ready)
unfolding authenticate try_each configure_with_direct_params fixed_host has_prefix
user_run = refl

authenticate-ready_example :
    ((a : Authorizer) × (user_ready.auth_visitor ≡ some a))
    × (has_scheme user_ready.host ≡ true)
    × (authenticate outside (λ env. "") false user_ready ≡ (none, user_ready))
authenticate-ready_example =
    authenticate-ready outside (λ env. "") false with_user user_ready refl user_run

marked_code : (s : String) → s ≢ "" → "b64(" <> (s <> ")") ≢ ""
marked_code s h e =
    let k = ap count e in absurd (omega (arith, k, length-append "b64(" (s <> ")"), length-nil))

client_for_host-authorizer_example :
    (c' d : DatabricksClient) × IsAuthorized outside
      (λ env. "")
      false
      with_user
      (header "Basic" "b64(ann:secret)")
      c'
    × IsAuthorized outside
        (λ env. "")
        false
        (client_for_host "dbc-1.cloud.databricks.com" c')
        (header "Basic" "b64(ann:secret)")
        d
    × (d.host ≡ fixed_host "dbc-1.cloud.databricks.com")
    × (has_scheme d.host ≡ true)
client_for_host-authorizer_example =
    client_for_host-authorizer outside (λ env. "") false with_user "dbc-1.cloud.databricks.com"
      marked_code refl (ground (arith, eq_iff "accounts.cloud.databricks.com" ""))
      (ground (arith, eq_iff "dbc-1.cloud.databricks.com" "")) (header "Basic" "b64(ann:secret)")
      (inl (ground (arith, eq_iff "ann" ""), ground (arith, eq_iff "secret" ""), refl))

abbrev file_ready : DatabricksClient
file_ready = record unset {
  host = "https://accounts.cloud.databricks.com";
  token = "b64(ann:secret)";
  profile = "DEFAULT";
  auth_visitor = some (header "Basic" "b64(ann:secret)");
}

file_run : authenticate outside (λ env. "") false unset ≡ (none, file_ready)
unfolding authenticate try_each configure_with_direct_params configure_with_azure_client_secret
    configure_with_azure_managed_identity configure_with_azure_cli
    configure_with_google_for_accounts_api configure_with_google_for_workspace
    configure_with_databricks_cfg resource_id is_azure fixed_host has_prefix contains lookup
file_run = refl

-- The client for a workspace sends the code of the user and the password as a bearer's token, where the
-- client that it is made from sends it as basic authentication.
workspace_run :
    (authenticate outside
      (λ env. "")
      false
      (client_for_host "https://dbc-1.cloud.databricks.com" file_ready)).1.auth_visitor
    ≡ some (header "Bearer" "b64(ann:secret)")
unfolding authenticate try_each configure_with_direct_params fixed_host has_prefix
workspace_run = refl
