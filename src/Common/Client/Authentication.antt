-- ===== src/Common/Client/Authentication.antt =====
-- common/client.go: `Authenticate` and the text of its error. The lock has no part: one call is modelled
-- at a time.
use terraform_provider_datab.Base.{
  String, ◌<>◌, Bool, not, Option, none, some, List, [], ◌∷◌, ◌++◌, if◌then◌else◌, ◌==◌, ◌&&◌, any,
  keep, join,
}
use terraform_provider_datab.Common.Errors.{Error, other, error_text, ok, err}
use terraform_provider_datab.Common.Client.{DatabricksClient, fix_host}
use terraform_provider_datab.Common.Client.Providers.{
  Outside, Configured, configure_with_direct_params, configure_with_azure_client_secret,
  configure_with_azure_managed_identity, configure_with_azure_cli,
  configure_with_google_for_accounts_api, configure_with_google_for_workspace,
  configure_with_databricks_cfg,
}

-- An attribute of the client that can come from the environment, by the tags of the client's fields.
pub record ConfigAttribute : Type 0 where
  pub name : String
  pub env_vars : List String

abbrev attribute : String → List String → ConfigAttribute
attribute name env_vars = record { name = name; env_vars = env_vars }

abbrev pub client_attributes : List ConfigAttribute
client_attributes =
    attribute "host" ("DATABRICKS_HOST" ∷ [])
    ∷ attribute "token" ("DATABRICKS_TOKEN" ∷ [])
    ∷ attribute "username" ("DATABRICKS_USERNAME" ∷ [])
    ∷ attribute "password" ("DATABRICKS_PASSWORD" ∷ [])
    ∷ attribute "account_id" ("DATABRICKS_ACCOUNT_ID" ∷ [])
    ∷ attribute "profile" ("DATABRICKS_CONFIG_PROFILE" ∷ [])
    ∷ attribute "config_file" ("DATABRICKS_CONFIG_FILE" ∷ [])
    ∷ attribute "google_service_account" ("DATABRICKS_GOOGLE_SERVICE_ACCOUNT" ∷ [])
    ∷ attribute "azure_workspace_name" ("DATABRICKS_AZURE_WORKSPACE_NAME" ∷ [])
    ∷ attribute "azure_resource_group" ("DATABRICKS_AZURE_RESOURCE_GROUP" ∷ [])
    ∷ attribute "azure_subscription_id"
        ("DATABRICKS_AZURE_SUBSCRIPTION_ID" ∷ "ARM_SUBSCRIPTION_ID" ∷ [])
    ∷ attribute "azure_workspace_resource_id"
        ("DATABRICKS_AZURE_WORKSPACE_RESOURCE_ID" ∷ "AZURE_DATABRICKS_WORKSPACE_RESOURCE_ID" ∷ [])
    ∷ attribute "azure_pat_token_duration_seconds" []
    ∷ attribute "azure_use_pat_for_cli" []
    ∷ attribute "azure_use_pat_for_spn" []
    ∷ attribute "azure_use_msi" ("ARM_USE_MSI" ∷ [])
    ∷ attribute "azure_client_secret" ("DATABRICKS_AZURE_CLIENT_SECRET" ∷ "ARM_CLIENT_SECRET" ∷ [])
    ∷ attribute "azure_client_id" ("DATABRICKS_AZURE_CLIENT_ID" ∷ "ARM_CLIENT_ID" ∷ [])
    ∷ attribute "azure_tenant_id" ("DATABRICKS_AZURE_TENANT_ID" ∷ "ARM_TENANT_ID" ∷ [])
    ∷ attribute "azure_environment" ("ARM_ENVIRONMENT" ∷ [])
    ∷ attribute "skip_verify" []
    ∷ attribute "http_timeout_seconds" []
    ∷ attribute "debug_truncate_bytes" ("DATABRICKS_DEBUG_TRUNCATE_BYTES" ∷ [])
    ∷ attribute "debug_headers" ("DATABRICKS_DEBUG_HEADERS" ∷ [])
    ∷ attribute "rate_limit" ("DATABRICKS_RATE_LIMIT" ∷ [])
    ∷ []

module _ (getenv : String → String) where
  abbrev is_set : String → Bool
  is_set env_var = not (getenv env_var == "")

  unfoldable pub used_envs : List ConfigAttribute → List String
  used_envs [] = []
  used_envs (attr ∷ attrs) = keep is_set attr.env_vars ++ used_envs attrs

  abbrev is_used_as_env : String → Bool
  is_used_as_env name =
      any (λ attr. attr.name == name && any is_set attr.env_vars) client_attributes

  abbrev labelled : String → List String → List String
  labelled label [] = []
  labelled label (x ∷ xs) = (label <> join ", " (x ∷ xs)) ∷ []

  abbrev auth_info : List String → String
  auth_info [] = ""
  auth_info (a ∷ used) =
      ". "
      <> join ". " (
          labelled "Attributes used: " (keep (λ name. not (is_used_as_env name)) (a ∷ used))
          ++ labelled "Environment variables used: " (used_envs client_attributes))

  -- `niceAuthError`
  unfoldable pub nice_auth_error : DatabricksClient → String → Error
  nice_auth_error c message = other (
      message
      <> (auth_info c.config_attributes_used
          <> (". Please check "
              <> ("https://registry.terraform.io/providers/databrickslabs/databricks/latest/docs#authentication"
                  <> " for details"))))

abbrev pub cannot_configure : String → Error → String
cannot_configure name e = "cannot configure " <> (name <> (" auth: " <> error_text e))

abbrev pub not_created : String
not_created =
    "workspace is most likely not created yet, because the `host` "
    <> ("is empty. Please add `depends_on = [databricks_mws_workspaces.this]` or "
        <> ("`depends_on = [azurerm_databricks_workspace.this]` to every data resource. See "
            <> "https://www.terraform.io/docs/language/resources/behavior.html more info"))

module _ (o : Outside) (getenv : String → String) (is_data : Bool) where
  abbrev pub Method : Type 0
  Method = (DatabricksClient → Configured) × String

  abbrev pub providers : List Method
  providers =
      (configure_with_direct_params o, "direct")
      ∷ (configure_with_azure_client_secret o, "Azure Service Principal")
      ∷ (configure_with_azure_managed_identity o, "Azure MSI")
      ∷ (configure_with_azure_cli o, "Azure CLI")
      ∷ (configure_with_google_for_accounts_api o, "Databricks Account on GCP")
      ∷ (configure_with_google_for_workspace o, "Databricks on GCP")
      ∷ (configure_with_databricks_cfg o, "Databricks CLI")
      ∷ []

  abbrev pub not_configured : DatabricksClient → Option Error × DatabricksClient
  not_configured c =
      if c.host == "" && is_data
      then (some (nice_auth_error getenv c not_created), c)
      else (some (nice_auth_error getenv c "authentication is not configured for provider."), c)

  abbrev pub tried :
      Configured
      → String
      → (DatabricksClient → Option Error × DatabricksClient)
      → Option Error × DatabricksClient
  tried (err e, c) name next = (some (nice_auth_error getenv c (cannot_configure name e)), c)
  tried (ok none, c) name next = next c
  tried (ok (some a), c) name next = (none, fix_host (record c { auth_visitor = some a }))

  unfoldable pub try_each : List Method → DatabricksClient → Option Error × DatabricksClient
  try_each [] c = not_configured c
  try_each ((configure, name) ∷ more) c = tried (configure c) name (λ c'. try_each more c')

  -- `Authenticate`
  unfoldable pub authenticate : DatabricksClient → Option Error × DatabricksClient
  authenticate c = elim c.auth_visitor [ some a ↦ (none, c) | none ↦ try_each providers c ]
