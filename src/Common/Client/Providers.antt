-- ===== src/Common/Client/Providers.antt =====
-- common/client.go, common/azure_auth.go, common/azure_cli_auth.go and common/gcp.go: the methods of
-- authentication. Each gives an authorizer, nothing where it does not apply, or an error, and the client
-- with the fields that it changes.
use terraform_provider_datab.Base.{
  String, ◌<>◌, Bool, true, false, not, Option, none, some, List, [], ◌∷◌, if◌then◌else◌, ◌==◌,
  ◌&&◌, ◌||◌, lookup,
}
use terraform_provider_datab.Common.Errors.{Error, other, error_text, Result, ok, err}
use terraform_provider_datab.Common.Http.{is_accounts_client}
use terraform_provider_datab.Common.Client.{
  AzureMethod, service_principal, managed_identity, azure_cli, Authorizer, header, with_aad,
  with_pat, google_accounts, google_workspace, DatabricksClient, AzureIds, resource_id, is_azure,
  is_gcp,
}

-- A profile of the configuration file is its keys with their values.
abbrev pub Profile : Type 0
Profile = List (String × String)

-- What the methods call outside: the Azure libraries and the search for the workspace's URL by its
-- resource ID, the Google libraries, base64 and the files. The result of an authorizer's factory is
-- kept as its failure.
pub record Outside : Type 0 where
  pub ids : AzureIds
  pub management_failure : AzureMethod → Option Error
  pub platform_failure : AzureMethod → Option Error
  pub workspace_url : String → Result String
  pub is_msi_available : Bool
  pub cli_failure : Option Error
  pub oidc_failure : DatabricksClient → Option Error
  pub impersonation_failure : DatabricksClient → Option Error
  pub encode : String → String
  pub expand : String → Result String
  pub load : String → Option (Result (String → Profile))

abbrev pub Configured : Type 0
Configured = Result (Option Authorizer) × DatabricksClient

abbrev pub no_authorizer : DatabricksClient → Configured
no_authorizer c = (ok none, c)

abbrev pub needs_host : String → Error
needs_host reason = other ("host is empty, but is required by " <> reason)

abbrev pub direct_authorizer : String → DatabricksClient → Configured
direct_authorizer auth_type c =
    if c.token == "" || c.host == ""
    then (ok none, c)
    else (ok (some (header auth_type c.token)), c)

-- Where the file has no key, its text is empty.
abbrev pub key_text : String → Profile → String
key_text k dbcli = elim (lookup k dbcli) [ none ↦ "" | some v ↦ v ]

abbrev has_key : String → Profile → Bool
has_key k dbcli = elim (lookup k dbcli) [ none ↦ false | some v ↦ true ]

abbrev pub is_basic : Profile → Bool
is_basic dbcli = has_key "username" dbcli && has_key "password" dbcli

module _ (o : Outside) where
  abbrev pub encode_basic_auth : String → String → String
  encode_basic_auth username password = o.encode (username <> (":" <> password))

  abbrev pub with_basic_auth : DatabricksClient → Configured
  with_basic_auth c =
      if c.host == "" then (err (needs_host "basic_auth"), c) else direct_authorizer "Basic" c

  -- `configureWithDirectParams`
  unfoldable pub configure_with_direct_params : DatabricksClient → Configured
  configure_with_direct_params c =
      if not (c.username == "") && not (c.password == "")
      then with_basic_auth (record c { token = encode_basic_auth c.username c.password })
      else if not (c.token == "") && c.host == ""
      then (err (needs_host "token"), c)
      else direct_authorizer "Bearer" c

  abbrev found_workspace : Result String → DatabricksClient → Option Error × DatabricksClient
  found_workspace (err e) c = (some e, c)
  found_workspace (ok url) c = (none, record c { host = "https://" <> (url <> "/") })

  -- `ensureWorkspaceURL`
  abbrev ensure_workspace_url : DatabricksClient → Option Error × DatabricksClient
  ensure_workspace_url c =
      if not (c.host == "")
      then (none, c)
      else let (id, c') = resource_id o.ids c in
        if id == ""
        then (some (other "somehow resource id is not set"), c')
        else found_workspace (o.workspace_url id) c'

  abbrev cannot : String → Error → Error
  cannot what e = other ("cannot " <> (what <> (": " <> error_text e)))

  abbrev platform_authorized : AzureMethod → Option Error × DatabricksClient → Configured
  platform_authorized m (some e, c) = (err (cannot "get workspace" e), c)
  platform_authorized m (none, c) = elim (o.platform_failure m) [
    | some e ↦ (err (cannot "authorize databricks" e), c)
    | none ↦ (ok (some (with_aad m)), c)
  ]

  -- `simpleAADRequestVisitor`
  abbrev simple_aad_request_visitor : AzureMethod → DatabricksClient → Configured
  simple_aad_request_visitor m c = elim (o.management_failure m) [
    | some e ↦ (err (cannot "authorize management" e), c)
    | none ↦ platform_authorized m (ensure_workspace_url c)
  ]

  abbrev pub is_azure_client_secret_set : DatabricksClient → Bool
  is_azure_client_secret_set c =
      not (c.azure_client_id == "")
      && (not (c.azure_client_secret == "") && not (c.azure_tenant_id == ""))

  -- `configureWithAzureClientSecret`
  unfoldable pub configure_with_azure_client_secret : DatabricksClient → Configured
  configure_with_azure_client_secret c0 =
      let (azure, c) = is_azure o.ids c0 in
      if not azure
      then no_authorizer c
      else if not (is_azure_client_secret_set c)
      then no_authorizer c
      else if c.azure_use_pat_for_spn
      then (ok (some (with_pat service_principal)), c)
      else simple_aad_request_visitor service_principal c

  -- `configureWithAzureManagedIdentity`
  unfoldable pub configure_with_azure_managed_identity : DatabricksClient → Configured
  configure_with_azure_managed_identity c0 =
      let (azure, c) = is_azure o.ids c0 in
      if not azure
      then no_authorizer c
      else if not c.azure_use_msi
      then no_authorizer c
      else if not o.is_msi_available
      then (err (other "managed identity is not available"), c)
      else simple_aad_request_visitor managed_identity c

  abbrev cli_error : Error → Error
  cli_error e =
      if error_text e == "Invoking Azure CLI failed with the following error: "
      then other (
          "most likely Azure CLI is not installed. "
          <> "See https://docs.microsoft.com/en-us/cli/azure/?view=azure-cli-latest for details")
      else e

  abbrev with_cli : Option Error → DatabricksClient → Configured
  with_cli (some e) c = (err (cli_error e), c)
  with_cli none c =
      if c.azure_use_pat_for_cli
      then (ok (some (with_pat azure_cli)), c)
      else simple_aad_request_visitor azure_cli c

  -- `configureWithAzureCLI`
  unfoldable pub configure_with_azure_cli : DatabricksClient → Configured
  configure_with_azure_cli c0 =
      let (azure, c) = is_azure o.ids c0 in
      if not azure
      then no_authorizer c
      else if is_azure_client_secret_set c
      then no_authorizer c
      else with_cli o.cli_failure c

  abbrev google : Authorizer → Option Error → DatabricksClient → Configured
  google a (some e) c = (err e, c)
  google a none c = (ok (some a), c)

  -- `configureWithGoogleForAccountsAPI`
  unfoldable pub configure_with_google_for_accounts_api : DatabricksClient → Configured
  configure_with_google_for_accounts_api c =
      if c.google_service_account == "" || (not (is_gcp c) || not (is_accounts_client c.host))
      then no_authorizer c
      else elim (o.oidc_failure c) [
        | some e ↦ (err e, c)
        | none ↦ google google_accounts (o.impersonation_failure c) c
      ]

  -- `configureWithGoogleForWorkspace`
  unfoldable pub configure_with_google_for_workspace : DatabricksClient → Configured
  configure_with_google_for_workspace c =
      if c.google_service_account == "" || (not (is_gcp c) || is_accounts_client c.host)
      then no_authorizer c
      else google google_workspace (o.oidc_failure c) c

  abbrev corrupt : String → String → DatabricksClient → Error
  corrupt file what c = other (
      "config file "
      <> (file <> (" is corrupt: cannot find " <> (what <> (" in " <> (c.profile <> " profile"))))))

  abbrev with_token : String → String → DatabricksClient → Configured
  with_token file auth_type c =
      if c.token == ""
      then (err (corrupt file "token" c), c)
      else (ok (some (header auth_type c.token)), c)

  -- A profile that has keys.
  abbrev from_profile : String → Profile → DatabricksClient → Configured
  from_profile file dbcli c0 =
      let c = record c0 { host = key_text "host" dbcli } in
      if c.host == ""
      then (err (corrupt file "host" c), c)
      else if is_basic dbcli
      then with_token file "Basic" (record c {
        token = encode_basic_auth (key_text "username" dbcli) (key_text "password" dbcli);
      })
      else with_token file "Bearer" (record c { token = key_text "token" dbcli })

  abbrev from_section : String → Profile → DatabricksClient → Configured
  from_section file [] c =
      (err (other (file <> (" has no " <> (c.profile <> " profile configured")))), c)
  from_section file (k ∷ ks) c = from_profile file (k ∷ ks) c

  abbrev pub or_default_profile : DatabricksClient → DatabricksClient
  or_default_profile c = if c.profile == "" then record c { profile = "DEFAULT" } else c

  abbrev from_file : String → Option (Result (String → Profile)) → DatabricksClient → Configured
  from_file file none c = no_authorizer c
  from_file file (some (err e)) c = (err (cannot "parse config file" e), c)
  from_file file (some (ok cfg)) c =
      let c' = or_default_profile c in from_section file (cfg c'.profile) c'

  -- `configureWithDatabricksCfg`
  unfoldable pub configure_with_databricks_cfg : DatabricksClient → Configured
  configure_with_databricks_cfg c =
      elim (o.expand (if c.config_file == "" then "~/.databrickscfg" else c.config_file)) [
        | err e ↦ (err (cannot "find homedir" e), c)
        | ok file ↦ from_file file (o.load file) c
      ]
