-- ===== src/Tests/Http.antt =====
-- A response of the status 404 on the accounts host, for a request of the workspace API.
use terraform_provider_datab.Base.{◌≡◌, ◌<◌, ◌≤◌, ◌⊎◌, String, true, false, none, some}
use terraform_provider_datab.Common.Errors.{ApiError, api}
use terraform_provider_datab.Common.Http.{Response, not_json, response, check_http_retry}
use terraform_provider_datab.Common.Http.Retrying.{check_http_retry-status}

abbrev missing : Response
missing = record {
  status = "404 Not Found";
  status_code = 404;
  url_path = "/api/2.0/clusters/get";
  url_host = "accounts.cloud.databricks.com";
  body = some "<pre>Not found.</pre>";
  read_error = "";
}

abbrev accounts : String
accounts = "https://accounts.cloud.databricks.com"

check_http_retry-status_example :
    ((missing.status_code < 400)
      × (check_http_retry
            (λ s. not_json "invalid character")
            (λ s. some "Not found.")
            accounts
            (response missing)
          ≡ (false, none)))
    ⊎ ((400 ≤ missing.status_code)
        × (e : ApiError) × ((check_http_retry
              (λ s. not_json "invalid character")
              (λ s. some "Not found.")
              accounts
              (response missing)).1
            ≡ some (api e))
        × (e.status_code ≡ missing.status_code)
        × (missing.status_code ≡ 429
            → (check_http_retry
                (λ s. not_json "invalid character")
                (λ s. some "Not found.")
                accounts
                (response missing)).0
              ≡ true))
check_http_retry-status_example =
    check_http_retry-status (λ s. not_json "invalid character") (λ s. some "Not found.") accounts
      missing
