-- ===== src/Common/Http.antt =====
-- common/http.go: how a response becomes an error, and which errors are retried. The JSON and regexp
-- libraries are parameters: `unmarshal` reads the body of an error, or gives the text of its own
-- error; `pre_text` is the group of the first match of `<pre>(.*)</pre>`. Lines of the log are left out.
pub mod Retrying
pub mod Clarity
pub mod Masking
use Prim.Native.Char.{Char, code}
use Prim.Native.String
use terraform_provider_datab.Base.{
  ℕ, ◌-◌, String, ◌<>◌, Bool, true, false, not, ◌&&◌, ◌||◌, Option, none, some, List, [], ◌∷◌, eqb,
  leb, if◌then◌else◌, ◌==◌, has_prefix, cut, replace_all, drop_chars,
}
use terraform_provider_datab.Common.Errors.{ApiError, Error, api, Result, ok, err, is_retriable}

pub record ApiErrorBody : Type 0 where
  pub error_code : String
  pub message : String
  pub scim_detail : String
  pub scim_status : String
  pub api12_error : String

-- `http.Response`, with the URL of its request; the body is read, or reading it fails with a text.
pub record Response : Type 0 where
  pub status : String
  pub status_code : ℕ
  pub url_path : String
  pub url_host : String
  pub body : Option String
  pub read_error : String

-- Characters that `strings.Trim(s, " .")` takes off.
abbrev is_trimmed : ℕ → Bool
is_trimmed c = eqb c 32 || eqb c 46

unfoldable pub trim_left : String → String
trim_left String.[] = ""
trim_left (String.◌∷◌ c s) =
    let shorter = trim_left s in if is_trimmed (code c) then shorter else String.◌∷◌ c s

unfoldable pub trim_right : String → String
trim_right String.[] = ""
trim_right (String.◌∷◌ c s) =
    let rest = trim_right s in if rest == "" && is_trimmed (code c) then "" else String.◌∷◌ c rest

abbrev pub trim : String → String
trim s = trim_right (trim_left s)

abbrev first_or : Char → String → Char
first_or d String.[] = d
first_or d (String.◌∷◌ c s) = c

abbrev upper_letter : Char → Char
upper_letter c =
    if leb 97 (code c) && leb (code c) 122
    then first_or c (drop_chars (code c - 97) "ABCDEFGHIJKLMNOPQRSTUVWXYZ")
    else c

-- `strings.ToUpper` on ASCII
unfoldable pub to_upper : String → String
to_upper String.[] = ""
to_upper (String.◌∷◌ c s) = String.◌∷◌ (upper_letter c) (to_upper s)

abbrev body_with : String → String → ApiErrorBody
body_with error_code message = record {
  error_code = error_code;
  message = message;
  scim_detail = "";
  scim_status = "";
  api12_error = "";
}

abbrev unknown_code : Option (String × String) → String
unknown_code none = "UNKNOWN"
unknown_code (some (number, text)) = replace_all (to_upper (trim text)) " " "_"

abbrev unknown_message : Option String → String → String → String → String
unknown_message (some text) status body error = trim text
unknown_message none status body error =
    "Response from server (" <> (status <> (") " <> (body <> (": " <> error))))

abbrev pub e2example : String
e2example =
    "https://registry.terraform.io/providers/databrickslabs/databricks/latest/docs/guides/aws-workspace"

abbrev pub is_accounts_client : String → Bool
is_accounts_client host = has_prefix host "https://accounts."

abbrev pub is_accounts_api : Response → Bool
is_accounts_api resp = has_prefix resp.url_path "/api/2.0/accounts"

abbrev pub is_testing : Response → Bool
is_testing resp = has_prefix resp.url_host "127.0.0.1"

abbrev incorrect : String → Response → ApiError
incorrect message resp = record {
  error_code = "INCORRECT_CONFIGURATION";
  message = message;
  resource = resp.url_path;
  status_code = resp.status_code;
}

abbrev pub workspace_url_message : String → String
workspace_url_message path =
    "Databricks API ("
    <> (path
        <> (") requires you to set `host` property "
            <> ("(or DATABRICKS_HOST env variable) to result of `databricks_mws_workspaces.this.workspace_url`. "
                <> ("This error may happen if you're using provider in both normal and multiworkspace mode. Please "
                    <> ("refactor your code into different modules. Runnable example that we use for integration testing "
                        <> ("can be found in this repository at " <> e2example))))))

abbrev pub accounts_host_message : String → String → String
accounts_host_message path host =
    "Accounts API ("
    <> (path
        <> (") requires you to set accounts.cloud.databricks.com as DATABRICKS_HOST, but you have "
            <> ("specified "
                <> (host
                    <> (" instead. This error may happen if you're using provider in both "
                        <> ("normal and multiworkspace mode. Please refactor your code into different modules. "
                            <> ("Runnable example that we use for integration testing can be found in this "
                                <> ("repository at " <> e2example))))))))

-- `commonErrorClarity`, for a client with this host.
unfoldable pub common_error_clarity : String → Response → Option ApiError
common_error_clarity host resp =
    if not (is_testing resp) && (is_accounts_client host && not (is_accounts_api resp))
    then some (incorrect (workspace_url_message resp.url_path) resp)
    else if not (is_testing resp) && (is_accounts_api resp && not (is_accounts_client host))
    then some (incorrect (accounts_host_message resp.url_path host) resp)
    else none

abbrev adapt_api12 : ApiErrorBody → ApiErrorBody
adapt_api12 b = if not (b.api12_error == "") then record b { message = b.api12_error } else b

abbrev scim_message : String → String
scim_message detail = if detail == "null" then "SCIM API Internal Error" else detail

abbrev adapt_scim : ApiErrorBody → ApiErrorBody
adapt_scim b =
    if b.message == "" && not (b.scim_detail == "")
    then record b { message = scim_message b.scim_detail; error_code = "SCIM_" <> b.scim_status }
    else b

abbrev from_body : Response → ApiErrorBody → ApiError
from_body resp b = record {
  error_code = b.error_code;
  message = b.message;
  resource = resp.url_path;
  status_code = resp.status_code;
}

-- Where the JSON library fails, the body that it has filled so far is replaced, and the text of its
-- error is handed on.
pub data Unmarshalled : Type 0 where
  body_read : ApiErrorBody → Unmarshalled
  not_json : String → Unmarshalled

abbrev pub too_many_requests : ApiError
too_many_requests = record {
  error_code = "TOO_MANY_REQUESTS";
  message = "Current request has to be retried";
  resource = "";
  status_code = 429;
}

abbrev io_error : String → ApiError
io_error text = record { error_code = "IO_ERROR"; message = text; resource = ""; status_code = 523 }

-- What the HTTP client gives: its error, which is a `url.Error` or another one, or a response.
pub data Exchange : Type 0 where
  url_error : String → Exchange
  no_response : Option Error → Exchange
  response : Response → Exchange

module _ (unmarshal : String → Unmarshalled) (pre_text : String → Option String) where
  -- `parseUnknownError`
  unfoldable pub parse_unknown_error : String → String → String → ApiErrorBody
  parse_unknown_error status body error =
      body_with (unknown_code (cut " " status)) (unknown_message (pre_text body) status body error)

  abbrev error_body : Response → String → Unmarshalled → ApiErrorBody
  error_body resp text (body_read b) = b
  error_body resp text (not_json error) = parse_unknown_error resp.status text error

  abbrev parse_body : Response → String → ApiError
  parse_body resp text =
      from_body resp (adapt_scim (adapt_api12 (error_body resp text (unmarshal text))))

  abbrev pub clear_or_parse : Response → String → Option ApiError → ApiError
  clear_or_parse resp text (some e) = e
  clear_or_parse resp text none = parse_body resp text

  abbrev pub parse_read : String → Response → Option String → ApiError
  parse_read host resp none = record {
    error_code = "IO_READ";
    message = resp.read_error;
    resource = resp.url_path;
    status_code = resp.status_code;
  }
  parse_read host resp (some text) = clear_or_parse resp text (common_error_clarity host resp)

  -- `parseError`
  unfoldable pub parse_error : String → Response → ApiError
  parse_error host resp = parse_read host resp resp.body

  abbrev pub check_response : String → Response → Bool × Option Error
  check_response host resp =
      if eqb resp.status_code 429
      then (true, some (api too_many_requests))
      else if leb 400 resp.status_code
      then (is_retriable (parse_error host resp), some (api (parse_error host resp)))
      else (false, none)

  -- `checkHTTPRetry`
  unfoldable pub check_http_retry : String → Exchange → Bool × Option Error
  check_http_retry host (url_error text) =
      (is_retriable (io_error text), some (api (io_error text)))
  check_http_retry host (no_response e) = (false, e)
  check_http_retry host (response resp) = check_response host resp
