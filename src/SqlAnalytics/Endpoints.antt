-- ===== src/SqlAnalytics/Endpoints.antt =====
-- sqlanalytics/resource_sql_endpoint.go: the endpoints API, and the handlers of the resource. Of an endpoint
-- there are its plain fields.
pub mod Creating
use terraform_provider_datab.Base.{
  ℕ, String, ◌<>◌, Bool, Option, none, some, List, [], ◌∷◌, if◌then◌else◌, ◌==◌,
}
use terraform_provider_datab.Common.Errors.{Error, other, Result, ok, err}
use terraform_provider_datab.Common.Service.{Server, Call, pure, fail, send, ◌>>=◌, ◌>>◌}
use terraform_provider_datab.Compute.Retry.{
  Verdict, finished, retryable, non_retryable, RetryContext, waited,
}

pub record SqlEndpoint : Type 0 where
  pub id : String
  pub name : String
  pub cluster_size : String
  pub auto_stop_minutes : ℕ
  pub min_num_clusters : ℕ
  pub max_num_clusters : ℕ
  pub num_clusters : ℕ
  pub enable_photon : Bool
  pub enable_serverless_compute : Bool
  pub instance_profile_arn : String
  pub state : String
  pub jdbc_url : String
  pub spot_instance_policy : String
  pub data_source_id : String

pub record DataSource : Type 0 where
  pub id : String
  pub endpoint_id : String

-- What is created is answered with the endpoint as the answer leaves it.
pub data Request : Type 0 where
  list_endpoints_at list_data_sources : Request
  create_endpoint_at : SqlEndpoint → Request
  start_endpoint_at stop_endpoint_at get_endpoint_at delete_endpoint_at : String → Request
  edit_endpoint_at : String → SqlEndpoint → Request

abbrev pub Reply : Request → Type 0
Reply list_endpoints_at = List SqlEndpoint
Reply list_data_sources = List DataSource
Reply (create_endpoint_at se) = SqlEndpoint
Reply (start_endpoint_at id) = Unit
Reply (stop_endpoint_at id) = Unit
Reply (get_endpoint_at id) = SqlEndpoint
Reply (delete_endpoint_at id) = Unit
Reply (edit_endpoint_at id se) = Unit

-- The function that `waitForRunning` retries.
abbrev pub judge_endpoint : String → Result SqlEndpoint → Verdict
judge_endpoint id (err e) = non_retryable e
judge_endpoint id (ok endpoint) =
    if endpoint.state == "RUNNING"
    then finished
    else if endpoint.state == "DELETED"
    then non_retryable (other "endpoint got deleted during creation")
    else retryable (other ("endpoint " <> (id <> (" is " <> endpoint.state))))

unfoldable pub find_data_source : String → List DataSource → Option String
find_data_source endpoint_id [] = none
find_data_source endpoint_id (ds ∷ dss) =
    let rest = find_data_source endpoint_id dss in
    if ds.endpoint_id == endpoint_id then some ds.id else rest

module _ (server : Server Request Reply) (sdk : RetryContext (Unit {0}) Request) where
  -- `List`, `Stop`, `Get`, `Edit` and `Delete`
  abbrev pub list_endpoints : Call Request (List SqlEndpoint)
  list_endpoints = send server list_endpoints_at

  abbrev pub stop_endpoint : String → Call Request (Unit {0})
  stop_endpoint id = send server (stop_endpoint_at id)

  abbrev pub get_endpoint : String → Call Request SqlEndpoint
  get_endpoint id = send server (get_endpoint_at id)

  abbrev pub edit_endpoint : SqlEndpoint → Call Request (Unit {0})
  edit_endpoint se = send server (edit_endpoint_at se.id se)

  abbrev pub delete_endpoint : String → Call Request (Unit {0})
  delete_endpoint id = send server (delete_endpoint_at id)

  abbrev pub endpoint_attempt : String → Unit {0} → List Request → Verdict × Unit {0} × List Request
  endpoint_attempt id s log = let (r, log') = get_endpoint id log in (judge_endpoint id r, tt, log')

  -- `waitForRunning`
  unfoldable pub wait_for_running : String → Call Request (Unit {0})
  wait_for_running id log = waited (sdk.retry (endpoint_attempt id) tt log)

  -- `Start`
  unfoldable pub start_endpoint : String → Call Request (Unit {0})
  start_endpoint id = send server (start_endpoint_at id) >> wait_for_running id

  -- `Create`, with the endpoint that it leaves
  unfoldable pub create_endpoint : SqlEndpoint → Call Request SqlEndpoint
  create_endpoint se =
      send server (create_endpoint_at se) >>= λ made. wait_for_running made.id >> pure made

  abbrev resolved : String → Option String → Call Request String
  resolved endpoint_id (some id) = pure id
  resolved endpoint_id none =
      fail (other ("unable to find data source ID for endpoint: " <> endpoint_id))

  -- `ResolveDataSourceID`
  unfoldable pub resolve_data_source_id : String → Call Request String
  resolve_data_source_id endpoint_id = send server list_data_sources >>= λ dss.
      resolved endpoint_id (find_data_source endpoint_id dss)

  -- The handlers; creating sets the ID at its end.
  unfoldable pub create_context : SqlEndpoint → Call Request String
  create_context se = create_endpoint se >>= λ made. pure made.id

  unfoldable pub read_context : String → Call Request SqlEndpoint
  read_context id = do
    se ← get_endpoint id
    data_source ← resolve_data_source_id id
    pure (record se { data_source_id = data_source })
