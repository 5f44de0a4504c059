-- ===== src/Tests/Endpoints.antt =====
-- A service whose endpoints are deleted while they start; three attempts of every call.
use terraform_provider_datab.Base.{◌≡◌, refl, String, true, false, [], ◌∷◌}
use terraform_provider_datab.Common.Errors.{other, ok, err}
use terraform_provider_datab.Common.Service.{Server}
use terraform_provider_datab.Compute.Retry.{RetryContext, rounds}
use terraform_provider_datab.SqlAnalytics.Endpoints.{
  SqlEndpoint, Request, list_endpoints_at, list_data_sources, create_endpoint_at, start_endpoint_at,
  stop_endpoint_at, get_endpoint_at, delete_endpoint_at, edit_endpoint_at, Reply, wait_for_running,
  create_endpoint, create_context,
}
use terraform_provider_datab.SqlAnalytics.Endpoints.Creating.{Leaves, create_context-Leaves}

abbrev endpoint : String → SqlEndpoint
endpoint state = record {
  id = "e-1";
  name = "reports";
  cluster_size = "Small";
  auto_stop_minutes = 120;
  min_num_clusters = 1;
  max_num_clusters = 1;
  num_clusters = 1;
  enable_photon = true;
  enable_serverless_compute = false;
  instance_profile_arn = "";
  state = state;
  jdbc_url = "";
  spot_instance_policy = "COST_OPTIMIZED";
  data_source_id = "";
}

abbrev service : String → Server Request Reply
service state log list_endpoints_at = ok []
service state log list_data_sources = ok []
service state log (create_endpoint_at se) = ok (endpoint "STARTING")
service state log (start_endpoint_at id) = ok tt
service state log (stop_endpoint_at id) = ok tt
service state log (get_endpoint_at id) = ok (endpoint state)
service state log (delete_endpoint_at id) = ok tt
service state log (edit_endpoint_at id se) = ok tt

abbrev three : RetryContext (Unit {0}) Request
three = record {
  retry = rounds 3 (other "timeout");
  timeout_error = other "timeout";
  retry-rounds = λ f s log. (3, refl);
}

-- An endpoint that does not start in time is not deleted.
slow_run : create_context (service "STARTING") three (endpoint "") [] ≡ (
  err (other "endpoint e-1 is STARTING"),
  get_endpoint_at "e-1"
      ∷ get_endpoint_at "e-1"
      ∷ get_endpoint_at "e-1"
      ∷ create_endpoint_at (endpoint "")
      ∷ [],
)
unfolding create_context create_endpoint wait_for_running rounds
slow_run = refl

create_context-Leaves_example :
    Leaves
      (service "RUNNING")
      three
      (endpoint "")
      []
      (create_context (service "RUNNING") three (endpoint "") [])
create_context-Leaves_example = create_context-Leaves (service "RUNNING") three (endpoint "") [] tt
