-- ===== src/Tests/Pipelines.antt =====
-- A service whose pipelines fail; three attempts of every call.
use terraform_provider_datab.Base.{◌≡◌, refl, Bool, true, false, none, some, List, [], ◌∷◌}
use terraform_provider_datab.Common.Errors.{other, ok, err, not_found}
use terraform_provider_datab.Common.Service.{Server}
use terraform_provider_datab.Compute.Retry.{RetryContext, rounds}
use terraform_provider_datab.Compute.Pipelines.{
  PipelineSpec, returns, panics, Request, create_pipeline_at, get_pipeline, delete_pipeline_at,
  put_pipeline, Reply, wait_for_state, delete_pipeline, create_pipeline,
}
use terraform_provider_datab.Compute.Pipelines.Creating.{Provisions, create_pipeline-Provisions}

abbrev spec : PipelineSpec
spec = record {
  id = "";
  name = "bronze";
  storage = "/bronze";
  continuous = true;
  allow_duplicate_names = false;
  target = "";
}

abbrev is_deleted : List Request → Bool
is_deleted [] = false
is_deleted (delete_pipeline_at id ∷ log) = true
is_deleted (_ ∷ log) = is_deleted log

abbrev service : Server Request Reply
service log (create_pipeline_at s) = ok "p-1"
service log (get_pipeline id) = elim (is_deleted log) [
  | true ↦ err (not_found "gone")
  | false ↦ ok (record { pipeline_id = id; spec = some spec; state = some "FAILED"; cause = "" })
]
service log (delete_pipeline_at id) = ok tt
service log (put_pipeline id s) = ok tt

abbrev three : RetryContext Bool Request
three = record {
  retry = rounds 3 (other "timeout");
  timeout_error = other "timeout";
  retry-rounds = λ f s log. (3, refl);
}

create_run : create_pipeline service three spec [] ≡ (
  returns (err (other "pipeline p-1 has failed")),
  get_pipeline "p-1" ∷ delete_pipeline_at "p-1" ∷ get_pipeline "p-1" ∷ create_pipeline_at spec ∷ [],
)
unfolding create_pipeline delete_pipeline wait_for_state rounds
create_run = refl

-- A service that describes its pipelines without a state.
abbrev silent : Server Request Reply
silent log (create_pipeline_at s) = ok "p-1"
silent log (get_pipeline id) =
    ok (record { pipeline_id = id; spec = some spec; state = none; cause = "" })
silent log (delete_pipeline_at id) = ok tt
silent log (put_pipeline id s) = ok tt

-- The pipeline stays: nothing deletes it.
panic_run :
    create_pipeline silent three spec []
    ≡ (panics, get_pipeline "p-1" ∷ create_pipeline_at spec ∷ [])
unfolding create_pipeline wait_for_state rounds
panic_run = refl

create_pipeline-Provisions_example :
    Provisions service three spec [] (create_pipeline service three spec [])
create_pipeline-Provisions_example = create_pipeline-Provisions service three spec []
