-- ===== src/Compute/Pipelines.antt =====
-- compute/resource_pipeline.go: the pipelines API, and the handlers of the resource. Of the specification of a
-- pipeline there are its plain fields. Its description has pointers to a state and a specification: to read
-- through one that is nil panics, which no caller recovers from.
pub mod Creating
use terraform_provider_datab.Base.{
  String, ◌<>◌, Bool, true, false, not, Option, none, some, List, if◌then◌else◌, ◌==◌,
}
use terraform_provider_datab.Common.Errors.{Error, other, error_text, Result, ok, err, is_missing}
use terraform_provider_datab.Common.Service.{Server, Call, pure, fail, send, ◌>>=◌}
use terraform_provider_datab.Compute.Retry.{
  Verdict, finished, retryable, non_retryable, RetryContext, Outcome,
}

pub record PipelineSpec : Type 0 where
  pub id : String
  pub name : String
  pub storage : String
  pub continuous : Bool
  pub allow_duplicate_names : Bool
  pub target : String

pub record PipelineInfo : Type 0 where
  pub pipeline_id : String
  pub spec : Option PipelineSpec
  pub state : Option String
  pub cause : String

pub data Request : Type 0 where
  create_pipeline_at : PipelineSpec → Request
  get_pipeline delete_pipeline_at : String → Request
  put_pipeline : String → PipelineSpec → Request

abbrev pub Reply : Request → Type 0
Reply (create_pipeline_at s) = String
Reply (get_pipeline id) = PipelineInfo
Reply (delete_pipeline_at id) = Unit
Reply (put_pipeline id s) = Unit

-- What a method ends with: it returns, or it panics.
pub data Ending (A : Type 0) : Type 0 where
  returns : Result A → Ending A
  panics : Ending A

-- A method that may panic.
abbrev pub Run : Type 0 → Type 0
Run A = List Request → Ending A × List Request

abbrev in_state : String → String → String → Error
in_state id state rest = other ("Pipeline " <> (id <> (" is in state " <> (state <> rest))))

-- What one run of a retried function comes to: what it returns, or nothing where it panics.
abbrev pub Judgement : Type 0
Judgement = Option Verdict

abbrev pub judge_spec : String → String → String → Option PipelineSpec → Judgement
judge_spec id desired state none = none
judge_spec id desired state (some spec) =
    if not spec.continuous
    then some finished
    else some (retryable (in_state id state (", not yet in state " <> desired)))

abbrev pub judge_read : String → String → Option PipelineSpec → Option String → Judgement
judge_read id desired spec none = none
judge_read id desired spec (some state) =
    if state == desired
    then some finished
    else if state == "FAILED"
    then some (non_retryable (other ("pipeline " <> (id <> " has failed"))))
    else judge_spec id desired state spec

-- The function that `waitForState` retries.
abbrev pub judge_state : String → String → Result PipelineInfo → Judgement
judge_state id desired (err e) = some (non_retryable e)
judge_state id desired (ok i) = judge_read id desired i.spec i.state

abbrev pub judge_present : String → Option String → Judgement
judge_present id none = none
judge_present id (some state) = some (retryable (in_state id state ", not yet deleted"))

abbrev pub judge_deleted : String → Result PipelineInfo → Judgement
judge_deleted id (err e) = if is_missing e then some finished else some (non_retryable e)
judge_deleted id (ok i) = judge_present id i.state

-- A panic ends the attempts at once, like an answer; the flag tells the two apart.
abbrev pub attempted : Judgement → List Request → Verdict × Bool × List Request
attempted none log = (finished, true, log)
attempted (some v) log = (v, false, log)

abbrev pub ending : Outcome Bool Request → Ending (Unit {0}) × List Request
ending (none, true, log) = (panics, log)
ending (none, false, log) = (returns (ok tt), log)
ending (some e, panicked, log) = (returns (err e), log)

abbrev pub multiple_errors : Error → Error → Error
multiple_errors e e2 = other (
    "multiple errors occurred when creating pipeline. Error while waiting for creation: \""
    <> (error_text e
        <> ("\"; error while attempting to clean up failed pipeline: \""
            <> (error_text e2 <> "\""))))

-- What `create` returns once it has tried to delete the pipeline.
abbrev pub after_delete : Error → Ending (Unit {0}) × List Request → Ending String × List Request
after_delete e (panics, log) = (panics, log)
after_delete e (returns (ok _), log) = (returns (err e), log)
after_delete e (returns (err e2), log) = (returns (err (multiple_errors e e2)), log)

module _ (server : Server Request Reply) (sdk : RetryContext Bool Request) where
  abbrev pub read_pipeline : String → Call Request PipelineInfo
  read_pipeline id = send server (get_pipeline id)

  abbrev pub state_attempt : String → String → Bool → List Request → Verdict × Bool × List Request
  state_attempt id desired s log =
      let (r, log') = read_pipeline id log in attempted (judge_state id desired r) log'

  -- `waitForState`
  unfoldable pub wait_for_state : String → String → Run (Unit {0})
  wait_for_state id desired log = ending (sdk.retry (state_attempt id desired) false log)

  abbrev pub deleted_attempt : String → Bool → List Request → Verdict × Bool × List Request
  deleted_attempt id s log =
      let (r, log') = read_pipeline id log in attempted (judge_deleted id r) log'

  abbrev pub after_delete_request :
      String → Result (Unit {0}) × List Request → Ending (Unit {0}) × List Request
  after_delete_request id (err e, log) = (returns (err e), log)
  after_delete_request id (ok _, log) = ending (sdk.retry (deleted_attempt id) false log)

  -- `delete`
  unfoldable pub delete_pipeline : String → Run (Unit {0})
  delete_pipeline id log = after_delete_request id (send server (delete_pipeline_at id) log)

  abbrev pub clean_up : String → Ending (Unit {0}) × List Request → Ending String × List Request
  clean_up id (panics, log) = (panics, log)
  clean_up id (returns (ok _), log) = (returns (ok id), log)
  clean_up id (returns (err e), log) = after_delete e (delete_pipeline id log)

  abbrev pub after_create_request : Result String × List Request → Ending String × List Request
  after_create_request (err e, log) = (returns (err e), log)
  after_create_request (ok id, log) = clean_up id (wait_for_state id "RUNNING" log)

  -- `create`, which the handler calls to set the ID
  unfoldable pub create_pipeline : PipelineSpec → Run String
  create_pipeline s log = after_create_request (send server (create_pipeline_at s) log)

  abbrev pub after_put :
      String → Result (Unit {0}) × List Request → Ending (Unit {0}) × List Request
  after_put id (err e, log) = (returns (err e), log)
  after_put id (ok _, log) = wait_for_state id "RUNNING" log

  -- `update`
  unfoldable pub update_pipeline : String → PipelineSpec → Run (Unit {0})
  update_pipeline id s log = after_put id (send server (put_pipeline id s) log)

  abbrev pub spec_of : PipelineInfo → Option PipelineSpec → Call Request PipelineSpec
  spec_of i none = fail (other ("pipeline spec is nil for '" <> (i.pipeline_id <> "'")))
  spec_of i (some spec) = pure spec

  -- The `Read` of the resource
  abbrev pub read_context : String → Call Request PipelineSpec
  read_context id = read_pipeline id >>= λ i. spec_of i i.spec
