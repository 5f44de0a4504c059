-- ===== src/Tests/Execution.antt =====
-- A service that runs a command at once, and one that loses the context; three attempts of every call.
use terraform_provider_datab.Base.{
  ◌≡◌, refl, ◌⊎◌, String, Option, none, some, [], ◌∷◌, has_prefix, replace_all, drop_chars, split,
}
use terraform_provider_datab.Common.Errors.{other, ok}
use terraform_provider_datab.Common.Service.{Server}
use terraform_provider_datab.Common.Commands.{CommandResults}
use terraform_provider_datab.Compute.Retry.{RetryContext, rounds}
use terraform_provider_datab.Compute.States.{running}
use terraform_provider_datab.Compute.Execution.Whitespace.{
  trim_leading_whitespace, least_indent, indent_from, trimmed_lines, is_blank,
}
use terraform_provider_datab.Compute.Execution.{
  Request, get_cluster, create_context, get_context, delete_context, create_command, get_command,
  Reply, results_of, wait_for_command_finished, wait_for_context_ready, run_in_context, run,
  execute,
}
use terraform_provider_datab.Compute.Execution.Session.{Closes, Stops}
use terraform_provider_datab.Compute.Execution.Protocol.{execute-follows}

trim_run : trim_leading_whitespace "  a\n\n    b\n" ≡ "a\n  b\n"
unfolding trim_leading_whitespace split least_indent indent_from trimmed_lines is_blank replace_all
    drop_chars has_prefix
trim_run = refl

abbrev hello : CommandResults
hello = record {
  result_type = "text";
  summary = "";
  cause = "";
  text_data = "hello";
  rows = none;
  pos = 0;
}

abbrev shell : String → Server Request Reply
shell status log (get_cluster id) = ok (record {
  cluster_id = id;
  cluster_name = "shared";
  state = running;
  state_message = "";
  termination_reason = none;
})
shell status log (create_context language id) = ok "context-1"
shell status log (get_context context id) = ok status
shell status log (delete_context context id) = ok tt
shell status log (create_command context id language text) = ok "command-1"
shell status log (get_command command context id) =
    ok (record { id = "command-1"; status = "Finished"; results = some hello })

abbrev three : RetryContext (Unit {0}) Request
three = record {
  retry = rounds 3 (other "timeout");
  timeout_error = other "timeout";
  retry-rounds = λ f s log. (3, refl);
}

execute_run : (execute (shell "Running") three "c-1" "python" "print(1)" []).0 ≡ hello
unfolding run run_in_context wait_for_context_ready wait_for_command_finished rounds
execute_run = refl

-- The context that was opened is not closed where the command's session breaks off.
execute_leaves_open :
    (execute (shell "Error") three "c-1" "python" "print(1)" []).1
    ≡ get_context "context-1" "c-1" ∷ create_context "python" "c-1" ∷ get_cluster "c-1" ∷ []
unfolding run run_in_context wait_for_context_ready wait_for_command_finished rounds
execute_leaves_open = refl

execute-follows_example :
    let (results, log) = execute (shell "Running") three "c-1" "python" "print(1)" [] in
    ((fetched_results : Option CommandResults) × Closes
        (shell "Running")
        "c-1"
        "python"
        (trim_leading_whitespace "print(1)")
        fetched_results
        log
      × (results ≡ results_of fetched_results))
    ⊎ (Stops (shell "Running") "c-1" "python" (trim_leading_whitespace "print(1)") log
        × (results.result_type ≡ "error"))
execute-follows_example = execute-follows (shell "Running") three "c-1" "python" "print(1)"
