-- ===== src/Compute/Execution/Protocol.antt =====
-- `Execute` implements the contract of a session.
use terraform_provider_datab.Base.{
  ◌≡◌, refl, ◌⊎◌, inl, inr, String, Option, none, some, List, [], ◌∷◌, ◌==◌, ◌||◌, arith,
  Bool-cases, eq_iff,
}
use terraform_provider_datab.Common.Errors.{Result, ok, err, Result-cases}
use terraform_provider_datab.Common.Service.{Server, Call, send, continue}
use terraform_provider_datab.Common.Commands.{CommandResults}
use terraform_provider_datab.Compute.Retry.{
  RetryContext, Outcome, waited, AttemptEnds, OutcomeEnds, retry-OutcomeEnds,
}
use terraform_provider_datab.Compute.Clusters.Model.{is_running_or_resizing}
use terraform_provider_datab.Compute.Execution.Whitespace.{trim_leading_whitespace}
use terraform_provider_datab.Compute.Execution.{
  Command, Request, get_cluster, get_context, get_command, Reply, judge_command, results_of,
  results_or_error, get_running_cluster, finish_attempt, wait_for_command_finished, ready_attempt,
  wait_for_context_ready, run_in_context, run, execute,
}
use terraform_provider_datab.Compute.Execution.Session.{
  Phase, begin, found, opened, ready, submitted, ended, fetched, next, Follows, started, look,
  acquire, poll_context, see_ready, submit, poll_command, see_finished, fetch, Closes, close, Stops,
  stop, break,
}

module _ (server : Server Request Reply) (cluster_id language command : String) where
  abbrev Ends : {A : Type 0} → (A → List Request → Type 0) → Result A × List Request → Type 0
  Ends P (ok a, log) = P a log
  Ends P (err e, log) = Stops server cluster_id language command log

  continue-Ends :
      {A B : Type 0} (P : A → List Request → Type 0) (Q : B → List Request → Type 0)
      (out : Result A × List Request) (f : A → Call Request B)
      → Ends P out
      → ((a : A) (log : List Request) → P a log → Ends Q (f a log))
      → Ends Q (continue out f)
  continue-Ends P Q (ok a, log) f p h = h a log p
  continue-Ends P Q (err e, log) f p h = p

  waited-Ends :
      (P : List Request → Type 0) (p : Phase) (out : Outcome (Unit {0}) Request)
      → OutcomeEnds (Follows server cluster_id language command p) (λ _ log. P log) out
      → Ends (λ _ log. P log) (waited out)
  waited-Ends P p (none, s, log) h = h
  waited-Ends P p (some e, s, log) h = stop p h

  send-Ends :
      (p : Phase) (P : Reply (next server cluster_id language command p) → List Request → Type 0)
      (log : List Request)
      → Follows server cluster_id language command p log
      → ((a : Reply (next server cluster_id language command p))
          → server log (next server cluster_id language command p) ≡ ok a
          → P a (next server cluster_id language command p ∷ log))
      → Ends P (send server (next server cluster_id language command p) log)
  send-Ends p P log f h =
      elim (Result-cases (server log (next server cluster_id language command p))) [
        | inl (x, e) ↦ rw e (break p f)
        | inr (a, e) ↦ rw e (h a e)
      ]

module _ (server : Server Request Reply) (sdk : RetryContext (Unit {0}) Request)
    (cluster_id language command_str : String) where
  abbrev command : String
  command = trim_leading_whitespace command_str

  abbrev InPhase : Phase → List Request → Type 0
  InPhase p log = Follows server cluster_id language command p log

  get_running_cluster-Ends :
      Ends server cluster_id language command
        (λ _ log. InPhase found log)
        (get_running_cluster server sdk cluster_id [])
  get_running_cluster-Ends = elim (Result-cases (server [] (get_cluster cluster_id))) [
    | inl (x, e) ↦ rw e (break begin started)
    | inr (info, e) ↦ elim (Bool-cases (is_running_or_resizing info)) [
      | inl f ↦ rw (e, f) (look info started e f)
      | inr f ↦ rw (e, f) (break begin started)
    ]
  ]

  wait_for_context_ready-Ends :
      (context_id : String) (log : List Request)
      → InPhase (opened context_id) log
      → Ends server cluster_id language command
          (λ _ l. InPhase (ready context_id) l)
          (wait_for_context_ready server sdk context_id cluster_id log)
  unfolding wait_for_context_ready
  wait_for_context_ready-Ends context_id log f =
      waited-Ends server cluster_id language command (InPhase (ready context_id))
        (opened context_id) (sdk.retry (ready_attempt server sdk context_id cluster_id) tt log)
        (retry-OutcomeEnds sdk (InPhase (opened context_id)) (λ _ l. InPhase (ready context_id) l)
          (ready_attempt server sdk context_id cluster_id)
          (λ s l g. elim (Result-cases (server l (get_context context_id cluster_id))) [
            | inl (x, e) ↦ rw e (poll_context context_id g)
            | inr (status, e) ↦ elim (Bool-cases (status == "Error")) [
              | inl h ↦ rw (e, h) (poll_context context_id g)
              | inr h ↦ elim (Bool-cases (status == "Running")) [
                | inl k ↦
                    let same : status ≡ "Running" = ground (arith, eq_iff status "Running") in
                    rw (e, h, k) (see_ready context_id g (rw same at e))
                | inr k ↦ rw (e, h, k) (poll_context context_id g)
              ]
            ]
          ])
          tt log f)

  command_judged :
      (context_id command_id : String) (log : List Request) (info : Command)
      → InPhase (submitted context_id command_id) log
      → server log (get_command command_id context_id cluster_id) ≡ ok info
      → AttemptEnds
          (InPhase (submitted context_id command_id))
          (λ (_ : Unit {0}) l. InPhase (ended context_id command_id) l)
          (judge_command (ok info), tt, get_command command_id context_id cluster_id ∷ log)
  command_judged context_id command_id log info g e =
      elim (Bool-cases
        (info.status == "Cancelling" || (info.status == "Cancelled" || info.status == "Error"))) [
          | inl h ↦ rw h (poll_command context_id command_id g)
          | inr h ↦ elim (Bool-cases (info.status == "Finished")) [
            | inl k ↦
                rw (h, k)
                  (see_finished context_id command_id info g e
                    (ground (arith, eq_iff info.status "Finished")))
            | inr k ↦ rw (h, k) (poll_command context_id command_id g)
          ]
        ]

  wait_for_command_finished-Ends :
      (context_id command_id : String) (log : List Request)
      → InPhase (submitted context_id command_id) log
      → Ends server cluster_id language command
          (λ _ l. InPhase (ended context_id command_id) l)
          (wait_for_command_finished server sdk command_id context_id cluster_id log)
  unfolding wait_for_command_finished
  wait_for_command_finished-Ends context_id command_id log f =
      waited-Ends server cluster_id language command (InPhase (ended context_id command_id))
        (submitted context_id command_id)
        (sdk.retry (finish_attempt server sdk command_id context_id cluster_id) tt log)
        (retry-OutcomeEnds sdk (InPhase (submitted context_id command_id))
          (λ _ l. InPhase (ended context_id command_id) l)
          (finish_attempt server sdk command_id context_id cluster_id)
          (λ s l g. elim (Result-cases (server l (get_command command_id context_id cluster_id))) [
            | inl (x, e) ↦ rw e (poll_command context_id command_id g)
            | inr (info, e) ↦ rw e (command_judged context_id command_id l info g e)
          ])
          tt log f)

  abbrev HasClosed : Option CommandResults → List Request → Type 0
  HasClosed results log = Closes server cluster_id language command results log

  run_in_context-Ends :
      (context_id : String) (log : List Request)
      → InPhase (opened context_id) log
      → Ends server cluster_id language command HasClosed
          (run_in_context server sdk cluster_id language command context_id log)
  unfolding run_in_context
  run_in_context-Ends context_id log f =
      continue-Ends server cluster_id language command (λ _ l. InPhase (ready context_id) l)
        HasClosed _ _ (wait_for_context_ready-Ends context_id log f)
        (λ _ l1 f1.
          continue-Ends server cluster_id language command
            (λ command_id l. InPhase (submitted context_id command_id) l) HasClosed _ _
            (send-Ends server cluster_id language command (ready context_id)
              (λ command_id l. InPhase (submitted context_id command_id) l) l1 f1
              (λ command_id e. submit context_id command_id f1 e))
            (λ command_id l2 f2.
              continue-Ends server cluster_id language command
                (λ _ l. InPhase (ended context_id command_id) l) HasClosed _ _
                (wait_for_command_finished-Ends context_id command_id l2 f2)
                (λ _ l3 f3.
                  continue-Ends server cluster_id language command
                    (λ info l. InPhase (fetched context_id info.results) l) HasClosed _ _
                    (send-Ends server cluster_id language command (ended context_id command_id)
                      (λ info l. InPhase (fetched context_id info.results) l) l3 f3
                      (λ info e. fetch context_id command_id info f3 e))
                    (λ info l4 f4.
                      continue-Ends server cluster_id language command
                        (λ _ l. HasClosed info.results l) HasClosed _ _
                        (send-Ends server cluster_id language command
                          (fetched context_id info.results) (λ _ l. HasClosed info.results l) l4 f4
                          (λ _ e. close context_id info.results f4 (ground arith)))
                        (λ _ l5 f5. f5)))))

  run-Ends :
      Ends server cluster_id language command HasClosed
        (run server sdk cluster_id language command_str [])
  unfolding run
  run-Ends =
      continue-Ends server cluster_id language command (λ _ l. InPhase found l) HasClosed _ _
        get_running_cluster-Ends
        (λ _ l f.
          continue-Ends server cluster_id language command
            (λ context_id l'. InPhase (opened context_id) l') HasClosed _ _
            (send-Ends server cluster_id language command found
              (λ context_id l'. InPhase (opened context_id) l') l f
              (λ context_id e. acquire context_id f e))
            (λ context_id l' f'. run_in_context-Ends context_id l' f'))

  results_or_error-Ends :
      (out : Result (Option CommandResults) × List Request)
      → Ends server cluster_id language command HasClosed out
      → ((results : Option CommandResults) × HasClosed results (results_or_error out).1
          × ((results_or_error out).0 ≡ results_of results))
        ⊎ (Stops server cluster_id language command (results_or_error out).1
            × ((results_or_error out).0.result_type ≡ "error"))
  results_or_error-Ends (ok results, log) h = inl (results, h, refl)
  results_or_error-Ends (err e, log) h = inr (h, refl)

  -- `Execute` implements the protocol of a session: it makes one request after the other as the phases
  -- allow, with the command trimmed. Either it closes the context that it opened, and gives the results
  -- that it fetched in the session (an error where there are none), or it stops in a phase or in its
  -- request, and its result is an error.
  pub execute-follows :
      let (results, log) = execute server sdk cluster_id language command_str [] in
      ((fetched_results : Option CommandResults) × Closes server cluster_id language
          (trim_leading_whitespace command_str)
          fetched_results
          log
        × (results ≡ results_of fetched_results))
      ⊎ (Stops server cluster_id language (trim_leading_whitespace command_str) log
          × (results.result_type ≡ "error"))
  execute-follows =
      results_or_error-Ends (run server sdk cluster_id language command_str []) run-Ends
