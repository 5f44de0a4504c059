-- ===== src/Mws/Workspaces/Provisioning.antt =====
-- What the service has been asked, and has answered, when a workspace is created or deleted.
use mathlib.Core.List.{Memᴰ}
use terraform_provider_datab.Base.{
  ◌≡◌, ◌≢◌, refl, sym, subst, ◌⊎◌, inl, inr, String, true, contains, List, ◌∷◌, ◌==◌, ◌||◌, arith,
  eq_iff, Bool-cases,
}
use terraform_provider_datab.Common.Errors.{
  ApiError, Error, api, other, Result, ok, err, Result-cases,
}
use terraform_provider_datab.Common.Service.{Server, handle_result}
use terraform_provider_datab.Common.Client.{DatabricksClient, client_for_host}
use terraform_provider_datab.Compute.Retry.{
  Verdict, finished, retryable, non_retryable, RetryContext, AttemptEnds, retry-OutcomeEnds,
  retry-Keeps, waited-log, WaitEnds, waited-WaitEnds,
}
use terraform_provider_datab.Mws.Workspaces.{
  Workspace, Request, create_workspace_at, get_workspace, delete_workspace_at, list_tokens, Reply,
  Urls, is_test_shim, both, judge_reachable, read_workspace, explain_workspace_failure, after_read,
  running_attempt, wait_for_running, workspace_removed, delete_workspace, with_cloud, clean_up,
  create_workspace,
}

judge_reachable-answer :
    (ws : Workspace) (r : Result (Unit {0}))
    → judge_reachable ws r ≡ finished
    → (e : ApiError) → r ≢ err (api e)
judge_reachable-answer ws (ok _) h e q = absurd (ground arith)
judge_reachable-answer ws (err (other text)) h e q = absurd (ground arith)
judge_reachable-answer ws (err (api x)) h e q = absurd (ground arith)

module _ (server : Server Request Reply) (sdk : RetryContext (Unit {0}) Request) (urls : Urls)
    (client : DatabricksClient) where
  -- The workspace was read and was running; then it was asked for its tokens, and the answer was no
  -- error of the API, unless the deployment's name holds 900150983cd24fb0, as in unit tests.
  pub data HasRun (ws : Workspace) : List Request → Type 0 where
    seen :
        (log : List Request) {log' : List Request} (found : Workspace)
        → read_workspace server sdk urls client ws.account_id ws.workspace_id log ≡ (ok found, log')
        → found.workspace_status ≡ "RUNNING"
        → contains ws.deployment_name "900150983cd24fb0" ≡ true
        → HasRun ws log'
    reached :
        (log : List Request) {log' : List Request} (found : Workspace)
        → read_workspace server sdk urls client ws.account_id ws.workspace_id log ≡ (ok found, log')
        → found.workspace_status ≡ "RUNNING"
        → ((e : ApiError)
            → server log' (list_tokens (client_for_host found.workspace_url client)) ≢ err (api e))
        → HasRun ws (list_tokens (client_for_host found.workspace_url client) ∷ log')

  abbrev AttemptRuns : Workspace → Verdict × Unit {0} × List Request → Type 0
  AttemptRuns ws out = AttemptEnds (λ _. Unit {0}) (λ _ log. HasRun ws log) out

  verify-AttemptRuns :
      (ws found : Workspace) (log log' : List Request)
      → read_workspace server sdk urls client ws.account_id ws.workspace_id log ≡ (ok found, log')
      → found.workspace_status ≡ "RUNNING"
      → (v : Verdict)
      → judge_reachable found
          (server log' (list_tokens (client_for_host found.workspace_url client)))
        ≡ v
      → AttemptRuns ws (v, tt, list_tokens (client_for_host found.workspace_url client) ∷ log')
  verify-AttemptRuns ws found log log' e up finished j =
      reached log found e up (judge_reachable-answer found _ j)
  verify-AttemptRuns ws found log log' e up (retryable x) j = tt
  verify-AttemptRuns ws found log log' e up (non_retryable x) j = tt

  explain-AttemptRuns :
      (ws workspace : Workspace) (log : List Request)
      → AttemptRuns ws (explain_workspace_failure server sdk urls client workspace log)
  explain-AttemptRuns ws workspace log = elim (Bool-cases (workspace.network_id == "")) [
    | inl e ↦ rw e tt
    | inr e ↦ rw e tt
  ]

  after_read-AttemptRuns :
      (ws : Workspace) (log : List Request) (out : Result Workspace × List Request)
      → read_workspace server sdk urls client ws.account_id ws.workspace_id log ≡ out
      → AttemptRuns ws (after_read server sdk urls client ws out)
  after_read-AttemptRuns ws log (err e, log') r = tt
  after_read-AttemptRuns ws log (ok found, log') r =
      elim (Bool-cases (found.workspace_status == "RUNNING")) [
        | inl e ↦
            let up : found.workspace_status ≡ "RUNNING" =
              ground (arith, eq_iff found.workspace_status "RUNNING") in
            elim (Bool-cases (is_test_shim ws)) [
              | inl f ↦ rw (e, f) (seen log found r up f)
              | inr f ↦ rw (e, f) (verify-AttemptRuns ws found log log' r up _ refl)
            ]
        | inr e ↦
            elim (Bool-cases
              (found.workspace_status == "CANCELLED" || found.workspace_status == "FAILED")) [
                | inl f ↦ rw (e, f) (explain-AttemptRuns ws found log')
                | inr f ↦ rw (e, f) tt
              ]
      ]

  abbrev Runs : Workspace → Result (Unit {0}) × List Request → Type 0
  Runs ws out = WaitEnds (λ _. Unit {0}) (HasRun ws) out

  pub wait_for_running-Runs :
      (ws : Workspace) (log : List Request)
      → Runs ws (wait_for_running server sdk urls client ws log)
  unfolding wait_for_running
  wait_for_running-Runs ws log =
      waited-WaitEnds (λ _. Unit {0}) (HasRun ws)
        (sdk.retry (running_attempt server sdk urls client ws) tt log)
        (retry-OutcomeEnds sdk (λ _. Unit {0}) (λ _ l. HasRun ws l)
          (running_attempt server sdk urls client ws) (λ s l _. after_read-AttemptRuns ws l _ refl)
          tt log tt)

  abbrev IsDeleted : Workspace → List Request → Type 0
  IsDeleted ws log = Memᴰ (delete_workspace_at ws.account_id ws.workspace_id) log

  read_workspace-Keeps :
      (P : List Request → Type 0) (account_id workspace_id : String) (log : List Request)
      → P (get_workspace account_id workspace_id ∷ log)
      → P (read_workspace server sdk urls client account_id workspace_id log).1
  unfolding read_workspace
  read_workspace-Keeps P account_id workspace_id log p =
      elim (Result-cases (server log (get_workspace account_id workspace_id))) [
        | inl (x, e) ↦ rw e p
        | inr (a, e) ↦ rw e p
      ]

  delete_workspace-IsDeleted :
      (ws : Workspace) (log : List Request)
      → IsDeleted ws (delete_workspace server sdk urls client ws.account_id ws.workspace_id log).1
  unfolding delete_workspace
  delete_workspace-IsDeleted ws log =
      elim (Result-cases (server log (delete_workspace_at ws.account_id ws.workspace_id))) [
        | inl (x, e) ↦ rw e (Memᴰ.head refl)
        | inr (a, e) ↦ rw e (
            subst (IsDeleted ws)
              (sym (
                waited-log (
                  sdk.retry (workspace_removed server sdk urls client ws.account_id ws.workspace_id)
                    tt (delete_workspace_at ws.account_id ws.workspace_id ∷ log))))
              (retry-Keeps sdk (IsDeleted ws)
                (workspace_removed server sdk urls client ws.account_id ws.workspace_id)
                (λ s l q.
                  read_workspace-Keeps (IsDeleted ws) ws.account_id ws.workspace_id l (Memᴰ.tail q))
                tt (delete_workspace_at ws.account_id ws.workspace_id ∷ log) (Memᴰ.head refl)))
      ]

  -- How the creation of a workspace may end.
  abbrev pub Provisions : Workspace → List Request → Result Workspace × List Request → Type 0
  Provisions ws log (ok made, log') =
      (server log (create_workspace_at (with_cloud server sdk urls client ws)) ≡ ok made)
      × HasRun made log'
  Provisions ws log (err e, log') =
      (server log (create_workspace_at (with_cloud server sdk urls client ws)) ≡ err e)
      ⊎ ((made : Workspace) × (server log
              (create_workspace_at (with_cloud server sdk urls client ws))
            ≡ ok made)
          × IsDeleted made log')

  failed-Provisions :
      (ws made : Workspace) (log : List Request) (e : Error)
      → server log (create_workspace_at (with_cloud server sdk urls client ws)) ≡ ok made
      → (out : Result (Unit {0}) × List Request) → IsDeleted made out.1
      → Provisions ws log (
          handle_result out
            (λ r. elim r [ ok _ ↦ (λ l. (err e, l)) | err derr ↦ (λ l. (err (both e derr), l)) ]))
  failed-Provisions ws made log e m (ok _, l) d = inr (made, m, d)
  failed-Provisions ws made log e m (err derr, l) d = inr (made, m, d)

  cleaned-Provisions :
      (ws made : Workspace) (log : List Request)
      → server log (create_workspace_at (with_cloud server sdk urls client ws)) ≡ ok made
      → (out : Result (Unit {0}) × List Request) → Runs made out
      → Provisions ws log (handle_result out (clean_up server sdk urls client made))
  cleaned-Provisions ws made log m (ok _, l) h = (m, h)
  cleaned-Provisions ws made log m (err e, l) h =
      failed-Provisions ws made log e m
        (delete_workspace server sdk urls client made.account_id made.workspace_id l)
        (delete_workspace-IsDeleted made l)

  -- Create either fails since the service refuses the workspace; or, where the service makes one, it
  -- succeeds only after that workspace was read and was running, and then was asked for its tokens and
  -- did not answer with an error of the API, unless the name of its deployment holds the text
  -- 900150983cd24fb0, by which the code knows unit tests; and otherwise it has sent a request that
  -- deletes that workspace.
  pub create_workspace-Provisions :
      (ws : Workspace) (log : List Request)
      → Provisions ws log (create_workspace server sdk urls client ws log)
  unfolding create_workspace
  create_workspace-Provisions ws log =
      elim (Result-cases
        (server log (create_workspace_at (with_cloud server sdk urls client ws)))) [
          | inl (x, e) ↦ rw e (inl e)
          | inr (made, e) ↦
              let log' = create_workspace_at (with_cloud server sdk urls client ws) ∷ log in
              rw e (
                cleaned-Provisions ws made log e (wait_for_running server sdk urls client made log')
                  (wait_for_running-Runs made log'))
        ]
