-- ===== src/Compute/Clusters/Lifecycle.antt =====
-- Which states a method leaves the cluster in, and which requests the methods make.
use terraform_provider_datab.Base.{
  ◌≡◌, refl, ◌∙◌, ap, subst, ◌≢◌, ◌⊎◌, inl, inr, eq_iff, String, true, Option, none, some, List,
  ◌∷◌, arith,
}
use terraform_provider_datab.Common.Errors.{Error, Result, ok, err}
use terraform_provider_datab.Common.Service.{Server, send, handle_result, continue, continue-eq-ok}
use terraform_provider_datab.Compute.Retry.{finished, RetryContext, retry_finished}
use terraform_provider_datab.Compute.States.{
  ClusterState, pending, running, restarting, resizing, terminating, terminated, error, unknown,
  unlisted, same_state,
}
use terraform_provider_datab.Compute.Clusters.Model.{
  Cluster, ClusterInfo, Request, create, start, Reply,
}
use terraform_provider_datab.Compute.Clusters.Api.{
  get_cluster, judge, wait_attempt, wait_for_cluster_status, wait_outcome, before_start,
  after_switch, start_and_get_info, before_edit, clean_up, create_cluster, no_info,
}

pub same_state-eq : (a b : ClusterState) → same_state a b ≡ true → a ≡ b
same_state-eq pending pending h = refl
same_state-eq running running h = refl
same_state-eq restarting restarting h = refl
same_state-eq resizing resizing h = refl
same_state-eq terminating terminating h = refl
same_state-eq terminated terminated h = refl
same_state-eq error error h = refl
same_state-eq unknown unknown h = refl
same_state-eq (unlisted t) (unlisted u) h = ap unlisted ((eq_iff t u).0 h)
same_state-eq _ _ h = cc

judge_finished :
    (id : String) (desired : ClusterState) (result : ClusterInfo) (r : Result ClusterInfo)
    (info : ClusterInfo)
    → judge id desired result r ≡ (finished, info)
    → info.state ≡ desired
judge_finished id desired result (err e) info h = absurd (ground arith)
judge_finished id desired result (ok found) info h =
    let same : same_state found.state desired ≡ true = ground arith in
    let e : found ≡ info = ground arith in
    subst (λ i. i.state ≡ desired) e (same_state-eq found.state desired same)

wait_outcome-eq_ok :
    (o : Option Error × ClusterInfo × List Request) (info : ClusterInfo) (log : List Request)
    → wait_outcome o ≡ (ok info, log)
    → o ≡ (none, info, log)
wait_outcome-eq_ok (none, i, l) info log h = cc
wait_outcome-eq_ok (some e, i, l) info log h = absurd (ground arith)

module _ (server : Server Request Reply) where
  wait_attempt_finished :
      (id : String) (desired : ClusterState) (s : ClusterInfo) (log : List Request)
      (info : ClusterInfo) (log' : List Request)
      → wait_attempt server id desired s log ≡ (finished, info, log')
      → info.state ≡ desired
  unfolding wait_attempt
  wait_attempt_finished id desired s log info log' h =
      judge_finished id desired s (get_cluster server id log).0 info (ground arith)

module _ (server : Server Request Reply) (sdk : RetryContext ClusterInfo Request) where
  -- Waiting that ends well has seen the desired state.
  pub wait-state :
      (id : String) (desired : ClusterState) (log : List Request) (info : ClusterInfo)
      (log' : List Request)
      → wait_for_cluster_status server sdk id desired log ≡ (ok info, log')
      → info.state ≡ desired
  unfolding wait_for_cluster_status
  wait-state id desired log info log' h =
      retry_finished sdk (λ i. i.state ≡ desired) (wait_attempt server id desired)
        (wait_attempt_finished server id desired) no_info log info log'
        (wait_outcome-eq_ok _ info log' h)

  waited-state :
      (id : String) (desired : ClusterState) (log : List Request) (info : ClusterInfo)
      (log' : List Request)
      → continue (wait_for_cluster_status server sdk id desired log) (λ done l. (ok (some done), l))
        ≡ (ok (some info), log')
      → info.state ≡ desired
  waited-state id desired log info log' h =
      let (done, l, e, same) =
        continue-eq-ok (wait_for_cluster_status server sdk id desired log) _ h in
      let p : done ≡ info = ground arith in
      subst (λ i. i.state ≡ desired) p (wait-state id desired log done l e)

  before_start-state :
      (found : ClusterInfo) (st : ClusterState) (log : List Request) (info : ClusterInfo)
      (log' : List Request)
      → found.state ≡ st
      → before_start server sdk found st log ≡ (ok (some info), log')
      → info.state ≡ running
  before_start-state found running log info log' q h =
      let p : found ≡ info = ground arith in subst (λ i. i.state ≡ running) p q
  before_start-state found pending log info log' q h = waited-state _ running log info log' h
  before_start-state found resizing log info log' q h = waited-state _ running log info log' h
  before_start-state found restarting log info log' q h = waited-state _ running log info log' h
  before_start-state found terminating log info log' q h =
      let (done, l, e, same) =
        continue-eq-ok (wait_for_cluster_status server sdk found.cluster_id terminated log) _ h in
      absurd (ground arith)
  before_start-state found terminated log info log' q h = absurd (ground arith)
  before_start-state found error log info log' q h = absurd (ground arith)
  before_start-state found unknown log info log' q h = absurd (ground arith)
  before_start-state found (unlisted text) log info log' q h = absurd (ground arith)

  after_switch-state :
      (id : String) (going : Option ClusterInfo) (log : List Request) (info : ClusterInfo)
      (log' : List Request)
      → ((i : ClusterInfo) → going ≡ some i → i.state ≡ running)
      → after_switch server sdk id going log ≡ (ok info, log')
      → info.state ≡ running
  after_switch-state id (some i) log info log' q h = q info (ground arith)
  after_switch-state id none log info log' q h =
      ground (arith, wait-state id running (start id ∷ log) info log')

  -- Whenever `StartAndGetInfo` succeeds, the cluster that it describes is in state RUNNING.
  pub start_and_get_info-running :
      (id : String) (log : List Request) (info : ClusterInfo) (log' : List Request)
      → start_and_get_info server sdk id log ≡ (ok info, log')
      → info.state ≡ running
  unfolding start_and_get_info
  start_and_get_info-running id log info log' h =
      let (found, l1, e1, h1) = continue-eq-ok (get_cluster server id log) _ h in
      let (going, l2, e2, h2) =
        continue-eq-ok (before_start server sdk found found.state l1) _ h1 in
      after_switch-state id going l2 info log'
        (λ i e. before_start-state found found.state l1 i l2 refl (e2 ∙ ap (λ g. (ok g, l2)) e)) h2

  clean_up-ne-ok :
      (id : String) (e : Error) (log : List Request) (info : ClusterInfo) (log' : List Request)
      → clean_up server sdk id (err e) log ≢ (ok info, log')
  clean_up-ne-ok id e log info log' h = ground arith

  clean_up-running :
      (id : String) (out : Result ClusterInfo × List Request) (info : ClusterInfo)
      (log' : List Request)
      → ((i : ClusterInfo) (l : List Request) → out ≡ (ok i, l) → i.state ≡ running)
      → handle_result out (clean_up server sdk id) ≡ (ok info, log')
      → info.state ≡ running
  clean_up-running id (ok i, l) info log' q h =
      let p : i ≡ info = ground arith in subst (λ j. j.state ≡ running) p (q i l refl)
  clean_up-running id (err e, l) info log' q h = absurd (clean_up-ne-ok id e l info log' h)

  -- Whenever `Create` succeeds, the cluster that it describes is in state RUNNING.
  pub create_cluster-running :
      (cluster : Cluster) (log : List Request) (info : ClusterInfo) (log' : List Request)
      → create_cluster server sdk cluster log ≡ (ok info, log')
      → info.state ≡ running
  unfolding create_cluster
  create_cluster-running cluster log info log' h =
      let (id, l1, e1, h1) = continue-eq-ok (send server (create cluster) log) _ h in
      clean_up-running id (wait_for_cluster_status server sdk id running l1) info log'
        (λ i l e. wait-state id running l1 i l e) h1

module _ (server : Server Request Reply) (sdk : RetryContext ClusterInfo Request)
    (quote : String → String) where
  -- The cluster is RUNNING or TERMINATED, or it was found in a state that is none of the constants.
  abbrev pub IsSettled : ClusterInfo → ClusterInfo → Type 0
  IsSettled found info =
      ((info.state ≡ running) ⊎ (info.state ≡ terminated))
      ⊎ ((text : String) × (found.state ≡ unlisted text) × (info ≡ found))

  pub before_edit-IsSettled :
      (found : ClusterInfo) (st : ClusterState) (log : List Request) (info : ClusterInfo)
      (log' : List Request)
      → found.state ≡ st
      → before_edit server sdk quote found st log ≡ (ok info, log')
      → IsSettled found info
  before_edit-IsSettled found running log info log' q h =
      let p : found ≡ info = ground arith in subst (IsSettled found) p (inl (inl q))
  before_edit-IsSettled found terminated log info log' q h =
      let p : found ≡ info = ground arith in subst (IsSettled found) p (inl (inr q))
  before_edit-IsSettled found pending log info log' q h =
      inl (inl (wait-state server sdk _ running log info log' h))
  before_edit-IsSettled found resizing log info log' q h =
      inl (inl (wait-state server sdk _ running log info log' h))
  before_edit-IsSettled found restarting log info log' q h =
      inl (inl (wait-state server sdk _ running log info log' h))
  before_edit-IsSettled found terminating log info log' q h =
      inl (inr (wait-state server sdk _ terminated log info log' h))
  before_edit-IsSettled found (unlisted text) log info log' q h = inr (text, q, ground arith)
  before_edit-IsSettled found error log info log' q h = absurd (ground arith)
  before_edit-IsSettled found unknown log info log' q h = absurd (ground arith)
