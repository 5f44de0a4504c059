-- ===== src/Compute/Clusters/Editing.antt =====
-- When `Edit` sends its request, and the state of the cluster that it gives.
use terraform_provider_datab.Base.{
  ◌≡◌, refl, sym, subst, ap, ◌∙◌, ◌⊎◌, inl, inr, String, true, false, List, All, if◌then◌else◌,
}
use terraform_provider_datab.Common.Errors.{Result, ok, err}
use terraform_provider_datab.Common.Service.{Server, Call, send, pure, continue, continue-eq-ok}
use terraform_provider_datab.Compute.Retry.{RetryContext}
use terraform_provider_datab.Compute.States.{running, terminated, unlisted}
use terraform_provider_datab.Compute.Clusters.Model.{
  Cluster, ClusterInfo, Request, create, edit, Reply, is_running_or_resizing,
}
use terraform_provider_datab.Compute.Clusters.Api.{
  get_cluster, start_and_get_info, before_edit, edit_cluster,
}
use terraform_provider_datab.Compute.Clusters.Lifecycle.{
  before_edit-IsSettled, IsSettled, start_and_get_info-running,
}
use terraform_provider_datab.Compute.Clusters.Requests.{get_cluster-Keeps, before_edit-Keeps}

abbrev IsEdit : Request → Type 0
IsEdit (edit cluster) = Unit
IsEdit (create cluster) = ⊥
IsEdit _ = ⊥

module _ (server : Server Request Reply) (sdk : RetryContext ClusterInfo Request)
    (quote : String → String) where
  -- `Edit` has found the cluster, and waited until it is RUNNING or TERMINATED, unless it found it in a
  -- state that is none of the constants.
  pub record HasSettled (cluster : Cluster) (log : List Request) : Type 0 where
    pub found : ClusterInfo
    pub info : ClusterInfo
    pub after_get : List Request
    pub after_wait : List Request
    pub got : get_cluster server cluster.cluster_id log ≡ (ok found, after_get)
    pub waited : before_edit server sdk quote found found.state after_get ≡ (ok info, after_wait)
    pub settled :
        ((info.state ≡ running) ⊎ (info.state ≡ terminated))
        ⊎ ((text : String) × (found.state ≡ unlisted text) × (info ≡ found))

  abbrev NoEdits : List Request → Type 0
  NoEdits log = All (λ r. ¬ IsEdit r) log

  after_before_edit :
      (cluster : Cluster) (log : List Request) (found : ClusterInfo) (l : List Request)
      (out : Result ClusterInfo × List Request) (f : ClusterInfo → Call Request ClusterInfo)
      → get_cluster server cluster.cluster_id log ≡ (ok found, l)
      → before_edit server sdk quote found found.state l ≡ out
      → NoEdits out.1
      → ¬ NoEdits (continue out f).1
      → HasSettled cluster log
  after_before_edit cluster log found l (ok info, l') f got waited p h = record {
    found = found;
    info = info;
    after_get = l;
    after_wait = l';
    got = got;
    waited = waited;
    settled = before_edit-IsSettled server sdk quote found found.state l info l' refl waited;
  }
  after_before_edit cluster log found l (err e, l') f got waited p h = absurd (h p)

  after_get_cluster :
      (cluster : Cluster) (log : List Request) (out : Result ClusterInfo × List Request)
      → get_cluster server cluster.cluster_id log ≡ out
      → NoEdits out.1
      → ¬ NoEdits
          (continue out (λ found l.
            continue (before_edit server sdk quote found found.state l) (λ info. (λ l'.
              continue (send server (edit cluster) l') (λ _.
                if is_running_or_resizing info
                then start_and_get_info server sdk info.cluster_id
                else pure info))))).1
      → HasSettled cluster log
  after_get_cluster cluster log (ok found, l) got p h =
      after_before_edit cluster log found l (before_edit server sdk quote found found.state l) _ got
        refl
        (before_edit-Keeps server sdk NoEdits (λ id l q. (λ e. e, q)) quote found found.state l p) h
  after_get_cluster cluster log (err e, l) got p h = absurd (h p)

  -- `Edit` sends its edit request only after `Get` has described the cluster and it was, or has since
  -- become, RUNNING or TERMINATED, or after `Get` has described it in a state that is none of the eight
  -- constants, in which case it goes on with that description: from a log without edit requests, if
  -- `Edit` leaves one in the log, the cluster has settled so.
  pub edit_cluster-HasSettled :
      (cluster : Cluster) (log : List Request)
      → All (λ r. ¬ IsEdit r) log
      → ¬ All (λ r. ¬ IsEdit r) (edit_cluster server sdk quote cluster log).1
      → HasSettled cluster log
  unfolding edit_cluster
  edit_cluster-HasSettled cluster log p h =
      after_get_cluster cluster log (get_cluster server cluster.cluster_id log) refl
        (get_cluster-Keeps server sdk NoEdits (λ id l q. (λ e. e, q)) cluster.cluster_id log p) h

  restarted-IsSettled :
      (found settled info : ClusterInfo) (log log' : List Request)
      → IsSettled server sdk quote found settled
      → (if is_running_or_resizing settled
            then start_and_get_info server sdk settled.cluster_id
            else pure settled)
          log
        ≡ (ok info, log')
      → ((settled.state ≡ running) × (info.state ≡ running))
        ⊎ (((settled.state ≡ terminated)
              ⊎ ((text : String) × (found.state ≡ unlisted text) × (settled ≡ found)))
            × (info ≡ settled))
  restarted-IsSettled found settled info log log' (inl (inl q)) h =
      let run : is_running_or_resizing settled ≡ true = rw q refl in
      inl (q, start_and_get_info-running server sdk settled.cluster_id log info log' (rw run at h))
  restarted-IsSettled found settled info log log' (inl (inr q)) h =
      let stop : is_running_or_resizing settled ≡ false = rw q refl in
      let same : ◌≡◌ {A = Result ClusterInfo × List Request} (ok settled, log) (ok info, log') =
        rw stop at h in
      inr (inl q, cc)
  restarted-IsSettled found settled info log log' (inr (text, q, s)) h =
      let t : settled.state ≡ unlisted text = ap (λ i. i.state) s ∙ q in
      let stop : is_running_or_resizing settled ≡ false = rw t refl in
      let same : ◌≡◌ {A = Result ClusterInfo × List Request} (ok settled, log) (ok info, log') =
        rw stop at h in
      inr (inr (text, q, s), cc)

  -- Whenever `Edit` succeeds, the description that comes back says RUNNING or TERMINATED, or it is
  -- the one that `Get` gave, in a state that is none of the constants.
  edit_cluster-state :
      (cluster : Cluster) (log : List Request) (info : ClusterInfo) (log' : List Request)
      → edit_cluster server sdk quote cluster log ≡ (ok info, log')
      → ((info.state ≡ running) ⊎ (info.state ≡ terminated))
        ⊎ ((text : String) × (info.state ≡ unlisted text))
  unfolding edit_cluster
  edit_cluster-state cluster log info log' h =
      let (found, l1, e1, h1) = continue-eq-ok (get_cluster server cluster.cluster_id log) _ h in
      let (settled, l2, e2, h2) =
        continue-eq-ok (before_edit server sdk quote found found.state l1) _ h1 in
      let (done, l3, e3, h3) = continue-eq-ok (send server (edit cluster) l2) _ h2 in
      elim (restarted-IsSettled found settled info l3 log'
        (before_edit-IsSettled server sdk quote found found.state l1 settled l2 refl e2) h3) [
          | inl (q, r) ↦ inl (inl r)
          | inr (inl q, same) ↦ inl (inr (subst (λ i. i.state ≡ terminated) (sym same) q))
          | inr (inr (text, q, s), same) ↦ inr (text, ap (λ i. i.state) (same ∙ s) ∙ q)
        ]
