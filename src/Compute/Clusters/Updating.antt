-- ===== src/Compute/Clusters/Updating.antt =====
-- An update of a terminated cluster's libraries starts it, and terminates it again.
use terraform_provider_datab.Base.{
  ℕ, ◌≡◌, refl, sym, subst, ap, ◌∙◌, ◌⊎◌, inl, inr, String, true, false, ◌||◌, List, ◌∷◌, arith,
  Bool-cases,
}
use terraform_provider_datab.Common.Errors.{Result, ok}
use terraform_provider_datab.Common.Service.{Server, send, continue-eq-ok}
use terraform_provider_datab.Compute.Retry.{RetryContext}
use terraform_provider_datab.Compute.States.{running, terminated, same_state}
use terraform_provider_datab.Compute.Libraries.{ClusterLibraryList, ClusterLibraryStatuses, diff}
use terraform_provider_datab.Compute.Clusters.Model.{
  ClusterInfo, Request, cluster_status, delete, pin, unpin, Reply, is_running_or_resizing,
}
use terraform_provider_datab.Compute.Clusters.Api.{
  wait_for_cluster_status, start_and_get_info, terminate,
}
use terraform_provider_datab.Compute.Clusters.Lifecycle.{start_and_get_info-running, wait-state}
use terraform_provider_datab.Compute.Clusters.Configuration.{ClusterData}
use terraform_provider_datab.Compute.Clusters.Resource.{
  has_libraries, configured, update_libraries, edited_or_read, change_pin, restore, apply_changes,
  change_libraries, update_context,
}

-- A cluster to be pinned that was not has been pinned, one that was pinned and is not to be has been
-- unpinned, and nothing else was asked.
abbrev pub Pins : ClusterData → List Request → List Request → Type 0
Pins d described pinned =
    ((d.was_pinned ≡ d.is_pinned) × (pinned ≡ described))
    ⊎ (((d.was_pinned ≡ false) × (d.is_pinned ≡ true) × (pinned ≡ pin d.id ∷ described))
        ⊎ ((d.was_pinned ≡ true) × (d.is_pinned ≡ false) × (pinned ≡ unpin d.id ∷ described)))

module _ (server : Server Request Reply) (sdk : RetryContext ClusterInfo Request) where
  -- The cluster has been deleted, and its last description says TERMINATED.
  abbrev pub Terminates : String → List Request → List Request → Type 0
  Terminates id log log' =
      (last : ClusterInfo) × (wait_for_cluster_status server sdk id terminated (delete id ∷ log)
        ≡ (ok last, log'))
      × (last.state ≡ terminated)

  terminate-Terminates :
      (id : String) (log log' : List Request)
      → terminate server sdk id log ≡ (ok tt, log')
      → Terminates id log log'
  unfolding terminate
  terminate-Terminates id log log' h =
      let (_, l1, e1, h1) = continue-eq-ok (send server (delete id) log) _ h in
      let m : l1 ≡ delete id ∷ log = ground arith in
      let (last, l2, e2, h2) =
        continue-eq-ok (wait_for_cluster_status server sdk id terminated l1) _ h1 in
      let n : l2 ≡ log' = ground arith in
      let e : wait_for_cluster_status server sdk id terminated (delete id ∷ log) ≡ (ok last, log') =
        ap (wait_for_cluster_status server sdk id terminated) (sym m)
        ∙ e2
        ∙ ap (λ l. let p : Result ClusterInfo × List Request = (ok last, l) in p) n in
      (last, e, wait-state server sdk id terminated (delete id ∷ log) last log' e)

module _ (server : Server Request Reply) (sdk : RetryContext ClusterInfo Request)
    (libraries_sdk : RetryContext ClusterLibraryStatuses Request) (quote : String → String)
    (show : ℕ → String) where
  -- The libraries were changed on the running cluster, which was terminated after that.
  pub record Restores (id : String) (to_install to_uninstall : ClusterLibraryList)
      (log log' : List Request) : Type 0 where
    pub running_info : ClusterInfo
    pub after_start : List Request
    pub after_change : List Request
    pub started : start_and_get_info server sdk id log ≡ (ok running_info, after_start)
    pub is_running : running_info.state ≡ running
    pub changed :
        update_libraries server sdk libraries_sdk quote show running_info to_install to_uninstall
          after_start
        ≡ (ok tt, after_change)
    pub terminates : Terminates server sdk id after_change log'

  restore-Terminates :
      (id : String) (info : ClusterInfo) (log log' : List Request)
      → info.state ≡ terminated
      → restore server sdk libraries_sdk quote show id info log ≡ (ok tt, log')
      → Terminates server sdk id log log'
  restore-Terminates id info log log' down h =
      let same : same_state info.state terminated ≡ true = rw down refl in
      terminate-Terminates server sdk id log log' (rw same at h)

  apply_changes-Restores :
      (id : String) (info : ClusterInfo) (to_install to_uninstall : ClusterLibraryList)
      (log log' : List Request)
      → info.state ≡ terminated
      → (has_libraries to_uninstall || has_libraries to_install) ≡ true
      → apply_changes server sdk libraries_sdk quote show id info (to_install, to_uninstall) log
        ≡ (ok tt, log')
      → Restores id to_install to_uninstall log log'
  unfolding apply_changes
  apply_changes-Restores id info to_install to_uninstall log log' down some_change h =
      let stopped : is_running_or_resizing info ≡ false = rw down refl in
      let h0 = rw (some_change, apply_changes, stopped) at h in
      let (up, l1, e1, h1) = continue-eq-ok (start_and_get_info server sdk id log) _ h0 in
      let (_, l2, e2, h2) =
        continue-eq-ok
          (update_libraries server sdk libraries_sdk quote show up to_install to_uninstall l1) _
          h1 in
      record {
        running_info = up;
        after_start = l1;
        after_change = l2;
        started = e1;
        is_running = start_and_get_info-running server sdk id log up l1 e1;
        changed = e2;
        terminates = restore-Terminates id info l2 log' down h2;
      }

  -- What an update does about the libraries of a terminated cluster.
  abbrev pub Settles : ClusterData → ClusterLibraryStatuses → List Request → List Request → Type 0
  Settles d cls log log' =
      let (to_install, to_uninstall) = diff (configured d.id d) cls in
      (((has_libraries to_uninstall || has_libraries to_install) ≡ false) × (log' ≡ log))
      ⊎ Restores d.id to_install to_uninstall log log'

  apply_changes-Settles :
      (d : ClusterData) (info : ClusterInfo) (cls : ClusterLibraryStatuses)
      (log log' : List Request)
      → info.state ≡ terminated
      → apply_changes server sdk libraries_sdk quote show d.id info
          (diff (configured d.id d) cls)
          log
        ≡ (ok tt, log')
      → Settles d cls log log'
  unfolding apply_changes
  apply_changes-Settles d info cls log log' down h =
      let (to_install, to_uninstall) = diff (configured d.id d) cls in
      elim (Bool-cases (has_libraries to_uninstall || has_libraries to_install)) [
        | inl e ↦ inr (apply_changes-Restores d.id info to_install to_uninstall log log' down e h)
        | inr e ↦ inl (e, let k = rw (e, apply_changes) at h in ground arith)
      ]

  change_pin-Pins :
      (d : ClusterData) (described pinned : List Request)
      → change_pin server sdk libraries_sdk quote show d described ≡ (ok tt, pinned)
      → Pins d described pinned
  change_pin-Pins d described pinned h = elim (Bool-cases d.was_pinned) [
    | inl w ↦ elim (Bool-cases d.is_pinned) [
      | inl p ↦ inl (w ∙ sym p, let k = rw (w, p) at h in ground arith)
      | inr p ↦ inr (inr (w, p, let k = rw (w, p) at h in ground arith))
    ]
    | inr w ↦ elim (Bool-cases d.is_pinned) [
      | inl p ↦ inr (inl (w, p, let k = rw (w, p) at h in ground arith))
      | inr p ↦ inl (w ∙ sym p, let k = rw (w, p) at h in ground arith)
    ]
  ]

  -- Where an update succeeds, and the cluster was TERMINATED as the update's edit, or its reading of the
  -- cluster, described it: the cluster was then pinned, if it was not and is to be, or unpinned, if it was
  -- and is not to be, and nothing else was asked before the status of the libraries was read; and either
  -- no library differs and nothing more was asked; or the cluster was started until it was RUNNING, its
  -- libraries were changed then, and it was deleted again until its description said TERMINATED.
  pub update_context-Settles :
      (d : ClusterData) (info : ClusterInfo) (log described log' : List Request)
      → edited_or_read server sdk libraries_sdk quote show d log ≡ (ok info, described)
      → info.state ≡ terminated
      → update_context server sdk libraries_sdk quote show d log ≡ (ok tt, log')
      → (pinned : List Request) × (cls : ClusterLibraryStatuses) × (change_pin server sdk
            libraries_sdk quote show d described
          ≡ (ok tt, pinned))
        × Pins d described pinned
        × (server pinned (cluster_status d.id) ≡ ok cls)
        × Settles d cls (cluster_status d.id ∷ pinned) log'
  unfolding update_context change_libraries
  update_context-Settles d info log described log' e down h =
      let h0 = rw (e, update_context) at h in
      let (_, l1, e1, h1) =
        continue-eq-ok (change_pin server sdk libraries_sdk quote show d described) _ h0 in
      let (cls, l2, e2, h2) = continue-eq-ok (send server (cluster_status d.id) l1) _ h1 in
      let m : l2 ≡ cluster_status d.id ∷ l1 = ground arith in
      (
        l1,
        cls,
        e1,
        change_pin-Pins d described l1 e1,
        ap (λ r. r.0) e2,
        subst (λ l. Settles d cls l log') m (apply_changes-Settles d info cls l2 log' down h2),
      )
