-- ===== src/Compute/Clusters/Waiting.antt =====
-- Waiting for a cluster ends well, where the cluster comes to the desired state in time.
use terraform_provider_datab.Base.{
  ℕ, zero, suc, ◌≤◌, ◌<◌, ◌≡◌, refl, ap, ◌∙◌, String, true, false, none, List, ◌∷◌, arith,
  Bool-cases, inl, inr, eq_iff,
}
use terraform_provider_datab.Common.Errors.{Error, ok}
use terraform_provider_datab.Common.Service.{Server}
use terraform_provider_datab.Compute.Retry.{finished, retryable, RetryContext, Outcome, rounds}
use terraform_provider_datab.Compute.States.{
  ClusterState, pending, running, restarting, resizing, terminating, terminated, error, unknown,
  unlisted, same_state, can_reach,
}
use terraform_provider_datab.Compute.Clusters.Model.{ClusterInfo, Request, get, Reply}
use terraform_provider_datab.Compute.Clusters.Api.{
  no_info, has_to_be, get_cluster, wait_attempt, wait_outcome, wait_for_cluster_status,
}
use terraform_provider_datab.Compute.Clusters.Lifecycle.{same_state-eq}

same_state_refl : (s : ClusterState) → same_state s s ≡ true
same_state_refl pending = refl
same_state_refl running = refl
same_state_refl restarting = refl
same_state_refl resizing = refl
same_state_refl terminating = refl
same_state_refl terminated = refl
same_state_refl error = refl
same_state_refl unknown = refl
same_state_refl (unlisted text) = (eq_iff text text).1 refl

-- The log after the cluster was asked for `k` more times.
abbrev pub polled : String → ℕ → List Request → List Request
polled id zero log = log
polled id (suc k) log = polled id k (get id ∷ log)

module _ (server : Server Request Reply) (id : String) (desired : ClusterState) where
  wait_attempt-finished :
      (s info : ClusterInfo) (log : List Request)
      → server log (get id) ≡ ok info
      → same_state info.state desired ≡ true
      → wait_attempt server id desired s log ≡ (finished, info, get id ∷ log)
  unfolding wait_attempt get_cluster
  wait_attempt-finished s info log e same = rw (e, same) refl

  wait_attempt-retryable :
      (s info : ClusterInfo) (log : List Request)
      → server log (get id) ≡ ok info
      → same_state info.state desired ≡ false
      → can_reach info.state desired ≡ true
      → wait_attempt server id desired s log
        ≡ (retryable (has_to_be id info desired), info, get id ∷ log)
  unfolding wait_attempt get_cluster
  wait_attempt-retryable s info log e other reach = rw (e, other, reach) refl

  -- The outcome of attempts that have ended in the desired state.
  abbrev HasArrived : Outcome ClusterInfo Request → Type 0
  HasArrived out =
      (info : ClusterInfo) × (log : List Request) × (out ≡ (none, info, log))
      × (info.state ≡ desired)

  now-HasArrived :
      (n : ℕ) (last : Error) (s info : ClusterInfo) (log : List Request)
      → server log (get id) ≡ ok info
      → same_state info.state desired ≡ true
      → HasArrived (rounds (suc n) last (wait_attempt server id desired) s log)
  unfolding rounds
  now-HasArrived n last s info log e same =
      rw (wait_attempt-finished s info log e same)
        (info, get id ∷ log, refl, same_state-eq info.state desired same)

  rounds-HasArrived :
      (m n : ℕ) (answers : ℕ → ClusterInfo) (last : Error) (s : ClusterInfo) (log : List Request)
      → m < n
      → ((k : ℕ) → k ≤ m → server (polled id k log) (get id) ≡ ok (answers k))
      → ((k : ℕ) → k < m → can_reach (answers k).state desired ≡ true)
      → (answers m).state ≡ desired
      → HasArrived (rounds n last (wait_attempt server id desired) s log)
  unfolding rounds
  rounds-HasArrived m zero answers last s log lt h reach there = absurd (omega (arith, lt))
  rounds-HasArrived zero (suc n) answers last s log lt h reach there =
      now-HasArrived n last s (answers 0) log (h 0 (omega arith))
        (rw there (same_state_refl desired))
  rounds-HasArrived (suc m) (suc n) answers last s log lt h reach there =
      elim (Bool-cases (same_state (answers 0).state desired)) [
        | inl same ↦ now-HasArrived n last s (answers 0) log (h 0 (omega arith)) same
        | inr other ↦
            let rest =
              rounds-HasArrived m n (λ k. answers (suc k)) (has_to_be id (answers 0) desired)
                (answers 0) (get id ∷ log) (omega (arith, lt))
                (λ k le. h (suc k) (omega (arith, le))) (λ k le. reach (suc k) (omega (arith, le)))
                there in
            rw
              (wait_attempt-retryable s (answers 0) log (h 0 (omega arith)) other
                (reach 0 (omega arith)))
              rest
      ]

  -- Where the service answers the next polls with descriptions of the cluster, of which the one numbered
  -- `m` is in the desired state and those before it in states that can reach it, and there are more
  -- than `m` attempts: waiting succeeds, with a description in the desired state.
  pub wait_for_cluster_status-arrives :
      (sdk : RetryContext ClusterInfo Request) (m : ℕ) (answers : ℕ → ClusterInfo)
      (log : List Request)
      → m < (sdk.retry-rounds (wait_attempt server id desired) no_info log).0
      → ((k : ℕ) → k ≤ m → server (polled id k log) (get id) ≡ ok (answers k))
      → ((k : ℕ) → k < m → can_reach (answers k).state desired ≡ true)
      → (answers m).state ≡ desired
      → (info : ClusterInfo) × (log' : List Request) × (wait_for_cluster_status server sdk id
            desired log
          ≡ (ok info, log'))
        × (info.state ≡ desired)
  unfolding wait_for_cluster_status
  wait_for_cluster_status-arrives sdk m answers log lt h reach there =
      let (n, same) = sdk.retry-rounds (wait_attempt server id desired) no_info log in
      let (info, log', e, arrived) =
        rounds-HasArrived m n answers sdk.timeout_error no_info log lt h reach there in
      (info, log', ap wait_outcome (same ∙ e), arrived)
