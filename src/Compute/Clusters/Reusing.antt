-- ===== src/Compute/Clusters/Reusing.antt =====
-- What `GetOrCreateRunningCluster` reuses.
use mathlib.Core.List.{Memᴰ}
use terraform_provider_datab.Base.{
  ℕ, ◌≡◌, ◌≢◌, refl, subst, ◌⊎◌, inl, inr, String, Bool, true, false, Option, none, some, List, [],
  ◌∷◌, arith, Bool-cases, All, length, ltb, eq_iff, ◌==◌,
}
use terraform_provider_datab.Common.Errors.{Result, ok, err}
use terraform_provider_datab.Common.Service.{
  Server, Call, pure, send, handle_result, continue-eq-ok,
}
use terraform_provider_datab.Compute.Retry.{RetryContext}
use terraform_provider_datab.Compute.States.{running, resizing, same_state}
use terraform_provider_datab.Compute.Clusters.Lifecycle.{
  create_cluster-running, start_and_get_info-running, same_state-eq,
}
use terraform_provider_datab.Compute.Clusters.Model.{
  Cluster, ClusterInfo, Request, list, Reply, is_running_or_resizing,
}
use terraform_provider_datab.Compute.Clusters.Api.{start_cluster, start_and_get_info}
use terraform_provider_datab.Compute.Clusters.Reuse.{
  Cloud, local_disk_request, long_term_request, smallest_node_type, spark_version_or_default,
  reuse_cluster, create_unless, get_or_create_running_cluster,
}

-- The cluster is listed under the name.
abbrev pub IsListed : String → List ClusterInfo → ClusterInfo → Type 0
IsListed name clusters cl = Memᴰ cl clusters × (cl.cluster_name ≡ name)

abbrev after_started :
    ClusterInfo
    → Call Request (Option ClusterInfo)
    → Result (Unit {0})
    → Call Request (Option ClusterInfo)
after_started c others r = elim r [ ok _ ↦ pure (some c) | err e ↦ others ]

started-eq_ok :
    (c : ClusterInfo) (others : Call Request (Option ClusterInfo))
    (out : Result (Unit {0}) × List Request) (o : Option ClusterInfo) (log' : List Request)
    → handle_result out (after_started c others) ≡ (ok o, log')
    → ((o ≡ some c) × (out ≡ (ok tt, log'))) ⊎ ((l : List Request) × (others l ≡ (ok o, log')))
started-eq_ok c others (ok tt, l) o log' h = inl (ground arith, ground arith)
started-eq_ok c others (err e, l) o log' h = inr (l, h)

up_state :
    (c : ClusterInfo) → is_running_or_resizing c ≡ true → (c.state ≡ running) ⊎ (c.state ≡ resizing)
up_state c h = elim (Bool-cases (same_state c.state running)) [
  | inl e ↦ inl (same_state-eq c.state running e)
  | inr e ↦ inr (same_state-eq c.state resizing (rw e at h))
]

down_state :
    (c : ClusterInfo)
    → is_running_or_resizing c ≡ false
    → (c.state ≢ running) × (c.state ≢ resizing)
down_state c h = (λ e. absurd (let k = rw e at h in cc), λ e. absurd (let k = rw e at h in cc))

module _ (server : Server Request Reply) (sdk : RetryContext ClusterInfo Request) where
  -- The cluster was listed as running or resizing; or the last thing done was `StartAndGetInfo` of it, which
  -- found or brought it to RUNNING.
  abbrev pub IsUp : ClusterInfo → List Request → Type 0
  IsUp cl log' =
      (cl.state ≡ running)
      ⊎ ((cl.state ≡ resizing)
          ⊎ ((before : List Request) × (up : ClusterInfo) × (start_and_get_info server sdk
                  cl.cluster_id before
                ≡ (ok up, log'))
              × (up.state ≡ running)))

  listed-IsUp :
      (c : ClusterInfo) (log' : List Request) → is_running_or_resizing c ≡ true → IsUp c log'
  listed-IsUp c log' h = elim (up_state c h) [ inl e ↦ inl e | inr e ↦ inr (inl e) ]

  started-IsUp :
      (c : ClusterInfo) (before log' : List Request)
      → start_cluster server sdk c.cluster_id before ≡ (ok tt, log')
      → IsUp c log'
  unfolding start_cluster
  started-IsUp c before log' h =
      let (up, l, e, k) =
        continue-eq-ok (start_and_get_info server sdk c.cluster_id before) (λ _. pure tt) h in
      let same : l ≡ log' = ground arith in
      let e' : start_and_get_info server sdk c.cluster_id before ≡ (ok up, log') =
        subst (λ m. start_and_get_info server sdk c.cluster_id before ≡ (ok up, m)) same e in
      inr
        (inr (before, up, e', start_and_get_info-running server sdk c.cluster_id before up log' e'))

  -- What the head of the list contributes to the loop's answer.
  reuse_cluster-cons :
      (name : String) (c : ClusterInfo) (clusters : List ClusterInfo) (log : List Request)
      (o : Option ClusterInfo) (log' : List Request)
      → reuse_cluster server sdk name (c ∷ clusters) log ≡ (ok o, log')
      → ((o ≡ some c) × (c.cluster_name ≡ name) × IsUp c log')
        ⊎ (((l : List Request) × (reuse_cluster server sdk name clusters l ≡ (ok o, log')))
            × (c.cluster_name ≡ name → (c.state ≢ running) × (c.state ≢ resizing)))
  unfolding reuse_cluster
  reuse_cluster-cons name c clusters log o log' h = elim (Bool-cases (c.cluster_name == name)) [
    | inl same ↦ elim (Bool-cases (is_running_or_resizing c)) [
      | inl up ↦ inl (ground arith, (eq_iff _ _).0 same, listed-IsUp c log' up)
      | inr down ↦
          elim (started-eq_ok c (reuse_cluster server sdk name clusters)
            (start_cluster server sdk c.cluster_id log) o log'
            (rw (same, down, reuse_cluster) at h)) [
              | inl (e, k) ↦ inl (e, (eq_iff _ _).0 same, started-IsUp c log log' k)
              | inr (l, e) ↦ inr ((l, e), λ _. down_state c down)
            ]
    ]
    | inr differ ↦ inr (
      (log, rw (differ, reuse_cluster) at h),
      λ e. absurd (ground (arith, eq_iff c.cluster_name name)),
    )
  ]

  -- The cluster is listed under the name, and is up.
  abbrev pub IsReused : String → List ClusterInfo → List Request → ClusterInfo → Type 0
  IsReused name clusters log' cl = IsListed name clusters cl × IsUp cl log'

  reuse_cluster-IsReused :
      (name : String) (clusters : List ClusterInfo) (log : List Request) (cl : ClusterInfo)
      (log' : List Request)
      → reuse_cluster server sdk name clusters log ≡ (ok (some cl), log')
      → IsReused name clusters log' cl
  unfolding reuse_cluster
  reuse_cluster-IsReused name [] log cl log' h = absurd (ground arith)
  reuse_cluster-IsReused name (c ∷ clusters) log cl log' h =
      elim (reuse_cluster-cons name c clusters log (some cl) log' h) [
        | inl (e, n, up) ↦
            let same : c ≡ cl = ground arith in
            subst (IsReused name (c ∷ clusters) log') same ((Memᴰ.head refl, n), up)
        | inr ((l, e), k) ↦
            let ((m, n), up) = reuse_cluster-IsReused name clusters l cl log' e in
            ((Memᴰ.tail m, n), up)
      ]

  -- The loop finds no cluster only if none of that name runs.
  reuse_cluster-none :
      (name : String) (clusters : List ClusterInfo) (log log' : List Request)
      → reuse_cluster server sdk name clusters log ≡ (ok none, log')
      → All (λ cl. cl.cluster_name ≡ name → (cl.state ≢ running) × (cl.state ≢ resizing)) clusters
  reuse_cluster-none name [] log log' h = tt
  reuse_cluster-none name (c ∷ clusters) log log' h =
      elim (reuse_cluster-cons name c clusters log none log' h) [
        | inl (e, n, up) ↦ absurd (ground arith)
        | inr ((l, e), k) ↦ (k, reuse_cluster-none name clusters l log' e)
      ]

  create_unless-state :
      (cloud : Cloud) (newer : String → String → Bool) (name : String) (custom : List Cluster)
      (clusters : List ClusterInfo) (found : Option ClusterInfo) (before log : List Request)
      (info : ClusterInfo) (log' : List Request)
      → reuse_cluster server sdk name clusters before ≡ (ok found, log)
      → create_unless server sdk cloud newer name custom found log ≡ (ok info, log')
      → IsReused name clusters log' info
        ⊎ ((info.state ≡ running)
            × All
                (λ cl. cl.cluster_name ≡ name → (cl.state ≢ running) × (cl.state ≢ resizing))
                clusters)
  create_unless-state cloud newer name custom clusters (some cl) before log info log' q h =
      let same : cl ≡ info = ground arith in
      let rest : log ≡ log' = ground arith in
      inl (
        subst (λ l. IsReused name clusters l info) rest
          (subst (IsReused name clusters log) same
            (reuse_cluster-IsReused name clusters before cl log q)))
  create_unless-state cloud newer name custom clusters none before log info log' q h =
      let (node_type, l1, e1, h1) =
        continue-eq-ok (smallest_node_type server cloud local_disk_request log) _ h in
      let (version, l2, e2, h2) =
        continue-eq-ok (spark_version_or_default server newer long_term_request l1) _ h1 in
      inr (
        create_cluster-running server sdk _ l2 info log' h2,
        reuse_cluster-none name clusters before log q,
      )

  -- Whenever `GetOrCreateRunningCluster` succeeds, the service has listed its clusters, and then either
  -- the answer is a listed cluster of the given name, which was listed as RUNNING or RESIZING, or which
  -- `StartAndGetInfo`, called last, has found or brought to RUNNING; or the answer's state is RUNNING
  -- and no listed cluster of the name was RUNNING or RESIZING.
  pub get_or_create-reuses :
      (cloud : Cloud) (newer : String → String → Bool) (show : ℕ → String) (name : String)
      (custom : List Cluster) (log : List Request) (info : ClusterInfo) (log' : List Request)
      → get_or_create_running_cluster server sdk cloud newer show name custom log ≡ (ok info, log')
      → (clusters : List ClusterInfo) × (server log list ≡ ok clusters)
        × (IsReused name clusters log' info
            ⊎ ((info.state ≡ running)
                × All
                    (λ cl. cl.cluster_name ≡ name → (cl.state ≢ running) × (cl.state ≢ resizing))
                    clusters))
  unfolding get_or_create_running_cluster
  get_or_create-reuses cloud newer show name custom log info log' h =
      elim (Bool-cases (ltb 1 (length custom))) [
        | inl many ↦ absurd (ground arith)
        | inr fits ↦
            let (clusters, l1, e1, h1) =
              continue-eq-ok (send server list log) _
                (rw (fits, get_or_create_running_cluster) at h) in
            let (found, l2, e2, h2) =
              continue-eq-ok (reuse_cluster server sdk name clusters l1) _ h1 in
            (
              clusters,
              ground arith,
              create_unless-state cloud newer name custom clusters found l1 l2 info log' e2 h2,
            )
      ]
