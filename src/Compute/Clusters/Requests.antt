-- ===== src/Compute/Clusters/Requests.antt =====
-- Which requests the cluster methods make, whatever the service answers.
use mathlib.Core.List.{Memᴰ}
use terraform_provider_datab.Base.{
  ◌≡◌, refl, sym, subst, String, Option, none, some, List, ◌∷◌, arith,
}
use terraform_provider_datab.Common.Errors.{Error, Result, ok, err}
use terraform_provider_datab.Common.Service.{Server, send, handle_result, continue, continue-Keeps}
use terraform_provider_datab.Compute.Retry.{RetryContext, retry-Keeps}
use terraform_provider_datab.Compute.States.{
  ClusterState, pending, running, restarting, resizing, terminating, terminated, error, unknown,
  unlisted,
}
use terraform_provider_datab.Compute.Clusters.Model.{
  Cluster, ClusterInfo, Request, create, get, start, delete, permanent_delete, unpin, Reply,
}
use terraform_provider_datab.Compute.Clusters.Api.{
  get_cluster, wait_attempt, wait_for_cluster_status, wait_outcome, before_start, after_switch,
  start_and_get_info, before_edit, terminate, permanent_delete_cluster, clean_up, create_cluster,
  no_info,
}

get_cluster-log :
    (server : Server Request Reply) (id : String) (log : List Request)
    → (get_cluster server id log).1 ≡ get id ∷ log
unfolding get_cluster
get_cluster-log server id log = ground arith

wait_outcome-log : (o : Option Error × ClusterInfo × List Request) → (wait_outcome o).1 ≡ o.2
wait_outcome-log (none, i, l) = refl
wait_outcome-log (some e, i, l) = refl

module _ (server : Server Request Reply) (sdk : RetryContext ClusterInfo Request)
    (P : List Request → Type 0)
    (get_keeps : (id : String) (log : List Request) → P log → P (get id ∷ log)) where
  pub get_cluster-Keeps :
      (id : String) (log : List Request) → P log → P (get_cluster server id log).1
  get_cluster-Keeps id log p = subst P (sym (get_cluster-log server id log)) (get_keeps id log p)

  pub wait-Keeps :
      (id : String) (desired : ClusterState) (log : List Request)
      → P log
      → P (wait_for_cluster_status server sdk id desired log).1
  unfolding wait_for_cluster_status wait_attempt
  wait-Keeps id desired log p =
      subst P (sym (wait_outcome-log (sdk.retry (wait_attempt server id desired) no_info log))) (
        retry-Keeps sdk P (wait_attempt server id desired) (λ s l q. get_cluster-Keeps id l q)
          no_info log p)

  waited-Keeps :
      {B : Type 0} (id : String) (desired : ClusterState) (f : ClusterInfo → B) (log : List Request)
      → P log
      → P (continue (wait_for_cluster_status server sdk id desired log) (λ i l. (ok (f i), l))).1
  waited-Keeps id desired f log p =
      continue-Keeps P (wait_for_cluster_status server sdk id desired log) (λ i l. (ok (f i), l))
        (wait-Keeps id desired log p) (λ i l q. q)

  before_start-Keeps :
      (found : ClusterInfo) (st : ClusterState) (log : List Request)
      → P log
      → P (before_start server sdk found st log).1
  before_start-Keeps found running log p = p
  before_start-Keeps found terminated log p = p
  before_start-Keeps found error log p = p
  before_start-Keeps found unknown log p = p
  before_start-Keeps found (unlisted text) log p = p
  before_start-Keeps found terminating log p =
      waited-Keeps found.cluster_id terminated (λ i. let o : Option ClusterInfo = none in o) log p
  before_start-Keeps found pending log p = waited-Keeps found.cluster_id running (λ i. some i) log p
  before_start-Keeps found resizing log p =
      waited-Keeps found.cluster_id running (λ i. some i) log p
  before_start-Keeps found restarting log p =
      waited-Keeps found.cluster_id running (λ i. some i) log p

  pub before_edit-Keeps :
      (quote : String → String) (found : ClusterInfo) (st : ClusterState) (log : List Request)
      → P log
      → P (before_edit server sdk quote found st log).1
  before_edit-Keeps quote found running log p = p
  before_edit-Keeps quote found terminated log p = p
  before_edit-Keeps quote found error log p = p
  before_edit-Keeps quote found unknown log p = p
  before_edit-Keeps quote found (unlisted text) log p = p
  before_edit-Keeps quote found terminating log p = wait-Keeps found.cluster_id terminated log p
  before_edit-Keeps quote found pending log p = wait-Keeps found.cluster_id running log p
  before_edit-Keeps quote found resizing log p = wait-Keeps found.cluster_id running log p
  before_edit-Keeps quote found restarting log p = wait-Keeps found.cluster_id running log p

  module _ (start_keeps : (id : String) (log : List Request) → P log → P (start id ∷ log)) where
    after_switch-Keeps :
        (id : String) (going : Option ClusterInfo) (log : List Request)
        → P log
        → P (after_switch server sdk id going log).1
    after_switch-Keeps id (some i) log p = p
    after_switch-Keeps id none log p =
        let q = start_keeps id log p in ground (arith, wait-Keeps id running (start id ∷ log) q)

    pub start_and_get_info-Keeps :
        (id : String) (log : List Request) → P log → P (start_and_get_info server sdk id log).1
    unfolding start_and_get_info
    start_and_get_info-Keeps id log p =
        continue-Keeps P (get_cluster server id log) _ (get_cluster-Keeps id log p) λ i l q.
          continue-Keeps P (before_start server sdk i i.state l) _
            (before_start-Keeps i i.state l q) λ going l' q'. after_switch-Keeps id going l' q'

  module _ (delete_keeps : (id : String) (log : List Request) → P log → P (delete id ∷ log))
      (forget_keeps : (id : String) (log : List Request) → P log → P (permanent_delete id ∷ log))
      (unpin_keeps : (id : String) (log : List Request) → P log → P (unpin id ∷ log)) where
    terminate-Keeps : (id : String) (log : List Request) → P log → P (terminate server sdk id log).1
    unfolding terminate
    terminate-Keeps id log p =
        continue-Keeps P (send server (delete id) log) _ (delete_keeps id log p)
          (λ a l q. waited-Keeps id terminated (λ i. tt) l q)

    pub permanent_delete_cluster-Keeps :
        (id : String) (log : List Request)
        → P log
        → P (permanent_delete_cluster server sdk id log).1
    unfolding permanent_delete_cluster
    permanent_delete_cluster-Keeps id log p =
        continue-Keeps P (terminate server sdk id log) _ (terminate-Keeps id log p) λ a l q.
          let q1 = forget_keeps id l q in
          let q2 = unpin_keeps id (permanent_delete id ∷ l) q1 in
          let q3 = forget_keeps id (unpin id ∷ permanent_delete id ∷ l) q2 in ground arith

module _ (server : Server Request Reply) (sdk : RetryContext ClusterInfo Request) where
  abbrev Deleted : String → List Request → Type 0
  Deleted id log = Memᴰ (delete id) log

  terminate-Deleted :
      (id : String) (log : List Request) → Deleted id (terminate server sdk id log).1
  unfolding terminate
  terminate-Deleted id log =
      continue-Keeps (Deleted id) (send server (delete id) log) _ (Memᴰ.head refl) (λ a l q.
        waited-Keeps server sdk (Deleted id) (λ i l m. Memᴰ.tail m) id terminated (λ i. tt) l q)

  permanent_delete_cluster-Deleted :
      (id : String) (log : List Request) → Deleted id (permanent_delete_cluster server sdk id log).1
  unfolding permanent_delete_cluster
  permanent_delete_cluster-Deleted id log =
      continue-Keeps (Deleted id) (terminate server sdk id log) _ (terminate-Deleted id log)
        λ a l q.
          let q1 : Deleted id (permanent_delete id ∷ l) = Memᴰ.tail q in
          let q2 : Deleted id (unpin id ∷ permanent_delete id ∷ l) = Memᴰ.tail q1 in
          let q3 : Deleted id (permanent_delete id ∷ unpin id ∷ permanent_delete id ∷ l) =
            Memᴰ.tail q2 in
          ground arith

  clean_up-Deleted :
      (id : String) (out : Result ClusterInfo × List Request) (e : Error) (log' : List Request)
      → handle_result out (clean_up server sdk id) ≡ (err e, log')
      → Deleted id log'
  clean_up-Deleted id (ok i, l) e log' h = absurd (ground arith)
  clean_up-Deleted id (err e', l) e log' h =
      let q = permanent_delete_cluster-Deleted id l in
      let same : (permanent_delete_cluster server sdk id l).1 ≡ log' = ground arith in
      subst (Deleted id) same q

  -- Whenever `Create` fails although the service has created the cluster, it has asked the service to
  -- terminate that very cluster.
  pub create_cluster-cleans_up :
      (cluster : Cluster) (log : List Request) (id : String) (e : Error) (log' : List Request)
      → server log (create cluster) ≡ ok id
      → create_cluster server sdk cluster log ≡ (err e, log')
      → Memᴰ (delete id) log'
  unfolding create_cluster
  create_cluster-cleans_up cluster log id e log' created h =
      clean_up-Deleted id (wait_for_cluster_status server sdk id running (create cluster ∷ log)) e
        log' (ground arith)
