-- ===== src/SqlAnalytics/Endpoints/Creating.antt =====
-- How the creation of an endpoint may end.
use terraform_provider_datab.Base.{
  ◌≡◌, refl, String, List, ◌∷◌, All, ◌==◌, arith, eq_iff, Bool-cases, inl, inr,
}
use terraform_provider_datab.Common.Errors.{Result, ok, err, Result-cases}
use terraform_provider_datab.Common.Service.{Server, continue}
use terraform_provider_datab.Compute.Retry.{
  RetryContext, AttemptEnds, retry-OutcomeEnds, WaitEnds, waited-WaitEnds,
}
use terraform_provider_datab.SqlAnalytics.Endpoints.{
  SqlEndpoint, Request, create_endpoint_at, get_endpoint_at, delete_endpoint_at, Reply,
  endpoint_attempt, wait_for_running, create_endpoint, create_context,
}

abbrev IsDeletion : Request → Type 0
IsDeletion (delete_endpoint_at id) = Unit
IsDeletion _ = ⊥

abbrev pub NoDeletions : List Request → Type 0
NoDeletions log = All (λ r. ¬ IsDeletion r) log

module _ (server : Server Request Reply) where
  -- The last request has read the endpoint, and it was running.
  pub data HasRun (id : String) : List Request → Type 0 where
    seen :
        {log : List Request} (endpoint : SqlEndpoint)
        → server log (get_endpoint_at id) ≡ ok endpoint
        → endpoint.state ≡ "RUNNING"
        → HasRun id (get_endpoint_at id ∷ log)

module _ (server : Server Request Reply) (sdk : RetryContext (Unit {0}) Request) where
  abbrev RunsCleanly : String → List Request → Type 0
  RunsCleanly id log = HasRun server id log × NoDeletions log

  attempt-ends :
      (id : String) (s : Unit {0}) (log : List Request)
      → NoDeletions log
      → AttemptEnds NoDeletions
          (λ (_ : Unit {0}) l. RunsCleanly id l)
          (endpoint_attempt server sdk id s log)
  attempt-ends id s log p = elim (Result-cases (server log (get_endpoint_at id))) [
    | inl (x, e) ↦ rw e ((λ h. h), p)
    | inr (endpoint, e) ↦ elim (Bool-cases (endpoint.state == "RUNNING")) [
      | inl f ↦
          rw (e, f)
            (seen endpoint e (ground (arith, eq_iff endpoint.state "RUNNING")), ((λ h. h), p))
      | inr f ↦ elim (Bool-cases (endpoint.state == "DELETED")) [
        | inl g ↦ rw (e, f, g) ((λ h. h), p)
        | inr g ↦ rw (e, f, g) ((λ h. h), p)
      ]
    ]
  ]

  wait_for_running-WaitEnds :
      (id : String) (log : List Request)
      → NoDeletions log
      → WaitEnds NoDeletions (RunsCleanly id) (wait_for_running server sdk id log)
  unfolding wait_for_running
  wait_for_running-WaitEnds id log p =
      waited-WaitEnds NoDeletions (RunsCleanly id)
        (sdk.retry (endpoint_attempt server sdk id) tt log)
        (retry-OutcomeEnds sdk NoDeletions (λ _ l. RunsCleanly id l)
          (endpoint_attempt server sdk id) (λ s l q. attempt-ends id s l q) tt log p)

  -- How the creation of an endpoint may end: with the ID of a running one, or with an error. In
  -- neither case is anything deleted.
  abbrev pub Leaves : SqlEndpoint → List Request → Result String × List Request → Type 0
  Leaves se log (ok id, log') =
      ((made : SqlEndpoint) × (server log (create_endpoint_at se) ≡ ok made) × (made.id ≡ id))
      × HasRun server id log'
      × NoDeletions log'
  Leaves se log (err e, log') = NoDeletions log'

  waited-Leaves :
      (se made : SqlEndpoint) (log : List Request)
      → server log (create_endpoint_at se) ≡ ok made
      → (out : Result (Unit {0}) × List Request) → WaitEnds NoDeletions (RunsCleanly made.id) out
      → Leaves se log (continue (continue out (λ _ l. (ok made, l))) (λ made' l. (ok made'.id, l)))
  waited-Leaves se made log m (ok _, l) h = ((made, m, refl), h.0, h.1)
  waited-Leaves se made log m (err e, l) h = h

  -- From a log without deletions: where creating an endpoint succeeds, the service has made one, and the
  -- last request has read it RUNNING; and on success or failure no request deletes an endpoint.
  pub create_context-Leaves :
      (se : SqlEndpoint) (log : List Request)
      → NoDeletions log
      → Leaves se log (create_context server sdk se log)
  unfolding create_context create_endpoint
  create_context-Leaves se log p = elim (Result-cases (server log (create_endpoint_at se))) [
    | inl (x, e) ↦ rw e ((λ h. h), p)
    | inr (made, e) ↦ rw e (
        waited-Leaves se made log e
          (wait_for_running server sdk made.id (create_endpoint_at se ∷ log))
          (wait_for_running-WaitEnds made.id (create_endpoint_at se ∷ log) ((λ h. h), p)))
  ]
