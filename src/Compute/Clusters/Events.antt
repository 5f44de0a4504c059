-- ===== src/Compute/Clusters/Events.antt =====
-- `Events` of compute/clusters.go. The answer to a request is the structure as it leaves it; `fuel` counts
-- the further pages.
use terraform_provider_datab.Base.{
  ℕ, zero, suc, ◌-◌, Option, none, some, List, [], ◌++◌, if◌then◌else◌, ◌&&◌, ltb, eqb, length,
  take,
}
use terraform_provider_datab.Common.Service.{Server, Call, pure, send, ◌>>=◌}
use terraform_provider_datab.Compute.Clusters.Model.{
  EventsRequest, EventsResponse, ClusterEvent, Request, events, Reply,
}

-- The events, or a slice out of bounds, or more pages than the fuel.
pub data Gathered : Type 0 where
  gathered : List ClusterEvent → Gathered
  panics runs_on : Gathered

abbrev pub wanted : ℕ → ℕ → ℕ
wanted max_items total_count =
    if ltb 0 max_items && ltb max_items total_count then max_items else total_count

module _ (server : Server Request Reply) (total_count : ℕ) where
  -- The loop over the pages.
  unfoldable pub more_events : ℕ → List ClusterEvent → Option EventsRequest → Call Request Gathered
  more_events zero found next =
      if ltb (length found) total_count
      then elim next [ none ↦ pure (gathered found) | some request ↦ pure runs_on ]
      else pure (gathered found)
  more_events (suc fuel) found next =
      if ltb (length found) total_count
      then elim next [
        | none ↦ pure (gathered found)
        | some request ↦ send server (events request) >>= λ response.
            more_events fuel (found ++ take (total_count - length found) response.events)
              response.next_page
      ]
      else pure (gathered found)

  abbrev pub first_events : ℕ → EventsResponse → Call Request Gathered
  first_events fuel response =
      if eqb total_count 0
      then pure (gathered [])
      else if ltb total_count (length response.events)
      then pure panics
      else more_events fuel response.events response.next_page

unfoldable pub list_events : Server Request Reply → ℕ → EventsRequest → ℕ → Call Request Gathered
list_events server fuel request max_items = send server (events request) >>= λ response.
    first_events server (wanted max_items response.total_count) fuel response
