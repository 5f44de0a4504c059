-- ===== src/Compute/States.antt =====
-- compute/model.go, the cluster states: `ClusterState`, `stateMachine` and `CanReach`. The eight
-- constants are constructors; `unlisted` holds the text of any other state.
pub mod Reach
use terraform_provider_datab.Base.{
  ℕ, zero, suc, String, Bool, true, false, Option, none, some, List, [], ◌∷◌, ◌++◌, any,
  if◌then◌else◌, ◌==◌,
}

pub data ClusterState : Type 0 where
  pending running restarting resizing terminating terminated error unknown : ClusterState
  unlisted : String → ClusterState

abbrev pub state_text : ClusterState → String
state_text pending = "PENDING"
state_text running = "RUNNING"
state_text restarting = "RESTARTING"
state_text resizing = "RESIZING"
state_text terminating = "TERMINATING"
state_text terminated = "TERMINATED"
state_text error = "ERROR"
state_text unknown = "UNKNOWN"
state_text (unlisted text) = text

-- `==` on states
abbrev pub same_state : ClusterState → ClusterState → Bool
same_state pending pending = true
same_state running running = true
same_state restarting restarting = true
same_state resizing resizing = true
same_state terminating terminating = true
same_state terminated terminated = true
same_state error error = true
same_state unknown unknown = true
same_state (unlisted text) (unlisted other) = text == other
same_state _ _ = false

-- `stateMachine[current]`, with the second result of the lookup
abbrev pub state_machine : ClusterState → Option (List ClusterState)
state_machine pending = some (running ∷ terminating ∷ [])
state_machine running = some (resizing ∷ restarting ∷ terminating ∷ [])
state_machine restarting = some (running ∷ terminating ∷ [])
state_machine resizing = some (running ∷ terminating ∷ [])
state_machine terminating = some (terminated ∷ [])
state_machine terminated = none
state_machine error = none
state_machine unknown = none
state_machine (unlisted text) = none

-- The loop of `CanReach` over its queue. `none` means that the fuel ran out before the loop ended.
unfoldable pub can_reach_loop :
    ℕ → ClusterState → List ClusterState → List ClusterState → Option Bool
can_reach_loop zero desired visited queue = none
can_reach_loop (suc fuel) desired visited [] = some false
can_reach_loop (suc fuel) desired visited (current ∷ queue) =
    elim (any (same_state current) visited) [
      | true ↦ can_reach_loop fuel desired visited queue
      | false ↦ elim (state_machine current) [
        | none ↦ some false
        | some adjacent ↦ elim (any (same_state desired) adjacent) [
          | true ↦ some true
          | false ↦ can_reach_loop fuel desired (current ∷ visited) (queue ++ adjacent)
        ]
      ]
    ]

unfoldable pub can_reach_within : ℕ → ClusterState → ClusterState → Option Bool
unfolding can_reach_loop
can_reach_within fuel state desired =
    if same_state state desired then some true else can_reach_loop fuel desired [] (state ∷ [])

abbrev pub or_false : Option Bool → Bool
or_false none = false
or_false (some b) = b

-- `CanReach`. The state machine lists ten successors in all, so the queue is read at most eleven
-- times: 16 rounds are enough.
unfoldable pub can_reach : ClusterState → ClusterState → Bool
unfolding can_reach_within
can_reach state desired = or_false (can_reach_within 16 state desired)
