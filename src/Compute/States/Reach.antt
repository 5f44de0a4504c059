-- ===== src/Compute/States/Reach.antt =====
-- `CanReach` against the reachability relation of the state machine.
use terraform_provider_datab.Base.{
  ◌≡◌, refl, ◌↔◌, Bool, true, false, String, some, arith, subst, ◌==◌, eq_iff, Bool-cases, inl, inr,
}
use terraform_provider_datab.Compute.States.{
  ClusterState, pending, running, restarting, resizing, terminating, terminated, error, unknown,
  unlisted, can_reach_within, can_reach,
}

-- A transition of the cluster state machine.
pub data Moves : ClusterState → ClusterState → Type 0 where
  start : Moves pending running
  abandon : Moves pending terminating
  resize : Moves running resizing
  restart : Moves running restarting
  stop : Moves running terminating
  restarted : Moves restarting running
  stop_restarting : Moves restarting terminating
  resized : Moves resizing running
  stop_resizing : Moves resizing terminating
  finish : Moves terminating terminated

pub data Reaches : ClusterState → ClusterState → Type 0 where
  here : {s : ClusterState} → Reaches s s
  next : {s t u : ClusterState} → Moves s t → Reaches t u → Reaches s u

from_terminating : (d : ClusterState) → can_reach terminating d ≡ true → Reaches terminating d
unfolding can_reach
from_terminating terminating h = here
from_terminating terminated h = next finish here
from_terminating d h = cc

from_running : (d : ClusterState) → can_reach running d ≡ true → Reaches running d
unfolding can_reach
from_running running h = here
from_running restarting h = next restart here
from_running resizing h = next resize here
from_running terminating h = next stop here
from_running terminated h = next stop (next finish here)
from_running d h = cc

can_reach_self : (s : ClusterState) → can_reach s s ≡ true
unfolding can_reach
can_reach_self pending = refl
can_reach_self (unlisted t) = let e : (t == t) ≡ true = (eq_iff t t).1 refl in rw e refl
can_reach_self s = refl

can_reach-Moves :
    {s t : ClusterState}
    → Moves s t
    → (d : ClusterState) → can_reach t d ≡ true
    → can_reach s d ≡ true
unfolding can_reach
can_reach-Moves start pending h = refl
can_reach-Moves start d h = ground arith
can_reach-Moves abandon pending h = refl
can_reach-Moves abandon d h = ground arith
can_reach-Moves resize pending h = ground arith
can_reach-Moves resize d h = ground arith
can_reach-Moves restart pending h = ground arith
can_reach-Moves restart d h = ground arith
can_reach-Moves stop pending h = ground arith
can_reach-Moves stop d h = ground arith
can_reach-Moves restarted pending h = ground arith
can_reach-Moves restarted d h = ground arith
can_reach-Moves stop_restarting pending h = ground arith
can_reach-Moves stop_restarting d h = ground arith
can_reach-Moves resized pending h = ground arith
can_reach-Moves resized d h = ground arith
can_reach-Moves stop_resizing pending h = ground arith
can_reach-Moves stop_resizing d h = ground arith
can_reach-Moves finish pending h = ground arith
can_reach-Moves finish d h = ground arith

can_reach_complete : {s d : ClusterState} → Reaches s d → can_reach s d ≡ true
can_reach_complete (here {s}) = can_reach_self s
can_reach_complete (next {u = d} m r) = can_reach-Moves m d (can_reach_complete r)

unlisted-Reaches :
    (t u : String) → can_reach (unlisted t) (unlisted u) ≡ true → Reaches (unlisted t) (unlisted u)
unfolding can_reach can_reach_within
unlisted-Reaches t u h = elim (Bool-cases (t == u)) [
  | inl e ↦ subst (λ v. Reaches (unlisted t) (unlisted v)) ((eq_iff t u).0 e) here
  | inr e ↦ absurd (let k = rw e at h in cc)
]

can_reach_sound : (s d : ClusterState) → can_reach s d ≡ true → Reaches s d
unfolding can_reach
can_reach_sound pending pending h = here
can_reach_sound pending running h = next start here
can_reach_sound pending restarting h = next start (next restart here)
can_reach_sound pending resizing h = next start (next resize here)
can_reach_sound pending terminating h = next abandon here
can_reach_sound pending terminated h = next abandon (next finish here)
can_reach_sound pending d h = cc
can_reach_sound running d h = from_running d h
can_reach_sound restarting pending h = cc
can_reach_sound restarting error h = cc
can_reach_sound restarting unknown h = cc
can_reach_sound restarting (unlisted t) h = cc
can_reach_sound restarting d h = next restarted (from_running d refl)
can_reach_sound resizing pending h = cc
can_reach_sound resizing error h = cc
can_reach_sound resizing unknown h = cc
can_reach_sound resizing (unlisted t) h = cc
can_reach_sound resizing d h = next resized (from_running d refl)
can_reach_sound terminating d h = from_terminating d h
can_reach_sound terminated terminated h = here
can_reach_sound terminated d h = cc
can_reach_sound error error h = here
can_reach_sound error d h = cc
can_reach_sound unknown unknown h = here
can_reach_sound unknown d h = cc
can_reach_sound (unlisted t) (unlisted u) h = unlisted-Reaches t u h
can_reach_sound (unlisted t) d h = cc

-- For every two states, `CanReach` answers true exactly when the desired state is reached from the
-- first by zero or more transitions of the state machine, although its loop gives up at the first
-- state that has no transitions.
pub can_reach_iff : (s d : ClusterState) → (can_reach s d ≡ true) ↔ Reaches s d
can_reach_iff s d = (can_reach_sound s d, can_reach_complete)

unlisted_total :
    (t u : String) → (b : Bool) × (can_reach_within 16 (unlisted t) (unlisted u) ≡ some b)
unfolding can_reach_within
unlisted_total t u = elim (Bool-cases (t == u)) [
  | inl e ↦ (true, rw e refl)
  | inr e ↦ (false, rw e refl)
]

-- The loop of `CanReach` ends within 16 rounds from every state, for every desired state: it never
-- runs out of fuel.
pub can_reach_total : (s d : ClusterState) → (b : Bool) × (can_reach_within 16 s d ≡ some b)
unfolding can_reach_within
can_reach_total pending pending = (_, refl)
can_reach_total pending d = (_, refl)
can_reach_total running pending = (_, refl)
can_reach_total running d = (_, refl)
can_reach_total restarting pending = (_, refl)
can_reach_total restarting d = (_, refl)
can_reach_total resizing pending = (_, refl)
can_reach_total resizing d = (_, refl)
can_reach_total terminating pending = (_, refl)
can_reach_total terminating d = (_, refl)
can_reach_total terminated pending = (_, refl)
can_reach_total terminated d = (_, refl)
can_reach_total error pending = (_, refl)
can_reach_total error d = (_, refl)
can_reach_total unknown pending = (_, refl)
can_reach_total unknown d = (_, refl)
can_reach_total (unlisted t) (unlisted u) = unlisted_total t u
can_reach_total (unlisted t) pending = (_, refl)
can_reach_total (unlisted t) d = (_, refl)
