-- ===== src/Fsm.antt =====
-- fsm.py: the table of legal transitions and the functions over it.
pub mod Graph
mod Tests
use turbohaul_manager_rocm.Prelude.{
  Bool, true, false, ◌||◌, List, [], ◌∷◌, Result, ok, err, ◌>>=◌, if◌then◌else◌, eqb, length,
}
use turbohaul_manager_rocm.Slot.{
  Slot, SlotState, state_eq, received, accept_buffer, staged, loading, loading_fail, active, grace,
  grace_busy, active_match, popped, idle_hot, cold,
}

-- `LEGAL_TRANSITIONS`
abbrev pub legal_targets : SlotState → List SlotState
legal_targets received = accept_buffer ∷ staged ∷ []
legal_targets accept_buffer = staged ∷ cold ∷ []
legal_targets staged = loading ∷ cold ∷ active_match ∷ []
legal_targets loading = active ∷ loading_fail ∷ cold ∷ []
legal_targets loading_fail = staged ∷ popped ∷ []
legal_targets active = grace ∷ active_match ∷ []
legal_targets grace = grace_busy ∷ popped ∷ active ∷ []
legal_targets grace_busy = grace ∷ popped ∷ []
legal_targets active_match = active ∷ []
legal_targets popped = idle_hot ∷ staged ∷ cold ∷ []
legal_targets idle_hot = active ∷ popped ∷ cold ∷ []
legal_targets cold = []

abbrev pub contains : List SlotState → SlotState → Bool
contains [] s = false
contains (x ∷ xs) s = state_eq x s || contains xs s

-- `InvalidTransition`, with the two states that its message names.
pub data FsmError : Type 0 where
  invalid_transition : SlotState → SlotState → FsmError

pub can_transition : Slot → SlotState → Bool
can_transition slot to_state = contains (legal_targets slot.state) to_state

unfoldable pub transition : Slot → SlotState → Result FsmError Slot
transition slot to_state =
    if contains (legal_targets slot.state) to_state
    then ok (record slot { state = to_state })
    else err (invalid_transition slot.state to_state)

pub is_terminal : SlotState → Bool
is_terminal s = eqb (length (legal_targets s)) 0

pub is_warm_state : SlotState → Bool
is_warm_state s = contains (loading ∷ active ∷ grace ∷ grace_busy ∷ active_match ∷ idle_hot ∷ []) s

pub is_request_in_flight : SlotState → Bool
is_request_in_flight s = contains (active ∷ grace_busy ∷ active_match ∷ []) s

-- A caller that makes several transitions in a row.
pub transitions : Slot → List SlotState → Result FsmError Slot
transitions slot [] = ok slot
transitions slot (s ∷ ss) = let rest = λ (t : Slot). transitions t ss in transition slot s >>= rest
