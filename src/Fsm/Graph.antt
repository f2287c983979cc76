-- ===== src/Fsm/Graph.antt =====
-- The transition table of fsm.py as a graph: its edges, its paths, and where they lead.
use turbohaul_manager_rocm.Prelude.{
  true, false, List, [], ◌∷◌, ok, err, arith, ◌≡◌, refl, ◌⊎◌, inl, inr, ◌↔◌, Bool-cases, subst, ap,
  ◌∙◌,
}
use turbohaul_manager_rocm.Slot.{
  Slot, SlotState, received, accept_buffer, staged, loading, loading_fail, active, grace,
  grace_busy, active_match, popped, idle_hot, cold,
}
use turbohaul_manager_rocm.Fsm.{
  invalid_transition, legal_targets, contains, transition, transitions, can_transition, is_terminal,
  is_warm_state, is_request_in_flight,
}

-- `transition` raises exactly where `can_transition` says no, with the two states in the error, and
-- otherwise changes the state of the slot and nothing else.
pub transition-can_transition :
    (slot : Slot) (to_state : SlotState)
    → ((can_transition slot to_state ≡ true)
        × (transition slot to_state ≡ ok (record slot { state = to_state })))
      ⊎ ((can_transition slot to_state ≡ false)
          × (transition slot to_state ≡ err (invalid_transition slot.state to_state)))
unfolding transition can_transition
transition-can_transition slot to_state =
    elim (Bool-cases (contains (legal_targets slot.state) to_state)) [
      | inl h ↦ inl (h, rw h)
      | inr h ↦ inr (h, rw h)
    ]

-- A path in the table.
infix 40 ◌⟶*◌
pub data ◌⟶*◌ : SlotState → SlotState → Type 0 where
  here : {s : SlotState} → s ⟶* s
  then :
      {s : SlotState} (t : SlotState) {u : SlotState}
      → contains (legal_targets s) t ≡ true
      → t ⟶* u
      → s ⟶* u

-- The states that a path enters, in order.
pub stops : {s u : SlotState} → s ⟶* u → List SlotState
stops here = []
stops (then t e p) = t ∷ stops p

-- Along a path of the table a chain of transitions raises nothing, and arrives.
pub transitions-stops :
    (slot : Slot) {s u : SlotState} (p : s ⟶* u)
    → slot.state ≡ s
    → transitions slot (stops p) ≡ ok (record slot { state = u })
unfolding transitions transition stops
transitions-stops slot here e = ground arith
transitions-stops slot (then {s = s} t h p) e =
    let allowed : contains (legal_targets slot.state) t ≡ true =
      ap (λ (x : SlotState). contains (legal_targets x) t) e ∙ h in
    rw allowed (transitions-stops (record slot { state = t }) p refl)

-- A chain of transitions that raises nothing walks a path of the table.
pub transitions-⟶* :
    (ss : List SlotState) (slot t : Slot) → transitions slot ss ≡ ok t → slot.state ⟶* t.state
unfolding transitions transition
transitions-⟶* [] slot t e =
    let same : slot.state ≡ t.state = ground arith in
    subst (λ (x : SlotState). slot.state ⟶* x) same here
transitions-⟶* (s ∷ ss) slot t e = elim (Bool-cases (contains (legal_targets slot.state) s)) [
  | inl h ↦ then s h (transitions-⟶* ss (record slot { state = s }) t (rw h at e))
  | inr h ↦ absurd (let e' : err (invalid_transition slot.state s) ≡ ok t = rw h at e in cc)
]

-- Every state has a path to the terminal state.
pub ⟶*-cold : (s : SlotState) → s ⟶* cold
⟶*-cold received = then staged refl (then cold refl here)
⟶*-cold accept_buffer = then cold refl here
⟶*-cold staged = then cold refl here
⟶*-cold loading = then cold refl here
⟶*-cold loading_fail = then popped refl (then cold refl here)
⟶*-cold active = then grace refl (then popped refl (then cold refl here))
⟶*-cold grace = then popped refl (then cold refl here)
⟶*-cold grace_busy = then popped refl (then cold refl here)
⟶*-cold active_match = then active refl (then grace refl (then popped refl (then cold refl here)))
⟶*-cold popped = then cold refl here
⟶*-cold idle_hot = then cold refl here
⟶*-cold cold = here

-- From every state a chain of transitions that raises nothing ends in COLD, with nothing but the
-- state of the slot changed.
pub cold_reachable :
    (slot : Slot)
    → (ss : List SlotState) × (transitions slot ss ≡ ok (record slot { state = cold }))
cold_reachable slot = (stops (⟶*-cold slot.state), transitions-stops slot (⟶*-cold slot.state) refl)

-- COLD is the only terminal state.
pub is_terminal_iff : (s : SlotState) → (is_terminal s ≡ true) ↔ (s ≡ cold)
unfolding is_terminal
is_terminal_iff received = (λ e. cc, λ e. cc)
is_terminal_iff cold = (λ e. refl, λ e. refl)
is_terminal_iff _ = (λ e. cc, λ e. cc)

-- The model enters and leaves the GPU at the edges of the warm states only.
pub warm_boundary :
    (s t : SlotState)
    → contains (legal_targets s) t ≡ true
    → ((is_warm_state s ≡ is_warm_state t)
        ⊎ ((is_warm_state t ≡ true) × ((t ≡ loading) ⊎ (t ≡ active_match) ⊎ (t ≡ idle_hot)))
        ⊎ ((is_warm_state t ≡ false) × ((t ≡ loading_fail) ⊎ (t ≡ popped) ⊎ (t ≡ cold))))
unfolding is_warm_state
warm_boundary received t h = ground arith
warm_boundary _ t h = ground arith

in_flight_warm : (s : SlotState) → is_request_in_flight s ≡ true → is_warm_state s ≡ true
unfolding is_request_in_flight is_warm_state
in_flight_warm s h = ground arith
