-- ===== src/Fsm/Tests.antt =====
-- The transition table at concrete slots.
use turbohaul_manager_rocm.Prelude.{List, [], ◌∷◌, ok, ◌≡◌, refl}
use turbohaul_manager_rocm.Slot.{SlotState, staged, loading, cold, popped, active, grace, new}
use turbohaul_manager_rocm.Fsm.{transition, transitions}
use turbohaul_manager_rocm.Fsm.Graph.{cold_reachable}

-- The life of a request that is served on a cold model.
served :
    transitions (new "s1" "a" "hello" "t1" 100) (staged ∷ loading ∷ active ∷ grace ∷ popped ∷ [])
    ≡ ok (record (new "s1" "a" "hello" "t1" 100) { state = popped })
unfolding transitions transition new
served = refl

cold_reachable_example :
    (ss : List SlotState) × (transitions (new "s1" "a" "hello" "t1" 100) ss
      ≡ ok (record (new "s1" "a" "hello" "t1" 100) { state = cold }))
cold_reachable_example = cold_reachable (new "s1" "a" "hello" "t1" 100)
