-- ===== src/Telemetry/Tests.antt =====
-- The ring buffer with room for two events.
use turbohaul_manager_rocm.Prelude.{ℕ, ◌≤◌, none, some, [], ◌∷◌, length, arith, ◌≡◌, refl}
use turbohaul_manager_rocm.Telemetry.{Event, RingBuffer, select, get}
use turbohaul_manager_rocm.Telemetry.Ring.{IsValid}
use turbohaul_manager_rocm.Telemetry.Paging.{get_lem}

abbrev event : ℕ → Event
event n = record { seq = n; event_type = some "arrival"; body = "{}" }

abbrev ring : RingBuffer
ring = record { capacity = 2; buf = event 4 ∷ event 5 ∷ []; last_id = 5 }

ring-IsValid : IsValid ring
ring-IsValid = record {
  has_room = omega arith;
  bounded = omega arith;
  no_more = omega arith;
  gapless = (refl, (refl, tt));
}

get_example :
    (length (get 1 none 0 ring).0 ≤ 1)
    × (length (select none 0 ring.buf) ≤ 1 → (get 1 none 0 ring).0 ≡ select none 0 ring.buf)
    × ((n : ℕ) → (get 1 none 0 ring).1 ≡ some n → get 1 none n ring ≡ ([], none))
get_example = get_lem 1 none 0 ring (omega arith) ring-IsValid

-- The first event is never delivered to a client that asks for one at a time.
lost : get 1 none 0 ring ≡ (event 5 ∷ [], some 5)
unfolding get
lost = refl
