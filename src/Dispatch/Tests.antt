-- ===== src/Dispatch/Tests.antt =====
-- The dispatcher at a registry with the singleton's entry and one parked resident.
use turbohaul_manager_rocm.Prelude.{
  ℕ, ◌+◌, ◌≤◌, String, true, false, Option, none, some, List, [], ◌∷◌, arith, ◌≡◌, refl, ◌⊎◌, ◌↔◌,
  All,
}
use turbohaul_manager_rocm.Slot.{Slot, staged}
use turbohaul_manager_rocm.Queue.{Queue}
use turbohaul_manager_rocm.Queue.Valid.{ids, order}
use turbohaul_manager_rocm.Safety.{VramBudget, vram_budget}
use turbohaul_manager_rocm.Dispatch.{
  Resident, ResidentState, active, idle_evictable, Manager, pos, singleton_key, lru_idle_evictable,
}
use turbohaul_manager_rocm.Dispatch.Registry.{Registry, Keyed, cards}
use turbohaul_manager_rocm.Dispatch.Isolation.{IsValid}
use turbohaul_manager_rocm.Dispatch.Route.{Settings, World, route_or_reserve, dispatch_slot}
use turbohaul_manager_rocm.Dispatch.Capacity.{route_or_reserve-IsValid}
use turbohaul_manager_rocm.Dispatch.Custody.{custody, in_slots, dispatch_slot-custody}
use turbohaul_manager_rocm.Dispatch.Footprint.{Manifest, Flags, found, unreadable}
use turbohaul_manager_rocm.Dispatch.Admit.{vram_admits, vram_admits_iff, Apart, is_isolated}
use turbohaul_manager_rocm.Dispatch.Victim.{Found, lru_idle_evictable-Found}
use turbohaul_manager_rocm.Dispatch.Requeue.{requeue_batch, requeue_batch_reverses, reverse_onto}

abbrev slot : String → String → Slot
slot i model = record {
  slot_id = i;
  model_tag = model;
  state = staged;
  prompt = "hello";
  thread_id = "t1";
  port = none;
  pid = none;
  extension_count = 0;
  created_at = 100;
  started_active_at = 0;
  grace_started_at = 0;
  completion_future = none;
  disconnect_event = none;
  is_evicted = false;
}

abbrev resident : ℕ → Option String → Option ℕ → ResidentState → Option (List Slot) → Resident
resident uid model_tag port state inbox = record {
  uid = uid;
  model_tag = model_tag;
  handle = some 4242;
  port = port;
  inflight = [];
  spawn_seq = 1;
  idle_expires_at = none;
  active_slot = none;
  latest_keep_alive_s = none;
  state = state;
  reserved_need_mib = 9000;
  booting_pid = none;
  parallel = 1;
  main_gpu = 0;
  split_mode = "none";
  sleep_idle_seconds = pos 0;
  last_active_monotonic = 100;
  torn_down = false;
  inbox = inbox;
}

-- The parked resident still has one slot in its inbox.
abbrev registry : Registry
registry =
    (singleton_key, resident 0 none none active none)
    ∷ ("a", resident 1 (some "a") (some 11500) idle_evictable (some (slot "s1" "a" ∷ [])))
    ∷ []

abbrev queue : Queue
queue = record {
  staging_max = 2;
  acceptance_max = 5;
  accept_buf = [];
  staging = slot "s9" "a" ∷ [];
  closed = false;
  max_consecutive_same_model = 3;
  max_other_model_wait = 20;
  consecutive_same_model = 1;
  last_popped_model_tag = some "a";
}

abbrev manager : Manager
manager = record {
  residents = registry;
  queue = queue;
  defer_count = λ i. 0;
  tasks = [];
  failed = [];
  eviction_count = 0;
  next_uid = 2;
}

abbrev flags : Flags
flags = record {
  ctx_size = some 32768;
  cache_type_k = some "q8_0";
  parallel = some 2;
  cpu_moe = false;
  n_cpu_moe = none;
  main_gpu = some 1;
  split_mode = some "none";
  sleep_idle_seconds = none;
}

abbrev manifest : Manifest
manifest = record {
  gguf_size_bytes = some 8589934592;
  context_size = none;
  expected_vram_bytes = none;
  flags = flags;
}

abbrev settings : Settings
settings = record { max_parallel_sidecars = 1; default_port_base = 11500 }

abbrev world : World
world = record { now = 200; manifests = λ tag. found manifest; gpu_free = some (3000 ∷ 16000 ∷ []) }

registry-Keyed : Keyed registry
registry-Keyed =
    ((refl, λ e. absurd cc), refl, ((refl, λ e. (refl, slot "s1" "a" ∷ [], refl)), refl, tt))

registry-IsValid : IsValid 1 registry
unfolding cards
registry-IsValid = record { keyed = registry-Keyed; separate = (tt, tt); within = omega arith }

-- The registry is full: the slot for "b" evicts "a" and is reserved on the other card.
route_or_reserve-IsValid_example :
    IsValid 1 (route_or_reserve settings world (slot "s2" "b") manager).1.residents
route_or_reserve-IsValid_example =
    route_or_reserve-IsValid settings world (slot "s2" "b") manager registry-IsValid

-- The manifest of "b" cannot be read: "a" is evicted all the same, its slot goes back, and the slot for "b"
-- fails.
abbrev unreadable_world : World
unreadable_world = record world { manifests = λ tag. unreadable }

dispatch_slot-custody_example :
    custody "s1" (dispatch_slot settings unreadable_world (slot "s2" "b") manager)
    ≡ custody "s1" manager + in_slots "s1" (slot "s2" "b" ∷ [])
dispatch_slot-custody_example =
    dispatch_slot-custody "s1" settings unreadable_world (slot "s2" "b") manager refl registry-Keyed

lru_idle_evictable-Found_example : Found registry (lru_idle_evictable registry)
lru_idle_evictable-Found_example = lru_idle_evictable-Found registry

abbrev nobody : List Resident
nobody = []

vram_admits_iff_example : (vram_admits (some (3000 ∷ 16000 ∷ [])) 9000 1 "none" nobody ≡ true) ↔ (
    ((nobody ≡ []) × (vram_budget (some (3000 ∷ 16000 ∷ [])) "none" 1 ≡ none))
    ⊎ (((nobody ≡ []) ⊎ ((is_isolated "none" ≡ true) × All (Apart 1) nobody))
        × (b : VramBudget) × (vram_budget (some (3000 ∷ 16000 ∷ [])) "none" 1 ≡ some b)
        × (9000 ≤ b.free_for_fit)))
vram_admits_iff_example = vram_admits_iff (some (3000 ∷ 16000 ∷ [])) 9000 1 "none" nobody

abbrev batch : List Slot
batch = slot "s1" "a" ∷ slot "s2" "a" ∷ []

requeue_batch_reverses_example :
    (queue.closed ≡ false
      → ((requeue_batch batch queue).1 ≡ [])
        × (order (requeue_batch batch queue).0 ≡ reverse_onto (ids batch) (order queue)))
    × (queue.closed ≡ true → requeue_batch batch queue ≡ (queue, batch))
requeue_batch_reverses_example = requeue_batch_reverses batch queue (refl, (refl, tt))
