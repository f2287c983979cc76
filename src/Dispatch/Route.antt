-- ===== src/Dispatch/Route.antt =====
-- manager.py: `_reserve_and_start_locked`, `_route_or_reserve`, `_handle_evicted_slot` and one round of
-- `_dispatch_loop`.
use turbohaul_manager_rocm.Prelude.{
  ℕ, ◌+◌, String, Bool, true, false, Option, none, some, List, [], ◌∷◌, ◌++◌, if◌then◌else◌, leb,
  length, Result, ok, err,
}
use turbohaul_manager_rocm.Slot.{Slot}
use turbohaul_manager_rocm.Queue.{Queue, QueueError, pop_next}
use turbohaul_manager_rocm.Dispatch.{
  Resident, Manager, drive_resident, is_state, active, idle_evictable, reserved_loading,
  model_residents, live_resident_for, lru_idle_evictable, begin_evict, defer_unroutable, assign,
  dispatch_warm_hint,
}
use turbohaul_manager_rocm.Dispatch.Footprint.{Reading, Footprint, read_model_footprint}
use turbohaul_manager_rocm.Dispatch.Ports.{alloc_port}
use turbohaul_manager_rocm.Dispatch.Admit.{vram_admits}

pub record Settings : Type 0 where
  pub max_parallel_sidecars : ℕ
  pub default_port_base : ℕ

-- What one round reads from outside: the clock, the manifests on disk, the free MiB of the GPUs.
pub record World : Type 0 where
  pub now : ℕ
  pub manifests : String → Reading
  pub gpu_free : Option (List ℕ)

abbrev pub placeholder : Settings → World → Slot → Manager → Footprint → Resident
placeholder st w slot m f = record {
  uid = m.next_uid;
  model_tag = some slot.model_tag;
  handle = none;
  port = some (alloc_port st.default_port_base m.residents);
  inflight = [];
  spawn_seq = 0;
  idle_expires_at = none;
  active_slot = none;
  latest_keep_alive_s = none;
  state = reserved_loading;
  reserved_need_mib = f.need;
  booting_pid = none;
  parallel = f.parallel;
  main_gpu = f.main_gpu;
  split_mode = f.split_mode;
  sleep_idle_seconds = f.sleep_idle_seconds;
  last_active_monotonic = w.now;
  torn_down = false;
  inbox = some (slot ∷ []);
}

abbrev pub admits : World → Manager → Footprint → Bool
admits w m f = vram_admits w.gpu_free f.need f.main_gpu f.split_mode (model_residents m.residents)

-- The first part of a result says whether an exception leaves, which carries no value: the state of the
-- manager at that point is the second part.
abbrev pub reserve_as : Settings → World → Slot → Manager → Option Footprint → Bool × Manager
reserve_as st w slot m none = (true, m)
reserve_as st w slot m (some f) = (
  false,
  if admits w m f
      then record m {
        residents = assign slot.model_tag (placeholder st w slot m f) m.residents;
        tasks = m.tasks ++ drive_resident (placeholder st w slot m f) ∷ [];
        next_uid = m.next_uid + 1;
      }
      else record m { failed = m.failed ++ slot ∷ [] },
)

unfoldable pub reserve_and_start : Settings → World → Slot → Manager → Bool × Manager
unfolding read_model_footprint
reserve_and_start st w slot m =
    reserve_as st w slot m (read_model_footprint (w.manifests slot.model_tag))

-- The HIT: the resident leaves idle, and its inbox takes the slot.
abbrev pub handed : ℕ → Slot → Resident → Resident
handed now slot r = record r {
  state = if is_state r.state idle_evictable then active else r.state;
  last_active_monotonic = now;
  inbox = elim r.inbox [ none ↦ none | some xs ↦ some (xs ++ slot ∷ []) ];
}

-- With the registry full: the victim makes room, or the slot is deferred.
unfoldable pub reserve_evicting :
    Settings → World → Slot → Manager → Option Resident → Bool × Manager
unfolding reserve_and_start begin_evict defer_unroutable
reserve_evicting st w slot m none = (false, defer_unroutable slot m)
reserve_evicting st w slot m (some victim) = reserve_and_start st w slot (begin_evict victim m).0

unfoldable pub route_to : Settings → World → Slot → Manager → Option Resident → Bool × Manager
unfolding reserve_evicting lru_idle_evictable
route_to st w slot m (some r) =
    (false, record m { residents = assign slot.model_tag (handed w.now slot r) m.residents })
route_to st w slot m none =
    if leb st.max_parallel_sidecars (length (model_residents m.residents))
    then reserve_evicting st w slot m (lru_idle_evictable m.residents)
    else reserve_and_start st w slot m

unfoldable pub route_or_reserve : Settings → World → Slot → Manager → Bool × Manager
unfolding route_to live_resident_for
route_or_reserve st w slot m = route_to st w slot m (live_resident_for slot.model_tag m.residents)

unfoldable pub handle_evicted_slot : Slot → Manager → Manager
handle_evicted_slot slot m = record m {
  failed = m.failed ++ slot ∷ [];
  eviction_count = m.eviction_count + 1;
}

-- `except Exception`: the future of the slot fails.
abbrev pub caught : Slot → Bool × Manager → Manager
caught slot (false, m) = m
caught slot (true, m) = record m { failed = m.failed ++ slot ∷ [] }

-- The `try` of the loop around the routing.
unfoldable pub dispatch_slot : Settings → World → Slot → Manager → Manager
unfolding route_or_reserve
dispatch_slot st w slot m = caught slot (route_or_reserve st w slot m)

-- One round of the loop on what `pop_next` gave; an exception of `pop_next` ends the loop.
unfoldable pub dispatch_popped :
    Settings → World → Manager → Result QueueError (Option Slot × Queue) → Result QueueError Manager
unfolding dispatch_slot handle_evicted_slot
dispatch_popped st w m (err e) = err e
dispatch_popped st w m (ok (none, q)) = ok (record m { queue = q })
dispatch_popped st w m (ok (some slot, q)) =
    if slot.is_evicted
    then ok (handle_evicted_slot slot (record m { queue = q }))
    else ok (dispatch_slot st w slot (record m { queue = q }))

unfoldable pub dispatch : Settings → World → Manager → Result QueueError Manager
unfolding dispatch_popped dispatch_warm_hint
dispatch st w m = dispatch_popped st w m (pop_next w.now (dispatch_warm_hint m.residents) m.queue)
