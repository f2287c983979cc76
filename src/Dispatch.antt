-- ===== src/Dispatch.antt =====
-- manager.py: the registry of resident sidecars and the dispatcher's operations on it.
-- A resident object has a `uid` for its identity (`is`), and the events that an operation starts in
-- the background are a list of `Task`, in their order. `failed` are the slots whose completion future
-- was asked to take an exception (`_fail_completion_future`). The clock, the manifests and the probe of the GPUs are arguments.
pub mod Footprint
pub mod Ports
pub mod Admit
pub mod Route
pub mod Registry
pub mod Victim
pub mod Isolation
pub mod Capacity
pub mod Custody
pub mod Requeue
mod Tests
use turbohaul_manager_rocm.Prelude.{
  ℕ, ◌+◌, ◌==◌, String, Bool, true, false, not, ◌&&◌, Option, none, some, List, [], ◌∷◌, ◌++◌,
  if◌then◌else◌, ltb, leb, eqb, length,
}
use turbohaul_manager_rocm.Slot.{Slot}
use turbohaul_manager_rocm.Queue.{Queue}

pub data ResidentState : Type 0 where
  reserved_loading active grace idle_evictable dead : ResidentState

abbrev pub is_state : ResidentState → ResidentState → Bool
is_state reserved_loading reserved_loading = true
is_state active active = true
is_state grace grace = true
is_state idle_evictable idle_evictable = true
is_state dead dead = true
is_state _ _ = false

-- A number that may be negative, as `sleep_idle_seconds`: -1 keeps a model warm.
pub data ℤ : Type 0 where
  pos negsuc : ℕ → ℤ

-- A sidecar's handle counts by the pid of its process.
pub record Resident : Type 0 where
  pub uid : ℕ
  pub model_tag : Option String
  pub handle : Option ℕ
  pub port : Option ℕ
  pub inflight : List Slot
  pub spawn_seq : ℕ
  pub idle_expires_at : Option ℕ
  pub active_slot : Option Slot
  pub latest_keep_alive_s : Option ℤ
  pub state : ResidentState
  pub reserved_need_mib : ℕ
  pub booting_pid : Option ℕ
  pub parallel : ℕ
  pub main_gpu : ℕ
  pub split_mode : String
  pub sleep_idle_seconds : ℤ
  pub last_active_monotonic : ℕ
  pub torn_down : Bool
  pub inbox : Option (List Slot)

-- `_spawn_bg` of these coroutines, and the creation of a driver's task.
pub data Task : Type 0 where
  requeue_after_backoff : Slot → Task
  requeue_slots_or_fail : List Slot → Task
  evict_teardown drive_resident : Resident → Task

pub record Manager : Type 0 where
  pub residents : List (String × Resident)
  pub queue : Queue
  pub defer_count : String → ℕ
  pub tasks : List Task
  pub failed : List Slot
  pub eviction_count : ℕ
  pub next_uid : ℕ

abbrev pub singleton_key : String
singleton_key = "__phase0_singleton__"

abbrev pub max_dispatch_defers : ℕ
max_dispatch_defers = 50

-- The dict of residents: insertion order, a key at most once.
abbrev pub lookup : String → List (String × Resident) → Option Resident
lookup k [] = none
lookup k ((j, r) ∷ rs) = if j == k then some r else lookup k rs

abbrev pub assign : String → Resident → List (String × Resident) → List (String × Resident)
assign k r [] = (k, r) ∷ []
assign k r ((j, s) ∷ rs) = if j == k then (j, r) ∷ rs else (j, s) ∷ assign k r rs

abbrev pub delete : String → List (String × Resident) → List (String × Resident)
delete k [] = []
delete k ((j, s) ∷ rs) = if j == k then rs else (j, s) ∷ delete k rs

abbrev pub is_live : String → Resident → Bool
is_live k r = not (k == singleton_key) && not (is_state r.state dead)

-- `_model_residents`
unfoldable pub model_residents : List (String × Resident) → List Resident
model_residents [] = []
model_residents ((k, r) ∷ rs) = if is_live k r then r ∷ model_residents rs else model_residents rs

abbrev pub unless_dead : Option Resident → Option Resident
unless_dead none = none
unless_dead (some r) = if is_state r.state dead then none else some r

unfoldable pub live_resident_for : String → List (String × Resident) → Option Resident
live_resident_for tag rs = unless_dead (lookup tag rs)

-- `max(live, key=…)` and `min(cands, key=…)` give the first of the best.
abbrev pub latest : Resident → List Resident → Resident
latest r [] = r
latest r (s ∷ rs) =
    if ltb r.last_active_monotonic s.last_active_monotonic then latest s rs else latest r rs

abbrev pub earliest : Resident → List Resident → Resident
earliest r [] = r
earliest r (s ∷ rs) =
    if ltb s.last_active_monotonic r.last_active_monotonic then earliest s rs else earliest r rs

unfoldable pub dispatch_warm_hint : List (String × Resident) → Option String
unfolding model_residents
dispatch_warm_hint rs = elim (model_residents rs) [
  | [] ↦ none
  | r ∷ live ↦ (latest r live).model_tag
]

abbrev pub no_slot : Option Slot → Bool
no_slot none = true
no_slot (some s) = false

abbrev pub no_slots : List Slot → Bool
no_slots [] = true
no_slots (s ∷ ss) = false

abbrev pub evictable : Resident → Bool
evictable r = is_state r.state idle_evictable && no_slot r.active_slot && no_slots r.inflight

abbrev pub candidates : List Resident → List Resident
candidates [] = []
candidates (r ∷ rs) = if evictable r then r ∷ candidates rs else candidates rs

unfoldable pub lru_idle_evictable : List (String × Resident) → Option Resident
unfolding model_residents
lru_idle_evictable rs = elim (candidates (model_residents rs)) [
  | [] ↦ none
  | r ∷ cands ↦ some (earliest r cands)
]

abbrev pub inbox_of : Resident → List Slot
inbox_of r = elim r.inbox [ none ↦ [] | some xs ↦ xs ]

abbrev pub drain_task : List Slot → List Task
drain_task [] = []
drain_task (s ∷ ss) = requeue_slots_or_fail (s ∷ ss) ∷ []

-- `self._residents.get(r.model_tag) is r`, and then `del`.
abbrev pub delete_same :
    String → ℕ → Option Resident → List (String × Resident) → List (String × Resident)
delete_same tag uid none rs = rs
delete_same tag uid (some s) rs = if eqb s.uid uid then delete tag rs else rs

abbrev pub deregister_tag : Option String → ℕ → List (String × Resident) → List (String × Resident)
deregister_tag none uid rs = rs
deregister_tag (some tag) uid rs = delete_same tag uid (lookup tag rs) rs

abbrev pub deregister : Resident → List (String × Resident) → List (String × Resident)
deregister r rs = deregister_tag r.model_tag r.uid rs

abbrev pub emptied : Resident → Resident
emptied r = record r { inbox = elim r.inbox [ none ↦ none | some xs ↦ some [] ] }

-- `_begin_evict_locked`, with the resident as it is afterwards.
unfoldable pub begin_evict : Resident → Manager → Manager × Resident
begin_evict r m =
    let drained = record m { tasks = m.tasks ++ drain_task (inbox_of r) } in
    if is_state r.state dead then (drained, emptied r) else (
      record drained {
        residents = deregister r m.residents;
        tasks = drained.tasks ++ evict_teardown (record (emptied r) { state = dead }) ∷ [];
      },
      record (emptied r) { state = dead },
    )

-- `_defer_unroutable`
unfoldable pub defer_unroutable : Slot → Manager → Manager
defer_unroutable slot m =
    let n = m.defer_count slot.slot_id + 1 in
    let counted = record m {
      defer_count = λ i. if i == slot.slot_id then n else m.defer_count i;
    } in
    if ltb max_dispatch_defers n
    then record counted { failed = m.failed ++ slot ∷ [] }
    else record counted { tasks = m.tasks ++ requeue_after_backoff slot ∷ [] }
