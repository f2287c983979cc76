-- ===== src/Dispatch/Custody.antt =====
-- manager.py: no slot is lost or doubled when the dispatcher routes: it is in an inbox, in a task that
-- puts it back in the queue, or its future fails.
use turbohaul_manager_rocm.Prelude.{
  ℕ, ◌+◌, ◌==◌, String, Bool, true, false, Option, none, some, List, [], ◌∷◌, ◌++◌, if◌then◌else◌,
  leb, ltb, length, arith, ◌≡◌, refl, ap, inl, inr, Bool-cases,
}
use turbohaul_manager_rocm.Slot.{Slot}
use turbohaul_manager_rocm.Dispatch.{
  Resident, Manager, Task, requeue_after_backoff, requeue_slots_or_fail, evict_teardown,
  drive_resident, is_state, dead, lookup, assign, delete, is_live, model_residents, singleton_key,
  lru_idle_evictable, begin_evict, defer_unroutable, inbox_of, drain_task, emptied,
  max_dispatch_defers,
}
use turbohaul_manager_rocm.Dispatch.Registry.{Registry, Keyed, lookup-EntryOk, lookup-delete-none}
use turbohaul_manager_rocm.Dispatch.Victim.{victim-Registered}
use turbohaul_manager_rocm.Dispatch.Capacity.{live-lookup, begin_evict_registry}
use turbohaul_manager_rocm.Dispatch.Footprint.{Footprint, read_model_footprint}
use turbohaul_manager_rocm.Dispatch.Route.{
  Settings, World, placeholder, admits, reserve_as, reserve_and_start, handed, caught,
  dispatch_slot, reserve_evicting, route_to, route_or_reserve,
}

-- How often a slot with this id is in a list of slots, in the inboxes, and in the tasks that put slots
-- back.
abbrev pub in_slots : String → List Slot → ℕ
in_slots i [] = 0
in_slots i (s ∷ ss) = (if s.slot_id == i then 1 else 0) + in_slots i ss

abbrev pub in_inboxes : String → Registry → ℕ
in_inboxes i [] = 0
in_inboxes i ((k, r) ∷ rs) = in_slots i (inbox_of r) + in_inboxes i rs

abbrev pub in_task : String → Task → ℕ
in_task i (requeue_after_backoff s) = in_slots i (s ∷ [])
in_task i (requeue_slots_or_fail ss) = in_slots i ss
in_task i (evict_teardown r) = 0
in_task i (drive_resident r) = 0

abbrev pub in_tasks : String → List Task → ℕ
in_tasks i [] = 0
in_tasks i (t ∷ ts) = in_task i t + in_tasks i ts

unfoldable pub custody : String → Manager → ℕ
custody i m = in_inboxes i m.residents + (in_tasks i m.tasks + in_slots i m.failed)

in_slots-append :
    (i : String) (xs ys : List Slot) → in_slots i (xs ++ ys) ≡ in_slots i xs + in_slots i ys
in_slots-append i [] ys = omega arith
in_slots-append i (x ∷ xs) ys = omega (arith, in_slots-append i xs ys)

in_tasks-append :
    (i : String) (xs ys : List Task) → in_tasks i (xs ++ ys) ≡ in_tasks i xs + in_tasks i ys
in_tasks-append i [] ys = omega arith
in_tasks-append i (x ∷ xs) ys = omega (arith, in_tasks-append i xs ys)

in_tasks-drain_task : (i : String) (xs : List Slot) → in_tasks i (drain_task xs) ≡ in_slots i xs
in_tasks-drain_task i [] = refl
in_tasks-drain_task i (x ∷ xs) = omega arith

assign_new :
    (i k : String) (s : Resident) (rs : Registry)
    → lookup k rs ≡ none
    → in_inboxes i (assign k s rs) ≡ in_inboxes i rs + in_slots i (inbox_of s)
assign_new i k s [] h = omega arith
assign_new i k s ((j, t) ∷ rs) h = elim (Bool-cases (j == k)) [
  | inl e ↦ absurd (ground arith)
  | inr e ↦ let rest = assign_new i k s rs (ground arith) in rw e (omega (arith, rest))
]

assign_same :
    (i k : String) (s r : Resident) (rs : Registry)
    → lookup k rs ≡ some r
    → in_inboxes i (assign k s rs) + in_slots i (inbox_of r)
      ≡ in_inboxes i rs + in_slots i (inbox_of s)
assign_same i k s r [] h = absurd cc
assign_same i k s r ((j, t) ∷ rs) h = elim (Bool-cases (j == k)) [
  | inl e ↦
      let same : t ≡ r = let h' = rw e at h in cc in
      let alike = ap (λ (x : Resident). in_slots i (inbox_of x)) same in rw e (omega (arith, alike))
  | inr e ↦ let rest = assign_same i k s r rs (rw e at h) in rw e (omega (arith, rest))
]

delete-inbox :
    (i k : String) (r : Resident) (rs : Registry)
    → lookup k rs ≡ some r
    → in_inboxes i (delete k rs) + in_slots i (inbox_of r) ≡ in_inboxes i rs
delete-inbox i k r [] h = absurd cc
delete-inbox i k r ((j, t) ∷ rs) h = elim (Bool-cases (j == k)) [
  | inl e ↦
      let same : t ≡ r = let h' = rw e at h in cc in
      let alike = ap (λ (x : Resident). in_slots i (inbox_of x)) same in rw e (omega (arith, alike))
  | inr e ↦ let rest = delete-inbox i k r rs (rw e at h) in rw e (omega (arith, rest))
]

-- The slot of a call that an exception left is nowhere.
abbrev pub unplaced : String → Slot → Bool → ℕ
unplaced i slot raised = if raised then in_slots i (slot ∷ []) else 0

-- What a call that takes this slot does to the count.
abbrev Takes : String → Slot → Manager → Bool × Manager → Type 0
Takes i slot m r = custody i r.1 + unplaced i slot r.0 ≡ custody i m + in_slots i (slot ∷ [])

reserve_as-custody :
    (i : String) (st : Settings) (w : World) (slot : Slot) (m : Manager) (o : Option Footprint)
    → lookup slot.model_tag m.residents ≡ none
    → Takes i slot m (reserve_as st w slot m o)
unfolding custody
reserve_as-custody i st w slot m none fresh = refl
reserve_as-custody i st w slot m (some f) fresh = elim (Bool-cases (admits w m f)) [
  | inl a ↦
      let r = placeholder st w slot m f in
      rw a (
        omega (
          arith,
          assign_new i slot.model_tag r m.residents fresh,
          in_tasks-append i m.tasks (drive_resident r ∷ []),
        ))
  | inr a ↦ rw a (omega (arith, in_slots-append i m.failed (slot ∷ [])))
]

reserve-custody :
    (i : String) (st : Settings) (w : World) (slot : Slot) (m : Manager)
    → lookup slot.model_tag m.residents ≡ none
    → Takes i slot m (reserve_and_start st w slot m)
unfolding reserve_and_start
reserve-custody i st w slot m fresh =
    reserve_as-custody i st w slot m (read_model_footprint (w.manifests slot.model_tag)) fresh

evict_tasks :
    (i : String) (v : Resident) (m : Manager)
    → is_state v.state dead ≡ false
    → (in_tasks i (begin_evict v m).0.tasks ≡ in_tasks i m.tasks + in_slots i (inbox_of v))
      × ((begin_evict v m).0.failed ≡ m.failed)
unfolding begin_evict
evict_tasks i v m alive =
    let torn = evict_teardown (record (emptied v) { state = dead }) ∷ [] in
    rw alive (
      omega (
        arith,
        in_tasks-append i (m.tasks ++ drain_task (inbox_of v)) torn,
        in_tasks-append i m.tasks (drain_task (inbox_of v)),
        in_tasks-drain_task i (inbox_of v),
      ),
      refl,
    )

evict-custody :
    (i : String) (v : Resident) (m : Manager) (k : String)
    → lookup k m.residents ≡ some v
    → is_live k v ≡ true
    → v.model_tag ≡ some k
    → custody i (begin_evict v m).0 ≡ custody i m
unfolding custody
evict-custody i v m k found live tagged =
    let (tasks, failed) = evict_tasks i v m (ground arith) in
    omega (
      arith,
      ap (in_inboxes i) (begin_evict_registry v m k found live tagged),
      delete-inbox i k v m.residents found,
      tasks,
      ap (in_slots i) failed,
    )

defer-custody :
    (i : String) (slot : Slot) (m : Manager)
    → custody i (defer_unroutable slot m) ≡ custody i m + in_slots i (slot ∷ [])
unfolding defer_unroutable custody
defer-custody i slot m =
    elim (Bool-cases (ltb max_dispatch_defers (m.defer_count slot.slot_id + 1))) [
      | inl e ↦ rw e (omega (arith, in_slots-append i m.failed (slot ∷ [])))
      | inr e ↦ rw e (omega (arith, in_tasks-append i m.tasks (requeue_after_backoff slot ∷ [])))
    ]

handed-custody :
    (i : String) (now : ℕ) (slot : Slot) (r : Resident) (rs : Registry) (xs : List Slot)
    → lookup slot.model_tag rs ≡ some r
    → r.inbox ≡ some xs
    → in_inboxes i (assign slot.model_tag (handed now slot r) rs)
      ≡ in_inboxes i rs + in_slots i (slot ∷ [])
handed-custody i now slot r rs xs found boxed =
    let before : inbox_of r ≡ xs = ap unbox boxed in
    let after : inbox_of (handed now slot r) ≡ xs ++ slot ∷ [] =
      ap (λ (o : Option (List Slot)). unbox (add o)) boxed in
    omega (
      arith,
      assign_same i slot.model_tag (handed now slot r) r rs found,
      ap (in_slots i) before,
      ap (in_slots i) after,
      in_slots-append i xs (slot ∷ []),
    )
  where
    unbox : Option (List Slot) → List Slot
    unbox o = elim o [ none ↦ [] | some ys ↦ ys ]

    add : Option (List Slot) → Option (List Slot)
    add o = elim o [ none ↦ none | some ys ↦ some (ys ++ slot ∷ []) ]

evicting-custody :
    (i : String) (st : Settings) (w : World) (slot : Slot) (m : Manager) (o : Option Resident)
    → lru_idle_evictable m.residents ≡ o
    → Keyed m.residents
    → lookup slot.model_tag m.residents ≡ none
    → Takes i slot m (reserve_evicting st w slot m o)
unfolding reserve_evicting
evicting-custody i st w slot m none e h fresh = omega (arith, defer-custody i slot m)
evicting-custody i st w slot m (some v) e h fresh =
    let (k, found, live, tagged) = victim-Registered m.residents v h e in
    let gone = begin_evict_registry v m k found live tagged in
    let still : lookup slot.model_tag (begin_evict v m).0.residents ≡ none =
      rw gone (lookup-delete-none k slot.model_tag m.residents fresh) in
    omega (
      arith,
      reserve-custody i st w slot (begin_evict v m).0 still,
      evict-custody i v m k found live tagged,
    )

routed-custody :
    (i : String) (st : Settings) (w : World) (slot : Slot) (m : Manager) (o : Option Resident)
    → (slot.model_tag == singleton_key) ≡ false
    → lookup slot.model_tag m.residents ≡ o
    → Keyed m.residents
    → Takes i slot m (route_to st w slot m o)
unfolding route_to custody
routed-custody i st w slot m (some r) named found h =
    let (tagged, xs, boxed) = (lookup-EntryOk slot.model_tag r m.residents h found).1 named in
    omega (arith, handed-custody i w.now slot r m.residents xs found boxed)
routed-custody i st w slot m none named fresh h =
    elim (Bool-cases (leb st.max_parallel_sidecars (length (model_residents m.residents)))) [
      | inl full ↦
          rw full (evicting-custody i st w slot m (lru_idle_evictable m.residents) refl h fresh)
      | inr room ↦ rw room (reserve-custody i st w slot m fresh)
    ]

route_or_reserve-Takes :
    (i : String) (st : Settings) (w : World) (slot : Slot) (m : Manager)
    → (slot.model_tag == singleton_key) ≡ false
    → Keyed m.residents
    → Takes i slot m (route_or_reserve st w slot m)
unfolding route_or_reserve
route_or_reserve-Takes i st w slot m named h = elim (live-lookup slot.model_tag m.residents h) [
  | inl (miss, fresh) ↦ rw miss (routed-custody i st w slot m none named fresh h)
  | inr (r, hit, found) ↦ rw hit (routed-custody i st w slot m (some r) named found h)
]

caught-custody :
    (i : String) (slot : Slot) (m : Manager) (r : Bool × Manager)
    → Takes i slot m r
    → custody i (caught slot r) ≡ custody i m + in_slots i (slot ∷ [])
unfolding custody
caught-custody i slot m (false, after) h = omega (arith, h)
caught-custody i slot m (true, after) h =
    omega (arith, h, in_slots-append i after.failed (slot ∷ []))

-- Dispatching a slot whose model is not named like the singleton's key neither loses nor doubles a slot:
-- counted over the inboxes of the registry, the tasks that put slots back and the failed futures, each
-- slot id is there as often as before, and the dispatched slot's id once more. This holds on every branch:
-- hit, reserve, refusal, eviction (whose victim's inbox goes back to the queue), deferral, and an exception
-- of an unreadable manifest, also behind an eviction.
pub dispatch_slot-custody :
    (i : String) (st : Settings) (w : World) (slot : Slot) (m : Manager)
    → (slot.model_tag == singleton_key) ≡ false
    → Keyed m.residents
    → custody i (dispatch_slot st w slot m) ≡ custody i m + in_slots i (slot ∷ [])
unfolding dispatch_slot
dispatch_slot-custody i st w slot m named h =
    caught-custody i slot m (route_or_reserve st w slot m)
      (route_or_reserve-Takes i st w slot m named h)
