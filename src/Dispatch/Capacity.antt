-- ===== src/Dispatch/Capacity.antt =====
-- manager.py: `_route_or_reserve` and the dispatcher's round keep the registry valid.
use turbohaul_manager_rocm.Prelude.{
  ℕ, String, true, false, Option, none, some, [], ◌∷◌, ◌++◌, if◌then◌else◌, leb, length, arith, ◌≡◌,
  refl, ap, ◌∙◌, ◌⊎◌, inl, inr, Bool-cases, Option-cases, leb-false→lt,
}
use turbohaul_manager_rocm.Slot.{Slot}
use turbohaul_manager_rocm.Dispatch.{
  Resident, Manager, is_state, dead, active, idle_evictable, lookup, assign, delete, is_live,
  model_residents, live_resident_for, lru_idle_evictable, begin_evict, unless_dead,
  defer_unroutable,
}
use turbohaul_manager_rocm.Dispatch.Registry.{
  Registry, EntryOk, Keyed, cards-length, assign-Keyed, cards-assign_same, lookup-EntryOk,
  lookup-delete-none,
}
use turbohaul_manager_rocm.Dispatch.Victim.{victim-Registered, deregister-Registered}
use turbohaul_manager_rocm.Dispatch.Isolation.{IsValid, delete-IsValid, reserve-IsValid}
use turbohaul_manager_rocm.Dispatch.Route.{
  Settings, World, handed, reserve_evicting, route_to, route_or_reserve,
}

-- In a registry without dead entries the live resident of a tag is its entry.
pub live-lookup :
    (tag : String) (rs : Registry)
    → Keyed rs
    → ((live_resident_for tag rs ≡ none) × (lookup tag rs ≡ none))
      ⊎ ((r : Resident) × (live_resident_for tag rs ≡ some r) × (lookup tag rs ≡ some r))
unfolding live_resident_for
live-lookup tag rs v = elim (Option-cases (lookup tag rs)) [
  | inl e ↦ inl (ap unless_dead e, e)
  | inr (r, e) ↦
      let alive = (lookup-EntryOk tag r rs v e).0 in
      let step : unless_dead (some r) ≡ some r = rw alive refl in
      inr (r, ap unless_dead e ∙ step, e)
]

handed_alive :
    (now : ℕ) (slot : Slot) (r : Resident)
    → is_state (handed now slot r).state dead ≡ is_state r.state dead
handed_alive now slot r = by_state r.state
  where
    by_state :
        (s : _) → is_state (if is_state s idle_evictable then active else s) dead ≡ is_state s dead
    by_state s = ground arith

handed-EntryOk :
    (k : String) (now : ℕ) (slot : Slot) (r : Resident)
    → EntryOk k r
    → EntryOk k (handed now slot r)
handed-EntryOk k now slot r (alive, mine) = (
  handed_alive now slot r ∙ alive,
  λ e. let (tagged, xs, boxed) = mine e in (tagged, xs ++ slot ∷ [], rw boxed refl),
)

handed-IsValid :
    (cap now : ℕ) (slot : Slot) (r : Resident) (rs : Registry)
    → IsValid cap rs
    → lookup slot.model_tag rs ≡ some r
    → IsValid cap (assign slot.model_tag (handed now slot r) rs)
handed-IsValid cap now slot r rs h found =
    let same =
      cards-assign_same slot.model_tag (handed now slot r) r rs found (handed_alive now slot r) refl
        refl in
    record {
      keyed =
          assign-Keyed slot.model_tag (handed now slot r) rs
            (handed-EntryOk slot.model_tag now slot r
              (lookup-EntryOk slot.model_tag r rs h.keyed found))
            h.keyed;
      separate = rw same h.separate;
      within = rw same h.within;
    }

defer_registry : (slot : Slot) (m : Manager) → (defer_unroutable slot m).residents ≡ m.residents
unfolding defer_unroutable
defer_registry slot m = ground arith

-- The eviction of a registered resident takes it out of the registry.
pub begin_evict_registry :
    (v : Resident) (m : Manager) (k : String)
    → lookup k m.residents ≡ some v
    → is_live k v ≡ true
    → v.model_tag ≡ some k
    → (begin_evict v m).0.residents ≡ delete k m.residents
unfolding begin_evict
begin_evict_registry v m k found live tagged =
    let alive : is_state v.state dead ≡ false = ground arith in
    rw alive (deregister-Registered m.residents k v found tagged)

evicting-IsValid :
    (st : Settings) (w : World) (slot : Slot) (m : Manager) (o : Option Resident)
    → lru_idle_evictable m.residents ≡ o
    → IsValid st.max_parallel_sidecars m.residents
    → lookup slot.model_tag m.residents ≡ none
    → IsValid st.max_parallel_sidecars (reserve_evicting st w slot m o).1.residents
unfolding reserve_evicting
evicting-IsValid st w slot m none e h fresh = rw (defer_registry slot m) h
evicting-IsValid st w slot m (some v) e h fresh =
    let (k, found, live, tagged) = victim-Registered m.residents v h.keyed e in
    let gone = begin_evict_registry v m k found live tagged in
    let (valid, room) = delete-IsValid st.max_parallel_sidecars m.residents k v h found live in
    reserve-IsValid st w slot (begin_evict v m).0 (rw gone valid) (rw gone room)
      (rw gone (lookup-delete-none k slot.model_tag m.residents fresh))

routed-IsValid :
    (st : Settings) (w : World) (slot : Slot) (m : Manager) (o : Option Resident)
    → lookup slot.model_tag m.residents ≡ o
    → IsValid st.max_parallel_sidecars m.residents
    → IsValid st.max_parallel_sidecars (route_to st w slot m o).1.residents
unfolding route_to
routed-IsValid st w slot m (some r) found h =
    handed-IsValid st.max_parallel_sidecars w.now slot r m.residents h found
routed-IsValid st w slot m none fresh h =
    elim (Bool-cases (leb st.max_parallel_sidecars (length (model_residents m.residents)))) [
      | inl full ↦
          rw full (evicting-IsValid st w slot m (lru_idle_evictable m.residents) refl h fresh)
      | inr room ↦ rw room (
          reserve-IsValid st w slot m h
            (omega (arith, leb-false→lt _ _ room, cards-length m.residents)) fresh)
    ]

-- Routing a slot keeps the registry valid: each key once and each entry alive under its own model's
-- tag, at most the configured number of live model residents, and where there are several, each of them
-- pinned to a card of its own. This holds on an exception too, which an unreadable manifest raises.
pub route_or_reserve-IsValid :
    (st : Settings) (w : World) (slot : Slot) (m : Manager)
    → IsValid st.max_parallel_sidecars m.residents
    → IsValid st.max_parallel_sidecars (route_or_reserve st w slot m).1.residents
unfolding route_or_reserve
route_or_reserve-IsValid st w slot m h = elim (live-lookup slot.model_tag m.residents h.keyed) [
  | inl (miss, fresh) ↦ rw miss (routed-IsValid st w slot m none fresh h)
  | inr (r, hit, found) ↦ rw hit (routed-IsValid st w slot m (some r) found h)
]
