-- ===== src/State/Rows.antt =====
-- state.py: `upsert_slot` as an update of the row with its id.
use turbohaul_manager_rocm.Prelude.{
  ◌==◌, String, false, Option, none, some, List, [], ◌∷◌, if◌then◌else◌, arith, ◌≡◌, refl, inl, inr,
  Bool-cases, All, eq_iff, eq_refl,
}
use turbohaul_manager_rocm.State.{SlotRow, SlotEntry, upsert_slot, inserted, updated}
use turbohaul_manager_rocm.State.Reconcile.{Distinct}

abbrev pub find_row : String → List SlotRow → Option SlotRow
find_row i [] = none
find_row i (r ∷ rs) = if r.slot_id == i then some r else find_row i rs

-- The row of the entry afterwards: a new one, or the old one with its model and creation time.
abbrev pub written : String → SlotEntry → Option SlotRow → SlotRow
written now e none = inserted now e
written now e (some r) = updated now e r

upsert-All :
    (now : String) (e : SlotEntry) (i : String) (rs : List SlotRow)
    → (e.slot_id == i) ≡ false
    → All (λ (s : SlotRow). (s.slot_id == i) ≡ false) rs
    → All (λ (s : SlotRow). (s.slot_id == i) ≡ false) (upsert_slot now e rs)
unfolding upsert_slot
upsert-All now e i [] o h = (o, tt)
upsert-All now e i (r ∷ rs) o (p, h) = elim (Bool-cases (r.slot_id == e.slot_id)) [
  | inl m ↦ rw m (p, h)
  | inr m ↦ rw m (p, upsert-All now e i rs o h)
]

upsert-Distinct :
    (now : String) (e : SlotEntry) (rs : List SlotRow)
    → Distinct rs
    → Distinct (upsert_slot now e rs)
unfolding upsert_slot
upsert-Distinct now e [] d = (tt, tt)
upsert-Distinct now e (r ∷ rs) (apart, d) = elim (Bool-cases (r.slot_id == e.slot_id)) [
  | inl m ↦ rw m (apart, d)
  | inr m ↦
      let other : (e.slot_id == r.slot_id) ≡ false =
        ground (arith, eq_iff e.slot_id r.slot_id, eq_iff r.slot_id e.slot_id) in
      rw m (upsert-All now e r.slot_id rs other apart, upsert-Distinct now e rs d)
]

upsert-find :
    (now : String) (e : SlotEntry) (rs : List SlotRow)
    → find_row e.slot_id (upsert_slot now e rs) ≡ some (written now e (find_row e.slot_id rs))
unfolding upsert_slot
upsert-find now e [] = rw (eq_refl e.slot_id) refl
upsert-find now e (r ∷ rs) = elim (Bool-cases (r.slot_id == e.slot_id)) [
  | inl m ↦ rw (m, m) refl
  | inr m ↦ rw (m, m) (upsert-find now e rs)
]

upsert-find_other :
    (now : String) (e : SlotEntry) (i : String) (rs : List SlotRow)
    → (e.slot_id == i) ≡ false
    → find_row i (upsert_slot now e rs) ≡ find_row i rs
unfolding upsert_slot
upsert-find_other now e i [] o = rw o refl
upsert-find_other now e i (r ∷ rs) o = elim (Bool-cases (r.slot_id == e.slot_id)) [
  | inl m ↦
      let other : (r.slot_id == i) ≡ false = ground (arith, eq_iff r.slot_id e.slot_id) in
      rw (m, other) refl
  | inr m ↦ elim (Bool-cases (r.slot_id == i)) [
    | inl k ↦ rw (m, k) refl
    | inr k ↦ rw (m, k) (upsert-find_other now e i rs o)
  ]
]

-- `upsert_slot` on a table with each slot id once: each id is still there once; the row of the entry's
-- id is a new row, or the old one with its model and time of creation kept and the rest overwritten;
-- the row of any other id is as before.
pub upsert_slot_lem :
    (now : String) (e : SlotEntry) (rs : List SlotRow)
    → Distinct rs
    → Distinct (upsert_slot now e rs)
      × (find_row e.slot_id (upsert_slot now e rs) ≡ some (written now e (find_row e.slot_id rs)))
      × ((i : String)
          → (e.slot_id == i) ≡ false
          → find_row i (upsert_slot now e rs) ≡ find_row i rs)
upsert_slot_lem now e rs d =
    (upsert-Distinct now e rs d, upsert-find now e rs, λ i o. upsert-find_other now e i rs o)
