-- ===== src/State/Reconcile.antt =====
-- state.py: what the reconciliation at boot does to each row, and that it leaves nothing to do.
use turbohaul_manager_rocm.Prelude.{
  ℕ, ◌==◌, String, Bool, false, ◌||◌, List, [], ◌∷◌, map, if◌then◌else◌, arith, ◌≡◌, refl, sym, ap,
  ◌∙◌, inl, inr, Bool-cases, All, eq_iff, eq_refl,
}
use turbohaul_manager_rocm.State.{
  SlotRow, is_orphaned, is_pre_active, select, ended, mark_slot_ended, mark_each,
  reconcile_orphaned_slots, orphaned_pid, pre_active_orphan,
}

abbrev pub listed : String → List String → Bool
listed i [] = false
listed i (j ∷ js) = i == j || listed i js

-- The primary key.
abbrev pub Distinct : List SlotRow → Type 0
Distinct [] = Unit
Distinct (r ∷ rs) = All (λ (s : SlotRow). (s.slot_id == r.slot_id) ≡ false) rs × Distinct rs

-- What a pass does to one row.
abbrev pub settle : String → String → (SlotRow → Bool) → SlotRow → SlotRow
settle now reason test r = if test r then ended now reason r else r

map_cong :
    (f g : SlotRow → SlotRow) (rs : List SlotRow)
    → All (λ (r : SlotRow). f r ≡ g r) rs
    → map f rs ≡ map g rs
map_cong f g [] h = refl
map_cong f g (r ∷ rs) (e, h) = rw (e, map_cong f g rs h) refl

map-map :
    (f g h : SlotRow → SlotRow) (rs : List SlotRow)
    → ((r : SlotRow) → f (g r) ≡ h r)
    → map f (map g rs) ≡ map h rs
map-map f g h [] e = refl
map-map f g h (r ∷ rs) e = rw (e r, map-map f g h rs e) refl

map_same : (f : SlotRow → SlotRow) (rs : List SlotRow) → ((r : SlotRow) → f r ≡ r) → rs ≡ map f rs
map_same f [] e = refl
map_same f (r ∷ rs) e = rw (e r, sym (map_same f rs e)) refl

-- A row that is marked again is marked alike.
settle_twice :
    (now reason i : String) (is : List String) (r : SlotRow)
    → settle now reason
        (λ (x : SlotRow). listed x.slot_id is)
        (if r.slot_id == i then ended now reason r else r)
      ≡ settle now reason (λ (x : SlotRow). listed x.slot_id (i ∷ is)) r
settle_twice now reason i is r = elim (Bool-cases (r.slot_id == i)) [
  | inl e ↦ elim (Bool-cases (listed r.slot_id is)) [
    | inl l ↦ rw (e, l) refl
    | inr l ↦ rw (e, l) refl
  ]
  | inr e ↦ rw e refl
]

mark_each-map :
    (now reason : String) (is : List String) (rs : List SlotRow)
    → mark_each now reason is rs ≡ map (settle now reason (λ (r : SlotRow). listed r.slot_id is)) rs
unfolding mark_each mark_slot_ended
mark_each-map now reason [] rs = map_same _ rs (λ r. refl)
mark_each-map now reason (i ∷ is) rs =
    mark_each-map now reason is (mark_slot_ended now i reason rs)
    ∙ map-map _ _ _ rs (settle_twice now reason i is)

listed_not :
    (test : SlotRow → Bool) (i : String) (rs : List SlotRow)
    → All (λ (s : SlotRow). (s.slot_id == i) ≡ false) rs
    → listed i (select test rs) ≡ false
listed_not test i [] h = refl
listed_not test i (r ∷ rs) (other, h) =
    let rest = listed_not test i rs h in
    let flipped : (i == r.slot_id) ≡ false =
      ground (arith, eq_iff i r.slot_id, eq_iff r.slot_id i) in
    elim (Bool-cases (test r)) [ inl e ↦ rw (e, flipped) rest | inr e ↦ rw e rest ]

-- Where each id is there once, the selected ids are those of the rows that pass.
select-All :
    (test : SlotRow → Bool) (rs : List SlotRow)
    → Distinct rs
    → All (λ (r : SlotRow). listed r.slot_id (select test rs) ≡ test r) rs
select-All test [] d = tt
select-All test (r ∷ rs) (apart, d) =
    let own : listed r.slot_id (select test (r ∷ rs)) ≡ test r = elim (Bool-cases (test r)) [
      | inl e ↦ rw (e, eq_refl r.slot_id) refl
      | inr e ↦ rw e (listed_not test r.slot_id rs apart)
    ] in
    (own, later (select test rs) rs apart (select-All test rs d))
  where
    later :
        (is : List String) (ss : List SlotRow)
        → All (λ (s : SlotRow). (s.slot_id == r.slot_id) ≡ false) ss
        → All (λ (s : SlotRow). listed s.slot_id is ≡ test s) ss
        → All
            (λ (s : SlotRow). listed s.slot_id (if test r then r.slot_id ∷ is else is) ≡ test s)
            ss
    later is [] h k = tt
    later is (s ∷ ss) (o, h) (p, k) =
        (elim (Bool-cases (test r)) [ inl e ↦ rw (e, o) p | inr e ↦ rw e p ], later is ss h k)

pass-map :
    (now reason : String) (test : SlotRow → Bool) (rs : List SlotRow)
    → Distinct rs
    → mark_each now reason (select test rs) rs ≡ map (settle now reason test) rs
pass-map now reason test rs d =
    mark_each-map now reason (select test rs) rs ∙ map_cong _ _ rs (same rs (select-All test rs d))
  where
    same :
        (ss : List SlotRow)
        → All (λ (r : SlotRow). listed r.slot_id (select test rs) ≡ test r) ss
        → All
            (λ (r : SlotRow).
              settle now reason (λ (x : SlotRow). listed x.slot_id (select test rs)) r
              ≡ settle now reason test r)
            ss
    same [] h = tt
    same (r ∷ ss) (e, h) = (ap (λ (b : Bool). if b then ended now reason r else r) e, same ss h)

pub settle-slot_id :
    (now reason : String) (test : SlotRow → Bool) (r : SlotRow)
    → (settle now reason test r).slot_id ≡ r.slot_id
settle-slot_id now reason test r = elim (Bool-cases (test r)) [
  | inl e ↦ rw e refl
  | inr e ↦ rw e refl
]

pub Distinct-map :
    (f : SlotRow → SlotRow) (rs : List SlotRow)
    → ((r : SlotRow) → (f r).slot_id ≡ r.slot_id)
    → Distinct rs
    → Distinct (map f rs)
Distinct-map f [] keeps d = tt
Distinct-map f (r ∷ rs) keeps (apart, d) = (others rs apart, Distinct-map f rs keeps d)
  where
    others :
        (ss : List SlotRow)
        → All (λ (s : SlotRow). (s.slot_id == r.slot_id) ≡ false) ss
        → All (λ (s : SlotRow). (s.slot_id == (f r).slot_id) ≡ false) (map f ss)
    others [] h = tt
    others (s ∷ ss) (o, h) = (rw (keeps s, keeps r) o, others ss h)

-- What the reconciliation makes of a row.
abbrev pub reconciled : String → List ℕ → SlotRow → SlotRow
reconciled now live r =
    if is_orphaned live r
    then ended now orphaned_pid r
    else if is_pre_active r
    then ended now pre_active_orphan r
    else r

two_passes :
    (now : String) (live : List ℕ) (r : SlotRow)
    → settle now pre_active_orphan is_pre_active (settle now orphaned_pid (is_orphaned live) r)
      ≡ reconciled now live r
two_passes now live r = elim (Bool-cases (is_orphaned live r)) [
  | inl e ↦ rw e refl
  | inr e ↦ rw e refl
]

pub reconcile-map :
    (now : String) (live : List ℕ) (rs : List SlotRow)
    → Distinct rs
    → (reconcile_orphaned_slots now live rs).0 ≡ map (reconciled now live) rs
unfolding reconcile_orphaned_slots
reconcile-map now live rs d =
    let first = pass-map now orphaned_pid (is_orphaned live) rs d in
    let kept =
      Distinct-map (settle now orphaned_pid (is_orphaned live)) rs
        (settle-slot_id now orphaned_pid (is_orphaned live)) d in
    ap (λ (ss : List SlotRow). mark_each now pre_active_orphan (select is_pre_active ss) ss) first
    ∙ pass-map now pre_active_orphan is_pre_active _ kept
    ∙ map-map _ _ _ rs (two_passes now live)

pub settled_orphan :
    (now : String) (live : List ℕ) (r : SlotRow)
    → (is_orphaned live (reconciled now live r) ≡ false)
      × (is_pre_active (reconciled now live r) ≡ false)
settled_orphan now live r = elim (Bool-cases (is_orphaned live r)) [
  | inl e ↦ rw e (refl, refl)
  | inr e ↦ elim (Bool-cases (is_pre_active r)) [
    | inl f ↦ rw (e, f) (refl, refl)
    | inr f ↦ rw (e, f) (e, f)
  ]
]
