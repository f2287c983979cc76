-- ===== src/State/Settled.antt =====
-- state.py: the table after the reconciliation at boot.
use turbohaul_manager_rocm.Prelude.{
  ℕ, String, Bool, true, false, Option, none, some, List, [], ◌∷◌, map, eqb, arith, ◌≡◌, refl, sym,
  subst, inl, inr, Bool-cases, All,
}
use turbohaul_manager_rocm.State.{
  SlotRow, is_open, is_orphaned, is_pre_active, lost_pid, is_in, select, mark_each,
  reconcile_orphaned_slots, known_active_pids, with_pid,
}
use turbohaul_manager_rocm.State.Reconcile.{Distinct, reconciled, reconcile-map, settled_orphan}

select_none :
    (test : SlotRow → Bool) (f : SlotRow → SlotRow) (rs : List SlotRow)
    → ((r : SlotRow) → test (f r) ≡ false)
    → select test (map f rs) ≡ []
select_none test f [] h = refl
select_none test f (r ∷ rs) h = rw (h r) (select_none test f rs h)

with_pid-All :
    (live : List ℕ) (o : Option ℕ) (ps : List ℕ)
    → lost_pid live o ≡ false
    → All (λ (p : ℕ). is_in p live ≡ true) ps
    → All (λ (p : ℕ). is_in p live ≡ true) (with_pid o ps)
with_pid-All live none ps h k = k
with_pid-All live (some p) ps h k = elim (Bool-cases (eqb p 0)) [
  | inl z ↦ rw z k
  | inr z ↦ rw z (ground arith, k)
]

pids_alive :
    (live : List ℕ) (f : SlotRow → SlotRow) (rs : List SlotRow)
    → ((r : SlotRow) → is_orphaned live (f r) ≡ false)
    → All (λ (p : ℕ). is_in p live ≡ true) (known_active_pids (map f rs))
unfolding known_active_pids
pids_alive live f [] h = tt
pids_alive live f (r ∷ rs) h =
    let rest = pids_alive live f rs h in
    let fine = h r in
    elim (Bool-cases (is_open (f r))) [
      | inl e ↦
          rw e (with_pid-All live (f r).pid (known_active_pids (map f rs)) (rw e at fine) rest)
      | inr e ↦ rw e rest
    ]

nothing_left :
    (now : String) (live : List ℕ) (rs : List SlotRow)
    → select (is_orphaned live) rs ≡ []
    → select is_pre_active rs ≡ []
    → reconcile_orphaned_slots now live rs ≡ (rs, 0)
unfolding reconcile_orphaned_slots mark_each
nothing_left now live rs one two = rw (one, two) refl

-- On a table with each slot id once, the reconciliation at boot ends exactly these open rows (neither
-- POPPED nor COLD, with no end): those whose pid is not among the live ones, with the reason for a lost
-- pid, and those without a pid that are not IDLE_HOT, with the other reason; no other row changes.
-- Afterwards each known active pid is a live one, and a second run, at any time, changes and counts
-- nothing.
pub reconcile-settles :
    (now later : String) (live : List ℕ) (rs : List SlotRow)
    → Distinct rs
    → let table = (reconcile_orphaned_slots now live rs).0 in
      (table ≡ map (reconciled now live) rs)
      × All (λ (p : ℕ). is_in p live ≡ true) (known_active_pids table)
      × (reconcile_orphaned_slots later live table ≡ (table, 0))
reconcile-settles now later live rs d =
    let mapped = reconcile-map now live rs d in
    (
      mapped,
      rw mapped (pids_alive live (reconciled now live) rs (λ r. (settled_orphan now live r).0)),
      subst (λ (t : List SlotRow). reconcile_orphaned_slots later live t ≡ (t, 0)) (sym mapped)
          (nothing_left later live (map (reconciled now live) rs)
            (select_none (is_orphaned live) (reconciled now live) rs
              (λ r. (settled_orphan now live r).0))
            (select_none is_pre_active (reconciled now live) rs
              (λ r. (settled_orphan now live r).1))),
    )
