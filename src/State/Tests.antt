-- ===== src/State/Tests.antt =====
-- The table at two rows: a slot with a process, and one that never got one.
use turbohaul_manager_rocm.Prelude.{
  ℕ, String, true, Option, none, some, List, [], ◌∷◌, map, ◌≡◌, refl, All,
}
use turbohaul_manager_rocm.State.{
  SlotRow, SlotEntry, reconcile_orphaned_slots, known_active_pids, is_in, mark_each,
  mark_slot_ended,
}
use turbohaul_manager_rocm.State.Reconcile.{Distinct, reconciled}
use turbohaul_manager_rocm.State.Settled.{reconcile-settles}

abbrev row : String → String → Option ℕ → SlotRow
row i state pid = record {
  slot_id = i;
  model_tag = "a";
  thread_id = some "t1";
  state = state;
  port = some 11500;
  pid = pid;
  created_at = "2026-01-01T00:00:00+00:00";
  updated_at = "2026-01-01T00:00:00+00:00";
  ended_at = none;
  end_reason = none;
  extension_count = 0;
  client_meta_json = "{}";
}

abbrev table : List SlotRow
table = row "s1" "ACTIVE" (some 41) ∷ row "s2" "STAGED" none ∷ row "s3" "ACTIVE" (some 42) ∷ []

abbrev entry : SlotEntry
entry = record {
  slot_id = "s2";
  model_tag = "b";
  thread_id = none;
  state = "LOADING";
  port = some 11501;
  pid = some 43;
  created_at = none;
  ended_at = none;
  end_reason = none;
  extension_count = none;
  client_meta_json = "{}";
}

table-Distinct : Distinct table
table-Distinct = ((refl, (refl, tt)), ((refl, tt), (tt, tt)))

-- Two of the three rows are ended.
counted : (reconcile_orphaned_slots "2026-01-02" (42 ∷ []) table).1 ≡ 2
unfolding reconcile_orphaned_slots mark_each mark_slot_ended
counted = refl

reconcile-settles_example :
    let after = (reconcile_orphaned_slots "2026-01-02" (42 ∷ []) table).0 in
    (after ≡ map (reconciled "2026-01-02" (42 ∷ [])) table)
    × All (λ (p : ℕ). is_in p (42 ∷ []) ≡ true) (known_active_pids after)
    × (reconcile_orphaned_slots "2026-01-03" (42 ∷ []) after ≡ (after, 0))
reconcile-settles_example =
    reconcile-settles "2026-01-02" "2026-01-03" (42 ∷ []) table table-Distinct
