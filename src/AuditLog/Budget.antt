-- ===== src/AuditLog/Budget.antt =====
-- api/logging.py: how large a page can be.
use turbohaul_manager_rocm.Prelude.{
  ℕ, ◌+◌, ◌≤◌, String, true, false, Option, none, some, List, [], ◌∷◌, ltb, length, take, arith,
  ◌≡◌, refl, ◌⊎◌, inl, inr, Bool-cases, ltb-false→le, length-take-le,
}
use turbohaul_manager_rocm.AuditLog.{
  Row, Page, clamp_limit, select, collect, finish, get_logging, effective_budget,
}
use turbohaul_manager_rocm.AuditLog.Complete.{clamp_limit_bounds}

module _ (encoded_len : Row → ℕ) where
  abbrev pub total_len : List Row → ℕ
  total_len [] = 0
  total_len (r ∷ rs) = encoded_len r + total_len rs

  collect_budget :
      (used : ℕ) (rows : List Row)
      → used ≤ effective_budget
      → (used + total_len (collect encoded_len used rows).0 ≤ effective_budget)
        × (length (collect encoded_len used rows).0 ≤ length rows)
  unfolding collect
  collect_budget used [] h = (omega arith, omega arith)
  collect_budget used (r ∷ rs) h = elim (Bool-cases (ltb effective_budget (used + encoded_len r))) [
    | inl big ↦ rw big (omega arith, omega arith)
    | inr small ↦
        let (within, fewer) = collect_budget (used + encoded_len r) rs (ltb-false→le _ _ small) in
        rw small (omega arith, omega arith)
  ]

  -- The events of a page that is not marked oversized fit the budget, and there are no more of them
  -- than rows.
  abbrev Fits : ℕ → Page → Type 0
  Fits n page =
      (length page.events ≤ n)
      × (((page.oversized ≡ true) × (length page.events ≡ 1))
          ⊎ ((page.oversized ≡ false) × (total_len page.events ≤ effective_budget)))

  finish-Fits :
      (limit : ℕ) (rows events : List Row) (stopped : Option ℕ)
      → total_len events ≤ effective_budget
      → length events ≤ length rows
      → Fits (length rows) (finish limit rows (events, stopped))
  finish-Fits limit [] events stopped b l = (omega arith, inr (refl, omega arith))
  finish-Fits limit (r ∷ rs) [] stopped b l = (omega arith, inl (refl, refl))
  finish-Fits limit (r ∷ rs) (e ∷ es) (some n) b l = (l, inr (refl, b))
  finish-Fits limit (r ∷ rs) (e ∷ es) none b l = (l, inr (refl, b))

  -- Whatever `limit` is asked for, a page has at most 500 events, and their JSON texts together stay
  -- within the budget of 79488 characters, but for a page that holds one event and says that it is
  -- oversized.
  pub get_logging_bounds :
      (since : ℕ) (slot_id event_type : Option String) (limit : ℕ) (table : List Row)
      → let page = get_logging encoded_len since slot_id event_type limit table in
        (length page.events ≤ 500)
        × (((page.oversized ≡ true) × (length page.events ≡ 1))
            ⊎ ((page.oversized ≡ false) × (total_len page.events ≤ 79488)))
  unfolding get_logging
  get_logging_bounds since slot_id event_type limit table =
      let asked = select since slot_id event_type table in
      let rows = take (clamp_limit limit) asked in
      let (within, fewer) = collect_budget 0 rows (omega arith) in
      let (count, size) =
        finish-Fits (clamp_limit limit) rows (collect encoded_len 0 rows).0
          (collect encoded_len 0 rows).1 (omega arith) fewer in
      (omega (arith, clamp_limit_bounds limit, length-take-le (clamp_limit limit) asked), size)
