-- ===== src/AuditLog/Complete.antt =====
-- api/logging.py: a caller that follows `next_since` gets every row that it asked for, once.
use mathlib.Core.Option
use mathlib.Core.List.{append_assoc, append-nil}
use turbohaul_manager_rocm.Prelude.{
  ℕ, zero, suc, ◌+◌, ◌≤◌, ◌<◌, String, Option, none, some, List, [], ◌∷◌, ◌++◌, ltb, eqb, length,
  take, arith, ◌≡◌, refl, ap, ◌∙◌, sym, subst, ◌⊎◌, inl, inr, Bool-cases, drop, length-append,
  length-take-le, ◌≢◌,
}
use turbohaul_manager_rocm.AuditLog.{
  Row, Page, clamp_limit, select, collect, finish, after_last, get_logging, effective_budget,
  limit_max,
}
use turbohaul_manager_rocm.AuditLog.Pages.{Ascends, select_resume}

module _ {ℓ} {A : Type ℓ} where
  take-drop : (n : ℕ) (xs : List A) → take n xs ++ drop n xs ≡ xs
  take-drop zero xs = refl
  take-drop (suc n) [] = refl
  take-drop (suc n) (x ∷ xs) = ap (◌∷◌ x) (take-drop n xs)

  -- A list is cut short only at the cap.
  short_take : (n : ℕ) (xs : List A) → length (take n xs) < n → drop n xs ≡ []
  short_take zero xs h = elim h [ ]
  short_take (suc n) [] h = refl
  short_take (suc n) (x ∷ xs) h = short_take n xs (omega arith)

nonempty {ℓ} : {A : Type ℓ} (xs : List A) → xs ≢ [] → 0 < length xs
nonempty [] h = absurd (h refl)
nonempty (x ∷ xs) h = omega arith

pub clamp_limit_bounds : (limit : ℕ) → (1 ≤ clamp_limit limit) × (clamp_limit limit ≤ limit_max)
unfolding clamp_limit
clamp_limit_bounds limit = ground arith

-- The last event of a page, and the ones before it.
last_split :
    (e : Row) (es : List Row)
    → (before : List Row) × (r : Row) × (e ∷ es ≡ before ++ r ∷ [])
      × (after_last (e ∷ es) ≡ some (suc r.event_id))
last_split e [] = ([], e, refl, refl)
last_split e (s ∷ es) =
    let (before, r, split, last) = last_split s es in (e ∷ before, r, ap (◌∷◌ e) split, last)

module _ (encoded_len : Row → ℕ) where
  -- The loop delivers all rows, or stops at the id of the first one that it leaves out.
  collect_cases :
      (used : ℕ) (rows : List Row)
      → ((collect encoded_len used rows).1 ≡ none) × ((collect encoded_len used rows).0 ≡ rows)
        ⊎ ((r : Row) × (rest : List Row) × ((collect encoded_len used rows).1 ≡ some r.event_id)
            × (rows ≡ (collect encoded_len used rows).0 ++ r ∷ rest))
  unfolding collect
  collect_cases used [] = inl (refl, refl)
  collect_cases used (r ∷ rs) = elim (Bool-cases (ltb effective_budget (used + encoded_len r))) [
    | inl h ↦ inr (r, rs, rw h, rw h)
    | inr h ↦ elim (collect_cases (used + encoded_len r) rs) [
      | inl (n, all) ↦ inl (rw h n, rw h (ap (◌∷◌ r) all))
      | inr (x, rest, n, split) ↦ inr (x, rest, rw h n, rw h (ap (◌∷◌ r) split))
    ]
  ]

  module _ (slot_id event_type : Option String) (table : List Row) (sorted : Ascends 0 table) where
    abbrev pub asked : ℕ → List Row
    asked since = select since slot_id event_type table

    -- What a page is of the rows that were asked for: all of them, or a first part that is not
    -- empty, with the id from which the others are obtained.
    abbrev pub Delivers : List Row → Page → Type 0
    Delivers rows page =
        ((page.next_since ≡ none) × (page.events ≡ rows))
        ⊎ ((n : ℕ) × (page.next_since ≡ some n)
            × (page.events ≢ [])
            × (rows ≡ page.events ++ asked n))

    resume_from :
        (since : ℕ) (before after : List Row) (r : Row)
        → asked since ≡ before ++ r ∷ after
        → asked since ≡ before ++ asked r.event_id
    resume_from since before after r e =
        let (_, _, here, _) =
          select_resume slot_id event_type since 0 table before after r sorted e in
        e ∙ ap (◌++◌ before) (sym here)

    resume_after :
        (since : ℕ) (before after : List Row) (r : Row)
        → asked since ≡ (before ++ r ∷ []) ++ after
        → asked since ≡ (before ++ r ∷ []) ++ asked (suc r.event_id)
    resume_after since before after r e =
        let (_, _, _, next) =
          select_resume slot_id event_type since 0 table before after r sorted
            (e ∙ append_assoc before (r ∷ []) after) in
        e ∙ ap (◌++◌ (before ++ r ∷ [])) (sym next)

    cut :
        (since limit : ℕ) (rows : List Row)
        → take limit (asked since) ≡ rows
        → asked since ≡ rows ++ drop limit (asked since)
    cut since limit rows e =
        sym (take-drop limit (asked since)) ∙ ap (λ (x : List Row). x ++ drop limit (asked since)) e

    uncut :
        (since limit : ℕ) (rows : List Row)
        → take limit (asked since) ≡ rows
        → length rows < limit
        → asked since ≡ rows
    uncut since limit rows e h =
        let nothing = short_take limit (asked since) (omega (arith, ap length e)) in
        cut since limit rows e ∙ ap (◌++◌ rows) nothing ∙ append-nil rows

    finish_all :
        (since limit : ℕ) (x : Row) (rows : List Row) (y : Row) (ys : List Row)
        → take limit (asked since) ≡ x ∷ rows
        → y ∷ ys ≡ x ∷ rows
        → Delivers (asked since) (finish limit (x ∷ rows) (y ∷ ys, none))
    finish_all since limit x rows y ys e same = elim (Bool-cases (eqb (length (x ∷ rows)) limit)) [
      | inl full ↦
          let (before, r, split, last) = last_split y ys in
          inr (
            suc r.event_id,
            rw full last,
            λ h. cc,
            resume_after since before (drop limit (asked since)) r (
                  cut since limit (x ∷ rows) e
                  ∙ ap (λ (z : List Row). z ++ drop limit (asked since)) (sym same ∙ split))
                ∙ ap (λ (z : List Row). z ++ asked (suc r.event_id)) (sym split),
          )
      | inr short ↦
          let below : length (x ∷ rows) < limit =
            ground (arith, length-take-le limit (asked since), ap length e) in
          inl (rw short refl, same ∙ sym (uncut since limit (x ∷ rows) e below))
    ]

    finish-Delivers :
        (since limit : ℕ) (rows : List Row) (events : List Row) (stopped : Option ℕ)
        → 1 ≤ limit
        → take limit (asked since) ≡ rows
        → ((stopped ≡ none) × (events ≡ rows)
            ⊎ ((r : Row) × (rest : List Row) × (stopped ≡ some r.event_id)
                × (rows ≡ events ++ r ∷ rest)))
        → Delivers (asked since) (finish limit rows (events, stopped))
    finish-Delivers since limit [] events stopped pos e c =
        inl (refl, sym (uncut since limit [] e pos))
    finish-Delivers since limit (x ∷ rows) [] stopped pos e c = inr (
      suc x.event_id,
      refl,
      λ h. cc,
      resume_after since [] (rows ++ drop limit (asked since)) x (cut since limit (x ∷ rows) e),
    )
    finish-Delivers since limit (x ∷ rows) (y ∷ ys) (some n) pos e (inl (clash, _)) = absurd (cc)
    finish-Delivers since limit (x ∷ rows) (y ∷ ys) (some n) pos e (inr (r, rest, en, split)) =
        let at_r : n ≡ r.event_id = cc in
        inr (
          n,
          refl,
          λ h. cc,
          subst (λ (k : ℕ). asked since ≡ (y ∷ ys) ++ asked k) (sym at_r)
              (resume_from since (y ∷ ys) (rest ++ drop limit (asked since)) r (
                cut since limit (x ∷ rows) e
                ∙ ap (λ (z : List Row). z ++ drop limit (asked since)) split
                ∙ append_assoc (y ∷ ys) (r ∷ rest) (drop limit (asked since)))),
        )
    finish-Delivers since limit (x ∷ rows) (y ∷ ys) none pos e (inl (_, same)) =
        finish_all since limit x rows y ys e same
    finish-Delivers since limit (x ∷ rows) (y ∷ ys) none pos e (inr (r, rest, clash, _)) =
        absurd (cc)

    -- A page of an ascending table delivers all the rows that were asked for, or a first part that
    -- is not empty and the id from which the next page continues exactly.
    pub get_logging-Delivers :
        (since limit : ℕ)
        → Delivers (asked since) (get_logging encoded_len since slot_id event_type limit table)
    unfolding get_logging
    get_logging-Delivers since limit =
        let rows = take (clamp_limit limit) (asked since) in
        finish-Delivers since (clamp_limit limit) rows (collect encoded_len 0 rows).0
          (collect encoded_len 0 rows).1 (clamp_limit_bounds limit).0 refl (collect_cases 0 rows)

  -- The caller's loop: it asks from `next_since` until there is none. `none` means that the fuel ran
  -- out.
  pub fetch_all : ℕ → Option String → Option String → ℕ → List Row → ℕ → Option (List Row)
  fetch_all zero slot_id event_type limit table since = none
  fetch_all (suc fuel) slot_id event_type limit table since =
      let page = get_logging encoded_len since slot_id event_type limit table in
      elim page.next_since [
        | none ↦ some page.events
        | some n ↦ Option.map (◌++◌ page.events) (fetch_all fuel slot_id event_type limit table n)
      ]

  -- With an ascending table, the loop that follows `next_since` ends after at most one page for each
  -- row that was asked for, and one more, and returns exactly those rows, each once and in order.
  pub fetch_all-select :
      (fuel : ℕ) (slot_id event_type : Option String) (limit : ℕ) (table : List Row) (since : ℕ)
      → Ascends 0 table
      → length (select since slot_id event_type table) < fuel
      → fetch_all fuel slot_id event_type limit table since
        ≡ some (select since slot_id event_type table)
  unfolding fetch_all
  fetch_all-select zero slot_id event_type limit table since sorted h = elim h [ ]
  fetch_all-select (suc fuel) slot_id event_type limit table since sorted h =
      elim (get_logging-Delivers slot_id event_type table sorted since limit) [
        | inl (stop, all) ↦ rw (stop, fetch_all) (ap some all)
        | inr (n, more, something, split) ↦
            let page_events =
              (get_logging encoded_len since slot_id event_type limit table).events in
            let shorter : length (select n slot_id event_type table) < fuel = omega (
              arith,
              ap length split,
              length-append page_events (select n slot_id event_type table),
              nonempty page_events something,
            ) in
            rw (more, fetch_all)
              (rw (fetch_all-select fuel slot_id event_type limit table n sorted shorter)
                (ap some (sym split)))
      ]
