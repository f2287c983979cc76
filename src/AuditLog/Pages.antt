-- ===== src/AuditLog/Pages.antt =====
-- api/logging.py: what one page delivers of the rows that are asked for.
use turbohaul_manager_rocm.Prelude.{
  ℕ, suc, ◌≤◌, ◌<◌, String, Bool, true, false, ◌&&◌, Option, List, [], ◌∷◌, ◌++◌, leb, arith, ◌≡◌,
  refl, ap, ◌∙◌, sym, subst, inl, inr, Bool-cases, leb→le, le→leb,
}
use turbohaul_manager_rocm.AuditLog.{Row, wanted, select}

-- The ids ascend, from `b` on.
abbrev pub Ascends : ℕ → List Row → Type 0
Ascends b [] = Unit {0}
Ascends b (r ∷ rs) = (b ≤ r.event_id) × Ascends (suc r.event_id) rs

pub Ascends-mono : (a b : ℕ) (rs : List Row) → a ≤ b → Ascends b rs → Ascends a rs
Ascends-mono a b [] h s = tt
Ascends-mono a b (r ∷ rs) h s = (omega arith, s.1)

and_left : (a b : Bool) → (a && b) ≡ true → a ≡ true
and_left true b h = refl
and_left false b h = h

and_right : (a b : Bool) → (a && b) ≡ true → b ≡ true
and_right true b h = h
and_right false b h = absurd (cc)

module _ (slot_id event_type : Option String) where
  -- Rows above the bound are all kept by any lower bound.
  select_above :
      (m n b : ℕ) (table : List Row)
      → Ascends b table
      → m ≤ b
      → n ≤ b
      → select m slot_id event_type table ≡ select n slot_id event_type table
  unfolding select
  select_above m n b [] s hm hn = refl
  select_above m n b (r ∷ rs) s hm hn = ground (arith, select_above m n (suc r.event_id) rs s.1)

  select_drop :
      (n : ℕ) (x : Row) (rs : List Row)
      → x.event_id < n
      → select n slot_id event_type (x ∷ rs) ≡ select n slot_id event_type rs
  unfolding select
  select_drop n x rs h = ground arith

  select_keep :
      (n : ℕ) (x : Row) (rs : List Row)
      → n ≤ x.event_id
      → wanted slot_id event_type x ≡ true
      → select n slot_id event_type (x ∷ rs) ≡ x ∷ select n slot_id event_type rs
  unfolding select
  select_keep n x rs h w = rw (le→leb _ _ h, w) refl

  select_skip :
      (n : ℕ) (x : Row) (rs : List Row)
      → (leb n x.event_id && wanted slot_id event_type x) ≡ false
      → select n slot_id event_type (x ∷ rs) ≡ select n slot_id event_type rs
  unfolding select
  select_skip n x rs h = rw h refl

  -- What `before`, `r` and `after` say of a selection that they make up.
  abbrev Resumes : ℕ → ℕ → List Row → List Row → Row → Type 0
  Resumes n b table after r =
      (b ≤ r.event_id)
      × (n ≤ r.event_id)
      × (select r.event_id slot_id event_type table ≡ r ∷ after)
      × (select (suc r.event_id) slot_id event_type table ≡ after)

  Resumes-later :
      (n b : ℕ) (x : Row) (rs after : List Row) (r : Row)
      → b ≤ x.event_id
      → Resumes n (suc x.event_id) rs after r
      → Resumes n b (x ∷ rs) after r
  Resumes-later n b x rs after r h (above, asked, here, next) = (
    omega arith,
    asked,
    select_drop r.event_id x rs above ∙ here,
    select_drop (suc r.event_id) x rs (omega arith) ∙ next,
  )

  Resumes-here :
      (n b : ℕ) (x : Row) (rs : List Row)
      → Ascends b (x ∷ rs)
      → n ≤ x.event_id
      → wanted slot_id event_type x ≡ true
      → Resumes n b (x ∷ rs) (select n slot_id event_type rs) x
  Resumes-here n b x rs s asked w = (
    s.0,
    asked,
    select_keep x.event_id x rs (omega arith) w
        ∙ ap (◌∷◌ x)
            (select_above x.event_id n (suc x.event_id) rs s.1 (omega arith) (omega arith)),
    select_drop (suc x.event_id) x rs (omega arith)
        ∙ select_above (suc x.event_id) n (suc x.event_id) rs s.1 (omega arith) (omega arith),
  )

  tests_hold :
      (n : ℕ) (x : Row)
      → (leb n x.event_id && wanted slot_id event_type x) ≡ true
      → (n ≤ x.event_id) × (wanted slot_id event_type x ≡ true)
  tests_hold n x h = (leb→le _ _ (and_left _ _ h), and_right _ _ h)

  kept_cases :
      (n b : ℕ) (x : Row) (rs before after : List Row) (r : Row)
      → Ascends b (x ∷ rs)
      → n ≤ x.event_id
      → wanted slot_id event_type x ≡ true
      → x ∷ select n slot_id event_type rs ≡ before ++ r ∷ after
      → ((before' : List Row)
          → select n slot_id event_type rs ≡ before' ++ r ∷ after
          → Resumes n (suc x.event_id) rs after r)
      → Resumes n b (x ∷ rs) after r
  kept_cases n b x rs [] after r s asked w e later =
      let same : x ≡ r = cc in
      let tail : select n slot_id event_type rs ≡ after = cc in
      subst (Resumes n b (x ∷ rs) after) same
        (subst (λ (a : List Row). Resumes n b (x ∷ rs) a x) tail (Resumes-here n b x rs s asked w))
  kept_cases n b x rs (y ∷ before) after r s asked w e later =
      Resumes-later n b x rs after r s.0 (later before cc)

  -- Asking again from a row that was selected gives that row and the ones after it; asking from the
  -- next id gives the ones after it.
  pub select_resume :
      (n b : ℕ) (table before after : List Row) (r : Row)
      → Ascends b table
      → select n slot_id event_type table ≡ before ++ r ∷ after
      → Resumes n b table after r
  select_resume n b [] [] after r s e = absurd (let e' : [] ≡ r ∷ after = unfold select in e in cc)
  select_resume n b [] (y ∷ before) after r s e =
      absurd (let e' : [] ≡ y ∷ before ++ r ∷ after = unfold select in e in cc)
  select_resume n b (x ∷ rs) before after r s e =
      elim (Bool-cases (leb n x.event_id && wanted slot_id event_type x)) [
        | inr skip ↦ Resumes-later n b x rs after r s.0 (
            select_resume n (suc x.event_id) rs before after r s.1
              (sym (select_skip n x rs skip) ∙ e))
        | inl keep ↦
            let (asked, w) = tests_hold n x keep in
            kept_cases n b x rs before after r s asked w (sym (select_keep n x rs asked w) ∙ e)
              (λ (before' : List Row). select_resume n (suc x.event_id) rs before' after r s.1)
      ]
