-- ===== src/Telemetry/Paging.antt =====
-- telemetry.py: what a client that follows `next_since` gets from `_RingBuffer.get`.
use turbohaul_manager_rocm.Prelude.{
  ℕ, zero, suc, ◌-◌, ◌≤◌, ◌<◌, String, false, ◌&&◌, Option, none, some, List, [], ◌∷◌, ltb, eqb,
  length, drop, arith, ◌≡◌, refl, sym, ap, ◌∙◌, inl, inr, Bool-cases, Option-cases,
}
use turbohaul_manager_rocm.Telemetry.{
  Event, RingBuffer, select, is_type, last_seq, newest, page_of, get,
}
use turbohaul_manager_rocm.Telemetry.Ring.{Consecutive, IsValid, length-drop, last_n-drop}

last_seq-cons :
    (e : Event) (es : List Event) (n : ℕ) → last_seq es ≡ some n → last_seq (e ∷ es) ≡ some n
last_seq-cons e [] n h = absurd cc
last_seq-cons e (f ∷ es) n h = h

last_seq-drop : (m : ℕ) (es : List Event) → m < length es → last_seq (drop m es) ≡ last_seq es
last_seq-drop zero es h = refl
last_seq-drop (suc m) [] h = absurd (omega arith)
last_seq-drop (suc m) (e ∷ []) h = absurd (omega arith)
last_seq-drop (suc m) (e ∷ f ∷ es) h = last_seq-drop m (f ∷ es) (omega arith)

last_seq-none : (es : List Event) → last_seq es ≡ none → es ≡ []
last_seq-none [] h = refl
last_seq-none (e ∷ []) h = absurd cc
last_seq-none (e ∷ f ∷ es) h = absurd (let clash = last_seq-none (f ∷ es) h in cc)

last_seq-alone :
    (e : Event) (es : List Event) (n : ℕ) → es ≡ [] → last_seq (e ∷ es) ≡ some n → e.seq ≡ n
last_seq-alone e es n nothing h =
    let h' : some e.seq ≡ some n = sym (ap (λ (x : List Event). last_seq (e ∷ x)) nothing) ∙ h in cc

-- The last number of a choice is not before the first number of the list.
last_seq-lower :
    (t : Option String) (since k n : ℕ) (es : List Event)
    → Consecutive k es
    → last_seq (select t since es) ≡ some n
    → k ≤ n
last_seq-lower t since k n [] c h = absurd cc
last_seq-lower t since k n (e ∷ es) (s, c) h =
    elim (Bool-cases (ltb since e.seq && is_type t e.event_type)) [
      | inr miss ↦ let later = last_seq-lower t since (suc k) n es c (rw miss at h) in omega arith
      | inl hit ↦ elim (Option-cases (last_seq (select t since es))) [
        | inl alone ↦
            let own =
              last_seq-alone e (select t since es) n (last_seq-none _ alone) (rw hit at h) in
            omega (arith, own)
        | inr (m, found) ↦
            let later = last_seq-lower t since (suc k) m es c found in
            let same : some m ≡ some n =
              sym (last_seq-cons e (select t since es) m found) ∙ (rw hit at h) in
            let equal : m ≡ n = cc in omega arith
      ]
    ]

-- No event of a suffix passes from a later number on, where none passed from an earlier one.
select_later :
    (t : Option String) (since n : ℕ) (es : List Event)
    → since ≤ n
    → select t since es ≡ []
    → select t n es ≡ []
select_later t since n [] h e = refl
select_later t since n (f ∷ es) h e =
    elim (Bool-cases (ltb since f.seq && is_type t f.event_type)) [
      | inl hit ↦ absurd (let clash = rw hit at e in cc)
      | inr miss ↦
          let rest = select_later t since n es h (rw miss at e) in
          let still : (ltb n f.seq && is_type t f.event_type) ≡ false = ground arith in
          rw still rest
    ]

-- After the last event of a choice nothing more is chosen.
select_after :
    (t : Option String) (since k n : ℕ) (es : List Event)
    → Consecutive k es
    → last_seq (select t since es) ≡ some n
    → select t n es ≡ []
select_after t since k n [] c h = refl
select_after t since k n (e ∷ es) (s, c) h =
    elim (Bool-cases (ltb since e.seq && is_type t e.event_type)) [
      | inr miss ↦
          let rest = select_after t since (suc k) n es c (rw miss at h) in
          let lower = last_seq-lower t since (suc k) n es c (rw miss at h) in
          let still : (ltb n e.seq && is_type t e.event_type) ≡ false = ground arith in
          rw still rest
      | inl hit ↦ elim (Option-cases (last_seq (select t since es))) [
        | inl alone ↦
            let own =
              last_seq-alone e (select t since es) n (last_seq-none _ alone) (rw hit at h) in
            let still : (ltb n e.seq && is_type t e.event_type) ≡ false = ground arith in
            let earlier : since ≤ n = ground arith in
            rw still (select_later t since n es earlier (last_seq-none _ alone))
        | inr (m, found) ↦
            let lower = last_seq-lower t since (suc k) m es c found in
            let same : some m ≡ some n =
              sym (last_seq-cons e (select t since es) m found) ∙ (rw hit at h) in
            let equal : m ≡ n = cc in
            let found' : last_seq (select t since es) ≡ some n = found ∙ same in
            let still : (ltb n e.seq && is_type t e.event_type) ≡ false = ground arith in
            rw still (select_after t since (suc k) n es c found')
      ]
    ]

newest_lem :
    (limit : ℕ) (asked : List Event)
    → 1 ≤ limit
    → (length (newest limit asked) ≤ limit) × (last_seq (newest limit asked) ≡ last_seq asked)
newest_lem limit asked h = elim (Bool-cases (ltb limit (length asked))) [
  | inl many ↦
      let step : newest limit asked ≡ drop (length asked - limit) asked =
        rw many (last_n-drop limit asked h) in
      let size = length-drop (length asked - limit) asked in
      let shorter : limit < length asked = ground arith in
      (
        omega (arith, ap length step, size),
        ap last_seq step ∙ last_seq-drop (length asked - limit) asked (omega arith),
      )
  | inr few ↦
      let step : newest limit asked ≡ asked = rw few refl in
      let short : length asked ≤ limit = ground arith in
      (omega (arith, ap length step), ap last_seq step)
]

page_of_nothing :
    (limit : ℕ) (asked : List Event) → 1 ≤ limit → asked ≡ [] → page_of limit asked ≡ ([], none)
page_of_nothing limit asked h e =
    let step : page_of limit [] ≡ ([], none) =
      (let short : ltb limit 0 ≡ false = ground arith in
        let positive : eqb 0 limit ≡ false = ground arith in rw (short, positive) refl) in
    ap (page_of limit) e ∙ step

page_of_more :
    (limit n : ℕ) (asked : List Event)
    → (page_of limit asked).1 ≡ some n
    → last_seq (newest limit asked) ≡ some n
page_of_more limit n asked h = elim (Bool-cases (eqb (length (newest limit asked)) limit)) [
  | inl full ↦ rw full at h
  | inr part ↦ absurd (let clash = rw part at h in cc)
]

-- `get` on a valid ring buffer, for a limit of at least 1: it returns at most that many events. Where
-- no more than that pass the filter, it returns all that pass, in order. And where it gives a number
-- to go on from, the call that goes on from there on the same buffer gets nothing: what the limit cut
-- off is older, and is not delivered later.
pub get_lem :
    (limit : ℕ) (t : Option String) (since : ℕ) (r : RingBuffer)
    → 1 ≤ limit
    → IsValid r
    → (length (get limit t since r).0 ≤ limit)
      × (length (select t since r.buf) ≤ limit → (get limit t since r).0 ≡ select t since r.buf)
      × ((n : ℕ) → (get limit t since r).1 ≡ some n → get limit t n r ≡ ([], none))
unfolding get
get_lem limit t since r h v =
    let asked = select t since r.buf in
    let (size, last) = newest_lem limit asked h in
    (
      size,
      λ few. (let short : ltb limit (length asked) ≡ false = ground arith in rw short refl),
      λ n more.
          page_of_nothing limit (select t n r.buf) h
            (select_after t since _ n r.buf v.gapless (sym last ∙ page_of_more limit n asked more)),
    )
