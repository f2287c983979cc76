-- ===== src/Telemetry/Ring.antt =====
-- telemetry.py: the ring buffer holds the latest events without a gap.
use turbohaul_manager_rocm.Prelude.{
  ℕ, zero, suc, ◌+◌, ◌-◌, ◌≤◌, ◌<◌, String, false, Option, List, [], ◌∷◌, ◌++◌, ltb, eqb, length,
  drop, length-append, arith, ◌≡◌, refl, sym, subst, inl, inr, Bool-cases,
}
use turbohaul_manager_rocm.Telemetry.{Event, RingBuffer, append, last_n, trimmed}

-- Events with the numbers from `k` on, one after the other.
abbrev pub Consecutive : ℕ → List Event → Type 0
Consecutive k [] = Unit
Consecutive k (e ∷ es) = (e.seq ≡ k) × Consecutive (suc k) es

-- The buffer ends with the last number given, and is within its capacity.
pub record IsValid (r : RingBuffer) : Type 0 where
  pub has_room : 0 < r.capacity
  pub bounded : length r.buf ≤ r.capacity
  pub no_more : length r.buf ≤ r.last_id
  pub gapless : Consecutive (suc r.last_id - length r.buf) r.buf

Consecutive-last :
    (k : ℕ) (es : List Event) (e : Event)
    → e.seq ≡ k + length es
    → Consecutive k es
    → Consecutive k (es ++ e ∷ [])
Consecutive-last k [] e h c = (omega (arith, h), tt)
Consecutive-last k (f ∷ es) e h (s, c) = (s, Consecutive-last (suc k) es e (omega (arith, h)) c)

Consecutive-drop :
    (n k : ℕ) (es : List Event) → n ≤ length es → Consecutive k es → Consecutive (k + n) (drop n es)
Consecutive-drop zero k es h c = subst (λ (m : ℕ). Consecutive m es) (omega arith) c
Consecutive-drop (suc n) k [] h c = tt
Consecutive-drop (suc n) k (e ∷ es) h (s, c) =
    subst (λ (m : ℕ). Consecutive m (drop n es)) (omega arith)
      (Consecutive-drop n (suc k) es (omega arith) c)

pub length-drop : (n : ℕ) (es : List Event) → length (drop n es) ≡ length es - n
length-drop zero es = omega arith
length-drop (suc n) [] = omega arith
length-drop (suc n) (e ∷ es) = omega (arith, length-drop n es)

pub last_n-drop : (n : ℕ) (xs : List Event) → 0 < n → last_n n xs ≡ drop (length xs - n) xs
last_n-drop n xs h = let some_room : eqb n 0 ≡ false = ground arith in rw some_room refl

-- What is left of a gapless list within the capacity.
abbrev Kept : ℕ → ℕ → List Event → List Event → Type 0
Kept capacity k xs ys =
    Consecutive (k + (length xs - length ys)) ys
    × (length ys ≤ capacity)
    × (length ys ≤ length xs)
    × (length xs ≤ capacity → ys ≡ xs)

trimmed-Kept :
    (capacity k : ℕ) (xs : List Event)
    → 0 < capacity
    → Consecutive k xs
    → Kept capacity k xs (trimmed capacity xs)
trimmed-Kept capacity k xs room c = elim (Bool-cases (ltb capacity (length xs))) [
  | inl full ↦
      let n = length xs - capacity in
      let size = length-drop n xs in
      let big : capacity < length xs = ground arith in
      let step : trimmed capacity xs ≡ drop n xs = rw full (last_n-drop capacity xs room) in
      subst (Kept capacity k xs) (sym step) (
        subst (λ (m : ℕ). Consecutive m (drop n xs)) (omega (arith, size))
            (Consecutive-drop n k xs (omega arith) c),
        omega (arith, size),
        omega (arith, size),
        λ h. absurd (omega arith),
      )
  | inr small ↦
      let step : trimmed capacity xs ≡ xs = rw small refl in
      subst (Kept capacity k xs) (sym step)
        (subst (λ (m : ℕ). Consecutive m xs) (omega arith) c, ground arith, omega arith, λ h. refl)
]

-- An append to a valid ring buffer gives the next number. The buffer stays valid: its events are the
-- latest ones, numbered without a gap up to that number, and no more than its capacity. None is
-- dropped while there is room.
pub append-IsValid :
    (event_type : Option String) (body : String) (r : RingBuffer)
    → IsValid r
    → IsValid (append event_type body r).0
      × ((append event_type body r).1 ≡ suc r.last_id)
      × (length r.buf < r.capacity
          → (append event_type body r).0.buf
            ≡ r.buf ++ record { seq = r.last_id + 1; event_type = event_type; body = body } ∷ [])
unfolding append
append-IsValid event_type body r v =
    let e : Event = record { seq = r.last_id + 1; event_type = event_type; body = body } in
    let start = suc r.last_id - length r.buf in
    let size = length-append r.buf (e ∷ []) in
    let fewer = v.no_more in
    let chain = Consecutive-last start r.buf e (omega arith) v.gapless in
    let (kept, within, less, all) =
      trimmed-Kept r.capacity start (r.buf ++ e ∷ []) v.has_room chain in
    (
      record {
        has_room = v.has_room;
        bounded = within;
        no_more = omega (arith, size, less);
        gapless =
            subst (λ (m : ℕ). Consecutive m (trimmed r.capacity (r.buf ++ e ∷ [])))
              (omega (arith, size, less)) kept;
      },
      omega arith,
      λ h. all (omega (arith, size)),
    )
