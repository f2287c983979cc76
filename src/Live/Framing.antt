-- ===== src/Live/Framing.antt =====
-- live_monitor.py: the frames that `feed` finds do not depend on how the bytes arrive.
use turbohaul_manager_rocm.Prelude.{
  ℕ, zero, suc, ◌+◌, ◌≤◌, false, ◌&&◌, Option, none, some, List, [], ◌∷◌, ◌++◌, eqb, ltb, length,
  length-append, arith, ◌≡◌, refl, sym, ap, ◌∙◌, inl, inr, Bool-cases, Option-cases,
}
use mathlib.Core.List.{append_assoc}
use turbohaul_manager_rocm.Live.{split_once, frames, reframe, carry_max_bytes}

-- A frame takes its separator with it.
split_once_shorter :
    (bs f rest : List ℕ) → split_once bs ≡ some (f, rest) → length rest + 2 ≤ length bs
split_once_shorter [] f rest h = absurd cc
split_once_shorter (b ∷ []) f rest h = absurd cc
split_once_shorter (b ∷ c ∷ bs) f rest h = elim (Bool-cases (eqb b 10 && eqb c 10)) [
  | inl e ↦ let same : bs ≡ rest = (let h' = rw e at h in cc) in omega (arith, ap length same)
  | inr e ↦ elim (Option-cases (split_once (c ∷ bs))) [
    | inl n ↦ absurd (let h' = rw (e, n) at h in cc)
    | inr ((g, left), n) ↦
        let shorter = split_once_shorter (c ∷ bs) g left n in
        let same : left ≡ rest = (let h' = rw (e, n) at h in cc) in omega (arith, ap length same)
  ]
]

-- More bytes at the end do not change the first frame.
split_once-append :
    (bs more f rest : List ℕ)
    → split_once bs ≡ some (f, rest)
    → split_once (bs ++ more) ≡ some (f, rest ++ more)
split_once-append [] more f rest h = absurd cc
split_once-append (b ∷ []) more f rest h = absurd cc
split_once-append (b ∷ c ∷ bs) more f rest h = elim (Bool-cases (eqb b 10 && eqb c 10)) [
  | inl e ↦ let h' : some ([], bs) ≡ some (f, rest) = rw e at h in rw e (ap (longer more) h')
  | inr e ↦ elim (Option-cases (split_once (c ∷ bs))) [
    | inl n ↦ absurd (let h' = rw (e, n) at h in cc)
    | inr ((g, left), n) ↦
        let h' : some (b ∷ g, left) ≡ some (f, rest) = rw (e, n) at h in
        rw (e, split_once-append (c ∷ bs) more g left n) (ap (longer more) h')
  ]
]
  where
    longer : List ℕ → Option (List ℕ × List ℕ) → Option (List ℕ × List ℕ)
    longer more o = elim o [ none ↦ none | some (f, rest) ↦ some (f, rest ++ more) ]

abbrev first : List ℕ → List (List ℕ) × List ℕ → List (List ℕ) × List ℕ
first f (fs, left) = (f ∷ fs, left)

frames_found :
    (n : ℕ) (bs f rest : List ℕ)
    → split_once bs ≡ some (f, rest)
    → frames (suc n) bs ≡ first f (frames n rest)
unfolding frames
frames_found n bs f rest h = rw (h, frames) refl

frames-none : (n : ℕ) (bs : List ℕ) → split_once bs ≡ none → frames n bs ≡ ([], bs)
unfolding frames
frames-none zero bs h = refl
frames-none (suc n) bs h = rw (h, frames) refl

-- Fuel for the length of the bytes is enough.
frames_enough : (n m : ℕ) (bs : List ℕ) → length bs ≤ n → length bs ≤ m → frames n bs ≡ frames m bs
unfolding frames
frames_enough zero m [] h k = sym (frames-none m [] refl)
frames_enough zero m (b ∷ bs) h k = absurd (omega arith)
frames_enough (suc n) zero [] h k = frames-none (suc n) [] refl
frames_enough (suc n) zero (b ∷ bs) h k = absurd (omega arith)
frames_enough (suc n) (suc m) bs h k = elim (Option-cases (split_once bs)) [
  | inl nothing ↦ frames-none (suc n) bs nothing ∙ sym (frames-none (suc m) bs nothing)
  | inr ((f, rest), found) ↦
      let shorter = split_once_shorter bs f rest found in
      frames_found n bs f rest found
      ∙ ap (first f) (frames_enough n m rest (omega arith) (omega arith))
      ∙ sym (frames_found m bs f rest found)
]

-- All frames of the bytes, and what is left: the loop of `feed` run to its end.
abbrev pub all_frames : List ℕ → List (List ℕ) × List ℕ
all_frames bs = frames (length bs) bs

abbrev pub then_more : List (List ℕ) → List (List ℕ) × List ℕ → List (List ℕ) × List ℕ
then_more fs (gs, left) = (fs ++ gs, left)

chunked :
    (n : ℕ) (bs more : List ℕ)
    → length bs ≤ n
    → all_frames (bs ++ more) ≡ then_more (frames n bs).0 (all_frames ((frames n bs).1 ++ more))
unfolding frames
chunked zero bs more h = refl
chunked (suc n) bs more h = elim (Option-cases (split_once bs)) [
  | inl nothing ↦
      let left = frames-none (suc n) bs nothing in
      ap (λ (r : List (List ℕ) × List ℕ). then_more r.0 (all_frames (r.1 ++ more))) (sym left)
  | inr ((f, rest), found) ↦
      let shorter = split_once_shorter bs f rest found in
      let later = split_once-append bs more f rest found in
      let size = length-append bs more in
      let size_rest = length-append rest more in
      frames_enough (length (bs ++ more)) (suc (length (bs ++ more))) (bs ++ more) (omega arith)
        (omega arith)
      ∙ frames_found (length (bs ++ more)) (bs ++ more) f (rest ++ more) later
      ∙ ap (first f) (
          frames_enough (length (bs ++ more)) (length (rest ++ more)) (rest ++ more) (omega arith)
            (omega arith))
      ∙ ap (first f) (chunked n rest more (omega arith))
      ∙ ap (λ (r : List (List ℕ) × List ℕ). then_more r.0 (all_frames (r.1 ++ more)))
          (sym (frames_found n bs f rest found))
]

within_cap :
    (carry bytes : List ℕ)
    → length (all_frames (carry ++ bytes)).1 ≤ carry_max_bytes
    → reframe carry bytes ≡ all_frames (carry ++ bytes)
unfolding reframe
within_cap carry bytes h =
    let (fs, left) = all_frames (carry ++ bytes) in
    let small : ltb carry_max_bytes (length left) ≡ false = ground arith in rw small refl

-- The cut of a stream into chunks does not matter while the carry stays within its cap: the loop of
-- `feed` on a carry and two chunks gives the same frames, and leaves the same bytes, whether the chunks
-- come one by one or as one.
pub reframe_chunks :
    (carry a b : List ℕ)
    → length (all_frames (carry ++ a)).1 ≤ carry_max_bytes
    → length (all_frames (carry ++ (a ++ b))).1 ≤ carry_max_bytes
    → reframe carry (a ++ b) ≡ then_more (reframe carry a).0 (reframe (reframe carry a).1 b)
reframe_chunks carry a b y z =
    let one = within_cap carry a y in
    let joined =
      ap all_frames (sym (append_assoc carry a b))
      ∙ chunked (length (carry ++ a)) (carry ++ a) b (omega arith) in
    let rest = all_frames ((all_frames (carry ++ a)).1 ++ b) in
    let same_left : (all_frames (carry ++ (a ++ b))).1 ≡ rest.1 =
      ap (λ (r : List (List ℕ) × List ℕ). r.1) joined in
    let two = within_cap (all_frames (carry ++ a)).1 b (omega (arith, z, ap length same_left)) in
    within_cap carry (a ++ b) z
    ∙ joined
    ∙ ap (then_more (all_frames (carry ++ a)).0) (sym two)
    ∙ ap (λ (r : List (List ℕ) × List ℕ). then_more r.0 (reframe r.1 b)) (sym one)
