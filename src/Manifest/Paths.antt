-- ===== src/Manifest/Paths.antt =====
-- manifest.py: an accepted tag names a file of the manifests' directory.
use Prim.Native.Nat.{◌+◌}
use Prim.Native.Char.{code}
use Prim.Native.String.{[], ◌∷◌, count}
use text.Mathlib.TextLemmas.{length-cons, length-nil}
use turbohaul_manager_rocm.Prelude.{
  ℕ, ◌≤◌, String, Bool, true, false, not, ◌&&◌, eqb, ok, chop, all_codes, arith, ◌≡◌, refl, ap,
  Bool-cases, inl, inr,
}
use turbohaul_manager_rocm.Manifest.Tags.{validate_tag, tag_re, fits_tag, is_tag_char}

all_codes-chop :
    (f : ℕ → Bool) (s : String) → f 10 ≡ true → all_codes f (chop s) ≡ true → all_codes f s ≡ true
unfolding all_codes chop
all_codes-chop f [] n h = refl
all_codes-chop f (c ∷ []) n h = elim (Bool-cases (eqb (code c) 10)) [
  | inl e ↦ let c10 : code c ≡ 10 = ground arith in cc (ap f c10, n)
  | inr e ↦ let h' = rw e at h in h'
]
all_codes-chop f (c ∷ d ∷ s) n h = ground (arith, all_codes-chop f (d ∷ s) n)

all_codes_mono :
    (f g : ℕ → Bool) (s : String)
    → ((n : ℕ) → f n ≡ true → g n ≡ true)
    → all_codes f s ≡ true
    → all_codes g s ≡ true
unfolding all_codes
all_codes_mono f g [] m h = refl
all_codes_mono f g (c ∷ s) m h = ground (arith, m (code c), all_codes_mono f g s m)

count-chop : (s : String) → count s ≤ count (chop s) + 1
unfolding chop
count-chop [] = omega arith
count-chop (c ∷ []) = omega (arith, length-cons c [], length-nil)
count-chop (c ∷ d ∷ s) =
    omega (arith, count-chop (d ∷ s), length-cons c (d ∷ s), length-cons c (chop (d ∷ s)))

abbrev first_is : (ℕ → Bool) → String → Bool
first_is f [] = false
first_is f (c ∷ s) = f (code c)

first_is-chop : (f : ℕ → Bool) (s : String) → first_is f (chop s) ≡ true → first_is f s ≡ true
unfolding chop
first_is-chop f [] h = h
first_is-chop f (c ∷ []) h = elim (Bool-cases (eqb (code c) 10)) [
  | inl e ↦ absurd (let h' = rw e at h in cc)
  | inr e ↦ rw e at h
]
first_is-chop f (c ∷ d ∷ s) h = h

abbrev is_plain : ℕ → Bool
is_plain n = not (eqb n b'/') && not (eqb n b'\\') && not (eqb n 0)

-- An element of a path: no separator in it, and it does not begin with a dot.
unfoldable pub is_file_name : String → Bool
is_file_name s = first_is (λ n. not (eqb n b'.')) s && all_codes is_plain s

fits_tag-is_plain :
    (t : String)
    → fits_tag t ≡ true
    → (first_is (λ n. not (eqb n b'.')) t ≡ true) × (all_codes is_plain t ≡ true) × (count t ≤ 64)
unfolding all_codes
fits_tag-is_plain [] h = absurd cc
fits_tag-is_plain (c ∷ s) h =
    ground (arith, length-cons c s, all_codes_mono is_tag_char is_plain s λ n e. ground arith)

-- An accepted tag is an element of a path: it has no separator, is not empty and does not begin with a dot, even
-- with the newline that the pattern lets stand at its end; and it has at most 65 characters.
pub validate_tag-is_file_name :
    (tag : String) → validate_tag tag ≡ ok tt → (is_file_name tag ≡ true) × (count tag ≤ 65)
unfolding validate_tag is_file_name tag_re
validate_tag-is_file_name tag h =
    let fits : fits_tag (chop tag) ≡ true = ground (arith, h) in
    let (first, plain, short) = fits_tag-is_plain (chop tag) fits in
    let whole = first_is-chop (λ n. not (eqb n b'.')) tag first in
    let all = all_codes-chop is_plain tag refl plain in
    (rw (whole, all) refl, omega (arith, short, count-chop tag))
