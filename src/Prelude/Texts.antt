-- ===== src/Prelude/Texts.antt =====
-- Texts by their characters, beside the library's comparison.
use Prim.Native.Nat.{ℕ, ◌-◌}
use Prim.Native.Char.{Char, code}
use Prim.Native.String.{String, [], ◌∷◌, ◌++◌, slice, len, find}
use mathlib.Core.Bool.{Bool, true, ◌&&◌}
use mathlib.Core.Path.{◌≡◌, refl}
use native.Mathlib.Omega.{arith}
use mathlib.Core.Logic.{inl, inr}
use mathlib.Core.Bool.{not}
use text.Mathlib.TextEquality.{Char-path}
use text.Mathlib.Text.{◌==◌}
use turbohaul_manager_rocm.Prelude.Tests.{eqb, leb, Bool-cases, if◌then◌else◌}

abbrev pub concat : String → String → String
concat s t = s ++ t

-- Python's `$` also matches in front of a newline that ends the text.
unfoldable pub chop : String → String
chop [] = []
chop (c ∷ []) = if eqb (code c) 10 then [] else c ∷ []
chop (c ∷ d ∷ s) = c ∷ chop (d ∷ s)

unfoldable pub all_codes : (ℕ → Bool) → String → Bool
all_codes f [] = true
all_codes f (c ∷ s) = f (code c) && all_codes f s

abbrev pub ends_with : String → String → Bool
ends_with s t = slice s (len s - len t) (len s) == t

-- `t in s`: the library's `find` answers past the end where there is none.
abbrev pub includes : String → String → Bool
includes s t = leb (find s t) (len s)

abbrev pub swap : Char → Char → Char → Char
swap a b c = if eqb (code c) (code a) then b else c

-- `s.replace(a, b)` for single characters.
unfoldable pub replace : Char → Char → String → String
replace a b [] = []
replace a b (c ∷ s) = swap a b c ∷ replace a b s

swap-swap : (a b c : Char) → not (eqb (code c) (code b)) ≡ true → swap b a (swap a b c) ≡ c
swap-swap a b c h = elim (Bool-cases (eqb (code c) (code a))) [
  | inl e ↦ rw e (ground (arith, Char-path c a))
  | inr e ↦ rw e (ground arith)
]

-- A replacement is undone where the new character did not stand in the text.
pub replace-replace :
    (a b : Char) (s : String)
    → all_codes (λ c. not (eqb c (code b))) s ≡ true
    → replace b a (replace a b s) ≡ s
unfolding replace all_codes
replace-replace a b [] h = refl
replace-replace a b (c ∷ s) h =
    cc (swap-swap a b c (ground arith), replace-replace a b s (ground arith))
