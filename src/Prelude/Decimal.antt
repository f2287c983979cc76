-- ===== src/Prelude/Decimal.antt =====
-- The decimal text of a number, Python's `str`, and how it reads back.
use Prim.Native.Nat.{ℕ, zero, suc, ◌+◌, ◌-◌, ◌*◌, ◌/◌, ◌%◌, ◌<◌}
use Prim.Native.Char.{code}
use Prim.Native.String.{String, [], ◌∷◌, ◌++◌, slice}
use mathlib.Core.Bool.{true, false}
use mathlib.Core.Path.{◌≡◌}
use native.Mathlib.Omega.{arith}
use text.Mathlib.TextLemmas.{nil-append, cons-append}
use turbohaul_manager_rocm.Prelude.Tests.{ltb}

abbrev pub digit : ℕ → String
digit d = slice "0123456789" d (d + 1)

-- On fuel: a number has no more digits than its successor.
unfoldable pub digits : ℕ → ℕ → String
digits zero n = digit n
digits (suc fuel) n = elim (ltb n 10) [
  | true ↦ digit n
  | false ↦ digits fuel (n / 10) ++ digit (n % 10)
]

unfoldable pub decimal : ℕ → String
unfolding digits
decimal n = digits n n

-- The number that the characters spell behind `k`.
unfoldable pub of_decimal : ℕ → String → ℕ
of_decimal k [] = k
of_decimal k (c ∷ s) = of_decimal (k * 10 + (code c - 48)) s

of_decimal-append : (k : ℕ) (s t : String) → of_decimal k (s ++ t) ≡ of_decimal (of_decimal k s) t
unfolding of_decimal
of_decimal-append k [] t = rw (nil-append t)
of_decimal-append k (c ∷ s) t =
    rw (cons-append c s t) (of_decimal-append (k * 10 + (code c - 48)) s t)

of_decimal-digit : (k d : ℕ) → d < 10 → of_decimal k (digit d) ≡ k * 10 + d
unfolding of_decimal
of_decimal-digit k zero h = omega arith
of_decimal-digit k (suc zero) h = omega arith
of_decimal-digit k (suc (suc zero)) h = omega arith
of_decimal-digit k (suc (suc (suc zero))) h = omega arith
of_decimal-digit k (suc (suc (suc (suc zero)))) h = omega arith
of_decimal-digit k (suc (suc (suc (suc (suc zero))))) h = omega arith
of_decimal-digit k (suc (suc (suc (suc (suc (suc zero)))))) h = omega arith
of_decimal-digit k (suc (suc (suc (suc (suc (suc (suc zero))))))) h = omega arith
of_decimal-digit k (suc (suc (suc (suc (suc (suc (suc (suc zero)))))))) h = omega arith
of_decimal-digit k (suc (suc (suc (suc (suc (suc (suc (suc (suc zero))))))))) h = omega arith
of_decimal-digit k (suc (suc (suc (suc (suc (suc (suc (suc (suc (suc d)))))))))) h =
    absurd (omega arith)

of_decimal-digits : (fuel n : ℕ) → n < suc fuel → of_decimal 0 (digits fuel n) ≡ n
unfolding digits
of_decimal-digits zero n h = omega (arith, of_decimal-digit 0 n (omega arith))
of_decimal-digits (suc fuel) n h = ground (
  arith,
  of_decimal-digit 0 n,
  of_decimal-append 0 (digits fuel (n / 10)) (digit (n % 10)),
  of_decimal-digits fuel (n / 10),
  of_decimal-digit (n / 10) (n % 10),
)

-- Reading the decimal text of a number gives the number.
pub of_decimal-decimal : (n : ℕ) → of_decimal 0 (decimal n) ≡ n
unfolding decimal
of_decimal-decimal n = of_decimal-digits n n (omega arith)

pub decimal-injective : (m n : ℕ) → decimal m ≡ decimal n → m ≡ n
decimal-injective m n h = cc (of_decimal-decimal m, of_decimal-decimal n)
