-- ===== src/Dispatch/Ports.antt =====
-- manager.py: `_alloc_port`, the lowest free port of the window.
use turbohaul_manager_rocm.Prelude.{
  ℕ, zero, suc, ◌+◌, ◌≤◌, ◌<◌, String, Bool, true, false, none, some, List, [], ◌∷◌, if◌then◌else◌,
  eqb, ltb, length, arith, ◌≡◌, ◌⊎◌, inl, inr, Bool-cases,
}
use turbohaul_manager_rocm.Dispatch.{Resident}

abbrev pub holds : ℕ → Resident → Bool
holds p r = elim r.port [ none ↦ false | some q ↦ eqb q p ]

abbrev pub held : ℕ → List (String × Resident) → Bool
held p [] = false
held p ((k, r) ∷ rs) = if holds p r then true else held p rs

-- `for port in range(port, port + n)`, with `base` after the loop.
scan : ℕ → ℕ → ℕ → List (String × Resident) → ℕ
scan base port zero rs = base
scan base port (suc n) rs =
    let rest = scan base (port + 1) n rs in if held port rs then rest else port

unfoldable pub alloc_port : ℕ → List (String × Resident) → ℕ
unfolding scan
alloc_port base rs = scan base base 100 rs

abbrev in_window : ℕ → ℕ → Resident → ℕ
in_window port n r = elim r.port [
  | none ↦ 0
  | some q ↦ if ltb q port then 0 else if ltb q (port + n) then 1 else 0
]

abbrev count : ℕ → ℕ → List (String × Resident) → ℕ
count port n [] = 0
count port n ((k, r) ∷ rs) = in_window port n r + count port n rs

in_window_le : (port n : ℕ) (o : Resident) → in_window port n o ≤ 1
in_window_le port n o = ground arith

in_window_shrinks :
    (port n : ℕ) (o : Resident) → in_window (port + 1) n o ≤ in_window port (suc n) o
in_window_shrinks port n o = ground arith

in_window_held :
    (port n : ℕ) (o : Resident)
    → holds port o ≡ true
    → (in_window (port + 1) n o ≡ 0) × (in_window port (suc n) o ≡ 1)
in_window_held port n o h = ground arith

count_le : (port n : ℕ) (rs : List (String × Resident)) → count port n rs ≤ length rs
count_le port n [] = omega arith
count_le port n ((k, r) ∷ rs) = omega (arith, count_le port n rs, in_window_le port n r)

count_shrinks :
    (port n : ℕ) (rs : List (String × Resident)) → count (port + 1) n rs ≤ count port (suc n) rs
count_shrinks port n [] = omega arith
count_shrinks port n ((k, r) ∷ rs) =
    omega (arith, count_shrinks port n rs, in_window_shrinks port n r)

count-held :
    (port n : ℕ) (rs : List (String × Resident))
    → held port rs ≡ true
    → count (port + 1) n rs + 1 ≤ count port (suc n) rs
count-held port n [] h = absurd cc
count-held port n ((k, r) ∷ rs) h = elim (Bool-cases (holds port r)) [
  | inl e ↦ let (a, b) = in_window_held port n r e in omega (arith, a, b, count_shrinks port n rs)
  | inr e ↦ omega (arith, count-held port n rs (ground arith), in_window_shrinks port n r)
]

-- The port of the scan: free with all earlier ones held, or the whole window is held.
scan_lem :
    (base port n : ℕ) (rs : List (String × Resident))
    → ((held (scan base port n rs) rs ≡ false)
        × (port ≤ scan base port n rs)
        × (scan base port n rs < port + n)
        × ((p : ℕ) → port ≤ p → p < scan base port n rs → held p rs ≡ true))
      ⊎ (n ≤ count port n rs)
unfolding scan
scan_lem base port zero rs = inr (omega arith)
scan_lem base port (suc n) rs = elim (Bool-cases (held port rs)) [
  | inl h ↦ elim (scan_lem base (port + 1) n rs) [
    | inl (free, low, high, below) ↦ rw h (
        inl (
          free,
          omega arith,
          omega arith,
          λ p a b. elim (Bool-cases (eqb p port)) [
            | inl e ↦ let same : p ≡ port = ground arith in rw same h
            | inr e ↦ below p (ground arith) b
          ],
        ))
    | inr full ↦ inr (omega (arith, count-held port n rs h))
  ]
  | inr h ↦ rw h (inl (h, omega arith, omega arith, λ p a b. absurd (omega arith)))
]

-- With fewer than 100 entries in the registry, the port that `_alloc_port` gives is the lowest one in
-- the 100 ports from the base that no entry holds.
pub alloc_port_lowest :
    (base : ℕ) (rs : List (String × Resident))
    → length rs < 100
    → (held (alloc_port base rs) rs ≡ false)
      × (base ≤ alloc_port base rs)
      × (alloc_port base rs < base + 100)
      × ((p : ℕ) → base ≤ p → p < alloc_port base rs → held p rs ≡ true)
unfolding alloc_port
alloc_port_lowest base rs few = elim (scan_lem base base 100 rs) [
  | inl lowest ↦ lowest
  | inr full ↦ absurd (omega (arith, count_le base 100 rs))
]
