-- ===== src/Live/Eviction.antt =====
-- live_monitor.py: `_evict` keeps the number of buffers bounded and never takes a watched one.
use turbohaul_manager_rocm.Prelude.{
  ℕ, zero, suc, ◌≤◌, String, true, Option, none, some, List, [], ◌∷◌, if◌then◌else◌, ltb, length,
  arith, ◌≡◌, refl, sym, ap, ◌∙◌, subst, ◌⊎◌, inl, inr, Bool-cases, All,
}
use turbohaul_manager_rocm.Live.{GenBuf, is_watched, evict_one, evict_loop, evict}

abbrev Buffers : Type 0
Buffers = List (String × GenBuf)

-- The watched buffers, in their order.
abbrev pub watched : Buffers → Buffers
watched [] = []
watched ((k, b) ∷ bs) = if is_watched b then (k, b) ∷ watched bs else watched bs

abbrev pub AllWatched : Buffers → Type 0
AllWatched bs = All (λ (e : String × GenBuf). is_watched e.1 ≡ true) bs

abbrev Goes : Buffers → Option Buffers → Type 0
Goes bs o =
    ((o ≡ none) × AllWatched bs)
    ⊎ ((rest : Buffers) × (o ≡ some rest)
        × (suc (length rest) ≡ length bs)
        × (watched rest ≡ watched bs))

evict_one-Goes : (bs : Buffers) → Goes bs (evict_one bs)
evict_one-Goes [] = inl (refl, tt)
evict_one-Goes ((k, b) ∷ bs) = elim (Bool-cases (is_watched b)) [
  | inr h ↦ rw h (inr (bs, refl, refl, refl))
  | inl h ↦ elim (evict_one-Goes bs) [
    | inl (e, all) ↦
        let step : evict_one ((k, b) ∷ bs) ≡ none = rw (h, e) refl in
        subst (Goes ((k, b) ∷ bs)) (sym step) (inl (refl, (h, all)))
    | inr (rest, e, shorter, same) ↦
        let step : evict_one ((k, b) ∷ bs) ≡ some ((k, b) ∷ rest) = rw (h, e) refl in
        let kept : watched ((k, b) ∷ rest) ≡ watched ((k, b) ∷ bs) = rw h (ap (◌∷◌ (k, b)) same) in
        subst (Goes ((k, b) ∷ bs)) (sym step)
          (inr ((k, b) ∷ rest, refl, omega (arith, shorter), kept))
  ]
]

abbrev Bounded : ℕ → Buffers → Buffers → Type 0
Bounded cap bs r = ((length r ≤ cap) ⊎ AllWatched r) × (watched r ≡ watched bs)

evict_loop-Bounded :
    (n cap : ℕ) (bs : Buffers) → length bs ≤ n → Bounded cap bs (evict_loop n cap bs)
unfolding evict_loop
evict_loop-Bounded zero cap bs h = (inl (omega arith), refl)
evict_loop-Bounded (suc n) cap bs h = elim (Bool-cases (ltb cap (length bs))) [
  | inr fits ↦ rw fits (inl (ground arith), refl)
  | inl many ↦ elim (evict_one-Goes bs) [
    | inl (e, all) ↦ rw (many, e) (inr all, refl)
    | inr (rest, e, shorter, same) ↦
        let (bound, kept) = evict_loop-Bounded n cap rest (omega (arith, shorter)) in
        rw (many, e) (bound, kept ∙ same)
  ]
]

-- After `_evict` there are no more buffers than the cap, or every one that is left has a subscriber;
-- the buffers with subscribers are all still there, unchanged and in their order.
pub evict-Bounded :
    (cap : ℕ) (bs : List (String × GenBuf))
    → ((length (evict cap bs) ≤ cap) ⊎ AllWatched (evict cap bs))
      × (watched (evict cap bs) ≡ watched bs)
unfolding evict
evict-Bounded cap bs = evict_loop-Bounded (length bs) cap bs (omega arith)
