-- ===== src/Dispatch/Admit.antt =====
-- manager.py: the cross-resident VRAM gate, `_vram_admits_locked`.
use turbohaul_manager_rocm.Prelude.{
  ℕ, ◌+◌, ◌≤◌, ◌==◌, String, Bool, true, false, not, ◌&&◌, ◌||◌, Option, none, some, List, [], ◌∷◌,
  if◌then◌else◌, eqb, leb, arith, ◌≡◌, refl, ◌⊎◌, inl, inr, ◌↔◌, Bool-cases, All,
}
use turbohaul_manager_rocm.Safety.{VramBudget, vram_budget}
use turbohaul_manager_rocm.Dispatch.{Resident, is_state, reserved_loading}

-- A split mode is in lower case; an empty one means "layer".
abbrev pub is_isolated : String → Bool
is_isolated split_mode = split_mode == "none"

-- The loop over the siblings: each is isolated, on another card.
abbrev pub all_apart : ℕ → List Resident → Bool
all_apart main_gpu [] = true
all_apart main_gpu (r ∷ rs) =
    let rest = all_apart main_gpu rs in
    if not (is_isolated r.split_mode)
    then false
    else if eqb r.main_gpu main_gpu
    then false
    else rest

abbrev pub booting_reserve : ℕ → List Resident → ℕ
booting_reserve main_gpu [] = 0
booting_reserve main_gpu (r ∷ rs) =
    (if is_state r.state reserved_loading && eqb r.main_gpu main_gpu
      then r.reserved_need_mib
      else 0)
    + booting_reserve main_gpu rs

abbrev pub no_siblings : List Resident → Bool
no_siblings [] = true
no_siblings (r ∷ rs) = false

-- `(free_fit - reserve) >= need`, on integers; `none` is an unreadable probe.
budget_admits : ℕ → ℕ → List Resident → Option VramBudget → Bool
budget_admits need main_gpu siblings none = no_siblings siblings
budget_admits need main_gpu siblings (some b) =
    leb (need + booting_reserve main_gpu siblings) b.free_for_fit

unfoldable pub vram_admits : Option (List ℕ) → ℕ → ℕ → String → List Resident → Bool
unfolding budget_admits
vram_admits probe need main_gpu split_mode siblings =
    if no_siblings siblings || (is_isolated split_mode && all_apart main_gpu siblings)
    then budget_admits need main_gpu siblings (vram_budget probe split_mode main_gpu)
    else false

-- A sibling that leaves the card alone.
abbrev pub Apart : ℕ → Resident → Type 0
Apart main_gpu r = (is_isolated r.split_mode ≡ true) × (r.main_gpu ≡ main_gpu → ⊥)

all_apart-All : (g : ℕ) (rs : List Resident) → all_apart g rs ≡ true → All (Apart g) rs
all_apart-All g [] h = tt
all_apart-All g (r ∷ rs) h = ((ground arith, λ e. ground arith), all_apart-All g rs (ground arith))

All-all_apart : (g : ℕ) (rs : List Resident) → All (Apart g) rs → all_apart g rs ≡ true
All-all_apart g [] h = refl
All-all_apart g (r ∷ rs) ((i, o), h) =
    let rest = All-all_apart g rs h in
    elim (Bool-cases (eqb r.main_gpu g)) [
      | inl e ↦ absurd (o (ground arith))
      | inr e ↦ ground arith
    ]

-- The reserve for siblings that still load is 0 wherever it is read.
no_reserve : (g : ℕ) (rs : List Resident) → all_apart g rs ≡ true → booting_reserve g rs ≡ 0
no_reserve g [] h = refl
no_reserve g (r ∷ rs) h = let rest = no_reserve g rs (ground arith) in ground arith

lone_iff :
    (need g : ℕ) (o : Option VramBudget)
    → (budget_admits need g [] o ≡ true)
      ↔ ((o ≡ none) ⊎ ((b : VramBudget) × (o ≡ some b) × (need ≤ b.free_for_fit)))
unfolding budget_admits
lone_iff need g none = (λ h. inl refl, λ h. refl)
lone_iff need g (some b) = (
  λ h. inr (b, refl, ground arith),
  λ h. elim h [ inl e ↦ absurd cc | inr (c, e, le) ↦ let same : b ≡ c = cc in ground arith ],
)

crowd_iff :
    (need g : ℕ) (r : Resident) (rs : List Resident) (o : Option VramBudget)
    → all_apart g (r ∷ rs) ≡ true
    → (budget_admits need g (r ∷ rs) o ≡ true)
      ↔ ((b : VramBudget) × (o ≡ some b) × (need ≤ b.free_for_fit))
unfolding budget_admits
crowd_iff need g r rs none a = (λ h. absurd cc, λ (b, e, le). absurd cc)
crowd_iff need g r rs (some b) a =
    let nothing = no_reserve g (r ∷ rs) a in
    (
      λ h. (b, refl, ground (arith, nothing)),
      λ (c, e, le). let same : b ≡ c = cc in rw nothing (ground arith),
    )

-- The cross-resident gate admits a model exactly in these cases. With no live sibling: the probe
-- failed, or the budget covers the need. With siblings: the model is pinned to one card, every sibling
-- is pinned to another card, the probe gave a budget, and it covers the need. (So what siblings have
-- reserved while they load never counts.)
pub vram_admits_iff :
    (probe : Option (List ℕ)) (need main_gpu : ℕ) (split_mode : String) (siblings : List Resident)
    → (vram_admits probe need main_gpu split_mode siblings ≡ true) ↔ (
        ((siblings ≡ []) × (vram_budget probe split_mode main_gpu ≡ none))
        ⊎ (((siblings ≡ []) ⊎ ((is_isolated split_mode ≡ true) × All (Apart main_gpu) siblings))
            × (b : VramBudget) × (vram_budget probe split_mode main_gpu ≡ some b)
            × (need ≤ b.free_for_fit)))
unfolding vram_admits
vram_admits_iff probe need main_gpu split_mode [] =
    let (forth, back) = lone_iff need main_gpu (vram_budget probe split_mode main_gpu) in
    (
      λ h. elim (forth h) [ inl e ↦ inl (refl, e) | inr (b, e, le) ↦ inr (inl refl, b, e, le) ],
      λ h. elim h [ inl (a, e) ↦ back (inl e) | inr (a, b, e, le) ↦ back (inr (b, e, le)) ],
    )
vram_admits_iff probe need main_gpu split_mode (r ∷ rs) = (
  λ h.
      let apart : all_apart main_gpu (r ∷ rs) ≡ true = ground arith in
      let isolated : is_isolated split_mode ≡ true = ground arith in
      let (b, e, le) =
        (crowd_iff need main_gpu r rs (vram_budget probe split_mode main_gpu) apart).0
          (ground arith) in
      inr (inr (isolated, all_apart-All main_gpu (r ∷ rs) apart), b, e, le),
  λ h. elim h [
    | inl (a, e) ↦ absurd cc
    | inr (inl a, b, e, le) ↦ absurd cc
    | inr (inr (isolated, all), b, e, le) ↦
        let apart = All-all_apart main_gpu (r ∷ rs) all in
        let admits =
          (crowd_iff need main_gpu r rs (vram_budget probe split_mode main_gpu) apart).1
            (b, e, le) in
        ground arith
  ],
)
