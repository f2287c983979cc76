-- ===== src/Dispatch/Registry.antt =====
-- manager.py: the registry dict as the dispatcher keeps it, and its updates.
use turbohaul_manager_rocm.Prelude.{
  ℕ, ◌+◌, ◌==◌, String, Bool, true, false, not, ◌&&◌, none, some, List, [], ◌∷◌, ◌++◌,
  if◌then◌else◌, length, arith, ◌≡◌, refl, sym, ap, ◌∙◌, subst, inl, inr, Bool-cases, eq_iff, All,
}
use turbohaul_manager_rocm.Slot.{Slot}
use turbohaul_manager_rocm.Dispatch.{
  Resident, is_state, dead, lookup, assign, delete, is_live, model_residents, singleton_key,
}

abbrev pub Registry : Type 0
Registry = List (String × Resident)

-- A key is there once; no entry is dead; an entry other than the singleton stands under its own model's
-- tag and has an inbox.
abbrev pub EntryOk : String → Resident → Type 0
EntryOk k r =
    (is_state r.state dead ≡ false)
    × ((k == singleton_key) ≡ false
        → (r.model_tag ≡ some k) × (xs : List Slot) × (r.inbox ≡ some xs))

abbrev pub Keyed : Registry → Type 0
Keyed [] = Unit
Keyed ((k, r) ∷ rs) = EntryOk k r × (lookup k rs ≡ none) × Keyed rs

-- The split mode and the card of each live resident.
unfoldable pub cards : Registry → List (String × ℕ)
cards [] = []
cards ((k, r) ∷ rs) = if is_live k r then (r.split_mode, r.main_gpu) ∷ cards rs else cards rs

pub cards-length : (rs : Registry) → length (cards rs) ≡ length (model_residents rs)
unfolding cards model_residents
cards-length [] = refl
cards-length ((k, r) ∷ rs) = let rest = cards-length rs in ground arith

lookup-step :
    (k j : String) (r : Resident) (rs : Registry)
    → (j == k) ≡ false
    → lookup k ((j, r) ∷ rs) ≡ lookup k rs
lookup-step k j r rs h = rw h refl

lookup-assign_other :
    (k j : String) (s : Resident) (rs : Registry)
    → (k == j) ≡ false
    → lookup j (assign k s rs) ≡ lookup j rs
lookup-assign_other k j s [] h = rw h refl
lookup-assign_other k j s ((i, t) ∷ rs) h = elim (Bool-cases (i == k)) [
  | inl e ↦ let other : (i == j) ≡ false = ground (arith, eq_iff i k) in rw (e, other) refl
  | inr e ↦ elim (Bool-cases (i == j)) [
    | inl f ↦ rw (e, f) refl
    | inr f ↦ rw (e, f) (lookup-assign_other k j s rs h)
  ]
]

pub assign-Keyed :
    (k : String) (s : Resident) (rs : Registry) → EntryOk k s → Keyed rs → Keyed (assign k s rs)
assign-Keyed k s [] ok v = (ok, refl, tt)
assign-Keyed k s ((i, t) ∷ rs) ok (good, fresh, rest) = elim (Bool-cases (i == k)) [
  | inl e ↦
      let same : i ≡ k = ground (arith, eq_iff i k) in
      rw e (subst (λ (x : String). EntryOk x s) (sym same) ok, fresh, rest)
  | inr e ↦ rw e (
    good,
    lookup-assign_other k i s rs (ground (arith, eq_iff i k, eq_iff k i)) ∙ fresh,
    assign-Keyed k s rs ok rest,
  )
]

lookup-delete_other :
    (k j : String) (rs : Registry) → (k == j) ≡ false → lookup j (delete k rs) ≡ lookup j rs
lookup-delete_other k j [] h = refl
lookup-delete_other k j ((i, t) ∷ rs) h = elim (Bool-cases (i == k)) [
  | inl e ↦ let other : (i == j) ≡ false = ground (arith, eq_iff i k) in rw (e, other) refl
  | inr e ↦ elim (Bool-cases (i == j)) [
    | inl f ↦ rw (e, f) refl
    | inr f ↦ rw (e, f) (lookup-delete_other k j rs h)
  ]
]

pub delete-Keyed : (k : String) (rs : Registry) → Keyed rs → Keyed (delete k rs)
delete-Keyed k [] v = tt
delete-Keyed k ((i, t) ∷ rs) (good, fresh, rest) = elim (Bool-cases (i == k)) [
  | inl e ↦ rw e rest
  | inr e ↦ rw e (
    good,
    lookup-delete_other k i rs (ground (arith, eq_iff i k, eq_iff k i)) ∙ fresh,
    delete-Keyed k rs rest,
  )
]

-- A new key comes last.
pub cards-assign_new :
    (k : String) (s : Resident) (rs : Registry)
    → lookup k rs ≡ none
    → cards (assign k s rs)
      ≡ cards rs ++ (if is_live k s then (s.split_mode, s.main_gpu) ∷ [] else [])
unfolding cards
cards-assign_new k s [] h = refl
cards-assign_new k s ((i, t) ∷ rs) h = elim (Bool-cases (i == k)) [
  | inl e ↦ absurd (ground arith)
  | inr e ↦
      let rest = cards-assign_new k s rs (ground arith) in
      elim (Bool-cases (is_live i t)) [
        | inl l ↦ rw (e, l) (ap (◌∷◌ (t.split_mode, t.main_gpu)) rest)
        | inr l ↦ rw (e, l) rest
      ]
]

on_top :
    (a b : String) (m n : ℕ) (xs : List (String × ℕ)) → a ≡ b → m ≡ n → (a, m) ∷ xs ≡ (b, n) ∷ xs
on_top a b m n xs e f = rw (e, f) refl

-- An update that leaves the resident on its cards.
pub cards-assign_same :
    (k : String) (s r : Resident) (rs : Registry)
    → lookup k rs ≡ some r
    → is_state s.state dead ≡ is_state r.state dead
    → s.split_mode ≡ r.split_mode
    → s.main_gpu ≡ r.main_gpu
    → cards (assign k s rs) ≡ cards rs
unfolding cards
cards-assign_same k s r [] h a b c = absurd cc
cards-assign_same k s r ((i, t) ∷ rs) h a b c = elim (Bool-cases (i == k)) [
  | inl e ↦
      let same : t ≡ r = let h' = rw e at h in cc in
      let live : is_live i s ≡ is_live i t =
        ap (λ (x : Bool). not (i == singleton_key) && not x)
          (a ∙ ap (λ (x : Resident). is_state x.state dead) (sym same)) in
      let split : s.split_mode ≡ t.split_mode =
        b ∙ sym (ap (λ (x : Resident). x.split_mode) same) in
      let gpu : s.main_gpu ≡ t.main_gpu = c ∙ sym (ap (λ (x : Resident). x.main_gpu) same) in
      elim (Bool-cases (is_live i t)) [
        | inl l ↦
            rw (e, live ∙ l, l)
              (on_top s.split_mode t.split_mode s.main_gpu t.main_gpu (cards rs) split gpu)
        | inr l ↦ rw (e, live ∙ l, l) refl
      ]
  | inr e ↦
      let rest = cards-assign_same k s r rs (ground arith) a b c in
      elim (Bool-cases (is_live i t)) [
        | inl l ↦ rw (e, l) (ap (◌∷◌ (t.split_mode, t.main_gpu)) rest)
        | inr l ↦ rw (e, l) rest
      ]
]

pub lookup-EntryOk :
    (k : String) (r : Resident) (rs : Registry) → Keyed rs → lookup k rs ≡ some r → EntryOk k r
lookup-EntryOk k r [] v e = absurd cc
lookup-EntryOk k r ((i, t) ∷ rs) (good, fresh, rest) e = elim (Bool-cases (i == k)) [
  | inl h ↦
      let key : i ≡ k = ground (arith, eq_iff i k) in
      let same : t ≡ r = let e' = rw h at e in cc in
      subst (λ (x : String). EntryOk x r) key (subst (EntryOk i) same good)
  | inr h ↦ lookup-EntryOk k r rs rest (rw h at e)
]

pub lookup-delete-none :
    (k j : String) (rs : Registry) → lookup j rs ≡ none → lookup j (delete k rs) ≡ none
lookup-delete-none k j [] h = refl
lookup-delete-none k j ((i, t) ∷ rs) h =
    let rest = lookup-delete-none k j rs (ground arith) in
    elim (Bool-cases (i == k)) [ inl e ↦ rw e (ground arith) | inr e ↦ rw e (ground arith) ]

pub cards-delete-All {κ} :
    (P : String × ℕ → Type κ) (k : String) (rs : Registry)
    → All P (cards rs)
    → All P (cards (delete k rs))
unfolding cards
cards-delete-All P k [] h = h
cards-delete-All P k ((i, t) ∷ rs) h = elim (Bool-cases (i == k)) [
  | inl e ↦ elim (Bool-cases (is_live i t)) [
    | inl l ↦ rw e (rw l at h).1
    | inr l ↦ rw e (rw l at h)
  ]
  | inr e ↦ elim (Bool-cases (is_live i t)) [
    | inl l ↦ let (p, q) = rw l at h in rw (e, l) (p, cards-delete-All P k rs q)
    | inr l ↦ rw (e, l) (cards-delete-All P k rs (rw l at h))
  ]
]

pub cards-delete-length :
    (k : String) (v : Resident) (rs : Registry)
    → lookup k rs ≡ some v
    → is_live k v ≡ true
    → length (cards (delete k rs)) + 1 ≡ length (cards rs)
unfolding cards
cards-delete-length k v [] e l = absurd cc
cards-delete-length k v ((i, t) ∷ rs) e l = elim (Bool-cases (i == k)) [
  | inl h ↦
      let key : i ≡ k = ground (arith, eq_iff i k) in
      let same : t ≡ v = let e' = rw h at e in cc in
      let live : is_live i t ≡ true =
        ap (λ (x : String). is_live x t) key ∙ ap (is_live k) same ∙ l in
      rw (h, live) (omega arith)
  | inr h ↦
      let rest = cards-delete-length k v rs (rw h at e) l in
      elim (Bool-cases (is_live i t)) [
        | inl g ↦ rw (h, g) (omega (arith, rest))
        | inr g ↦ rw (h, g) rest
      ]
]
