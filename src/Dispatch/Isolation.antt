-- ===== src/Dispatch/Isolation.antt =====
-- manager.py: the registry under the dispatcher. Residents that live at the same time are each pinned to
-- a card of their own, and there are never more of them than the configured number.
use turbohaul_manager_rocm.Prelude.{
  ℕ, ◌+◌, ◌≤◌, ◌<◌, ◌==◌, String, Bool, true, false, Option, none, some, List, [], ◌∷◌, ◌++◌,
  if◌then◌else◌, length, arith, ◌≡◌, refl, sym, ap, ◌∙◌, subst, inl, inr, Bool-cases, All,
  length-append,
}
use mathlib.Core.List.{append-nil}
use turbohaul_manager_rocm.Slot.{Slot}
use turbohaul_manager_rocm.Dispatch.{Resident, Manager, lookup, delete, is_live, model_residents}
use turbohaul_manager_rocm.Dispatch.Registry.{
  Registry, Keyed, cards, cards-length, assign-Keyed, delete-Keyed, cards-assign_new,
  cards-delete-All, cards-delete-length,
}
use turbohaul_manager_rocm.Dispatch.Admit.{Apart, is_isolated, vram_admits_iff}
use turbohaul_manager_rocm.Dispatch.Footprint.{Footprint, read_model_footprint}
use turbohaul_manager_rocm.Dispatch.Route.{
  Settings, World, placeholder, admits, reserve_as, reserve_and_start,
}

-- Two residents, by split mode and card, that share no GPU.
abbrev pub Disjoint : String × ℕ → String × ℕ → Type 0
Disjoint (s, g) (t, h) = (is_isolated s ≡ true) × (is_isolated t ≡ true) × (g ≡ h → ⊥)

abbrev pub Separate : List (String × ℕ) → Type 0
Separate [] = Unit
Separate (c ∷ cs) = All (Disjoint c) cs × Separate cs

pub record IsValid (cap : ℕ) (rs : Registry) : Type 0 where
  pub keyed : Keyed rs
  pub separate : Separate (cards rs)
  pub within : length (cards rs) ≤ cap

All-last {κ} :
    {A : Type 0} (P : A → Type κ) (xs : List A) (x : A) → All P xs → P x → All P (xs ++ x ∷ [])
All-last P [] x h p = (p, tt)
All-last P (y ∷ ys) x (q, h) p = (q, All-last P ys x h p)

Separate-last :
    (cs : List (String × ℕ)) (x : String × ℕ)
    → Separate cs
    → All (λ (c : String × ℕ). Disjoint c x) cs
    → Separate (cs ++ x ∷ [])
Separate-last [] x h k = (tt, tt)
Separate-last (c ∷ cs) x (all, rest) (d, k) =
    (All-last (Disjoint c) cs x all d, Separate-last cs x rest k)

Apart-Disjoint :
    (split : String) (gpu : ℕ) (rs : Registry)
    → is_isolated split ≡ true
    → All (Apart gpu) (model_residents rs)
    → All (λ (c : String × ℕ). Disjoint c (split, gpu)) (cards rs)
unfolding cards model_residents
Apart-Disjoint split gpu [] i h = tt
Apart-Disjoint split gpu ((k, r) ∷ rs) i h = elim (Bool-cases (is_live k r)) [
  | inl l ↦ let ((a, b), rest) = rw l at h in rw l ((a, i, b), Apart-Disjoint split gpu rs i rest)
  | inr l ↦ rw l (Apart-Disjoint split gpu rs i (rw l at h))
]

Separate-delete :
    (k : String) (rs : Registry) → Separate (cards rs) → Separate (cards (delete k rs))
unfolding cards
Separate-delete k [] h = h
Separate-delete k ((i, t) ∷ rs) h = elim (Bool-cases (i == k)) [
  | inl e ↦ elim (Bool-cases (is_live i t)) [
    | inl l ↦ rw e (rw l at h).1
    | inr l ↦ rw e (rw l at h)
  ]
  | inr e ↦ elim (Bool-cases (is_live i t)) [
    | inl l ↦
        let (p, q) = rw l at h in
        rw (e, l)
          (cards-delete-All (Disjoint (t.split_mode, t.main_gpu)) k rs p, Separate-delete k rs q)
    | inr l ↦ rw (e, l) (Separate-delete k rs (rw l at h))
  ]
]

pub delete-IsValid :
    (cap : ℕ) (rs : Registry) (k : String) (v : Resident)
    → IsValid cap rs
    → lookup k rs ≡ some v
    → is_live k v ≡ true
    → IsValid cap (delete k rs) × (length (cards (delete k rs)) < cap)
delete-IsValid cap rs k v h found live =
    let shorter = cards-delete-length k v rs found live in
    (
      record {
        keyed = delete-Keyed k rs h.keyed;
        separate = Separate-delete k rs h.separate;
        within = omega (arith, shorter, h.within);
      },
      omega (arith, shorter, h.within),
    )

Separate-one : (x : String × ℕ) → Separate (x ∷ [])
Separate-one x = (tt, tt)

cards-none : (rs : Registry) → model_residents rs ≡ [] → cards rs ≡ []
cards-none rs e = empty (cards rs) (cards-length rs ∙ ap length e)
  where
    empty : (cs : List (String × ℕ)) → length cs ≡ 0 → cs ≡ []
    empty [] h = refl
    empty (c ∷ cs) h = absurd (omega arith)

-- The placeholder joins residents that share no card with it.
joined-Separate :
    (w : World) (m : Manager) (f : Footprint)
    → admits w m f ≡ true
    → Separate (cards m.residents)
    → Separate (cards m.residents ++ (f.split_mode, f.main_gpu) ∷ [])
joined-Separate w m f ok h =
    let alone : model_residents m.residents ≡ []
        → Separate (cards m.residents ++ (f.split_mode, f.main_gpu) ∷ []) =
      λ e. rw (cards-none m.residents e) (Separate-one (f.split_mode, f.main_gpu)) in
    elim ((vram_admits_iff w.gpu_free f.need f.main_gpu f.split_mode
        (model_residents m.residents)).0
      ok) [
        | inl (e, b) ↦ alone e
        | inr (inl e, b, c, d) ↦ alone e
        | inr (inr (i, all), b, c, d) ↦
            Separate-last (cards m.residents) (f.split_mode, f.main_gpu) h
              (Apart-Disjoint f.split_mode f.main_gpu m.residents i all)
      ]

added-Separate :
    (cs : List (String × ℕ)) (b : Bool) (x : String × ℕ)
    → Separate cs
    → Separate (cs ++ x ∷ [])
    → Separate (cs ++ (if b then x ∷ [] else []))
added-Separate cs true x h k = k
added-Separate cs false x h k = subst Separate (sym (append-nil cs)) h

added_length :
    (cs : List (String × ℕ)) (b : Bool) (x : String × ℕ)
    → length (cs ++ (if b then x ∷ [] else [])) ≤ length cs + 1
added_length cs true x = omega (arith, length-append cs (x ∷ []))
added_length cs false x = omega (arith, length-append cs [])

reserve_as-IsValid :
    (st : Settings) (w : World) (slot : Slot) (m : Manager) (o : Option Footprint)
    → IsValid st.max_parallel_sidecars m.residents
    → length (cards m.residents) < st.max_parallel_sidecars
    → lookup slot.model_tag m.residents ≡ none
    → IsValid st.max_parallel_sidecars (reserve_as st w slot m o).1.residents
reserve_as-IsValid st w slot m none h room fresh = h
reserve_as-IsValid st w slot m (some f) h room fresh = elim (Bool-cases (admits w m f)) [
  | inl a ↦
      let r = placeholder st w slot m f in
      let same = cards-assign_new slot.model_tag r m.residents fresh in
      let b = is_live slot.model_tag r in
      rw a (record {
        keyed =
            assign-Keyed slot.model_tag r m.residents (refl, λ e. (refl, slot ∷ [], refl)) h.keyed;
        separate = subst Separate (sym same) (
            added-Separate (cards m.residents) b (r.split_mode, r.main_gpu) h.separate
              (joined-Separate w m f a h.separate));
        within =
            subst (λ (cs : List (String × ℕ)). length cs ≤ st.max_parallel_sidecars) (sym same)
              (omega (arith, added_length (cards m.residents) b (r.split_mode, r.main_gpu), room));
      })
  | inr a ↦ rw a h
]

pub reserve-IsValid :
    (st : Settings) (w : World) (slot : Slot) (m : Manager)
    → IsValid st.max_parallel_sidecars m.residents
    → length (cards m.residents) < st.max_parallel_sidecars
    → lookup slot.model_tag m.residents ≡ none
    → IsValid st.max_parallel_sidecars (reserve_and_start st w slot m).1.residents
unfolding reserve_and_start
reserve-IsValid st w slot m h room fresh =
    reserve_as-IsValid st w slot m (read_model_footprint (w.manifests slot.model_tag)) h room fresh
