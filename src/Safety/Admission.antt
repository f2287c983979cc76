-- ===== src/Safety/Admission.antt =====
-- safety.py: exactly what `check_kv_cache_fit` admits, and what follows for smaller requests.
use turbohaul_manager_rocm.Prelude.{
  ℕ, String, ◌/◌, ◌≤◌, true, false, Option, none, some, List, arith, ◌≡◌, refl, ◌⊎◌, inl, inr, ◌↔◌,
  Bool-cases, ◌∙◌, subst, sym, eqb,
}
use turbohaul_manager_rocm.Safety.{VramBudget, vram_budget}
use turbohaul_manager_rocm.Safety.Kv.{
  FitQuery, kv_mib, vram_need, uses_measured, check_kv_cache_fit, check_host_ram, fit_on,
}
use turbohaul_manager_rocm.Safety.Fit.{AsksLess, kv_mono, need_mono}

-- The KV cache that is not on a GPU has its place in the host's memory, as far as that is known.
abbrev pub HostHolds : Option ℕ → FitQuery → Type 0
HostHolds meminfo f =
    (uses_measured f ≡ true)
    ⊎ (f.no_kv_offload ≡ false)
    ⊎ (meminfo ≡ none)
    ⊎ ((avail_kib : ℕ) × (meminfo ≡ some avail_kib) × (kv_mib f ≤ avail_kib / 1024))

abbrev pub Fits : Option ℕ → FitQuery → Option VramBudget → Type 0
Fits meminfo f budget =
    ((budget ≡ none) × (f.parallel ≤ 1))
    ⊎ ((b : VramBudget) × (budget ≡ some b) × (vram_need f ≤ b.free_for_fit) × HostHolds meminfo f)

host_iff :
    (meminfo : Option ℕ) (f : FitQuery)
    → ((check_host_ram meminfo f).ok ≡ true) ↔ (
        (meminfo ≡ none)
        ⊎ ((avail_kib : ℕ) × (meminfo ≡ some avail_kib) × (kv_mib f ≤ avail_kib / 1024)))
host_iff none f = (λ h. inl refl, λ h. refl)
host_iff (some k) f = (λ h. inr (k, refl, ground arith), λ h. ground arith)

fitting_iff :
    (meminfo : Option ℕ) (f : FitQuery) (b : VramBudget)
    → vram_need f ≤ b.free_for_fit
    → ((fit_on meminfo f (some b)).ok ≡ true) ↔ HostHolds meminfo f
unfolding fit_on
fitting_iff meminfo f b fits = (
  λ h. elim (Bool-cases (uses_measured f)) [
    | inl m ↦ inl m
    | inr m ↦ elim (Bool-cases f.no_kv_offload) [
      | inl o ↦ inr (inr ((host_iff meminfo f).0 (ground arith)))
      | inr o ↦ inr (inl o)
    ]
  ],
  λ h. elim h [
    | inl m ↦ ground arith
    | inr (inl o) ↦ ground arith
    | inr (inr k) ↦ ground (arith, (host_iff meminfo f).1 k)
  ],
)

fit_on_iff :
    (meminfo : Option ℕ) (f : FitQuery) (budget : Option VramBudget)
    → ((fit_on meminfo f budget).ok ≡ true) ↔ Fits meminfo f budget
unfolding fit_on
fit_on_iff meminfo f none = (
  λ h. inl (refl, ground arith),
  λ h. elim h [ inl (e, p) ↦ ground arith | inr (b, e, fits, host) ↦ absurd cc ],
)
fit_on_iff meminfo f (some b) = (
  λ h.
      let fits : vram_need f ≤ b.free_for_fit = ground arith in
      inr (b, refl, fits, (fitting_iff meminfo f b fits).0 h),
  λ h. elim h [
    | inl (e, p) ↦ absurd cc
    | inr (c, e, fits, host) ↦
        let same : b ≡ c = cc in
        (fitting_iff meminfo f b
            (subst (λ (x : VramBudget). vram_need f ≤ x.free_for_fit) (sym same) fits)).1
          host
  ],
)

-- The KV-cache gate passes exactly when one of these holds: the context or the model file has size 0
-- (nothing to estimate); no GPU could be probed and at most one slot is asked for; or the budget of
-- the probed cards covers the need, and without KV offload (and no measured size) the available host
-- memory, if it could be read, covers the KV cache.
pub check_kv_cache_fit_iff :
    (probe : Option (List ℕ)) (meminfo : Option ℕ) (f : FitQuery)
    → ((check_kv_cache_fit probe meminfo f).ok ≡ true) ↔ (
        (f.ctx_size ≡ 0)
        ⊎ (f.gguf_size_bytes ≡ 0)
        ⊎ Fits meminfo f (vram_budget probe f.split_mode f.main_gpu))
unfolding check_kv_cache_fit
check_kv_cache_fit_iff probe meminfo f =
    let (forth, back) = fit_on_iff meminfo f (vram_budget probe f.split_mode f.main_gpu) in
    (
      λ h. elim (Bool-cases (eqb f.ctx_size 0)) [
        | inl c ↦ inl (ground arith)
        | inr c ↦ elim (Bool-cases (eqb f.gguf_size_bytes 0)) [
          | inl g ↦ inr (inl (ground arith))
          | inr g ↦ inr (inr (forth (ground arith)))
        ]
      ],
      λ h. elim h [
        | inl c ↦ ground arith
        | inr (inl g) ↦ ground arith
        | inr (inr k) ↦ ground (arith, back k)
      ],
    )

host_antitone :
    (meminfo : Option ℕ) (f g : FitQuery) → AsksLess f g → HostHolds meminfo g → HostHolds meminfo f
host_antitone meminfo f g a (inl m) = inl (ground (arith, a.same_moe, a.same_expected, m))
host_antitone meminfo f g a (inr (inl o)) = inr (inl (a.same_offload ∙ o))
host_antitone meminfo f g a (inr (inr (inl e))) = inr (inr (inl e))
host_antitone meminfo f g a (inr (inr (inr (k, e, le)))) =
    inr (inr (inr (k, e, omega (arith, kv_mono f g a))))

Fits-antitone :
    (meminfo : Option ℕ) (f g : FitQuery) (budget : Option VramBudget)
    → AsksLess f g
    → Fits meminfo g budget
    → Fits meminfo f budget
Fits-antitone meminfo f g budget a (inl (e, p)) = inl (e, omega (arith, a.concurrency))
Fits-antitone meminfo f g budget a (inr (b, e, fits, host)) =
    inr (b, e, omega (arith, need_mono f g a), host_antitone meminfo f g a host)

-- On the same readings, a configuration that the KV-cache gate passes still passes with a smaller
-- context, overhead or number of slots: for a request that differs from it in these three alone and
-- asks for no more in any of them, the gate passes.
pub check_kv_cache_fit_antitone :
    (probe : Option (List ℕ)) (meminfo : Option ℕ) (f g : FitQuery)
    → AsksLess f g
    → (check_kv_cache_fit probe meminfo g).ok ≡ true
    → (check_kv_cache_fit probe meminfo f).ok ≡ true
check_kv_cache_fit_antitone probe meminfo f g a h =
    (check_kv_cache_fit_iff probe meminfo f).1
      (elim ((check_kv_cache_fit_iff probe meminfo g).0 h) [
        | inl c ↦ inl (omega (arith, a.ctx))
        | inr (inl z) ↦ inr (inl (a.same_model ∙ z))
        | inr (inr k) ↦ inr (
            inr (
              Fits-antitone meminfo f g _ a (
                subst (λ (s : String). Fits meminfo g (vram_budget probe s f.main_gpu))
                  (sym a.same_split)
                  (subst (λ (n : ℕ). Fits meminfo g (vram_budget probe g.split_mode n))
                    (sym a.same_gpu) k))))
      ])
