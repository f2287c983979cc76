-- ===== src/Safety/Budget.antt =====
-- safety.py: the VRAM budget of a spawn, and what all gates together guarantee.
use turbohaul_manager_rocm.Prelude.{
  ℕ, zero, suc, ◌+◌, ◌-◌, ◌*◌, ◌/◌, ◌≤◌, String, true, Option, none, some, List, [], ◌∷◌, eqb, leb,
  arith, ◌≡◌, refl, ◌⊎◌, inl, inr, Bool-cases, length,
}
use Prim.Native.Nat.{max}
use turbohaul_manager_rocm.Safety.{
  VramBudget, vram_budget, mib, sum, minimum, get_or, pins_one_gpu, check_free_ram, check_free_vram,
  check_load_avg, check_iowait,
}
use turbohaul_manager_rocm.Safety.Kv.{FitQuery, check_kv_cache_fit}
use turbohaul_manager_rocm.Safety.Spawn.{Probes, Limits, all_safety_gates, run_spawn_safety_gate}

minimum_le_sum : (v : ℕ) (vs : List ℕ) → minimum v vs ≤ sum (v ∷ vs)
minimum_le_sum v [] = omega arith
minimum_le_sum v (w ∷ ws) = omega (arith, minimum_le_sum w ws)

get_or_le_sum : (vs : List ℕ) (i d m : ℕ) → d ≤ m → sum vs ≤ m → get_or vs i d ≤ m
get_or_le_sum [] i d m h k = h
get_or_le_sum (v ∷ vs) zero d m h k = omega arith
get_or_le_sum (v ∷ vs) (suc i) d m h k = get_or_le_sum vs i d m h (omega arith)

pinned_alone : (v i : ℕ) → get_or (v ∷ []) i v ≡ v
pinned_alone v zero = refl
pinned_alone v (suc i) = refl

one_card :
    (v : ℕ) (split_mode : String) (main_gpu : ℕ)
    → vram_budget (some (v ∷ [])) split_mode main_gpu
      ≡ some (record { free_for_fit = v; min_per_card_free = v; n_cards = 1 })
unfolding vram_budget
one_card v split_mode main_gpu = elim (Bool-cases (pins_one_gpu split_mode)) [
  | inl h ↦ rw (h, pinned_alone v main_gpu) refl
  | inr h ↦ let one : v + 0 ≡ v = omega arith in rw (h, one) refl
]

-- The VRAM budget of a probe with at least one card counts at least one card, and never more than
-- were probed; its smallest free amount is at most the amount budgeted, which is at most the sum over
-- all cards. On one card every split mode and pin gives that card's free amount.
pub vram_budget_bounds :
    (v : ℕ) (vs : List ℕ) (split_mode : String) (main_gpu : ℕ)
    → ((b : VramBudget) × (vram_budget (some (v ∷ vs)) split_mode main_gpu ≡ some b)
        × (1 ≤ b.n_cards)
        × (b.n_cards ≤ length (v ∷ vs))
        × (b.min_per_card_free ≤ b.free_for_fit)
        × (b.free_for_fit ≤ sum (v ∷ vs)))
      × (vram_budget (some (v ∷ [])) split_mode main_gpu
          ≡ some (record { free_for_fit = v; min_per_card_free = v; n_cards = 1 }))
unfolding vram_budget
vram_budget_bounds v vs split_mode main_gpu = (
  elim (Bool-cases (pins_one_gpu split_mode)) [
    | inl h ↦
        let pinned = get_or (v ∷ vs) main_gpu v in
        (
          record { free_for_fit = pinned; min_per_card_free = pinned; n_cards = 1 },
          rw h refl,
          omega arith,
          omega arith,
          omega arith,
          get_or_le_sum (v ∷ vs) main_gpu v (sum (v ∷ vs)) (omega arith) (omega arith),
        )
    | inr h ↦ (
      record {
        free_for_fit = sum (v ∷ vs);
        min_per_card_free = minimum v vs;
        n_cards = length (v ∷ vs);
      },
      rw h refl,
      omega arith,
      omega arith,
      minimum_le_sum v vs,
      omega arith,
    )
  ],
  one_card v split_mode main_gpu,
)

-- What a spawn that passes all gates has, wherever a probe gave a reading.
pub record Safe (p : Probes) (l : Limits) (f : FitQuery) : Type 0 where
  pub ram_free : (kib : ℕ) → p.mem_available ≡ some kib → l.min_free_ram_mib ≤ kib / 1024
  pub vram_free :
      (b : VramBudget)
      → vram_budget p.gpu_free f.split_mode f.main_gpu ≡ some b
      → (l.min_free_vram_mib ≤ b.free_for_fit)
        × (l.manifest_expected_vram_bytes / mib ≤ b.free_for_fit)
  pub kv_fits :
      (check_kv_cache_fit p.gpu_free_again p.mem_available_again
        (record f { expected_vram_mib = l.manifest_expected_vram_bytes / mib })).ok
      ≡ true
  pub load_low : (x : ℕ) → p.load1 ≡ some x → x ≤ l.max_load_per_core * max 1 p.cpu_count
  pub iowait_low :
      (ta ia tb ib : ℕ)
      → p.stat_a ≡ some (ta, ia)
      → p.stat_b ≡ some (tb, ib)
      → 100000 * (ib - ia) ≤ l.max_iowait_percent * (tb - ta) ⊎ tb ≤ ta

ram_ok :
    (avail : Option ℕ) (m kib : ℕ)
    → (check_free_ram avail m).ok ≡ true
    → avail ≡ some kib
    → m ≤ kib / 1024
unfolding check_free_ram
ram_ok none m kib h e = absurd cc
ram_ok (some k) m kib h e = ground arith

vram_ok :
    (probe : Option (List ℕ)) (m x : ℕ) (s : String) (g : ℕ) (b : VramBudget)
    → (check_free_vram probe m x s g).ok ≡ true
    → vram_budget probe s g ≡ some b
    → (m ≤ b.free_for_fit) × (x / mib ≤ b.free_for_fit)
unfolding check_free_vram
vram_ok probe m x s g b h e = let h' = rw (e, check_free_vram) at h in (ground arith, ground arith)

load_ok :
    (load : Option ℕ) (cpus m x : ℕ)
    → (check_load_avg load cpus m).ok ≡ true
    → load ≡ some x
    → x ≤ m * max 1 cpus
unfolding check_load_avg
load_ok none cpus m x h e = absurd cc
load_ok (some y) cpus m x h e = elim (Bool-cases (eqb cpus 0)) [
  | inl z ↦ let one : max 1 cpus ≡ 1 = ground arith in rw one (ground arith)
  | inr z ↦ let same : max 1 cpus ≡ cpus = ground arith in rw same (ground arith)
]

iowait_ok :
    (a b : Option (ℕ × ℕ)) (m ta ia tb ib : ℕ)
    → (check_iowait a b m).ok ≡ true
    → a ≡ some (ta, ia)
    → b ≡ some (tb, ib)
    → (100000 * (ib - ia) ≤ m * (tb - ta)) ⊎ (tb ≤ ta)
unfolding check_iowait
iowait_ok none b m ta ia tb ib h e k = absurd cc
iowait_ok (some x) none m ta ia tb ib h e k = absurd cc
iowait_ok (some (xa, ya)) (some (xb, yb)) m ta ia tb ib h e k = elim (Bool-cases (leb xb xa)) [
  | inl z ↦ inr (ground arith)
  | inr z ↦ inl (ground arith)
]

-- When the safety gate of a spawn passes, the readings it took are within the limits: the free RAM and
-- the VRAM budget are at least their minimum (and the budget at least the manifest's expected size),
-- the KV-cache gate passed with that size on readings of its own, the load is at most the limit per core times the cores
-- (one, where none are counted), and the share of time in iowait is at most its limit, or no time
-- passed between its two samples. Each part is stated for a reading that was there.
pub run_spawn_safety_gate-Safe :
    (p : Probes) (l : Limits) (f : FitQuery) → run_spawn_safety_gate p l f ≡ true → Safe p l f
unfolding run_spawn_safety_gate all_safety_gates
run_spawn_safety_gate-Safe p l f h = record {
  ram_free = λ kib e. ram_ok p.mem_available l.min_free_ram_mib kib (ground arith) e;
  vram_free = λ b e.
      vram_ok p.gpu_free l.min_free_vram_mib l.manifest_expected_vram_bytes f.split_mode f.main_gpu
        b (ground arith) e;
  kv_fits = ground arith;
  load_low = λ x e. load_ok p.load1 p.cpu_count l.max_load_per_core x (ground arith) e;
  iowait_low = λ ta ia tb ib e k.
      iowait_ok p.stat_a p.stat_b l.max_iowait_percent ta ia tb ib (ground arith) e k;
}
