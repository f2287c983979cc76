-- ===== src/Safety/Fit.antt =====
-- safety.py: what the KV-cache gate admits, and that it never admits more for a larger context.
use turbohaul_manager_rocm.Prelude.{
  ℕ, ◌-◌, ◌*◌, ◌/◌, ◌≤◌, String, if◌then◌else◌, eqb, arith, ◌≡◌, subst,
}
use Prim.Native.Nat.{max}
use turbohaul_manager_rocm.Safety.{mib}
use turbohaul_manager_rocm.Safety.Kv.{
  FitQuery, kv_mib, vram_need, kv_formula, estimate_kv_cache_mib, quant_scale,
}

scaled_mono : (k c d : ℕ) → c ≤ d → k * c / 1024 ≤ k * d / 1024
scaled_mono k c d h = let grows : k * c ≤ k * d = grind arith in omega arith

kv_formula_mono : (c d g : ℕ) (s : ℕ × ℕ) → c ≤ d → kv_formula c g s ≤ kv_formula d g s
kv_formula_mono c d g (num, den) h = scaled_mono (9 * g / 1024 * num / den) c d h

estimate_step :
    (c d g x y : ℕ)
    → c ≤ d
    → x ≤ y
    → (if eqb c 0 then 0 else if eqb g 0 then 0 else x)
      ≤ (if eqb d 0 then 0 else if eqb g 0 then 0 else y)
estimate_step c d g x y h k = ground arith

-- A longer context never has a smaller estimate.
estimate_mono :
    (c d g : ℕ) (q : String) → c ≤ d → estimate_kv_cache_mib c g q ≤ estimate_kv_cache_mib d g q
unfolding estimate_kv_cache_mib
estimate_mono c d g q h =
    estimate_step c d g _ _ h (kv_formula_mono c d (g / mib) (quant_scale q) h)

extra_mono : (p r : ℕ) → p ≤ r → (max 1 p - 1) * 256 ≤ (max 1 r - 1) * 256
extra_mono p r h = omega arith

-- `f` asks for no more than `g`, on the same model and the same cards.
pub record AsksLess (f g : FitQuery) : Type 0 where
  pub ctx : f.ctx_size ≤ g.ctx_size
  pub overhead : f.overhead_mib ≤ g.overhead_mib
  pub concurrency : f.parallel ≤ g.parallel
  pub same_model : f.gguf_size_bytes ≡ g.gguf_size_bytes
  pub same_quant : f.kv_cache_quant ≡ g.kv_cache_quant
  pub same_offload : f.no_kv_offload ≡ g.no_kv_offload
  pub same_split : f.split_mode ≡ g.split_mode
  pub same_gpu : f.main_gpu ≡ g.main_gpu
  pub same_expected : f.expected_vram_mib ≡ g.expected_vram_mib
  pub same_moe : f.cpu_moe_offload ≡ g.cpu_moe_offload

pub kv_mono : (f g : FitQuery) → AsksLess f g → kv_mib f ≤ kv_mib g
kv_mono f g a =
    subst (λ (b : ℕ). kv_mib f ≤ estimate_kv_cache_mib g.ctx_size b g.kv_cache_quant) a.same_model
      (subst (λ (q : String). kv_mib f ≤ estimate_kv_cache_mib g.ctx_size f.gguf_size_bytes q)
        a.same_quant (estimate_mono f.ctx_size g.ctx_size f.gguf_size_bytes f.kv_cache_quant a.ctx))

pub need_mono : (f g : FitQuery) → AsksLess f g → vram_need f ≤ vram_need g
need_mono f g a = ground (arith, kv_mono f g a, extra_mono f.parallel g.parallel a.concurrency)
