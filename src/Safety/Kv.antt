-- ===== src/Safety/Kv.antt =====
-- safety.py: the closed-form estimate of the KV cache and the gate that uses it.
use turbohaul_manager_rocm.Prelude.{
  ℕ, ◌+◌, ◌-◌, ◌*◌, ◌/◌, ◌==◌, String, Bool, ◌&&◌, Option, none, some, List, if◌then◌else◌, ltb,
  eqb,
}
use Prim.Native.Nat.{max}
use turbohaul_manager_rocm.Safety.{
  GateResult, passed, failed, kv_cache_fit, passed_no_probe, passed_insufficient_input, measured,
  needs, needs_host_ram, refused_blind, VramBudget, vram_budget, mib,
}

-- `_KV_QUANT_SCALE`, as a fraction; an unknown name counts as f16.
abbrev pub quant_scale : String → ℕ × ℕ
quant_scale q =
    if q == "f32"
    then (2, 1)
    else if q == "f16"
    then (1, 1)
    else if q == "bf16"
    then (1, 1)
    else if q == "q8_0"
    then (1, 2)
    else if q == "q4_0"
    then (1, 4)
    else if q == "q4_1"
    then (1, 4)
    else if q == "iq4_nl"
    then (1, 4)
    else if q == "q5_0"
    then (8, 25)
    else if q == "q5_1"
    then (8, 25)
    else if q == "turbo2"
    then (1, 8)
    else if q == "turbo3"
    then (3, 16)
    else if q == "turbo4"
    then (1, 4)
    else (1, 1)

abbrev pub per_slot_compute_floor_mib : ℕ
per_slot_compute_floor_mib = 256

abbrev pub kv_formula : ℕ → ℕ → ℕ × ℕ → ℕ
kv_formula ctx_size gguf_mib (num, den) = ((9 * gguf_mib / 1024) * num / den) * ctx_size / 1024

unfoldable pub estimate_kv_cache_mib : ℕ → ℕ → String → ℕ
estimate_kv_cache_mib ctx_size gguf_size_bytes kv_cache_quant =
    if eqb ctx_size 0
    then 0
    else if eqb gguf_size_bytes 0
    then 0
    else kv_formula ctx_size (gguf_size_bytes / mib) (quant_scale kv_cache_quant)

-- The parameters of `check_kv_cache_fit`.
pub record FitQuery : Type 0 where
  pub ctx_size : ℕ
  pub gguf_size_bytes : ℕ
  pub overhead_mib : ℕ
  pub kv_cache_quant : String
  pub no_kv_offload : Bool
  pub parallel : ℕ
  pub split_mode : String
  pub main_gpu : ℕ
  pub expected_vram_mib : ℕ
  pub cpu_moe_offload : Bool

abbrev pub slots : FitQuery → ℕ
slots f = max 1 f.parallel

abbrev pub par_extra_mib : FitQuery → ℕ
par_extra_mib f = (slots f - 1) * per_slot_compute_floor_mib

abbrev pub kv_mib : FitQuery → ℕ
kv_mib f = estimate_kv_cache_mib f.ctx_size f.gguf_size_bytes f.kv_cache_quant

-- The VRAM that the configuration needs, by the branch of the estimator that applies.
abbrev pub uses_measured : FitQuery → Bool
uses_measured f = f.cpu_moe_offload && ltb 0 f.expected_vram_mib

abbrev pub vram_need : FitQuery → ℕ
vram_need f =
    if uses_measured f
    then f.expected_vram_mib + f.overhead_mib + par_extra_mib f
    else if f.no_kv_offload
    then f.gguf_size_bytes / mib + (f.overhead_mib + f.ctx_size / 128 + par_extra_mib f)
    else f.gguf_size_bytes / mib + kv_mib f + f.overhead_mib + par_extra_mib f

abbrev pub check_host_ram : Option ℕ → FitQuery → GateResult
check_host_ram none f = passed kv_cache_fit (measured (vram_need f))
check_host_ram (some avail_kib) f =
    if ltb (avail_kib / 1024) (kv_mib f)
    then failed kv_cache_fit (needs_host_ram (kv_mib f) (avail_kib / 1024))
    else passed kv_cache_fit (measured (vram_need f))

unfoldable pub fit_on : Option ℕ → FitQuery → Option VramBudget → GateResult
fit_on meminfo f none =
    if ltb 1 (slots f)
    then failed kv_cache_fit (refused_blind (slots f))
    else passed kv_cache_fit passed_no_probe
fit_on meminfo f (some b) =
    if ltb b.free_for_fit (vram_need f)
    then failed kv_cache_fit (needs (vram_need f) b.free_for_fit)
    else if uses_measured f
    then passed kv_cache_fit (measured (vram_need f))
    else if f.no_kv_offload
    then check_host_ram meminfo f
    else passed kv_cache_fit (measured (vram_need f))

unfoldable pub check_kv_cache_fit : Option (List ℕ) → Option ℕ → FitQuery → GateResult
unfolding fit_on
check_kv_cache_fit probe meminfo f =
    if eqb f.ctx_size 0
    then passed kv_cache_fit passed_insufficient_input
    else if eqb f.gguf_size_bytes 0
    then passed kv_cache_fit passed_insufficient_input
    else fit_on meminfo f (vram_budget probe f.split_mode f.main_gpu)
