-- ===== src/Safety/Tests.antt =====
-- The safety gates at a model of 8 GiB and a probe of two cards.
use turbohaul_manager_rocm.Prelude.{
  ℕ, true, false, Option, none, some, List, [], ◌∷◌, arith, ◌≡◌, refl, ◌⊎◌, ◌↔◌,
}
use turbohaul_manager_rocm.Safety.{
  vram_budget, check_free_ram, check_free_vram, check_load_avg, check_iowait,
}
use turbohaul_manager_rocm.Safety.Kv.{FitQuery, check_kv_cache_fit, estimate_kv_cache_mib, fit_on}
use turbohaul_manager_rocm.Safety.Fit.{AsksLess}
use turbohaul_manager_rocm.Safety.Admission.{
  Fits, check_kv_cache_fit_iff, check_kv_cache_fit_antitone,
}
use turbohaul_manager_rocm.Safety.Spawn.{Probes, Limits, run_spawn_safety_gate, all_safety_gates}
use turbohaul_manager_rocm.Safety.Budget.{Safe, run_spawn_safety_gate-Safe}

abbrev query : ℕ → ℕ → FitQuery
query ctx_size parallel = record {
  ctx_size = ctx_size;
  gguf_size_bytes = 8589934592;
  overhead_mib = 1024;
  kv_cache_quant = "q8_0";
  no_kv_offload = false;
  parallel = parallel;
  split_mode = "layer";
  main_gpu = 0;
  expected_vram_mib = 0;
  cpu_moe_offload = false;
}

abbrev free : List ℕ
free = 12000 ∷ 9000 ∷ []

abbrev two_cards : Option (List ℕ)
two_cards = some free

estimated : estimate_kv_cache_mib 32768 8589934592 "q8_0" ≡ 1152
unfolding estimate_kv_cache_mib
estimated = refl

-- Without a probe, a second slot is refused.
refused : (check_kv_cache_fit none none (query 4096 2)).ok ≡ false
unfolding check_kv_cache_fit fit_on vram_budget
refused = refl

check_kv_cache_fit_iff_example : ((check_kv_cache_fit two_cards none (query 32768 2)).ok ≡ true) ↔ (
    ((query 32768 2).ctx_size ≡ 0)
    ⊎ ((query 32768 2).gguf_size_bytes ≡ 0)
    ⊎ Fits none (query 32768 2) (vram_budget two_cards "layer" 0))
check_kv_cache_fit_iff_example = check_kv_cache_fit_iff two_cards none (query 32768 2)

passes : (check_kv_cache_fit two_cards none (query 32768 2)).ok ≡ true
unfolding check_kv_cache_fit fit_on vram_budget estimate_kv_cache_mib
passes = refl

fewer : AsksLess (query 4096 1) (query 32768 2)
fewer = record {
  ctx = omega arith;
  overhead = omega arith;
  concurrency = omega arith;
  same_model = refl;
  same_quant = refl;
  same_offload = refl;
  same_split = refl;
  same_gpu = refl;
  same_expected = refl;
  same_moe = refl;
}

check_kv_cache_fit_antitone_example : (check_kv_cache_fit two_cards none (query 4096 1)).ok ≡ true
check_kv_cache_fit_antitone_example =
    check_kv_cache_fit_antitone two_cards none (query 4096 1) (query 32768 2) fewer passes

abbrev readings : Probes
readings = record {
  gpu_free = two_cards;
  mem_available = some 33554432;
  gpu_free_again = some (12000 ∷ 16000 ∷ []);
  mem_available_again = some 33550000;
  load1 = some 4000;
  cpu_count = 16;
  stat_a = some (1000, 10);
  stat_b = some (2000, 15);
}

abbrev limits : Limits
limits = record {
  min_free_ram_mib = 8192;
  min_free_vram_mib = 2048;
  max_load_per_core = 1500;
  max_iowait_percent = 20000;
  manifest_expected_vram_bytes = 0;
}

admitted : run_spawn_safety_gate readings limits (query 32768 2) ≡ true
unfolding run_spawn_safety_gate all_safety_gates check_free_ram check_free_vram check_load_avg
    check_iowait check_kv_cache_fit fit_on vram_budget estimate_kv_cache_mib
admitted = refl

run_spawn_safety_gate-Safe_example : Safe readings limits (query 32768 2)
run_spawn_safety_gate-Safe_example =
    run_spawn_safety_gate-Safe readings limits (query 32768 2) admitted
