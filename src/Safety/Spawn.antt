-- ===== src/Safety/Spawn.antt =====
-- safety.py, `all_safety_gates`, and its caller in manager.py.
use turbohaul_manager_rocm.Prelude.{ℕ, ◌/◌, Bool, true, ◌&&◌, Option, List, [], ◌∷◌}
use turbohaul_manager_rocm.Safety.{
  GateResult, check_free_ram, check_free_vram, check_load_avg, check_iowait, mib,
}
use turbohaul_manager_rocm.Safety.Kv.{FitQuery, check_kv_cache_fit}

-- The readings that one run of all gates takes, in its order: the KV-cache gate probes the GPUs and the memory
-- once more.
pub record Probes : Type 0 where
  pub mem_available : Option ℕ
  pub gpu_free : Option (List ℕ)
  pub gpu_free_again : Option (List ℕ)
  pub mem_available_again : Option ℕ
  pub load1 : Option ℕ
  pub cpu_count : ℕ
  pub stat_a : Option (ℕ × ℕ)
  pub stat_b : Option (ℕ × ℕ)

pub record Limits : Type 0 where
  pub min_free_ram_mib : ℕ
  pub min_free_vram_mib : ℕ
  pub max_load_per_core : ℕ
  pub max_iowait_percent : ℕ
  pub manifest_expected_vram_bytes : ℕ

unfoldable pub all_safety_gates : Probes → Limits → FitQuery → List GateResult
all_safety_gates p l f =
    check_free_ram p.mem_available l.min_free_ram_mib
    ∷ check_free_vram p.gpu_free l.min_free_vram_mib l.manifest_expected_vram_bytes f.split_mode
        f.main_gpu
    ∷ check_kv_cache_fit p.gpu_free_again p.mem_available_again
        (record f { expected_vram_mib = l.manifest_expected_vram_bytes / mib })
    ∷ check_load_avg p.load1 p.cpu_count l.max_load_per_core
    ∷ check_iowait p.stat_a p.stat_b l.max_iowait_percent
    ∷ []

-- `failed = [g for g in gates if not g.ok]` of `_run_spawn_safety_gate`, which returns whether it is
-- empty.
abbrev pub all_ok : List GateResult → Bool
all_ok [] = true
all_ok (g ∷ gs) = g.ok && all_ok gs

unfoldable pub run_spawn_safety_gate : Probes → Limits → FitQuery → Bool
unfolding all_safety_gates
run_spawn_safety_gate p l f = all_ok (all_safety_gates p l f)
