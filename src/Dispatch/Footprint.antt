-- ===== src/Dispatch/Footprint.antt =====
-- manager.py: what a model's manifest reserves, `_read_model_footprint`, and the idle windows.
-- The entries of `llama_server_flags` are the ones read here; `none` is an entry that is not there.
use turbohaul_manager_rocm.Prelude.{
  ℕ, zero, suc, ◌+◌, ◌-◌, ◌*◌, ◌/◌, ◌≤◌, ◌==◌, String, Bool, true, false, ◌&&◌, ◌||◌, Option, none,
  some, if◌then◌else◌, ltb, eqb, arith, ◌≡◌, refl,
}
use Prim.Native.Nat.{max, min}
use turbohaul_manager_rocm.Safety.{mib}
use turbohaul_manager_rocm.Safety.Kv.{
  FitQuery, estimate_kv_cache_mib, per_slot_compute_floor_mib, vram_need, uses_measured,
}
use turbohaul_manager_rocm.Dispatch.{ℤ, pos, negsuc}

pub record Flags : Type 0 where
  pub ctx_size : Option ℕ
  pub cache_type_k : Option String
  pub parallel : Option ℕ
  pub cpu_moe : Bool
  pub n_cpu_moe : Option ℕ
  pub main_gpu : Option ℕ
  pub split_mode : Option String
  pub sleep_idle_seconds : Option ℤ

pub record Manifest : Type 0 where
  pub gguf_size_bytes : Option ℕ
  pub context_size : Option ℕ
  pub expected_vram_bytes : Option ℕ
  pub flags : Flags

pub record Footprint : Type 0 where
  pub need : ℕ
  pub parallel : ℕ
  pub main_gpu : ℕ
  pub split_mode : String
  pub sleep_idle_seconds : ℤ

-- `x or d`: an absent number, like 0, gives `d`; an absent text, like the empty one, gives `d`.
abbrev pub or_number : Option ℕ → ℕ → ℕ
or_number none d = d
or_number (some n) d = if eqb n 0 then d else n

abbrev pub or_text : Option String → String → String
or_text none d = d
or_text (some t) d = if t == "" then d else t

abbrev pub or_zero : Option ℤ → ℤ
or_zero none = pos 0
or_zero (some z) = z

abbrev pub ctx_of : Manifest → ℕ
ctx_of m = or_number m.flags.ctx_size (or_number m.context_size 0)

abbrev pub slots_of : Manifest → ℕ
slots_of m = max 1 (or_number m.flags.parallel 1)

abbrev pub is_cpu_moe : Manifest → Bool
is_cpu_moe m = m.flags.cpu_moe || ltb 0 (or_number m.flags.n_cpu_moe 0)

abbrev pub expected_mib : Manifest → ℕ
expected_mib m = or_number m.expected_vram_bytes 0 / mib

abbrev pub heuristic_mib : Manifest → ℕ
heuristic_mib m =
    or_number m.gguf_size_bytes 0 / mib
    + estimate_kv_cache_mib (ctx_of m) (or_number m.gguf_size_bytes 0)
        (or_text m.flags.cache_type_k "f16")

-- What `read_manifest` gives: FileNotFoundError is caught, every other error is not.
pub data Reading : Type 0 where
  found : Manifest → Reading
  not_found unreadable : Reading

abbrev pub missing_footprint : Footprint
missing_footprint = record {
  need = 0;
  parallel = 1;
  main_gpu = 0;
  split_mode = "layer";
  sleep_idle_seconds = pos 0;
}

abbrev pub manifest_footprint : Manifest → Footprint
manifest_footprint m =
    let par_extra = (slots_of m - 1) * per_slot_compute_floor_mib in
    record {
      need =
          if is_cpu_moe m && ltb 0 (expected_mib m)
          then expected_mib m + par_extra
          else max (expected_mib m) (heuristic_mib m) + par_extra;
      parallel = slots_of m;
      main_gpu = or_number m.flags.main_gpu 0;
      split_mode = or_text m.flags.split_mode "layer";
      sleep_idle_seconds = or_zero m.flags.sleep_idle_seconds;
    }

-- `none`: it raises what `read_manifest` raised.
unfoldable pub read_model_footprint : Reading → Option Footprint
read_model_footprint (found m) = some (manifest_footprint m)
read_model_footprint not_found = some missing_footprint
read_model_footprint unreadable = none

abbrev pub keep_alive_max_s : ℕ
keep_alive_max_s = 1800

-- `_idle_window_seconds`
unfoldable pub idle_window_seconds : Option ℤ → ℕ → ℕ
idle_window_seconds none default = default
idle_window_seconds (some (negsuc n)) default = keep_alive_max_s
idle_window_seconds (some (pos n)) default = min n keep_alive_max_s

-- `per_model_idle` in `_drive_resident`: -1 pins, a positive number is the window, anything else (0, or
-- a number below -1) is the global default.
unfoldable pub per_model_idle : ℤ → ℕ → ℕ
per_model_idle (pos n) default = if eqb n 0 then default else n
per_model_idle (negsuc zero) default = keep_alive_max_s
per_model_idle (negsuc (suc n)) default = default

-- The query that the spawn's KV-cache gate gets for the manifest, with the overhead taken off.
abbrev pub gate_query : Manifest → FitQuery
gate_query m = record {
  ctx_size = ctx_of m;
  gguf_size_bytes = or_number m.gguf_size_bytes 0;
  overhead_mib = 0;
  kv_cache_quant = or_text m.flags.cache_type_k "f16";
  no_kv_offload = false;
  parallel = or_number m.flags.parallel 1;
  split_mode = or_text m.flags.split_mode "layer";
  main_gpu = or_number m.flags.main_gpu 0;
  expected_vram_mib = expected_mib m;
  cpu_moe_offload = is_cpu_moe m;
}

-- What the dispatcher reserves for a manifest is at least the VRAM that the KV-cache gate asks for on
-- the same sizes with the KV cache on the GPU, the gate's fixed overhead taken off; and it is exactly
-- that for a model with experts on the CPU and a measured size.
pub read_model_footprint_covers :
    (m : Manifest)
    → (f : Footprint) × (read_model_footprint (found m) ≡ some f)
      × (vram_need (gate_query m) ≤ f.need)
      × (uses_measured (gate_query m) ≡ true → f.need ≡ vram_need (gate_query m))
unfolding read_model_footprint
read_model_footprint_covers m = (manifest_footprint m, refl, ground arith, λ h. ground arith)

-- A request's keep-alive never holds a resident longer than the cap of 1800 seconds or the default
-- window, whichever is more; and a negative keep-alive holds it for the cap.
pub idle_window_bounds :
    (k : Option ℤ) (default n : ℕ)
    → (idle_window_seconds k default ≤ max keep_alive_max_s default)
      × (idle_window_seconds (some (negsuc n)) default ≡ keep_alive_max_s)
unfolding idle_window_seconds
idle_window_bounds none default n = (omega arith, refl)
idle_window_bounds (some (pos k)) default n = (omega arith, refl)
idle_window_bounds (some (negsuc k)) default n = (omega arith, refl)
