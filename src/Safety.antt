-- ===== src/Safety.antt =====
-- safety.py: the checks before a sidecar is spawned. What the probes read is an argument: the free
-- MiB of each GPU (`none` without a backend), /proc/meminfo's MemAvailable, the load average, two
-- samples of /proc/stat. A load and a percentage are in thousandths, so a quotient is compared by
-- multiplying out. A detail text is a constructor with the numbers that the text shows.
pub mod Kv
pub mod Spawn
pub mod Budget
pub mod Fit
pub mod Admission
mod Tests
use turbohaul_manager_rocm.Prelude.{
  ℕ, zero, suc, ◌+◌, ◌-◌, ◌*◌, ◌/◌, ◌==◌, String, Bool, true, false, not, ◌&&◌, Option, none, some,
  List, [], ◌∷◌, if◌then◌else◌, ltb, leb, eqb, length,
}
use Prim.Native.Nat.{min, max}

pub data Gate : Type 0 where
  ram vram kv_cache_fit cpu_load iowait : Gate

pub data Detail : Type 0 where
  passed_no_probe passed_no_probe_second passed_zero_delta passed_insufficient_input : Detail
  measured : ℕ → Detail
  needs : ℕ → ℕ → Detail
  needs_host_ram : ℕ → ℕ → Detail
  refused_blind : ℕ → Detail

pub record GateResult : Type 0 where
  pub name : Gate
  pub ok : Bool
  pub detail : Detail

abbrev pub passed : Gate → Detail → GateResult
passed name detail = record { name = name; ok = true; detail = detail }

abbrev pub failed : Gate → Detail → GateResult
failed name detail = record { name = name; ok = false; detail = detail }

unfoldable pub check_free_ram : Option ℕ → ℕ → GateResult
check_free_ram none min_free_mib = passed ram passed_no_probe
check_free_ram (some avail_kib) min_free_mib =
    let avail_mib = avail_kib / 1024 in
    if ltb avail_mib min_free_mib
    then failed ram (needs min_free_mib avail_mib)
    else passed ram (measured avail_mib)

-- `load1 / cpus > max_per_core`, with `os.cpu_count() or 1`.
unfoldable pub check_load_avg : Option ℕ → ℕ → ℕ → GateResult
check_load_avg none cpu_count max_per_core = passed cpu_load passed_no_probe
check_load_avg (some load1) cpu_count max_per_core =
    let cpus = if eqb cpu_count 0 then 1 else cpu_count in
    if ltb (max_per_core * cpus) load1
    then failed cpu_load (needs load1 max_per_core)
    else passed cpu_load (measured load1)

-- `100.0 * d_iowait / d_total > max_percent`; a sample is (total, iowait) in jiffies.
unfoldable pub check_iowait : Option (ℕ × ℕ) → Option (ℕ × ℕ) → ℕ → GateResult
check_iowait none sample_b max_percent = passed iowait passed_no_probe
check_iowait (some a) none max_percent = passed iowait passed_no_probe_second
check_iowait (some (total_a, iowait_a)) (some (total_b, iowait_b)) max_percent =
    if leb total_b total_a
    then passed iowait passed_zero_delta
    else if ltb (max_percent * (total_b - total_a)) (100000 * (iowait_b - iowait_a))
    then failed iowait (needs max_percent (iowait_b - iowait_a))
    else passed iowait (measured (iowait_b - iowait_a))

pub record VramBudget : Type 0 where
  pub free_for_fit : ℕ
  pub min_per_card_free : ℕ
  pub n_cards : ℕ

abbrev pub sum : List ℕ → ℕ
sum [] = 0
sum (v ∷ vs) = v + sum vs

-- `min(vals)`, for the list with this head.
abbrev pub minimum : ℕ → List ℕ → ℕ
minimum v [] = v
minimum v (w ∷ ws) = min v (minimum w ws)

abbrev pub get_or : List ℕ → ℕ → ℕ → ℕ
get_or [] i d = d
get_or (v ∷ vs) zero d = v
get_or (v ∷ vs) (suc i) d = get_or vs i d

-- A split mode is one of the manifest's lower-case words, so the source's `.lower()` changes nothing; an
-- empty one means "layer".
abbrev pub pins_one_gpu : String → Bool
pins_one_gpu split_mode = split_mode == "none"

-- `_vram_budget` on the free MiB of the cards; a pin out of range is budgeted on GPU 0.
unfoldable pub vram_budget : Option (List ℕ) → String → ℕ → Option VramBudget
vram_budget none split_mode main_gpu = none
vram_budget (some []) split_mode main_gpu = none
vram_budget (some (v ∷ vs)) split_mode main_gpu =
    let pinned = get_or (v ∷ vs) main_gpu v in
    if pins_one_gpu split_mode
    then some (record { free_for_fit = pinned; min_per_card_free = pinned; n_cards = 1 })
    else some (record {
      free_for_fit = sum (v ∷ vs);
      min_per_card_free = minimum v vs;
      n_cards = length (v ∷ vs);
    })

abbrev pub mib : ℕ
mib = 1048576

unfoldable pub check_free_vram : Option (List ℕ) → ℕ → ℕ → String → ℕ → GateResult
check_free_vram probe min_free_mib manifest_expected_bytes split_mode main_gpu =
    elim (vram_budget probe split_mode main_gpu) [
      | none ↦ passed vram passed_no_probe
      | some b ↦
          let threshold = max min_free_mib (manifest_expected_bytes / mib) in
          if ltb b.free_for_fit threshold
          then failed vram (needs threshold b.free_for_fit)
          else passed vram (measured b.free_for_fit)
    ]
