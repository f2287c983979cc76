-- ===== src/Manifest/Checks.antt =====
-- manifest.py: the validators of the flags and of a manifest.
use turbohaul_manager_rocm.Prelude.{
  ℕ, suc, ◌/◌, ◌%◌, ◌==◌, String, Bool, true, false, not, ◌&&◌, ◌||◌, Option, none, some, List, [],
  ◌∷◌, if◌then◌else◌, ltb, leb, eqb, ok, err, chop, all_codes, ends_with, includes, count,
  starts_with,
}
use turbohaul_manager_rocm.Manifest.{
  ℤ, pos, negsuc, ltz, Value, int, bool, str, float, other, Python, FlagType, is_int, is_bool,
  is_str, is_float, int_or_str, bool_or_str, Dict, get, contains, Checked, raise_if, then_check,
  bad_sha256, denied, guarded, unknown_flag, bad_flash_attn, bad_gpu_layers, bad_chat_template,
  bad_enum, bad_type, below_min, above_max, needs_kv_unified, indivisible_ctx, small_ctx,
}
use turbohaul_manager_rocm.Manifest.Tables.{safe_llama_flags, safe_llama_flag_bounds}
use turbohaul_manager_rocm.Manifest.Names.{
  safe_llama_flag_string_enums, flash_attn_str_values, n_gpu_layers_str_values,
  safe_chat_template_names, Pattern, ends, begins, suffix_guard_patterns, denied_flags,
}
use turbohaul_manager_rocm.Manifest.Tags.{between}

-- `.` matches no newline.
abbrev pub matches : Pattern → String → Bool
matches (ends s) key = ends_with (chop key) s && all_codes (λ c. not (eqb c 10)) (chop key)
matches (begins s) key = starts_with key s

abbrev pub matches_any : List Pattern → String → Bool
matches_any [] key = false
matches_any (p ∷ ps) key = matches p key || matches_any ps key

unfoldable pub suffix_guard_check : String → Checked
unfolding suffix_guard_patterns
suffix_guard_check key = raise_if (matches_any suffix_guard_patterns key) guarded (ok tt)

-- The characters of `^[A-Za-z0-9_.\-]+$`.
abbrev pub is_name_char : ℕ → Bool
is_name_char c =
    between b'A' b'Z' c
    || between b'a' b'z' c
    || between b'0' b'9' c
    || eqb c b'_'
    || eqb c b'.'
    || eqb c b'-'

abbrev pub is_plain_name : String → Bool
is_plain_name s = leb 1 (count s) && all_codes is_name_char s

abbrev pub check_jinja_injection : String → Checked
check_jinja_injection s = raise_if (includes s "{%" || includes s "{{") bad_chat_template (ok tt)

abbrev pub int_bounds : ℤ → Option (ℤ × ℤ) → Checked
int_bounds n none = ok tt
int_bounds n (some (lo, hi)) = raise_if (ltz n lo) below_min (raise_if (ltz hi n) above_max (ok tt))

abbrev pub is_instance : FlagType → {F : Type 0} → Value F → Bool
is_instance is_bool (bool b) = true
is_instance is_int (int n) = true
is_instance is_float (int n) = true
is_instance is_float (float x) = true
is_instance is_str (str s) = true
is_instance int_or_str (int n) = true
is_instance int_or_str (bool b) = true
is_instance int_or_str (str s) = true
is_instance bool_or_str (bool b) = true
is_instance bool_or_str (str s) = true
is_instance _ _ = false

module _ {F : Type 0} (py : Python F) where
  abbrev pub float_bounds : F → Option (ℤ × ℤ) → Checked
  float_bounds x none = ok tt
  float_bounds x (some (lo, hi)) =
      raise_if (py.float_lt x lo) below_min (raise_if (py.float_gt x hi) above_max (ok tt))

  abbrev pub check_flash_attn : Value F → Checked
  check_flash_attn (bool b) = ok tt
  check_flash_attn (str s) =
      raise_if (not (contains (py.lower s) flash_attn_str_values)) bad_flash_attn (ok tt)
  check_flash_attn _ = err bad_flash_attn

  abbrev pub check_gpu_layers : Value F → Checked
  check_gpu_layers (int n) = int_bounds n (get "n_gpu_layers" safe_llama_flag_bounds)
  check_gpu_layers (str s) =
      raise_if (not (contains (py.lower s) n_gpu_layers_str_values)) bad_gpu_layers (ok tt)
  check_gpu_layers _ = err bad_gpu_layers

  abbrev pub check_chat_template : Value F → Checked
  check_chat_template (str s) = then_check (check_jinja_injection s) (
      if contains s safe_chat_template_names
      then ok tt
      else raise_if (ltb 256 (count s)) bad_chat_template
          (raise_if (not (is_plain_name (chop s))) bad_chat_template (ok tt)))
  check_chat_template _ = err bad_chat_template

  abbrev pub check_enum : List String → Value F → Checked
  check_enum names (str s) = raise_if (not (contains s names)) bad_enum (ok tt)
  check_enum names _ = err bad_enum

  abbrev pub check_bounds : Option (ℤ × ℤ) → Value F → Checked
  check_bounds b (int n) = int_bounds n b
  check_bounds b (float x) = float_bounds x b
  check_bounds b _ = ok tt

  abbrev pub check_general : FlagType → Option (List String) → Option (ℤ × ℤ) → Value F → Checked
  check_general expected (some names) b value = check_enum names value
  check_general expected none b value =
      raise_if (not (is_instance expected value)) bad_type (check_bounds b value)

  -- `expected` is `SAFE_LLAMA_FLAGS[key]`, which the caller has looked up.
  unfoldable pub validate_flag_value : String → FlagType → Value F → Checked
  validate_flag_value key expected value =
      if key == "flash_attn"
      then check_flash_attn value
      else if key == "n_gpu_layers"
      then check_gpu_layers value
      else if key == "chat_template"
      then check_chat_template value
      else check_general expected (get key safe_llama_flag_string_enums)
          (get key safe_llama_flag_bounds) value

  abbrev pub truth : Value F → Bool
  truth (int (pos n)) = ltb 0 n
  truth (int (negsuc n)) = true
  truth (bool b) = b
  truth (str s) = ltb 0 (count s)
  truth (float x) = py.float_true x
  truth (other b s) = b

  abbrev pub is_set : Option (Value F) → Bool
  is_set none = false
  is_set (some v) = truth v

  abbrev pub per_slot_ctx_floor : ℕ
  per_slot_ctx_floor = 8192

  -- `ctx_size` over `parallel`, which is above 1 here.
  abbrev pub split_ctx : ℕ → Option (Value F) → Checked
  split_ctx p (some (int (pos n))) =
      raise_if (not (eqb (n % p) 0)) indivisible_ctx
        (raise_if (ltb (n / p) per_slot_ctx_floor) small_ctx (ok tt))
  split_ctx p (some (int (negsuc n))) =
      raise_if (not (eqb (suc n % p) 0)) indivisible_ctx (err small_ctx)
  split_ctx p _ = ok tt

  abbrev pub check_parallel : Option (Value F) → Dict (Value F) → Checked
  check_parallel (some (int (pos p))) flags =
      if leb p 1
      then ok tt
      else raise_if (not (is_set (get "kv_unified" flags))) needs_kv_unified
          (split_ctx p (get "ctx_size" flags))
  check_parallel _ flags = ok tt

  unfoldable pub validate_parallel_ctx : Dict (Value F) → Checked
  validate_parallel_ctx flags = check_parallel (get "parallel" flags) flags

  abbrev pub check_known : String → Option FlagType → Value F → Checked
  check_known key none value = err unknown_flag
  check_known key (some expected) value = validate_flag_value key expected value

  abbrev pub check_flag : String → Value F → Checked
  check_flag key value =
      raise_if (contains key denied_flags) denied
        (then_check (suffix_guard_check key) (check_known key (get key safe_llama_flags) value))

  unfoldable pub check_flags : Dict (Value F) → Checked
  unfolding suffix_guard_check
  check_flags [] = ok tt
  check_flags ((key, value) ∷ rest) = then_check (check_flag key value) (check_flags rest)

  unfoldable pub flags_allowlist : Dict (Value F) → Checked
  unfolding check_flags validate_parallel_ctx
  flags_allowlist flags = then_check (check_flags flags) (validate_parallel_ctx flags)

abbrev pub is_hex : ℕ → Bool
is_hex c = between b'0' b'9' c || between b'a' b'f' c

unfoldable pub sha256_format : String → Checked
sha256_format s = raise_if (not (eqb (count s) 64 && all_codes is_hex s)) bad_sha256 (ok tt)
