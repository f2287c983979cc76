-- ===== src/Manifest/Tests.antt =====
-- manifest.py: manifests, command lines and writes.
use turbohaul_manager_rocm.Prelude.{
  ◌≤◌, String, true, false, some, List, [], ◌∷◌, ok, err, All, count, ◌≡◌, refl, chop, all_codes,
  replace, decimal, digits,
}
use turbohaul_manager_rocm.Manifest.{
  pos, negsuc, ltz, Python, Value, int, bool, str, Dict, get, is_int, bad_tag,
}
use turbohaul_manager_rocm.Manifest.Tables.{safe_llama_flags, safe_llama_flag_bounds}
use turbohaul_manager_rocm.Manifest.Names.{
  safe_llama_flag_string_enums, suffix_guard_patterns, denied_flags,
}
use turbohaul_manager_rocm.Manifest.Tags.{validate_tag, tag_re}
use turbohaul_manager_rocm.Manifest.Paths.{is_file_name, validate_tag-is_file_name}
use turbohaul_manager_rocm.Manifest.Checks.{
  validate_flag_value, flags_allowlist, check_flags, validate_parallel_ctx, suffix_guard_check,
}
use turbohaul_manager_rocm.Manifest.Argv.{flags_to_argv, cli_key, value_text}
use turbohaul_manager_rocm.Manifest.Admitted.{
  IsAdmitted, SplitsContext, flags_allowlist-IsAdmitted, validate_flag_value-bounds,
}
use turbohaul_manager_rocm.Manifest.Reader.{read_argv}
use turbohaul_manager_rocm.Manifest.RoundTrip.{settings, read_argv-flags_to_argv}

-- No floats: the flags of the tests have none.
abbrev python : Python (Unit {0})
python = record {
  lower = λ s. s;
  float_lt = λ x z. false;
  float_gt = λ x z. false;
  float_text = λ x. "0.0";
  float_true = λ x. false;
}

abbrev flags : Dict (Value (Unit {0}))
flags =
    ("ctx_size", int (pos 65536))
    ∷ ("parallel", int (pos 4))
    ∷ ("kv_unified", bool true)
    ∷ ("mlock", bool false)
    ∷ ("flash_attn", bool true)
    ∷ ("cache_type_k", str "q8_0")
    ∷ ("seed", int (negsuc 0))
    ∷ []

allowed : flags_allowlist python flags ≡ ok tt
unfolding flags_allowlist check_flags validate_parallel_ctx suffix_guard_check suffix_guard_patterns
    denied_flags safe_llama_flags safe_llama_flag_bounds safe_llama_flag_string_enums
    validate_flag_value chop all_codes
allowed = refl

abbrev words : List String
words =
    "--ctx-size" ∷ "65536" ∷ "--parallel" ∷ "4" ∷ "--kv-unified" ∷ "--flash-attn" ∷ "on"
    ∷ "--cache-type-k" ∷ "q8_0" ∷ "--seed" ∷ "-1" ∷ []

flags_to_argv-words : flags_to_argv python flags ≡ ok words
unfolding flags_to_argv safe_llama_flags denied_flags cli_key replace value_text decimal digits
flags_to_argv-words = refl

flags_allowlist-IsAdmitted_example :
    All (λ f. IsAdmitted python f.0 f.1) flags × SplitsContext python flags
flags_allowlist-IsAdmitted_example = flags_allowlist-IsAdmitted python flags allowed

read_argv-flags_to_argv_example :
    (argv : List String) × (flags_to_argv python flags ≡ ok argv)
    × (read_argv argv ≡ some (settings python flags))
read_argv-flags_to_argv_example = read_argv-flags_to_argv python flags allowed

bounds : get "parallel" safe_llama_flag_bounds ≡ some (pos 1, pos 256)
unfolding safe_llama_flag_bounds
bounds = refl

parallel_valid : validate_flag_value python "parallel" is_int (int (pos 4)) ≡ ok tt
unfolding validate_flag_value safe_llama_flag_bounds safe_llama_flag_string_enums
parallel_valid = refl

validate_flag_value-bounds_example : (ltz (pos 4) (pos 1) ≡ false) × (ltz (pos 256) (pos 4) ≡ false)
validate_flag_value-bounds_example =
    validate_flag_value-bounds python "parallel" is_int (pos 4) (pos 1) (pos 256) bounds
      parallel_valid

tag_valid : validate_tag "qwen3-30b" ≡ ok tt
unfolding validate_tag tag_re chop all_codes
tag_valid = refl

validate_tag-is_file_name_example : (is_file_name "qwen3-30b" ≡ true) × (count "qwen3-30b" ≤ 65)
validate_tag-is_file_name_example = validate_tag-is_file_name "qwen3-30b" tag_valid

-- The pattern of tags lets a newline stand at the end.
newline_tag : validate_tag "qwen3\n" ≡ ok tt
unfolding validate_tag tag_re chop all_codes
newline_tag = refl

traversal : validate_tag "../etc" ≡ err bad_tag
unfolding validate_tag tag_re chop all_codes
traversal = refl
