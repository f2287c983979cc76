-- ===== src/Manifest/StoreTests.antt =====
-- manifest.py and api/manifests.py: writes of manifests under ETags.
use turbohaul_manager_rocm.Prelude.{
  ◌+◌, true, false, none, some, List, [], ◌∷◌, ok, ◌≡◌, refl, chop, all_codes, decimal, digits,
}
use turbohaul_manager_rocm.Manifest.{Python, int, pos}
use turbohaul_manager_rocm.Manifest.Tables.{safe_llama_flags, safe_llama_flag_bounds}
use turbohaul_manager_rocm.Manifest.Names.{
  safe_llama_flag_string_enums, suffix_guard_patterns, denied_flags,
}
use turbohaul_manager_rocm.Manifest.Tags.{validate_tag, tag_re}
use turbohaul_manager_rocm.Manifest.Checks.{
  validate_flag_value, flags_allowlist, check_flags, validate_parallel_ctx, suffix_guard_check,
  sha256_format,
}
use turbohaul_manager_rocm.Manifest.Store.{
  Manifest, validate, Files, fields, safe_manifest_path, read_manifest, write_manifest_atomic,
  put_manifest, written, etag,
}
use turbohaul_manager_rocm.Manifest.Swaps.{Disk}
use turbohaul_manager_rocm.Manifest.Register.{
  Put, puts, compare_and_swap, cell_of, versioned, quoted, onto,
  write_manifest_atomic-compare_and_swap, put_manifest-unchanged,
}

abbrev python : Python (Unit {0})
python = record {
  lower = λ s. s;
  float_lt = λ x z. false;
  float_gt = λ x z. false;
  float_text = λ x. "0.0";
  float_true = λ x. false;
}

abbrev manifest : Manifest (Unit {0})
manifest = record {
  model_tag = "qwen3";
  display_name = "Qwen 3";
  description = "";
  gguf_blob_sha256 = "0123456789abcdef0123456789abcdef0123456789abcdef0123456789abcdef";
  gguf_size_bytes = 0;
  context_size = 2048;
  expected_vram_bytes = 0;
  revision = 1;
  llama_server_flags = ("ctx_size", int (pos 65536)) ∷ [];
  system_default = "";
  stop_tokens = [];
}

-- A file that holds the manifest itself.
abbrev files : Files (Unit {0}) (Manifest (Unit {0}))
files = record {
  dump = λ m. m;
  load = λ m. fields m;
  escapes = λ t. false;
  is_symlink = λ t. false;
  replaces = true;
  syncs = true;
}

abbrev disk : Disk (Manifest (Unit {0}))
disk = ("qwen3", manifest) ∷ []

stored : read_manifest python files disk "qwen3" ≡ ok manifest
unfolding read_manifest safe_manifest_path validate sha256_format validate_tag tag_re chop all_codes
    flags_allowlist check_flags validate_parallel_ctx suffix_guard_check suffix_guard_patterns
    denied_flags safe_llama_flags safe_llama_flag_bounds safe_llama_flag_string_enums
    validate_flag_value
stored = refl

path : safe_manifest_path python files "qwen3" ≡ ok tt
unfolding safe_manifest_path validate_tag tag_re chop all_codes
path = refl

write_manifest_atomic-compare_and_swap_example :
    write_manifest_atomic python files disk manifest (some (etag manifest))
    ≡ onto python files disk "qwen3" (
        compare_and_swap
          (cell_of (some manifest))
          (versioned manifest)
          (quoted (some (etag manifest))))
write_manifest_atomic-compare_and_swap_example =
    write_manifest_atomic-compare_and_swap python files disk (some manifest) manifest
      (some (etag manifest)) stored path refl

-- Another model's manifest is written in between, and a write of this one that names no revision is refused.
abbrev requests : List (Put (Unit {0}))
requests =
    record { tag = "gemma"; payload = manifest; if_match = none }
    ∷ record { tag = "qwen3"; payload = manifest; if_match = none }
    ∷ []

update_written :
    (put_manifest python files
      (puts python files disk requests)
      "qwen3"
      manifest
      (some (etag manifest))).0
    ≡ written 2
unfolding put_manifest write_manifest_atomic read_manifest safe_manifest_path validate sha256_format
    validate_tag tag_re chop all_codes flags_allowlist check_flags validate_parallel_ctx
    suffix_guard_check suffix_guard_patterns denied_flags safe_llama_flags safe_llama_flag_bounds
    safe_llama_flag_string_enums validate_flag_value etag decimal digits
update_written = refl

put_manifest-unchanged_example :
    (read_manifest python files (puts python files disk requests) "qwen3" ≡ ok manifest)
    × (2 ≡ manifest.revision + 1)
put_manifest-unchanged_example =
    put_manifest-unchanged python files (λ m. refl) disk requests "qwen3" manifest manifest 2 stored
      update_written

-- A deletion starts the revisions anew: the ETag of the manifest that was deleted is accepted again.
abbrev recreated : Disk (Manifest (Unit {0}))
recreated = ("qwen3", record manifest { description = "another" }) ∷ []

stale_written :
    (put_manifest python files recreated "qwen3" manifest (some (etag manifest))).0 ≡ written 2
unfolding put_manifest write_manifest_atomic read_manifest safe_manifest_path validate sha256_format
    validate_tag tag_re chop all_codes flags_allowlist check_flags validate_parallel_ctx
    suffix_guard_check suffix_guard_patterns denied_flags safe_llama_flags safe_llama_flag_bounds
    safe_llama_flag_string_enums validate_flag_value etag decimal digits
stale_written = refl
