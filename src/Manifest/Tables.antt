-- ===== src/Manifest/Tables.antt =====
-- manifest.py: the tables of flags. A bound of a float flag is a whole number in all of them.
use turbohaul_manager_rocm.Prelude.{[], ◌∷◌}
use turbohaul_manager_rocm.Manifest.{
  ℤ, pos, negsuc, FlagType, is_int, is_bool, is_str, is_float, int_or_str, bool_or_str, Dict,
}

unfoldable pub safe_llama_flags : Dict FlagType
safe_llama_flags =
    ("ctx_size", is_int)
    ∷ ("n_gpu_layers", int_or_str)
    ∷ ("threads", is_int)
    ∷ ("threads_batch", is_int)
    ∷ ("threads_http", is_int)
    ∷ ("parallel", is_int)
    ∷ ("batch_size", is_int)
    ∷ ("ubatch_size", is_int)
    ∷ ("n_predict", is_int)
    ∷ ("keep", is_int)
    ∷ ("flash_attn", bool_or_str)
    ∷ ("mlock", is_bool)
    ∷ ("no_mmap", is_bool)
    ∷ ("numa", is_str)
    ∷ ("swa_full", is_bool)
    ∷ ("no_perf", is_bool)
    ∷ ("sleep_idle_seconds", is_int)
    ∷ ("cache_reuse", is_int)
    ∷ ("no_context_shift", is_bool)
    ∷ ("slot_prompt_similarity", is_float)
    ∷ ("warmup", is_bool)
    ∷ ("check_tensors", is_bool)
    ∷ ("repack", is_bool)
    ∷ ("op_offload", is_bool)
    ∷ ("no_host", is_bool)
    ∷ ("direct_io", is_bool)
    ∷ ("cont_batching", is_bool)
    ∷ ("cache_type_k", is_str)
    ∷ ("cache_type_v", is_str)
    ∷ ("kv_offload", is_bool)
    ∷ ("no_kv_offload", is_bool)
    ∷ ("kv_unified", is_bool)
    ∷ ("cache_idle_slots", is_bool)
    ∷ ("cache_prompt", is_bool)
    ∷ ("cache_ram", is_int)
    ∷ ("ctx_checkpoints", is_int)
    ∷ ("checkpoint_every_n_tokens", is_int)
    ∷ ("rope_scaling", is_str)
    ∷ ("rope_scale", is_float)
    ∷ ("rope_freq_base", is_float)
    ∷ ("rope_freq_scale", is_float)
    ∷ ("yarn_orig_ctx", is_int)
    ∷ ("yarn_ext_factor", is_float)
    ∷ ("yarn_attn_factor", is_float)
    ∷ ("yarn_beta_slow", is_float)
    ∷ ("yarn_beta_fast", is_float)
    ∷ ("cpu_moe", is_bool)
    ∷ ("n_cpu_moe", is_int)
    ∷ ("split_mode", is_str)
    ∷ ("main_gpu", is_int)
    ∷ ("fit", is_str)
    ∷ ("fit_ctx", is_int)
    ∷ ("temp", is_float)
    ∷ ("top_k", is_int)
    ∷ ("top_p", is_float)
    ∷ ("min_p", is_float)
    ∷ ("typical_p", is_float)
    ∷ ("top_n_sigma", is_float)
    ∷ ("repeat_penalty", is_float)
    ∷ ("repeat_last_n", is_int)
    ∷ ("presence_penalty", is_float)
    ∷ ("frequency_penalty", is_float)
    ∷ ("seed", is_int)
    ∷ ("mirostat", is_int)
    ∷ ("mirostat_lr", is_float)
    ∷ ("mirostat_ent", is_float)
    ∷ ("xtc_probability", is_float)
    ∷ ("xtc_threshold", is_float)
    ∷ ("dynatemp_range", is_float)
    ∷ ("dynatemp_exp", is_float)
    ∷ ("dry_multiplier", is_float)
    ∷ ("dry_base", is_float)
    ∷ ("dry_allowed_length", is_int)
    ∷ ("dry_penalty_last_n", is_int)
    ∷ ("adaptive_target", is_float)
    ∷ ("adaptive_decay", is_float)
    ∷ ("ignore_eos", is_bool)
    ∷ ("chat_template", is_str)
    ∷ ("jinja", is_bool)
    ∷ ("skip_chat_parsing", is_bool)
    ∷ ("special", is_bool)
    ∷ ("spm_infill", is_bool)
    ∷ ("reasoning_format", is_str)
    ∷ ("reasoning", is_str)
    ∷ ("reasoning_budget", is_int)
    ∷ ("spec_type", is_str)
    ∷ ("spec_draft_n_max", is_int)
    ∷ ("spec_draft_n_min", is_int)
    ∷ ("spec_draft_p_min", is_float)
    ∷ ("spec_draft_p_split", is_float)
    ∷ ("spec_draft_ngl", is_int)
    ∷ ("spec_draft_backend_sampling", is_bool)
    ∷ ("metrics", is_bool)
    ∷ ("slots", is_bool)
    ∷ ("props", is_bool)
    ∷ ("embeddings", is_bool)
    ∷ ("reranking", is_bool)
    ∷ ("pooling", is_str)
    ∷ ("offline", is_bool)
    ∷ ("verbose", is_bool)
    ∷ ("log_disable", is_bool)
    ∷ ("log_colors", is_str)
    ∷ ("log_prefix", is_bool)
    ∷ ("log_timestamps", is_bool)
    ∷ ("log_verbosity", is_int)
    ∷ []

unfoldable pub safe_llama_flag_bounds : Dict (ℤ × ℤ)
safe_llama_flag_bounds =
    ("ctx_size", (pos 1, pos 2000000))
    ∷ ("n_gpu_layers", (negsuc 0, pos 999))
    ∷ ("n_predict", (negsuc 0, pos 1000000))
    ∷ ("threads", (negsuc 0, pos 256))
    ∷ ("threads_batch", (negsuc 0, pos 256))
    ∷ ("threads_http", (negsuc 0, pos 256))
    ∷ ("parallel", (pos 1, pos 256))
    ∷ ("batch_size", (pos 1, pos 65536))
    ∷ ("ubatch_size", (pos 1, pos 65536))
    ∷ ("keep", (negsuc 0, pos 65536))
    ∷ ("sleep_idle_seconds", (negsuc 0, pos 86400))
    ∷ ("cache_reuse", (pos 0, pos 65536))
    ∷ ("n_cpu_moe", (pos 0, pos 256))
    ∷ ("main_gpu", (pos 0, pos 16))
    ∷ ("fit_ctx", (pos 1, pos 2000000))
    ∷ ("cache_ram", (pos 0, pos 262144))
    ∷ ("ctx_checkpoints", (pos 0, pos 1024))
    ∷ ("checkpoint_every_n_tokens", (pos 1, pos 1000000))
    ∷ ("yarn_orig_ctx", (pos 0, pos 2000000))
    ∷ ("temp", (pos 0, pos 10))
    ∷ ("top_k", (pos 0, pos 10000))
    ∷ ("top_p", (pos 0, pos 1))
    ∷ ("min_p", (pos 0, pos 1))
    ∷ ("typical_p", (pos 0, pos 1))
    ∷ ("top_n_sigma", (negsuc 0, pos 100))
    ∷ ("repeat_penalty", (pos 0, pos 10))
    ∷ ("repeat_last_n", (negsuc 0, pos 65536))
    ∷ ("presence_penalty", (negsuc 9, pos 10))
    ∷ ("frequency_penalty", (negsuc 9, pos 10))
    ∷ ("seed", (negsuc 0, pos 9223372036854775807))
    ∷ ("mirostat", (pos 0, pos 2))
    ∷ ("mirostat_lr", (pos 0, pos 1))
    ∷ ("mirostat_ent", (pos 0, pos 100))
    ∷ ("xtc_probability", (pos 0, pos 1))
    ∷ ("xtc_threshold", (pos 0, pos 1))
    ∷ ("dynatemp_range", (pos 0, pos 10))
    ∷ ("dynatemp_exp", (pos 0, pos 10))
    ∷ ("dry_multiplier", (pos 0, pos 10))
    ∷ ("dry_base", (pos 1, pos 10))
    ∷ ("dry_allowed_length", (pos 0, pos 65536))
    ∷ ("dry_penalty_last_n", (negsuc 0, pos 65536))
    ∷ ("adaptive_target", (negsuc 0, pos 100))
    ∷ ("adaptive_decay", (pos 0, pos 1))
    ∷ ("slot_prompt_similarity", (pos 0, pos 1))
    ∷ ("rope_scale", (pos 0, pos 1000))
    ∷ ("rope_freq_base", (pos 0, pos 10000000))
    ∷ ("rope_freq_scale", (pos 0, pos 100))
    ∷ ("yarn_ext_factor", (negsuc 0, pos 100))
    ∷ ("yarn_attn_factor", (negsuc 0, pos 100))
    ∷ ("yarn_beta_slow", (negsuc 0, pos 100))
    ∷ ("yarn_beta_fast", (negsuc 0, pos 100))
    ∷ ("reasoning_budget", (negsuc 0, pos 1000000))
    ∷ ("log_verbosity", (pos 0, pos 4))
    ∷ ("spec_draft_n_max", (pos 0, pos 64))
    ∷ ("spec_draft_n_min", (pos 0, pos 64))
    ∷ ("spec_draft_p_min", (pos 0, pos 1))
    ∷ ("spec_draft_p_split", (pos 0, pos 1))
    ∷ ("spec_draft_ngl", (negsuc 0, pos 999))
    ∷ []
