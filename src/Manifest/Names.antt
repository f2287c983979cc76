-- ===== src/Manifest/Names.antt =====
-- manifest.py: the names that a flag or a value must have or must not have.
use turbohaul_manager_rocm.Prelude.{String, List, [], ◌∷◌}
use turbohaul_manager_rocm.Manifest.{Dict}

unfoldable pub safe_llama_flag_string_enums : Dict (List String)
safe_llama_flag_string_enums =
    ("numa", "none" ∷ "distribute" ∷ "isolate" ∷ "numactl" ∷ [])
    ∷ (
      "cache_type_k",
      "f32" ∷ "f16" ∷ "bf16" ∷ "q8_0" ∷ "q4_0" ∷ "q4_1" ∷ "iq4_nl" ∷ "q5_0" ∷ "q5_1" ∷ "turbo2"
          ∷ "turbo3" ∷ "turbo4" ∷ [],
    )
    ∷ (
      "cache_type_v",
      "f32" ∷ "f16" ∷ "bf16" ∷ "q8_0" ∷ "q4_0" ∷ "q4_1" ∷ "iq4_nl" ∷ "q5_0" ∷ "q5_1" ∷ "turbo2"
          ∷ "turbo3" ∷ "turbo4" ∷ [],
    )
    ∷ ("rope_scaling", "none" ∷ "linear" ∷ "yarn" ∷ [])
    ∷ ("split_mode", "none" ∷ "layer" ∷ "row" ∷ "tensor" ∷ [])
    ∷ ("fit", "on" ∷ "off" ∷ [])
    ∷ ("reasoning_format", "none" ∷ "deepseek" ∷ "deepseek-legacy" ∷ "auto" ∷ [])
    ∷ ("reasoning", "on" ∷ "off" ∷ "auto" ∷ [])
    ∷ ("pooling", "none" ∷ "mean" ∷ "cls" ∷ "last" ∷ "rank" ∷ [])
    ∷ ("log_colors", "on" ∷ "off" ∷ "auto" ∷ [])
    ∷ ("spec_type", "draft-mtp" ∷ [])
    ∷ []

unfoldable pub flash_attn_str_values : List String
flash_attn_str_values = "on" ∷ "off" ∷ "auto" ∷ "enabled" ∷ "disabled" ∷ []

unfoldable pub n_gpu_layers_str_values : List String
n_gpu_layers_str_values = "all" ∷ "auto" ∷ []

unfoldable pub safe_chat_template_names : List String
safe_chat_template_names =
    "chatml" ∷ "llama2" ∷ "llama3" ∷ "llama3.1" ∷ "llama3.2" ∷ "llama3.3" ∷ "gemma" ∷ "gemma2"
    ∷ "gemma3" ∷ "gemma4" ∷ "mistral" ∷ "mistral-v1" ∷ "mistral-v3" ∷ "mistral-v3-tekken"
    ∷ "mistral-v7" ∷ "phi3" ∷ "phi4" ∷ "deepseek" ∷ "deepseek2" ∷ "deepseek-r1" ∷ "qwen" ∷ "qwen2"
    ∷ "qwen2.5" ∷ "qwen3" ∷ "qwen3.5" ∷ "qwen3.6" ∷ "command-r" ∷ "command-r-plus" ∷ "vicuna"
    ∷ "alpaca" ∷ "zephyr" ∷ "chatglm3" ∷ "chatglm4" ∷ "openchat" ∷ "orion" ∷ "yi" ∷ "monarch"
    ∷ "smollm" ∷ "minicpm" ∷ "exaone3" ∷ "rwkv-world" ∷ "granite" ∷ "qwen3-thinking" ∷ "qwq"
    ∷ "default" ∷ []

-- The patterns `.*s$` and `^s`.
pub data Pattern : Type 0 where
  ends begins : String → Pattern

unfoldable pub suffix_guard_patterns : List Pattern
suffix_guard_patterns =
    ends "_file"
    ∷ ends "_path"
    ∷ ends "_dir"
    ∷ ends "_url"
    ∷ ends "_repo"
    ∷ ends "_key"
    ∷ begins "hf_"
    ∷ begins "lora"
    ∷ begins "control_vector"
    ∷ begins "lookup_cache_"
    ∷ begins "ssl_"
    ∷ begins "api_key"
    ∷ begins "slot_save_"
    ∷ begins "webui_"
    ∷ begins "docker_"
    ∷ []

unfoldable pub denied_flags : List String
denied_flags =
    "mmproj" ∷ "lora" ∷ "lora_base" ∷ "lora_scaled" ∷ "grammar_file" ∷ "json_schema_file"
    ∷ "log_file" ∷ "slot_save_path" ∷ "chat_template_file" ∷ "in_prefix_file" ∷ "in_suffix_file"
    ∷ "hf_token" ∷ "override_kv" ∷ "cache_prompt_file" ∷ "binary_override" ∷ "model" ∷ "alias"
    ∷ "rpc" ∷ "host" ∷ "port" ∷ "model_draft" ∷ "model_url" ∷ "model_url_draft" ∷ "hf_repo"
    ∷ "hf_repo_draft" ∷ "hf_file" ∷ "hf_repo_v" ∷ "hf_file_v" ∷ "docker_repo" ∷ "api_key"
    ∷ "api_key_file" ∷ "ssl_key_file" ∷ "ssl_cert_file" ∷ "lookup_cache_static"
    ∷ "lookup_cache_dynamic" ∷ "model_vocoder" ∷ "webui_config_file" ∷ "webui_mcp_proxy" ∷ "path"
    ∷ "media_path" ∷ "models_dir" ∷ "models_preset" ∷ "control_vector" ∷ "control_vector_scaled"
    ∷ "tools" ∷ "grammar" ∷ "tensor_split" ∷ "samplers" ∷ "dry_sequence_breaker"
    ∷ "chat_template_kwargs" ∷ "reasoning_budget_message" ∷ "fit_target" ∷ []
