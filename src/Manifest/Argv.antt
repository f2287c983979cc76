-- ===== src/Manifest/Argv.antt =====
-- manifest.py: the command line of a model's sidecar, `flags_to_argv`.
use turbohaul_manager_rocm.Prelude.{
  suc, ◌==◌, String, Bool, true, false, not, ◌||◌, List, [], ◌∷◌, ◌++◌, Option, none, some,
  if◌then◌else◌, Result, ok, err, concat, replace, decimal,
}
use turbohaul_manager_rocm.Manifest.{
  pos, negsuc, Value, int, bool, str, float, other, Python, Dict, get, contains,
  ManifestValidationError, blocked,
}
use turbohaul_manager_rocm.Manifest.Tables.{safe_llama_flags}
use turbohaul_manager_rocm.Manifest.Names.{denied_flags}

unfoldable pub cli_key : String → String
cli_key key = concat "--" (replace "_" "-" key)

abbrev pub is_known {ℓ} : {A : Type ℓ} → Option A → Bool
is_known none = false
is_known (some a) = true

abbrev pub is_blocked : String → Bool
is_blocked key = not (is_known (get key safe_llama_flags)) || contains key denied_flags

abbrev pub prepend :
    List String
    → Result ManifestValidationError (List String)
    → Result ManifestValidationError (List String)
prepend words (ok rest) = ok (words ++ rest)
prepend words (err e) = err e

module _ {F : Type 0} (py : Python F) where
  -- Python's `str`.
  unfoldable pub value_text : Value F → String
  value_text (int (pos n)) = decimal n
  value_text (int (negsuc n)) = concat "-" (decimal (suc n))
  value_text (bool true) = "True"
  value_text (bool false) = "False"
  value_text (str s) = s
  value_text (float x) = py.float_text x
  value_text (other b s) = s

  abbrev pub flash_attn_text : Value F → String
  flash_attn_text (bool true) = "on"
  flash_attn_text (bool false) = "off"
  flash_attn_text value = py.lower (value_text value)

  abbrev pub plain_argv : String → Value F → List String
  plain_argv key (bool true) = cli_key key ∷ []
  plain_argv key (bool false) = []
  plain_argv key value = cli_key key ∷ value_text value ∷ []

  abbrev pub flag_argv : String → Value F → List String
  flag_argv key value =
      if key == "flash_attn" then cli_key key ∷ flash_attn_text value ∷ [] else plain_argv key value

  unfoldable pub flags_to_argv : Dict (Value F) → Result ManifestValidationError (List String)
  flags_to_argv [] = ok []
  flags_to_argv ((key, value) ∷ rest) =
      if is_blocked key then err blocked else prepend (flag_argv key value) (flags_to_argv rest)
