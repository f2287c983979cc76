-- ===== src/Manifest/Reader.antt =====
-- manifest.py: a reader of the sidecar's command line, for the flags of the allowlist.
use Prim.Native.String.{len, slice}
use text.Mathlib.TextPositions.{slice-append_right, len-append}
use turbohaul_manager_rocm.Prelude.{
  ◌==◌, String, Bool, true, false, not, ◌&&◌, ◌||◌, List, [], ◌∷◌, ◌++◌, Option, eq_iff, Bool-cases,
  inl, inr, none, some, if◌then◌else◌, eqb, concat, replace, replace-replace, all_codes, arith, ◌≡◌,
  refl, sym, ap, ◌∙◌, subst,
}
use turbohaul_manager_rocm.Manifest.{FlagType, is_bool, int_or_str, bool_or_str, Dict, get}
use turbohaul_manager_rocm.Manifest.Argv.{cli_key, is_known}
use turbohaul_manager_rocm.Manifest.Tables.{safe_llama_flags}
use turbohaul_manager_rocm.Manifest.Names.{safe_llama_flag_string_enums}

-- A reader of the command line that knows which flags are switches.
pub key_of : String → String
key_of word = replace "-" "_" (slice word 2 (len word))

abbrev pub has_no_dash : String → Bool
has_no_dash = all_codes (λ c. not (eqb c b'-'))

key_of-cli_key : (k : String) → has_no_dash k ≡ true → key_of (cli_key k) ≡ k
unfolding key_of cli_key
key_of-cli_key k h =
    ap (λ w. replace "-" "_" w)
      (ap (λ n. slice (concat "--" (replace "_" "-" k)) 2 n) (len-append "--" (replace "_" "-" k))
        ∙ slice-append_right "--" (replace "_" "-" k))
    ∙ replace-replace "_" "-" k h

abbrev pub is_switch : FlagType → Bool
is_switch is_bool = true
is_switch _ = false

abbrev pub is_pair : FlagType → Bool
is_pair int_or_str = true
is_pair bool_or_str = true
is_pair _ = false

abbrev pub has_own_check : String → Bool
has_own_check k =
    k == "flash_attn"
    || k == "n_gpu_layers"
    || k == "chat_template"
    || is_known (get k safe_llama_flag_string_enums)

-- The check of a flag leaves a Boolean to the switches.
abbrev pub is_consistent : String → FlagType → Bool
is_consistent k t =
    has_no_dash k && (if has_own_check k then not (is_switch t) else not (is_pair t))

abbrev pub are_consistent : Dict FlagType → Bool
are_consistent [] = true
are_consistent ((k, t) ∷ d) = is_consistent k t && are_consistent d

pub consistent_table : are_consistent safe_llama_flags ≡ true
unfolding safe_llama_flags safe_llama_flag_string_enums all_codes
consistent_table = refl

pub get-is_consistent :
    (k : String) (d : Dict FlagType) (t : FlagType)
    → are_consistent d ≡ true
    → get k d ≡ some t
    → is_consistent k t ≡ true
get-is_consistent k [] t h g = absurd cc
get-is_consistent k ((j, u) ∷ d) t h g = elim (Bool-cases (k == j)) [
  | inl e ↦ subst (λ z. is_consistent z t ≡ true) (sym ((eq_iff k j).0 e)) (ground (arith, g))
  | inr e ↦ get-is_consistent k d t (ground arith) (ground arith)
]

-- Whether a flag stands alone on the command line.
abbrev pub switches : Option FlagType → Bool
switches none = false
switches (some t) = is_switch t

abbrev pub and_then {ℓ} : {A : Type ℓ} → List A → Option (List A) → Option (List A)
and_then xs none = none
and_then xs (some ys) = some (xs ++ ys)

abbrev pub with_flag :
    Bool
    → String
    → String
    → Option (Dict (Option String))
    → Option (Dict (Option String))
    → Option (Dict (Option String))
with_flag true k v alone taken = and_then ((k, none) ∷ []) alone
with_flag false k v alone taken = and_then ((k, some v) ∷ []) taken

-- The flags that a command line gives, with their values where they take one.
unfoldable pub read_argv : List String → Option (Dict (Option String))
read_argv [] = some []
read_argv (w ∷ []) =
    if switches (get (key_of w) safe_llama_flags) then some ((key_of w, none) ∷ []) else none
read_argv (w ∷ v ∷ ws) =
    with_flag (switches (get (key_of w) safe_llama_flags)) (key_of w) v (read_argv (v ∷ ws))
      (read_argv ws)

read_argv-switch :
    (w : String) (ws : List String)
    → switches (get (key_of w) safe_llama_flags) ≡ true
    → read_argv (w ∷ ws) ≡ and_then ((key_of w, none) ∷ []) (read_argv ws)
unfolding read_argv
read_argv-switch w [] h = ground arith
read_argv-switch w (v ∷ ws) h =
    ap (λ b. with_flag b (key_of w) v (read_argv (v ∷ ws)) (read_argv ws)) h

read_argv-setting :
    (w v : String) (ws : List String)
    → switches (get (key_of w) safe_llama_flags) ≡ false
    → read_argv (w ∷ v ∷ ws) ≡ and_then ((key_of w, some v) ∷ []) (read_argv ws)
unfolding read_argv
read_argv-setting w v ws h =
    ap (λ b. with_flag b (key_of w) v (read_argv (v ∷ ws)) (read_argv ws)) h

pub read_cli-switch :
    (k : String) (ws : List String)
    → switches (get k safe_llama_flags) ≡ true
    → has_no_dash k ≡ true
    → read_argv (cli_key k ∷ ws) ≡ and_then ((k, none) ∷ []) (read_argv ws)
read_cli-switch k ws s d =
    let e = key_of-cli_key k d in
    read_argv-switch (cli_key k) ws (ap (λ j. switches (get j safe_llama_flags)) e ∙ s)
    ∙ ap (λ j. and_then ((j, none) ∷ []) (read_argv ws)) e

pub read_cli-setting :
    (k : String) (t : FlagType) (v : String) (ws : List String)
    → get k safe_llama_flags ≡ some t
    → is_switch t ≡ false
    → has_no_dash k ≡ true
    → read_argv (cli_key k ∷ v ∷ ws) ≡ and_then ((k, some v) ∷ []) (read_argv ws)
read_cli-setting k t v ws g s d =
    let e = key_of-cli_key k d in
    read_argv-setting (cli_key k) v ws
      (ap (λ j. switches (get j safe_llama_flags)) e ∙ ap switches g ∙ s)
    ∙ ap (λ j. and_then ((j, some v) ∷ []) (read_argv ws)) e

pub and_then-none : {A : Type 0} (o : Option (List A)) → o ≡ and_then [] o
and_then-none none = refl
and_then-none (some xs) = refl
