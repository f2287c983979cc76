-- ===== src/Manifest/RoundTrip.antt =====
-- manifest.py: the command line that `flags_to_argv` builds says exactly what the manifest sets.
use turbohaul_manager_rocm.Prelude.{
  ◌==◌, String, Bool, true, false, List, [], ◌∷◌, ◌++◌, Option, All, Bool-cases, inl, inr, none,
  some, if◌then◌else◌, ok, arith, ◌≡◌, refl, sym, ap, ◌∙◌,
}
use turbohaul_manager_rocm.Manifest.{
  FlagType, Dict, get, Value, bool, str, int, float, other, Python, ℤ,
}
use turbohaul_manager_rocm.Manifest.Argv.{
  is_blocked, value_text, flash_attn_text, plain_argv, flag_argv, flags_to_argv,
}
use turbohaul_manager_rocm.Manifest.Checks.{check_general, validate_flag_value, flags_allowlist}
use turbohaul_manager_rocm.Manifest.Admitted.{IsAdmitted, flags_allowlist-IsAdmitted}
use turbohaul_manager_rocm.Manifest.Tables.{safe_llama_flags, safe_llama_flag_bounds}
use turbohaul_manager_rocm.Manifest.Reader.{
  has_no_dash, is_switch, is_pair, is_consistent, consistent_table, get-is_consistent, switches,
  and_then, read_argv, read_cli-switch, read_cli-setting, and_then-none,
}

abbrev is_bool_value : {F : Type 0} → Value F → Bool
is_bool_value (bool b) = true
is_bool_value _ = false

module _ {F : Type 0} (py : Python F) where
  abbrev plain_setting : String → Value F → Dict (Option String)
  plain_setting key (bool true) = (key, none) ∷ []
  plain_setting key (bool false) = []
  plain_setting key value = (key, some (value_text py value)) ∷ []

  -- What a manifest sets: a switch that is off is not there.
  abbrev pub setting : String → Value F → Dict (Option String)
  setting key value =
      if key == "flash_attn"
      then (key, some (flash_attn_text py value)) ∷ []
      else plain_setting key value

  abbrev pub settings : Dict (Value F) → Dict (Option String)
  settings [] = []
  settings ((key, value) ∷ rest) = setting key value ++ settings rest

  read_argv-plain :
      (k : String) (t : FlagType) (v : Value F) (ws : List String)
      → get k safe_llama_flags ≡ some t
      → is_bool_value v ≡ is_switch t
      → has_no_dash k ≡ true
      → read_argv (plain_argv py k v ++ ws) ≡ and_then (plain_setting k v) (read_argv ws)
  read_argv-plain k t (bool true) ws g s d = read_cli-switch k ws (ap switches g ∙ sym s) d
  read_argv-plain k t (bool false) ws g s d = and_then-none (read_argv ws)
  read_argv-plain k t v ws g s d = read_cli-setting k t (value_text py v) ws g (sym s) d

  check_general-bool :
      (t : FlagType) (b : Option (ℤ × ℤ)) (v : Value F)
      → is_pair t ≡ false
      → check_general py t none b v ≡ ok tt
      → is_bool_value v ≡ is_switch t
  check_general-bool t b (int n) p h = ground arith
  check_general-bool t b (bool x) p h = ground arith
  check_general-bool t b (str s) p h = ground arith
  check_general-bool t b (float x) p h = ground arith
  check_general-bool t b (other x s) p h = ground arith

  validate_flag_value-bool :
      (k : String) (t : FlagType) (v : Value F)
      → is_consistent k t ≡ true
      → (k == "flash_attn") ≡ false
      → validate_flag_value py k t v ≡ ok tt
      → is_bool_value v ≡ is_switch t
  unfolding validate_flag_value
  validate_flag_value-bool k t v c n h =
      ground (arith, check_general-bool t (get k safe_llama_flag_bounds) v)

  -- The words of one flag are read off the front of a command line.
  read_argv-flag_argv :
      (k : String) (t : FlagType) (v : Value F) (ws : List String)
      → get k safe_llama_flags ≡ some t
      → is_consistent k t ≡ true
      → validate_flag_value py k t v ≡ ok tt
      → read_argv (flag_argv py k v ++ ws) ≡ and_then (setting k v) (read_argv ws)
  read_argv-flag_argv k t v ws g c h = elim (Bool-cases (k == "flash_attn")) [
    | inl e ↦
        rw e
          (read_cli-setting k t (flash_attn_text py v) ws g (ground (arith, e)) (ground (arith, c)))
    | inr e ↦
        rw e (read_argv-plain k t v ws g (validate_flag_value-bool k t v c e h) (ground (arith, c)))
  ]

  read_argv-entry :
      (k : String) (v : Value F) (ws : List String)
      → IsAdmitted py k v
      → read_argv (flag_argv py k v ++ ws) ≡ and_then (setting k v) (read_argv ws)
  read_argv-entry k v ws a =
      read_argv-flag_argv k a.expected v ws a.known
        (get-is_consistent k safe_llama_flags a.expected consistent_table a.known) a.valid

  is_blocked-false : (k : String) (v : Value F) → IsAdmitted py k v → is_blocked k ≡ false
  is_blocked-false k v a = ground (arith, a.known, a.not_denied)

  read_argv-All :
      (flags : Dict (Value F))
      → All (λ f. IsAdmitted py f.0 f.1) flags
      → (argv : List String) × (flags_to_argv py flags ≡ ok argv)
        × (read_argv argv ≡ some (settings flags))
  unfolding flags_to_argv read_argv
  read_argv-All [] h = ([], refl, refl)
  read_argv-All ((k, v) ∷ rest) h =
      let (argv, built, reads) = read_argv-All rest h.1 in
      (
        flag_argv py k v ++ argv,
        rw (is_blocked-false k v h.0, built) refl,
        read_argv-entry k v argv h.0 ∙ ap (and_then (setting k v)) reads,
      )

  -- Of flags that `flags_allowlist` lets pass, `flags_to_argv` builds a command line, and a reader that knows
  -- which flags are switches gets back each flag in order with its value's text, switches that are off left out.
  pub read_argv-flags_to_argv :
      (flags : Dict (Value F))
      → flags_allowlist py flags ≡ ok tt
      → (argv : List String) × (flags_to_argv py flags ≡ ok argv)
        × (read_argv argv ≡ some (settings flags))
  read_argv-flags_to_argv flags h = read_argv-All flags (flags_allowlist-IsAdmitted py flags h).0
