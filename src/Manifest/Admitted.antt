-- ===== src/Manifest/Admitted.antt =====
-- manifest.py: what a manifest's flags are once `flags_allowlist` has admitted them.
use turbohaul_manager_rocm.Prelude.{
  ℕ, ◌/◌, ◌%◌, ◌==◌, ◌≤◌, ◌<◌, String, Bool, true, false, not, [], ◌∷◌, Option, none, some, leb, ok,
  err, arith, ◌≡◌, refl, sym, ap, ◌∙◌, All, inl, inr, Bool-cases, eq_iff,
}
use turbohaul_manager_rocm.Manifest.{
  ℤ, pos, ltz, FlagType, Value, int, Python, Dict, get, contains, Checked, then_check, raise_if,
  ManifestValidationError,
}
use turbohaul_manager_rocm.Manifest.Tables.{safe_llama_flags, safe_llama_flag_bounds}
use turbohaul_manager_rocm.Manifest.Names.{denied_flags, suffix_guard_patterns}
use turbohaul_manager_rocm.Manifest.Checks.{
  matches_any, suffix_guard_check, validate_flag_value, check_flag, check_known, check_flags,
  flags_allowlist, validate_parallel_ctx, is_set, check_parallel, split_ctx, int_bounds,
  per_slot_ctx_floor,
}

pub then_check-ok : (a b : Checked) → then_check a b ≡ ok tt → (a ≡ ok tt) × (b ≡ ok tt)
then_check-ok (ok tt) b h = (refl, h)
then_check-ok (err e) b h = absurd cc

pub raise_if-ok :
    (b : Bool) (e : ManifestValidationError) (c : Checked)
    → raise_if b e c ≡ ok tt
    → (b ≡ false) × (c ≡ ok tt)
raise_if-ok true e c h = absurd cc
raise_if-ok false e c h = (refl, h)

module _ {F : Type 0} (py : Python F) where
  -- A flag that was checked: of the allowlist, not denied, not caught by the guard, its value valid.
  pub record IsAdmitted (key : String) (value : Value F) : Type 0 where
    pub expected : FlagType
    pub known : get key safe_llama_flags ≡ some expected
    pub not_denied : contains key denied_flags ≡ false
    pub not_guarded : matches_any suffix_guard_patterns key ≡ false
    pub valid : validate_flag_value py key expected value ≡ ok tt

  pub check_known-ok :
      (key : String) (o : Option FlagType) (value : Value F)
      → check_known py key o value ≡ ok tt
      → (t : FlagType) × (o ≡ some t) × (validate_flag_value py key t value ≡ ok tt)
  check_known-ok key none value h = absurd cc
  check_known-ok key (some t) value h = (t, refl, h)

  pub check_flag-IsAdmitted :
      (key : String) (value : Value F) → check_flag py key value ≡ ok tt → IsAdmitted key value
  unfolding suffix_guard_check
  check_flag-IsAdmitted key value h =
      let (d, rest) = raise_if-ok (contains key denied_flags) _ _ h in
      let (g, k) = then_check-ok (suffix_guard_check key) _ rest in
      let (t, known, valid) = check_known-ok key (get key safe_llama_flags) value k in
      record {
        expected = t;
        known = known;
        not_denied = d;
        not_guarded = (raise_if-ok (matches_any suffix_guard_patterns key) _ _ g).0;
        valid = valid;
      }

  pub check_flags-All :
      (flags : Dict (Value F)) → check_flags py flags ≡ ok tt → All (λ f. IsAdmitted f.0 f.1) flags
  unfolding check_flags
  check_flags-All [] h = tt
  check_flags-All ((key, value) ∷ rest) h =
      let (first, others) = then_check-ok (check_flag py key value) _ h in
      (check_flag-IsAdmitted key value first, check_flags-All rest others)

  split_ctx-ok :
      (p c : ℕ)
      → split_ctx py p (some (int (pos c))) ≡ ok tt
      → (c % p ≡ 0) × (per_slot_ctx_floor py ≤ c / p)
  split_ctx-ok p c h = ground arith

  check_parallel-ok :
      (p : ℕ) (flags : Dict (Value F))
      → 1 < p
      → check_parallel py (some (int (pos p))) flags ≡ ok tt
      → (is_set py (get "kv_unified" flags) ≡ true)
        × ((c : ℕ) → get "ctx_size" flags ≡ some (int (pos c)) → (c % p ≡ 0) × (8192 ≤ c / p))
  check_parallel-ok p flags l h =
      let several : leb p 1 ≡ false = ground arith in
      let (unified, split) =
        raise_if-ok (not (is_set py (get "kv_unified" flags))) _ _ (rw several at h) in
      (
        ground (arith, unified),
        λ c g. split_ctx-ok p c (ap (λ o. split_ctx py p o) (sym g) ∙ split),
      )

  -- What `--parallel` above 1 needs: a unified pool, and a context, where its size is given, that splits
  -- into slots of at least 8192.
  abbrev pub SplitsContext : Dict (Value F) → Type 0
  SplitsContext flags =
      (p : ℕ)
      → 1 < p
      → get "parallel" flags ≡ some (int (pos p))
      → (is_set py (get "kv_unified" flags) ≡ true)
        × ((c : ℕ) → get "ctx_size" flags ≡ some (int (pos c)) → (c % p ≡ 0) × (8192 ≤ c / p))

  -- Flags that `flags_allowlist` lets pass are all of the allowlist, none is denied or caught by the
  -- guard, each value is valid for its key, and with `parallel` above 1 the pool is unified and
  -- `ctx_size`, where it is given, splits evenly into slots of at least 8192 tokens.
  pub flags_allowlist-IsAdmitted :
      (flags : Dict (Value F))
      → flags_allowlist py flags ≡ ok tt
      → All (λ f. IsAdmitted f.0 f.1) flags × SplitsContext flags
  unfolding flags_allowlist validate_parallel_ctx
  flags_allowlist-IsAdmitted flags h =
      let (each, parallel) = then_check-ok (check_flags py flags) _ h in
      (
        check_flags-All flags each,
        λ p l g.
            check_parallel-ok p flags l (ap (λ o. check_parallel py o flags) (sym g) ∙ parallel),
      )

  within_bounds :
      (n : ℤ) (lo hi : ℤ)
      → int_bounds n (some (lo, hi)) ≡ ok tt
      → (ltz n lo ≡ false) × (ltz hi n ≡ false)
  within_bounds n lo hi h = ground arith

  -- A whole number that is valid for a flag with bounds lies within them.
  pub validate_flag_value-bounds :
      (key : String) (t : FlagType) (n lo hi : ℤ)
      → get key safe_llama_flag_bounds ≡ some (lo, hi)
      → validate_flag_value py key t (int n) ≡ ok tt
      → (ltz n lo ≡ false) × (ltz hi n ≡ false)
  unfolding validate_flag_value
  validate_flag_value-bounds key t n lo hi g h = elim (Bool-cases (key == "n_gpu_layers")) [
    | inl e ↦
        let same =
          ap (λ k. get k safe_llama_flag_bounds) (sym ((eq_iff key "n_gpu_layers").0 e)) ∙ g in
        ground (arith, within_bounds n lo hi, same)
    | inr e ↦ ground (arith, within_bounds n lo hi)
  ]
