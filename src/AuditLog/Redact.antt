-- ===== src/AuditLog/Redact.antt =====
-- api/logging.py, `_redact`: the recursive scrub of an event's payload.
use turbohaul_manager_rocm.Prelude.{
  ℕ, suc, ◌==◌, String, Bool, true, false, not, ◌&&◌, ◌||◌, List, [], ◌∷◌, if◌then◌else◌, ltb,
  arith, ◌≡◌, refl, Bool-cases, inl, inr,
}
use turbohaul_manager_rocm.Json.{
  Json, Items, Fields, null, boolean, number, text, array, object, nil, item, end, field,
}

-- `EventBus.REDACTED_KEYS`
abbrev pub redacted_keys : List String
redacted_keys = "prompt" ∷ "response" ∷ "context" ∷ "stderr" ∷ "stdout" ∷ "messages" ∷ []

pub is_in : String → List String → Bool
is_in k [] = false
is_in k (x ∷ xs) = k == x || is_in k xs

abbrev pub is_redacted : String → Bool
is_redacted k = is_in k redacted_keys

-- `_REDACT_DEPTH_CAP`
abbrev pub redact_depth_cap : ℕ
redact_depth_cap = 10

unfoldable mutual
  pub redact : ℕ → Json → Json
  redact depth null = null
  redact depth (boolean b) = boolean b
  redact depth (number n) = number n
  redact depth (text s) = text s
  redact depth (array xs) =
      if ltb redact_depth_cap depth then array xs else array (redact_items (suc depth) xs)
  redact depth (object fs) =
      if ltb redact_depth_cap depth then object fs else object (redact_fields (suc depth) fs)

  pub redact_items : ℕ → Items → Items
  redact_items depth nil = nil
  redact_items depth (item x xs) = item (redact depth x) (redact_items depth xs)

  pub redact_fields : ℕ → Fields → Fields
  redact_fields depth end = end
  redact_fields depth (field k v fs) =
      let rest = redact_fields depth fs in
      if is_redacted k then rest else field k (redact depth v) rest

-- No object at nesting depth 0 to 10 has a redacted key; the value stands at depth `depth`.
mutual
  pub is_clean : ℕ → Json → Bool
  is_clean depth null = true
  is_clean depth (boolean b) = true
  is_clean depth (number n) = true
  is_clean depth (text s) = true
  is_clean depth (array xs) = ltb redact_depth_cap depth || is_clean_items (suc depth) xs
  is_clean depth (object fs) = ltb redact_depth_cap depth || is_clean_fields (suc depth) fs

  pub is_clean_items : ℕ → Items → Bool
  is_clean_items depth nil = true
  is_clean_items depth (item x xs) = is_clean depth x && is_clean_items depth xs

  pub is_clean_fields : ℕ → Fields → Bool
  is_clean_fields depth end = true
  is_clean_fields depth (field k v fs) =
      not (is_redacted k) && (is_clean depth v && is_clean_fields depth fs)

mutual
  unfolding redact is_clean

  redact-is_clean : (depth : ℕ) (j : Json) → is_clean depth (redact depth j) ≡ true
  redact-is_clean depth null = refl
  redact-is_clean depth (boolean b) = refl
  redact-is_clean depth (number n) = refl
  redact-is_clean depth (text s) = refl
  redact-is_clean depth (array xs) = ground (arith, redact_items-is_clean (suc depth) xs)
  redact-is_clean depth (object fs) = ground (arith, redact_fields-is_clean (suc depth) fs)

  redact_items-is_clean :
      (depth : ℕ) (xs : Items) → is_clean_items depth (redact_items depth xs) ≡ true
  redact_items-is_clean depth nil = refl
  redact_items-is_clean depth (item x xs) =
      rw (redact-is_clean depth x) (redact_items-is_clean depth xs)

  redact_fields-is_clean :
      (depth : ℕ) (fs : Fields) → is_clean_fields depth (redact_fields depth fs) ≡ true
  redact_fields-is_clean depth end = refl
  redact_fields-is_clean depth (field k v fs) = elim (Bool-cases (is_redacted k)) [
    | inl h ↦ rw h (redact_fields-is_clean depth fs)
    | inr h ↦ rw h (rw (h, redact-is_clean depth v) (redact_fields-is_clean depth fs))
  ]

mutual
  unfolding redact is_clean

  redact_clean : (depth : ℕ) (j : Json) → is_clean depth j ≡ true → redact depth j ≡ j
  redact_clean depth null h = refl
  redact_clean depth (boolean b) h = refl
  redact_clean depth (number n) h = refl
  redact_clean depth (text s) h = refl
  redact_clean depth (array xs) h = ground (arith, redact_items_clean (suc depth) xs)
  redact_clean depth (object fs) h = ground (arith, redact_fields_clean (suc depth) fs)

  redact_items_clean :
      (depth : ℕ) (xs : Items) → is_clean_items depth xs ≡ true → redact_items depth xs ≡ xs
  redact_items_clean depth nil h = refl
  redact_items_clean depth (item x xs) h =
      ground (arith, redact_clean depth x, redact_items_clean depth xs)

  redact_fields_clean :
      (depth : ℕ) (fs : Fields) → is_clean_fields depth fs ≡ true → redact_fields depth fs ≡ fs
  redact_fields_clean depth end h = refl
  redact_fields_clean depth (field k v fs) h =
      ground (arith, redact_clean depth v, redact_fields_clean depth fs)

-- The scrub of a payload leaves no redacted key in an object down to nesting depth 10, and changes
-- nothing in a payload that has none: so it is idempotent.
pub redact_lem :
    (j : Json)
    → (is_clean 0 (redact 0 j) ≡ true)
      × (is_clean 0 j ≡ true → redact 0 j ≡ j)
      × (redact 0 (redact 0 j) ≡ redact 0 j)
redact_lem j =
    (redact-is_clean 0 j, redact_clean 0 j, redact_clean 0 (redact 0 j) (redact-is_clean 0 j))
