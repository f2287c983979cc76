-- ===== src/Manifest.antt =====
-- manifest.py: a model's manifest. A flag's value is what YAML can hold; the floats, `str.lower` and
-- `str` of a float are Python's: they are the fields of `Python`, over any type of floats.
pub mod Tables
pub mod Names
pub mod Tags
pub mod Paths
pub mod Checks
pub mod Argv
pub mod Store
pub mod Admitted
pub mod Reader
pub mod RoundTrip
pub mod Swaps
pub mod Register
mod Tests
mod StoreTests
use turbohaul_manager_rocm.Prelude.{
  ℕ, ◌-◌, ◌≤◌, ◌==◌, String, Bool, true, false, not, ◌&&◌, ◌||◌, Option, none, some, List, [], ◌∷◌,
  if◌then◌else◌, ltb, leb, eqb, Result, ok, err, decimal,
}

pub data ℤ : Type 0 where
  pos negsuc : ℕ → ℤ

abbrev pub ltz : ℤ → ℤ → Bool
ltz (pos m) (pos n) = ltb m n
ltz (pos m) (negsuc n) = false
ltz (negsuc m) (pos n) = true
ltz (negsuc m) (negsuc n) = ltb n m

-- `other`: null, a list, a mapping or a date, with its truth value and its text.
pub data Value (F : Type 0) : Type 0 where
  int : ℤ → Value F
  bool : Bool → Value F
  str : String → Value F
  float : F → Value F
  other : Bool → String → Value F

pub record Python (F : Type 0) : Type 0 where
  pub lower : String → String
  pub float_lt : F → ℤ → Bool
  pub float_gt : F → ℤ → Bool
  pub float_text : F → String
  pub float_true : F → Bool

-- The types in `SAFE_LLAMA_FLAGS`: one, or a pair of them.
pub data FlagType : Type 0 where
  is_int is_bool is_str is_float int_or_str bool_or_str : FlagType

-- A dict keeps the order of its insertions.
abbrev pub Dict : Type 0 → Type 0
Dict A = List (String × A)

abbrev pub get {ℓ} : {A : Type ℓ} → String → List (String × A) → Option A
get k [] = none
get k ((j, a) ∷ d) = if k == j then some a else get k d

abbrev pub contains : String → List String → Bool
contains k [] = false
contains k (j ∷ js) = k == j || contains k js

pub data ManifestValidationError : Type 0 where
  bad_tag bad_sha256 denied guarded unknown_flag bad_flash_attn bad_gpu_layers :
      ManifestValidationError
  bad_chat_template bad_enum bad_type below_min above_max : ManifestValidationError
  needs_kv_unified indivisible_ctx small_ctx blocked escapes_root symlink not_mapping :
      ManifestValidationError

abbrev pub Checked : Type 0
Checked = Result ManifestValidationError (Unit {0})

abbrev pub raise_if : Bool → ManifestValidationError → Checked → Checked
raise_if true e rest = err e
raise_if false e rest = rest

abbrev pub then_check : Checked → Checked → Checked
then_check (ok t) next = next
then_check (err e) next = err e
