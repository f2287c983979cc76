-- ===== src/Manifest/Store.antt =====
-- manifest.py and api/manifests.py: the manifests on disk. What a file's text is, `yaml` with pydantic's field
-- types, the file system's links, and whether the tempfile and its rename, and the fsync behind it, go through,
-- are the fields of `Files`.
use turbohaul_manager_rocm.Prelude.{
  ℕ, ◌+◌, ◌==◌, String, Bool, true, false, Option, none, some, List, [], ◌∷◌, if◌then◌else◌, ltb,
  Result, ok, err, concat, decimal,
}
use turbohaul_manager_rocm.Manifest.{
  Value, Python, Dict, get, Checked, raise_if, then_check, ManifestValidationError, escapes_root,
  symlink, not_mapping, below_min,
}
use turbohaul_manager_rocm.Manifest.Tags.{validate_tag}
use turbohaul_manager_rocm.Manifest.Checks.{flags_allowlist, sha256_format}

pub record Manifest (F : Type 0) : Type 0 where
  pub model_tag : String
  pub display_name : String
  pub description : String
  pub gguf_blob_sha256 : String
  pub gguf_size_bytes : ℕ
  pub context_size : ℕ
  pub expected_vram_bytes : ℕ
  pub revision : ℕ
  pub llama_server_flags : Dict (Value F)
  pub system_default : String
  pub stop_tokens : List String

-- The constructor's validation; of several errors the first is kept.
unfoldable pub validate : {F : Type 0} → Python F → Manifest F → Checked
validate py m = then_check (validate_tag m.model_tag) (
    then_check (sha256_format m.gguf_blob_sha256) (
      raise_if (ltb m.context_size 1) below_min
        (raise_if (ltb m.revision 1) below_min (flags_allowlist py m.llama_server_flags))))

-- What `yaml.safe_load` and the fields' types make of a text.
pub data Loaded (F : Type 0) : Type 0 where
  no_mapping wrong_fields : Loaded F
  fields : Manifest F → Loaded F

pub record Files (F T : Type 0) : Type 0 where
  pub dump : Manifest F → T
  pub load : T → Loaded F
  pub escapes : String → Bool
  pub is_symlink : String → Bool
  pub replaces : Bool
  pub syncs : Bool

-- A validator's error leaves the constructor inside pydantic's own, `validation_error`.
pub data StoreError : Type 0 where
  invalid : ManifestValidationError → StoreError
  validation_error concurrency not_found os_error : StoreError

abbrev pub set {ℓ} : {A : Type ℓ} → String → A → List (String × A) → List (String × A)
set k a [] = (k, a) ∷ []
set k a ((j, b) ∷ d) = if k == j then (k, a) ∷ d else (j, b) ∷ set k a d

abbrev pub remove_file {ℓ} : {A : Type ℓ} → String → List (String × A) → List (String × A)
remove_file k [] = []
remove_file k ((j, b) ∷ d) = if k == j then remove_file k d else (j, b) ∷ remove_file k d

unfoldable pub etag : {F : Type 0} → Manifest F → String
etag m = concat "\"" (concat (decimal m.revision) "\"")

abbrev pub next_revision : {F : Type 0} → Manifest F → Manifest F → Manifest F
next_revision existing m = record m { revision = existing.revision + 1 }

-- The statuses of the routes: 200 with the manifest or the ETag's revision, 400, 404, 412 and 500.
pub data Reply (F : Type 0) : Type 0 where
  found : Manifest F → Reply F
  written : ℕ → Reply F
  bad_request missing precondition_failed server_error : Reply F

module _ {F T : Type 0} (py : Python F) (files : Files F T) where
  unfoldable pub safe_manifest_path : String → Checked
  safe_manifest_path tag =
      then_check (validate_tag tag) (
        raise_if (files.escapes tag) escapes_root (raise_if (files.is_symlink tag) symlink (ok tt)))

  abbrev pub checked_manifest : Manifest F → Checked → Result StoreError (Manifest F)
  checked_manifest m (ok t) = ok m
  checked_manifest m (err e) = err validation_error

  abbrev pub loaded_manifest : Loaded F → Result StoreError (Manifest F)
  loaded_manifest no_mapping = err (invalid not_mapping)
  loaded_manifest wrong_fields = err validation_error
  loaded_manifest (fields m) = checked_manifest m (validate py m)

  abbrev pub stored_manifest : Option T → Result StoreError (Manifest F)
  stored_manifest none = err not_found
  stored_manifest (some t) = loaded_manifest (files.load t)

  abbrev pub with_path {ℓ} : {A : Type ℓ} → Checked → Result StoreError A → Result StoreError A
  with_path (ok t) next = next
  with_path (err e) next = err (invalid e)

  unfoldable pub read_manifest : List (String × T) → String → Result StoreError (Manifest F)
  unfolding safe_manifest_path
  read_manifest disk tag = with_path (safe_manifest_path tag) (stored_manifest (get tag disk))

  -- What a write returns or raises, and the disk behind it.
  abbrev pub Wrote : Type 0
  Wrote = Result StoreError (Manifest F) × List (String × T)

  -- The tempfile is renamed over the target, or unlinked: then the disk is as it was. The fsync of the
  -- directory behind the rename may raise: then the new file stays.
  abbrev pub replace_file : List (String × T) → Manifest F → Wrote
  replace_file disk m =
      if files.replaces
      then (if files.syncs then ok m else err os_error, set m.model_tag (files.dump m) disk)
      else (err os_error, disk)

  abbrev pub update :
      List (String × T) → Manifest F → Option String → Result StoreError (Manifest F) → Wrote
  update disk m if_match (err e) = (err e, disk)
  update disk m none (ok existing) = (err concurrency, disk)
  update disk m (some match) (ok existing) =
      if match == etag existing
      then replace_file disk (next_revision existing m)
      else (err concurrency, disk)

  abbrev pub create_or_update : List (String × T) → Manifest F → Option String → Option T → Wrote
  create_or_update disk m if_match none = replace_file disk m
  create_or_update disk m if_match (some t) =
      update disk m if_match (read_manifest disk m.model_tag)

  abbrev pub write_at : List (String × T) → Checked → Wrote → Wrote
  write_at disk (ok t) next = next
  write_at disk (err e) next = (err (invalid e), disk)

  unfoldable pub write_manifest_atomic : List (String × T) → Manifest F → Option String → Wrote
  unfolding read_manifest safe_manifest_path
  write_manifest_atomic disk m if_match =
      write_at disk (safe_manifest_path m.model_tag)
        (create_or_update disk m if_match (get m.model_tag disk))

  abbrev pub unlink : List (String × T) → String → Option T → Bool × List (String × T)
  unlink disk tag none = (false, disk)
  unlink disk tag (some t) = (true, remove_file tag disk)

  unfoldable pub delete_manifest :
      List (String × T) → String → Result StoreError (Bool × List (String × T))
  unfolding safe_manifest_path
  delete_manifest disk tag =
      with_path (safe_manifest_path tag) (ok (unlink disk tag (get tag disk)))

  abbrev pub put_reply : Result StoreError (Manifest F) → Reply F
  put_reply (ok m) = written m.revision
  put_reply (err (invalid e)) = bad_request
  put_reply (err concurrency) = precondition_failed
  put_reply (err _) = server_error

  abbrev pub put_payload :
      List (String × T) → Manifest F → Option String → Checked → Reply F × List (String × T)
  put_payload disk m if_match (err e) = (bad_request, disk)
  put_payload disk m if_match (ok t) =
      let (r, after) = write_manifest_atomic disk m if_match in (put_reply r, after)

  -- `payload` is what the constructor's field types make of the request's body.
  unfoldable pub put_manifest :
      List (String × T) → String → Manifest F → Option String → Reply F × List (String × T)
  unfolding write_manifest_atomic validate
  put_manifest disk tag payload if_match =
      let m = record payload { model_tag = tag } in
      put_payload disk m if_match (then_check (validate_tag tag) (validate py m))

  abbrev pub get_reply : Result StoreError (Manifest F) → Reply F
  get_reply (ok m) = found m
  get_reply (err (invalid e)) = bad_request
  get_reply (err not_found) = missing
  get_reply (err _) = server_error

  abbrev pub if_valid : Checked → Reply F → Reply F
  if_valid (ok t) reply = reply
  if_valid (err e) reply = bad_request

  unfoldable pub get_manifest : List (String × T) → String → Reply F
  unfolding read_manifest
  get_manifest disk tag = if_valid (validate_tag tag) (get_reply (read_manifest disk tag))
