-- ===== src/Blob/Addressed.antt =====
-- blob_store.py: the store is addressed by content, and a blob that was stored passes the check at stage time.
use turbohaul_manager_rocm.Prelude.{
  ℕ, ◌==◌, String, Bool, true, Option, none, some, List, [], ◌∷◌, All, Result, ok, err, arith, ◌≡◌,
  refl, sym, ◌∙◌, subst, inl, inr, Bool-cases, eq_iff, ◌⊎◌, ◌≢◌, false,
}
use turbohaul_manager_rocm.Blob.{
  Bytes, Io, integrity_failure, Sha256, BlobStore, BlobError, Source, Raised, sha256_re, find_file,
  put_file, unlink_file, write_stream_atomic, delete_blob, unlink_blob, verify_blob_on_stage,
}
use turbohaul_manager_rocm.Blob.Stream.{
  flat, IsWritten, IsStored, find-put, write_stream_atomic-IsWritten,
}

-- A request on the store.
pub data Request (E : Type 0) : Type 0 where
  write : Io → String → Source E → Option String → ℕ → Request E
  delete : String → Request E

abbrev pub deleted : BlobStore → Result BlobError (Bool × BlobStore) → BlobStore
deleted s (ok (b, after)) = after
deleted s (err e) = s

abbrev pub serve : {E : Type 0} → Sha256 → BlobStore → Request E → BlobStore
serve sha s (write io tmp src expected max) = (write_stream_atomic sha io tmp s src expected max).1
serve sha s (delete name) = deleted s (delete_blob s name)

abbrev pub serve_all : {E : Type 0} → Sha256 → BlobStore → List (Request E) → BlobStore
serve_all sha s [] = s
serve_all sha s (r ∷ rs) = serve_all sha (serve sha s r) rs

-- Each blob stands under the hash of its bytes.
abbrev pub IsAddressed : Sha256 → List (String × Bytes) → Type 0
IsAddressed sha = All (λ f. sha.digest f.1 ≡ f.0)

put_file-IsAddressed :
    (sha : Sha256) (d : Bytes) (fs : List (String × Bytes))
    → IsAddressed sha fs
    → IsAddressed sha (put_file (sha.digest d) d fs)
put_file-IsAddressed sha d [] v = (refl, tt)
put_file-IsAddressed sha d ((j, b) ∷ fs) v = elim (Bool-cases (sha.digest d == j)) [
  | inl e ↦ rw e (refl, v.1)
  | inr e ↦ rw e (v.0, put_file-IsAddressed sha d fs v.1)
]

unlink_file-IsAddressed :
    (sha : Sha256) (k : String) (fs : List (String × Bytes))
    → IsAddressed sha fs
    → IsAddressed sha (unlink_file k fs)
unlink_file-IsAddressed sha k [] v = tt
unlink_file-IsAddressed sha k ((j, b) ∷ fs) v = elim (Bool-cases (k == j)) [
  | inl e ↦ rw e (unlink_file-IsAddressed sha k fs v.1)
  | inr e ↦ rw e (v.0, unlink_file-IsAddressed sha k fs v.1)
]

find_file-digest :
    (sha : Sha256) (k : String) (held : Bytes) (fs : List (String × Bytes))
    → IsAddressed sha fs
    → find_file k fs ≡ some held
    → sha.digest held ≡ k
find_file-digest sha k held [] v h = absurd cc
find_file-digest sha k held ((j, b) ∷ fs) v h = elim (Bool-cases (k == j)) [
  | inl e ↦
      let same = (eq_iff k j).0 e in
      let found : some b ≡ some held = rw e at h in ground (arith, found, same, v.0)
  | inr e ↦ find_file-digest sha k held fs v.1 (rw e at h)
]

stored-IsAddressed :
    {E : Type 0} (sha : Sha256) (s after : BlobStore) (src : Source E) (expected : Option String)
    (max : ℕ)
    → IsAddressed sha s.blobs
    → IsStored sha s src expected max after
    → IsAddressed sha after.blobs
stored-IsAddressed sha s after src expected max v (f, x, m, stored) =
    subst (IsAddressed sha) (sym stored) (put_file-IsAddressed sha (flat src.chunks) s.blobs v)

-- What a write gave, by its outcome.
written-IsAddressed :
    {E : Type 0} (sha : Sha256) (io : Io) (s after : BlobStore) (src : Source E)
    (expected : Option String) (max : ℕ) (o : Result (Raised E) (String × ℕ))
    → IsAddressed sha s.blobs
    → IsWritten sha io s src expected max o after
    → IsAddressed sha after.blobs
written-IsAddressed sha io s after src expected max (err e) v (inl same) =
    subst (IsAddressed sha) (sym same) v
written-IsAddressed sha io s after src expected max (err e) v (inr (x, y, stored)) =
    stored-IsAddressed sha s after src expected max v stored
written-IsAddressed sha io s after src expected max (ok (name, n)) v (x, y, stored) =
    stored-IsAddressed sha s after src expected max v stored

unlink_blob-IsAddressed :
    (sha : Sha256) (s : BlobStore) (name : String) (o : Option Bytes)
    → IsAddressed sha s.blobs
    → IsAddressed sha (unlink_blob s name o).1.blobs
unlink_blob-IsAddressed sha s name none v = v
unlink_blob-IsAddressed sha s name (some held) v = unlink_file-IsAddressed sha name s.blobs v

serve-IsAddressed :
    {E : Type 0} (sha : Sha256) (s : BlobStore) (r : Request E)
    → IsAddressed sha s.blobs
    → IsAddressed sha (serve sha s r).blobs
unfolding delete_blob
serve-IsAddressed sha s (write io tmp src expected max) v =
    written-IsAddressed sha io s _ src expected max _ v
      (write_stream_atomic-IsWritten sha io tmp s src expected max).0
serve-IsAddressed sha s (delete name) v = elim (Bool-cases (sha256_re name)) [
  | inl e ↦ rw e (unlink_blob-IsAddressed sha s name (find_file name s.blobs) v)
  | inr e ↦ rw e v
]

-- In every sequence of writes and deletions, successful or not, each blob stands under the hash of its bytes.
pub serve_all-IsAddressed :
    {E : Type 0} (sha : Sha256) (s : BlobStore) (rs : List (Request E))
    → IsAddressed sha s.blobs
    → IsAddressed sha (serve_all sha s rs).blobs
serve_all-IsAddressed sha s [] v = v
serve_all-IsAddressed sha s (r ∷ rs) v =
    serve_all-IsAddressed sha (serve sha s r) rs (serve-IsAddressed sha s r v)

-- The check at stage time finds drift. In a store that is addressed by content it accepts a blob that is there;
-- and once the file of that name holds other bytes, by whatever way, it accepts them exactly if they have the
-- same hash, and raises an integrity failure else.
pub verify_blob_on_stage_drift :
    (sha : Sha256) (s : BlobStore) (name : String) (held other : Bytes)
    → IsAddressed sha s.blobs
    → sha256_re name ≡ true
    → find_file name s.blobs ≡ some held
    → let drifted = record s { blobs = put_file name other s.blobs } in
      (verify_blob_on_stage sha s name ≡ ok true)
      × ((sha.digest other ≡ sha.digest held) × (verify_blob_on_stage sha drifted name ≡ ok true)
          ⊎ (sha.digest other ≢ sha.digest held)
            × (verify_blob_on_stage sha drifted name ≡ err integrity_failure))
unfolding verify_blob_on_stage
verify_blob_on_stage_drift sha s name held other v h found =
    let same = find_file-digest sha name held s.blobs v found in
    let put = find-put name other s.blobs in
    (
      rw (h, found, (eq_iff (sha.digest held) name).1 same) refl,
      elim (Bool-cases (sha.digest other == name)) [
        | inl e ↦ inl ((eq_iff (sha.digest other) name).0 e ∙ sym same, rw (h, put, e) refl)
        | inr e ↦ inr (
          λ d. absurd (
              let clash : false ≡ true = sym e ∙ (eq_iff (sha.digest other) name).1 (d ∙ same) in
              cc),
          rw (h, put, e) refl,
        )
      ],
    )
