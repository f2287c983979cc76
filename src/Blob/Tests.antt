-- ===== src/Blob/Tests.antt =====
-- blob_store.py: writes at concrete inputs.
use turbohaul_manager_rocm.Prelude.{
  String, true, false, none, some, [], ◌∷◌, ok, err, ◌≡◌, ◌⊎◌, ◌≢◌, refl, chop, all_codes,
}
use turbohaul_manager_rocm.Blob.{
  Sha256, Io, BlobStore, Source, sha256_re, write_stream_atomic, copy_chunks, verify_blob_on_stage,
  blob, size_exceeded, os_error, put_file, integrity_failure,
}
use turbohaul_manager_rocm.Blob.Stream.{IsWritten, IsClean, write_stream_atomic-IsWritten}
use turbohaul_manager_rocm.Blob.Addressed.{
  write, delete, serve_all, IsAddressed, serve_all-IsAddressed, verify_blob_on_stage_drift,
}

-- A hash of the tests: every text of bytes has this one.
abbrev name : String
name = "0123456789abcdef0123456789abcdef0123456789abcdef0123456789abcdef"

abbrev sha : Sha256
sha = record { digest = λ bytes. name }

abbrev io : Io
io = record { takes = λ n. true; flushes = true; replaces = true; syncs = true }

abbrev empty : BlobStore
empty = record { blobs = []; incoming = [] }

abbrev three : Source (Unit {0})
three = record { chunks = (1 ∷ 2 ∷ []) ∷ [] ∷ (3 ∷ []) ∷ []; failure = none }

abbrev stored : BlobStore
stored = record { blobs = (name, 1 ∷ 2 ∷ 3 ∷ []) ∷ []; incoming = [] }

write_three :
    write_stream_atomic sha io "pull_1.tmp" empty three (some name) 3 ≡ (ok (name, 3), stored)
unfolding write_stream_atomic copy_chunks sha256_re chop all_codes
write_three = refl

write_capped :
    write_stream_atomic sha io "pull_1.tmp" empty three none 2 ≡ (err (blob size_exceeded), empty)
unfolding write_stream_atomic copy_chunks sha256_re chop all_codes
write_capped = refl

write_stream_atomic-IsWritten_example :
    let out = write_stream_atomic sha io "pull_1.tmp" empty three (some name) 3 in
    IsWritten sha io empty three (some name) 3 out.0 out.1 × IsClean "pull_1.tmp" out.1
write_stream_atomic-IsWritten_example =
    write_stream_atomic-IsWritten sha io "pull_1.tmp" empty three (some name) 3

serve_all-IsAddressed_example :
    IsAddressed sha
      (serve_all sha stored
        (write io "a.tmp" three none 2 ∷ delete name ∷ write io "b.tmp" three none 9 ∷ [])).blobs
serve_all-IsAddressed_example =
    serve_all-IsAddressed sha stored
      (write io "a.tmp" three none 2 ∷ delete name ∷ write io "b.tmp" three none 9 ∷ []) (refl, tt)

well_formed : sha256_re name ≡ true
unfolding sha256_re chop all_codes
well_formed = refl

-- Behind the rename the sync fails: the blob is stored, and the write has failed.
write_unsynced :
    write_stream_atomic sha (record io { syncs = false }) "pull_1.tmp" empty three none 9
    ≡ (err os_error, stored)
unfolding write_stream_atomic copy_chunks sha256_re chop all_codes
write_unsynced = refl

verify_blob_on_stage_drift_example :
    let drifted = record stored { blobs = put_file name (7 ∷ []) stored.blobs } in
    (verify_blob_on_stage sha stored name ≡ ok true)
    × ((name ≡ name) × (verify_blob_on_stage sha drifted name ≡ ok true)
        ⊎ (name ≢ name) × (verify_blob_on_stage sha drifted name ≡ err integrity_failure))
verify_blob_on_stage_drift_example =
    verify_blob_on_stage_drift sha stored name (1 ∷ 2 ∷ 3 ∷ []) (7 ∷ []) (refl, tt) well_formed refl
