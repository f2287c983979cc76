-- ===== src/Blob.antt =====
-- blob_store.py: the store of model files, each under the hash of its bytes. The hash function is the field
-- `digest` of `Sha256`; a tempfile's name is drawn by the library, so it is an argument.
pub mod Stream
pub mod Addressed
mod Tests
use turbohaul_manager_rocm.Prelude.{
  ℕ, ◌+◌, ◌==◌, String, Bool, true, false, not, ◌&&◌, ◌||◌, Option, none, some, List, [], ◌∷◌, ◌++◌,
  if◌then◌else◌, ltb, leb, eqb, Result, ok, err, length, chop, all_codes, count,
}

abbrev pub Bytes : Type 0
Bytes = List ℕ

pub record Sha256 : Type 0 where
  pub digest : Bytes → String

-- What the file system lets pass, beside the names: the write that brings the tempfile to so many bytes, its
-- flush and fsync, the rename into `blobs`, and the fsync of the directory with the chmod behind it. That
-- a tempfile can be created and unlinked is taken for granted.
pub record Io : Type 0 where
  pub takes : ℕ → Bool
  pub flushes : Bool
  pub replaces : Bool
  pub syncs : Bool

-- `blobs` by hash, `incoming` by the tempfile's name.
pub record BlobStore : Type 0 where
  pub blobs : List (String × Bytes)
  pub incoming : List (String × Bytes)

pub data BlobError : Type 0 where
  blob_error size_exceeded hash_mismatch integrity_failure : BlobError

-- A source gives chunks until it ends or raises.
pub record Source (E : Type 0) : Type 0 where
  pub chunks : List Bytes
  pub failure : Option E

pub data Raised (E : Type 0) : Type 0 where
  blob : BlobError → Raised E
  source : E → Raised E
  file_exists os_error : Raised E

abbrev pub is_hex : ℕ → Bool
is_hex c = leb b'0' c && leb c b'9' || leb b'a' c && leb c b'f'

-- `SHA256_RE.match`: its `$` also matches in front of a newline at the end.
unfoldable pub sha256_re : String → Bool
unfolding chop all_codes
sha256_re s = eqb (count (chop s)) 64 && all_codes is_hex (chop s)

abbrev pub find_file : String → List (String × Bytes) → Option Bytes
find_file k [] = none
find_file k ((j, a) ∷ d) = if k == j then some a else find_file k d

abbrev pub put_file : String → Bytes → List (String × Bytes) → List (String × Bytes)
put_file k a [] = (k, a) ∷ []
put_file k a ((j, b) ∷ d) = if k == j then (k, a) ∷ d else (j, b) ∷ put_file k a d

abbrev pub unlink_file : String → List (String × Bytes) → List (String × Bytes)
unlink_file k [] = []
unlink_file k ((j, b) ∷ d) = if k == j then unlink_file k d else (j, b) ∷ unlink_file k d

-- The loop over the chunks, with the bytes that the tempfile holds.
unfoldable pub copy_chunks :
    {E : Type 0} → Io → ℕ → ℕ → Bytes → List Bytes → Option E → Result (Raised E) (Bytes × ℕ)
copy_chunks io max written held [] none = if io.flushes then ok (held, written) else err os_error
copy_chunks io max written held [] (some e) = err (source e)
copy_chunks io max written held ([] ∷ chunks) failure =
    copy_chunks io max written held chunks failure
copy_chunks io max written held ((b ∷ bs) ∷ chunks) failure =
    let rest = copy_chunks io max (written + length (b ∷ bs)) (held ++ b ∷ bs) chunks failure in
    if ltb max (written + length (b ∷ bs))
    then err (blob size_exceeded)
    else if io.takes (written + length (b ∷ bs))
    then rest
    else err os_error

-- The checks behind the loop: the expected hash, then the form of the computed one.
abbrev pub check_expected : Option String → String → Option BlobError
check_expected none computed = none
check_expected (some expected) computed =
    if not (sha256_re expected)
    then some blob_error
    else if not (computed == expected)
    then some hash_mismatch
    else none

abbrev pub check_path : String → Option BlobError → Option BlobError
check_path computed (some e) = some e
check_path computed none = if sha256_re computed then none else some blob_error

abbrev pub discard : String → BlobStore → BlobStore
discard tmp s = record s { incoming = unlink_file tmp s.incoming }

abbrev pub rename : String → String → Bytes → BlobStore → BlobStore
rename tmp final held s = record s {
  blobs = put_file final held s.blobs;
  incoming = unlink_file tmp s.incoming;
}

-- Behind the rename the blob is stored, whether the rest raises or not.
abbrev pub publish :
    {E : Type 0}
    → Io
    → String
    → String
    → Bytes
    → ℕ
    → BlobStore
    → Result (Raised E) (String × ℕ) × BlobStore
publish io tmp computed held written s =
    if io.replaces
    then (if io.syncs then ok (computed, written) else err os_error, rename tmp computed held s)
    else (err os_error, discard tmp s)

abbrev pub conclude :
    {E : Type 0}
    → Io
    → String
    → String
    → Bytes
    → ℕ
    → BlobStore
    → Option BlobError
    → Result (Raised E) (String × ℕ) × BlobStore
conclude io tmp computed held written s (some e) = (err (blob e), discard tmp s)
conclude io tmp computed held written s none = publish io tmp computed held written s

abbrev pub after_copy :
    {E : Type 0}
    → Sha256
    → Io
    → String
    → Option String
    → BlobStore
    → Result (Raised E) (Bytes × ℕ)
    → Result (Raised E) (String × ℕ) × BlobStore
after_copy sha io tmp expected s (err e) = (err e, discard tmp s)
after_copy sha io tmp expected s (ok (held, written)) =
    let opened = record s { incoming = put_file tmp held s.incoming } in
    conclude io tmp (sha.digest held) held written opened
      (check_path (sha.digest held) (check_expected expected (sha.digest held)))

abbrev pub with_tempfile :
    {E : Type 0}
    → Sha256
    → Io
    → String
    → Source E
    → Option String
    → ℕ
    → BlobStore
    → Option Bytes
    → Result (Raised E) (String × ℕ) × BlobStore
with_tempfile sha io tmp src expected max s (some held) = (err file_exists, discard tmp s)
with_tempfile sha io tmp src expected max s none =
    after_copy sha io tmp expected s (copy_chunks io max 0 [] src.chunks src.failure)

unfoldable pub write_stream_atomic :
    {E : Type 0}
    → Sha256
    → Io
    → String
    → BlobStore
    → Source E
    → Option String
    → ℕ
    → Result (Raised E) (String × ℕ) × BlobStore
unfolding copy_chunks sha256_re
write_stream_atomic sha io tmp s src expected max =
    with_tempfile sha io tmp src expected max s (find_file tmp s.incoming)

-- The same body over an asynchronous source.
abbrev pub write_stream_atomic_async :
    {E : Type 0}
    → Sha256
    → Io
    → String
    → BlobStore
    → Source E
    → Option String
    → ℕ
    → Result (Raised E) (String × ℕ) × BlobStore
write_stream_atomic_async = write_stream_atomic

abbrev pub compare_digest : Sha256 → String → Option Bytes → Result BlobError Bool
compare_digest sha expected none = err integrity_failure
compare_digest sha expected (some held) =
    if sha.digest held == expected then ok true else err integrity_failure

unfoldable pub verify_blob_on_stage : Sha256 → BlobStore → String → Result BlobError Bool
unfolding sha256_re
verify_blob_on_stage sha s expected =
    if sha256_re expected
    then compare_digest sha expected (find_file expected s.blobs)
    else err blob_error

abbrev pub unlink_blob : BlobStore → String → Option Bytes → Bool × BlobStore
unlink_blob s sha256 none = (false, s)
unlink_blob s sha256 (some held) = (true, record s { blobs = unlink_file sha256 s.blobs })

unfoldable pub delete_blob : BlobStore → String → Result BlobError (Bool × BlobStore)
unfolding sha256_re
delete_blob s sha256 =
    if sha256_re sha256
    then ok (unlink_blob s sha256 (find_file sha256 s.blobs))
    else err blob_error
