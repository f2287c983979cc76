-- ===== src/Blob/Stream.antt =====
-- blob_store.py: what `write_stream_atomic` leaves behind, on every way out of it.
use mathlib.Core.List.{append_assoc, append-nil}
use turbohaul_manager_rocm.Prelude.{
  ℕ, ◌+◌, ◌≤◌, String, Option, none, some, List, [], ◌∷◌, ◌++◌, ltb, Result, ok, err, length,
  length-append, arith, ◌≡◌, refl, sym, ap, ◌∙◌, ◌⊎◌, inl, inr, Bool-cases, eq_iff, eq_refl, subst,
  false,
}
use turbohaul_manager_rocm.Blob.{
  Bytes, Sha256, Io, BlobStore, BlobError, Source, Raised, find_file, put_file, unlink_file,
  os_error, rename, publish, copy_chunks, check_expected, check_path, conclude, after_copy,
  with_tempfile, write_stream_atomic,
}

-- All bytes that a source gives.
abbrev pub flat : List Bytes → Bytes
flat [] = []
flat (c ∷ cs) = c ++ flat cs

-- The loop ends well only if the source does, with all its bytes counted and within the cap.
copy_chunks-ok :
    {E : Type 0} (io : Io) (max written : ℕ) (held : Bytes) (chunks : List Bytes)
    (failure : Option E) (d : Bytes) (n : ℕ)
    → written ≡ length held
    → written ≤ max
    → copy_chunks io max written held chunks failure ≡ ok (d, n)
    → (failure ≡ none) × (d ≡ held ++ flat chunks) × (n ≡ length d) × (n ≤ max)
unfolding copy_chunks
copy_chunks-ok io max written held [] none d n w m h = elim (Bool-cases io.flushes) [
  | inl f ↦
      let h' = rw f at h in (refl, cc (append-nil held, h'), ground (arith, h'), ground (arith, h'))
  | inr f ↦ absurd (let h' = rw f at h in cc)
]
copy_chunks-ok io max written held [] (some e) d n w m h = absurd cc
copy_chunks-ok io max written held ([] ∷ chunks) failure d n w m h =
    copy_chunks-ok io max written held chunks failure d n w m h
copy_chunks-ok io max written held ((b ∷ bs) ∷ chunks) failure d n w m h =
    elim (Bool-cases (ltb max (written + length (b ∷ bs)))) [
      | inl over ↦ absurd (let h' = rw over at h in cc)
      | inr fits ↦ elim (Bool-cases (io.takes (written + length (b ∷ bs)))) [
        | inl takes ↦
            let (ended, all, counted, below) =
              copy_chunks-ok io max (written + length (b ∷ bs)) (held ++ b ∷ bs) chunks failure d n
                (omega (arith, w, length-append held (b ∷ bs))) (ground (arith, fits))
                (rw (fits, takes) at h) in
            (ended, all ∙ append_assoc held (b ∷ bs) (flat chunks), counted, below)
        | inr fails ↦ absurd (let h' = rw (fits, fails) at h in cc)
      ]
    ]

-- Every byte of a source that ended well stands under the hash of them all, which is the expected one if one was,
-- and they are within the cap.
abbrev pub IsStored :
    {E : Type 0} → Sha256 → BlobStore → Source E → Option String → ℕ → BlobStore → Type 0
IsStored sha s src expected max after =
    (src.failure ≡ none)
    × ((expected ≡ none) ⊎ (expected ≡ some (sha.digest (flat src.chunks))))
    × (length (flat src.chunks) ≤ max)
    × (after.blobs ≡ put_file (sha.digest (flat src.chunks)) (flat src.chunks) s.blobs)

-- What a write left behind: on success the bytes are stored, and it gives their hash and number; on an error
-- the blobs are as they were, or the bytes are stored and what raised is the part behind the rename.
abbrev pub IsWritten :
    {E : Type 0}
    → Sha256
    → Io
    → BlobStore
    → Source E
    → Option String
    → ℕ
    → Result (Raised E) (String × ℕ)
    → BlobStore
    → Type 0
IsWritten sha io s src expected max (ok (name, n)) after =
    (name ≡ sha.digest (flat src.chunks))
    × (n ≡ length (flat src.chunks))
    × IsStored sha s src expected max after
IsWritten sha io s src expected max (err e) after =
    (after.blobs ≡ s.blobs)
    ⊎ ((e ≡ os_error) × (io.syncs ≡ false) × IsStored sha s src expected max after)

check_expected-none :
    (expected : Option String) (computed : String)
    → check_expected expected computed ≡ none
    → (expected ≡ none) ⊎ (expected ≡ some computed)
check_expected-none none computed h = inl refl
check_expected-none (some e) computed h =
    inr (ap some (sym ((eq_iff computed e).0 (ground (arith, h)))))

find-unlink : (k : String) (d : List (String × Bytes)) → find_file k (unlink_file k d) ≡ none
find-unlink k [] = refl
find-unlink k ((j, b) ∷ d) = ground (arith, find-unlink k d)

pub find-put :
    (k : String) (a : Bytes) (d : List (String × Bytes)) → find_file k (put_file k a d) ≡ some a
find-put k a [] = ground (arith, eq_refl k)
find-put k a ((j, b) ∷ d) = ground (arith, eq_refl k, find-put k a d)

-- Whatever happens, the tempfile is gone.
abbrev pub IsClean : String → BlobStore → Type 0
IsClean tmp after = find_file tmp after.incoming ≡ none

check_path-none :
    (computed : String) (o : Option BlobError) → check_path computed o ≡ none → o ≡ none
check_path-none computed none h = refl
check_path-none computed (some e) h = absurd cc

module _ {E : Type 0} (sha : Sha256) (io : Io) (tmp : String) (s : BlobStore) (src : Source E)
    (expected : Option String) (max : ℕ) where
  -- What a way out of the write leaves.
  abbrev pub Leaves : Result (Raised E) (String × ℕ) × BlobStore → Type 0
  Leaves out = IsWritten sha io s src expected max out.0 out.1 × IsClean tmp out.1

  publish-Leaves :
      (opened : BlobStore) (d : Bytes) (n : ℕ)
      → opened.blobs ≡ s.blobs
      → d ≡ flat src.chunks
      → n ≡ length d
      → IsStored sha s src expected max (rename tmp (sha.digest d) d opened)
      → Leaves (publish io tmp (sha.digest d) d n opened)
  publish-Leaves opened d n b a l stored =
      let clean = find-unlink tmp opened.incoming in
      elim (Bool-cases io.replaces) [
        | inl r ↦ elim (Bool-cases io.syncs) [
          | inl y ↦ rw (r, y) ((ap sha.digest a, l ∙ ap length a, stored), clean)
          | inr y ↦ rw (r, y) (inr (refl, refl, stored), clean)
        ]
        | inr r ↦ rw r (inl b, clean)
      ]

  conclude-Leaves :
      (opened : BlobStore) (d : Bytes) (n : ℕ) (o : Option BlobError)
      → opened.blobs ≡ s.blobs
      → src.failure ≡ none
      → d ≡ flat src.chunks
      → n ≡ length d
      → n ≤ max
      → (o ≡ none → check_expected expected (sha.digest d) ≡ none)
      → Leaves (conclude io tmp (sha.digest d) d n opened o)
  conclude-Leaves opened d n (some e) b f a l m c = (inl b, find-unlink tmp opened.incoming)
  conclude-Leaves opened d n none b f a l m c = publish-Leaves opened d n b a l (
    f,
    subst (λ x. (expected ≡ none) ⊎ (expected ≡ some (sha.digest x))) a
        (check_expected-none expected (sha.digest d) (c refl)),
    omega (arith, l, ap length a, m),
    ap (put_file (sha.digest d) d) b ∙ ap (λ x. put_file (sha.digest x) x s.blobs) a,
  )

  after_copy-Leaves :
      (r : Result (Raised E) (Bytes × ℕ))
      → copy_chunks io max 0 [] src.chunks src.failure ≡ r
      → Leaves (after_copy sha io tmp expected s r)
  after_copy-Leaves (err e) h = (inl refl, find-unlink tmp s.incoming)
  after_copy-Leaves (ok (d, n)) h =
      let (ended, all, counted, below) =
        copy_chunks-ok io max 0 [] src.chunks src.failure d n refl (omega arith) h in
      conclude-Leaves (record s { incoming = put_file tmp d s.incoming }) d n _ refl ended all
        counted below (check_path-none (sha.digest d) (check_expected expected (sha.digest d)))

  with_tempfile-Leaves : (o : Option Bytes) → Leaves (with_tempfile sha io tmp src expected max s o)
  with_tempfile-Leaves (some held) = (inl refl, find-unlink tmp s.incoming)
  with_tempfile-Leaves none = after_copy-Leaves _ refl

  -- A write that succeeds has stored all bytes of a source that ended well, under their hash, which is the expected
  -- one if one was expected, and they are within the cap. One that fails leaves the blobs as they were, unless
  -- what raised is the sync or chmod behind the rename: then they are stored in the same way. Either way the
  -- tempfile is gone.
  pub write_stream_atomic-IsWritten : Leaves (write_stream_atomic sha io tmp s src expected max)
  unfolding write_stream_atomic
  write_stream_atomic-IsWritten = with_tempfile-Leaves (find_file tmp s.incoming)
