-- ===== src/Pull/Stored.antt =====
-- api/pull.py: what the routes leave in the blob store, and which requests they make.
use turbohaul_manager_rocm.Prelude.{
  ℕ, ◌≤◌, ◌==◌, String, Bool, false, sym, subst, ◌||◌, Option, none, some, [], Result, ok, err,
  length, All, arith, ◌≡◌, refl, ◌⊎◌, inl, inr, Bool-cases,
}
use turbohaul_manager_rocm.Ssrf.{Net, UrlSafetyError}
use turbohaul_manager_rocm.Pull.{
  Client, PullError, unsafe, http_status, upstream, Headers, double_resolve_check,
  stream_with_redirects,
}
use turbohaul_manager_rocm.Pull.Hops.{
  IsSafe, KeepsFirst, stream_with_redirects-IsSafe, stream_with_redirects-KeepsFirst,
}
use turbohaul_manager_rocm.Pull.Routes.{
  PullReply, completed, refused, Pulled, PullConfig, later, reply_of, refuse_with, bearer,
  store_download, pull_vetted, pull_url, is_allowed, pull_hf_vetted, pull_hf, hf_url,
}
use turbohaul_manager_rocm.Blob.{
  Bytes, Sha256, BlobStore, Raised, Source, os_error, blob, source, file_exists, blob_error,
  size_exceeded, hash_mismatch, integrity_failure, put_file,
}
use turbohaul_manager_rocm.Blob.Stream.{flat, IsWritten, write_stream_atomic-IsWritten}

-- These bytes were stored under their hash, the expected one if one was, within the cap.
abbrev pub Stores : Sha256 → PullConfig → BlobStore → Option String → Bytes → BlobStore → Type 0
Stores sha cfg s expected bytes after =
    (after.blobs ≡ put_file (sha.digest bytes) bytes s.blobs)
    × (length bytes ≤ cfg.per_stream_max_bytes)
    × ((expected ≡ none) ⊎ (expected ≡ some (sha.digest bytes)))

-- By the reply: the bytes of the whole download were stored, and it names their hash and number; or nothing
-- was stored, except that with the status 500 the bytes may be there and only the sync behind the rename failed.
abbrev pub IsDelivered :
    Sha256
    → PullConfig
    → BlobStore
    → Option String
    → Source PullError
    → PullReply
    → BlobStore
    → Type 0
IsDelivered sha cfg s expected d (completed name n host) after =
    (d.failure ≡ none)
    × (name ≡ sha.digest (flat d.chunks))
    × (n ≡ length (flat d.chunks))
    × Stores sha cfg s expected (flat d.chunks) after
IsDelivered sha cfg s expected d (refused status) after =
    (after.blobs ≡ s.blobs)
    ⊎ ((status ≡ 500)
        × (cfg.io.syncs ≡ false)
        × (d.failure ≡ none)
        × Stores sha cfg s expected (flat d.chunks) after)

reply_of-IsDelivered :
    (sha : Sha256) (cfg : PullConfig) (host : String) (s after : BlobStore) (d : Source PullError)
    (expected : Option String) (o : Result (Raised PullError) (String × ℕ))
    → IsWritten sha cfg.io s d expected cfg.per_stream_max_bytes o after
    → IsDelivered sha cfg s expected d (reply_of host o) after
reply_of-IsDelivered sha cfg host s after d expected (ok (name, n)) (x, y, (f, e, m, b)) =
    (f, x, y, (b, m, e))
reply_of-IsDelivered sha cfg host s after d expected (err e) (inl same) = unstored e
  where
    unstored :
        (e : Raised PullError) → IsDelivered sha cfg s expected d (reply_of host (err e)) after
    unstored (blob size_exceeded) = inl same
    unstored (blob hash_mismatch) = inl same
    unstored (blob blob_error) = inl same
    unstored (blob integrity_failure) = inl same
    unstored (source (http_status c)) = inl same
    unstored (source (unsafe e)) = inl same
    unstored (source upstream) = inl same
    unstored file_exists = inl same
    unstored os_error = inl same
reply_of-IsDelivered sha cfg host s after d expected (err e) (inr (late, y, (f, x, m, b))) =
    subst (λ e. IsDelivered sha cfg s expected d (reply_of host (err e)) after) (sym late)
      (inr (refl, y, f, (b, m, x)))

abbrev pub wanted : Option String → String
wanted none = ""
wanted (some url) = url

module _ (net : Net) (client : Client) (sha : Sha256) (cfg : PullConfig) where
  -- The store is as the reply says for this download; every request was vetted, and five at most were made.
  abbrev pub IsVettedPull :
      Option (String → Bool) → Source PullError → Option String → BlobStore → Pulled → Type 0
  IsVettedPull check d expected s p =
      IsDelivered sha cfg s expected d p.reply p.store
      × All (IsSafe (later 2 net) client check) p.requests
      × (length p.requests ≤ 5)

  -- What the download of a URL gives.
  abbrev pub url_source : Option (String → Bool) → String → Headers → Source PullError
  url_source check url headers =
      (stream_with_redirects (later 2 net) client check 5 url headers).outcome

  store_download-IsVettedPull :
      (check : Option (String → Bool)) (tag host : String) (expected : Option String)
      (s : BlobStore) (url : String) (headers : Headers)
      → IsVettedPull check (url_source check url headers) expected s (
          store_download net client sha cfg tag host expected s
            (stream_with_redirects (later 2 net) client check 5 url headers))
  store_download-IsVettedPull check tag host expected s url headers =
      let d = (stream_with_redirects (later 2 net) client check 5 url headers).outcome in
      let (safe, few) = stream_with_redirects-IsSafe (later 2 net) client check 5 url headers in
      (
        reply_of-IsDelivered sha cfg host s _ d expected _
            (write_stream_atomic-IsWritten sha cfg.io cfg.tempfile s d expected
              cfg.per_stream_max_bytes).0,
        safe,
        few,
      )

  refuse_with-IsVettedPull :
      (status : ℕ) (check : Option (String → Bool)) (d : Source PullError)
      (expected : Option String) (s : BlobStore)
      → IsVettedPull check d expected s (refuse_with status s)
  refuse_with-IsVettedPull status check d expected s = (inl refl, tt, omega arith)

  pull_vetted-IsVettedPull :
      (url : String) (expected : Option String) (s : BlobStore)
      (r : Result UrlSafetyError (String × String))
      → IsVettedPull none
          (url_source none url [])
          expected
          s
          (pull_vetted net client sha cfg url expected s r)
  pull_vetted-IsVettedPull url expected s (err e) =
      refuse_with-IsVettedPull 400 none (url_source none url []) expected s
  pull_vetted-IsVettedPull url expected s (ok (host, ip)) =
      store_download-IsVettedPull none host host expected s url []

  -- Whatever is asked of `pull_url`, and whatever the client, the bodies and the file system do: a complete reply
  -- means that the download ended well and all its bytes stand in the store under their hash, the expected one if
  -- one was given, and within the cap. After any other the blobs are as they were, except that with the status 500
  -- they may have been stored in the same way, and only the sync behind the rename failed. At most five requests
  -- were made, each to a vetted https URL.
  pub pull_url-IsVettedPull :
      (url expected : Option String) (s : BlobStore)
      → IsVettedPull none
          (url_source none (wanted url) [])
          expected
          s
          (pull_url net client sha cfg url expected s)
  unfolding pull_url
  pull_url-IsVettedPull none expected s =
      refuse_with-IsVettedPull 400 none (url_source none "" []) expected s
  pull_url-IsVettedPull (some url) expected s = elim (Bool-cases (url == "")) [
    | inl e ↦ rw e (refuse_with-IsVettedPull 400 none (url_source none url []) expected s)
    | inr e ↦ rw e (pull_vetted-IsVettedPull url expected s (double_resolve_check net 0 url))
  ]

  -- A pull of a HuggingFace file, besides: only hosts of the allowlist are asked, and the key leaves the first
  -- of them for no other.
  abbrev pub IsKept : Source PullError → Option String → BlobStore → Pulled → Type 0
  IsKept d expected s p =
      IsVettedPull (some (is_allowed net client sha cfg)) d expected s p
      × KeepsFirst (later 2 net) client (some (is_allowed net client sha cfg)) p.requests

  abbrev pub hf_source : String → Source PullError
  hf_source url = url_source (some (is_allowed net client sha cfg)) url (bearer cfg)

  refuse_with-IsKept :
      (status : ℕ) (d : Source PullError) (expected : Option String) (s : BlobStore)
      → IsKept d expected s (refuse_with status s)
  refuse_with-IsKept status d expected s =
      (refuse_with-IsVettedPull status (some (is_allowed net client sha cfg)) d expected s, tt)

  pull_hf_vetted-IsKept :
      (repo url : String) (expected : Option String) (s : BlobStore)
      (r : Result UrlSafetyError (String × String))
      → IsKept (hf_source url) expected s (pull_hf_vetted net client sha cfg repo url expected s r)
  pull_hf_vetted-IsKept repo url expected s (err e) =
      refuse_with-IsKept 400 (hf_source url) expected s
  pull_hf_vetted-IsKept repo url expected s (ok (host, ip)) =
      elim (Bool-cases (is_allowed net client sha cfg host)) [
        | inl e ↦ rw e (
          store_download-IsVettedPull (some (is_allowed net client sha cfg)) repo host expected s
              url (bearer cfg),
          stream_with_redirects-KeepsFirst (later 2 net) client
              (some (is_allowed net client sha cfg)) 5 url (bearer cfg),
        )
        | inr e ↦ rw e (refuse_with-IsKept 403 (hf_source url) expected s)
      ]

  -- Whatever is asked of `pull_hf`, and whatever the client, the bodies and the file system do: the store is as for
  -- `pull_url`; at most five requests were made, each to a vetted https URL of a host on the allowlist; and each
  -- after the first goes to the first one's host or carries no key.
  pub pull_hf-IsKept :
      (repo filename revision : String) (expected : Option String) (s : BlobStore)
      → IsKept
          (hf_source (hf_url net client sha cfg repo filename revision))
          expected
          s
          (pull_hf net client sha cfg repo filename revision expected s)
  unfolding pull_hf
  pull_hf-IsKept repo filename revision expected s =
      let url = hf_url net client sha cfg repo filename revision in
      elim (Bool-cases (repo == "" || filename == "")) [
        | inl e ↦ rw e (refuse_with-IsKept 400 (hf_source url) expected s)
        | inr e ↦ rw e (pull_hf_vetted-IsKept repo url expected s (double_resolve_check net 0 url))
      ]
