-- ===== src/Pull/Routes.antt =====
-- api/pull.py: the routes `pull_url` and `pull_hf`: the vetting of the URL, the download into the blob store, and
-- the reply and events of each way out. A route asks the resolver twice before the download begins.
use turbohaul_manager_rocm.Prelude.{
  ℕ, ◌+◌, ◌==◌, String, Bool, false, ◌||◌, Option, none, some, List, [], ◌∷◌, if◌then◌else◌, Result,
  ok, err, concat, ends_with,
}
use turbohaul_manager_rocm.Ssrf.{Net, UrlSafetyError}
use turbohaul_manager_rocm.Pull.{
  Headers, Client, PullError, unsafe, http_status, upstream, Fetch, Download, double_resolve_check,
  stream_with_redirects,
}
use turbohaul_manager_rocm.Blob.{
  Sha256, Io, BlobStore, Raised, blob, source, file_exists, os_error, size_exceeded, hash_mismatch,
  write_stream_atomic_async,
}

unfoldable pub is_hf_host : Net → String → List String → Bool
is_hf_host net host [] = false
is_hf_host net host (a ∷ allowed) =
    net.lower host == net.lower a
    || ends_with (net.lower host) (concat "." (net.lower a))
    || is_hf_host net host allowed

pub data Reason : Type 0 where
  reason_size reason_hash reason_blob reason_upstream : Reason

pub data PullEvent : Type 0 where
  started : String → PullEvent
  failed : Reason → PullEvent
  complete : String → ℕ → PullEvent

pub data PullReply : Type 0 where
  completed : String → ℕ → String → PullReply
  refused : ℕ → PullReply

pub record Pulled : Type 0 where
  pub reply : PullReply
  pub events : List PullEvent
  pub requests : List Fetch
  pub store : BlobStore

-- The host's settings: `runtime.pull`, the key of the environment, the name of the tempfile and what the file system lets pass.
pub record PullConfig : Type 0 where
  pub per_stream_max_bytes : ℕ
  pub hf_host_allowlist : List String
  pub hf_key : String
  pub tempfile : String
  pub io : Io

-- The resolver behind the first `n` queries.
abbrev pub later : ℕ → Net → Net
later n net = record net { getaddrinfo = λ q host. net.getaddrinfo (n + q) host }

abbrev pub reply_of : String → Result (Raised PullError) (String × ℕ) → PullReply
reply_of host (ok (sha, n)) = completed sha n host
reply_of host (err (blob size_exceeded)) = refused 413
reply_of host (err (blob hash_mismatch)) = refused 400
reply_of host (err (blob e)) = refused 500
reply_of host (err (source (http_status c))) = refused 502
reply_of host (err (source (unsafe e))) = refused 500
reply_of host (err (source upstream)) = refused 502
reply_of host (err file_exists) = refused 500
reply_of host (err os_error) = refused 500

abbrev pub outcome_events : Result (Raised PullError) (String × ℕ) → List PullEvent
outcome_events (ok (sha, n)) = complete sha n ∷ []
outcome_events (err (blob size_exceeded)) = failed reason_size ∷ []
outcome_events (err (blob hash_mismatch)) = failed reason_hash ∷ []
outcome_events (err (blob e)) = failed reason_blob ∷ []
outcome_events (err (source (http_status c))) = failed reason_upstream ∷ []
outcome_events (err (source (unsafe e))) = []
outcome_events (err (source upstream)) = failed reason_upstream ∷ []
outcome_events (err file_exists) = []
outcome_events (err os_error) = []

abbrev pub refuse_with : ℕ → BlobStore → Pulled
refuse_with status s = record { reply = refused status; events = []; requests = []; store = s }

abbrev pub report :
    String → String → List Fetch → Result (Raised PullError) (String × ℕ) × BlobStore → Pulled
report tag host requests (o, after) = record {
  reply = reply_of host o;
  events = started tag ∷ outcome_events o;
  requests = requests;
  store = after;
}

abbrev pub bearer : PullConfig → Headers
bearer cfg = if cfg.hf_key == "" then [] else ("Authorization", concat "Bearer " cfg.hf_key) ∷ []

module _ (net : Net) (client : Client) (sha : Sha256) (cfg : PullConfig) where
  abbrev pub store_download : String → String → Option String → BlobStore → Download → Pulled
  store_download tag host expected s d = report tag host d.requests (
      write_stream_atomic_async sha cfg.io cfg.tempfile s d.outcome expected
        cfg.per_stream_max_bytes)

  abbrev pub pull_vetted :
      String → Option String → BlobStore → Result UrlSafetyError (String × String) → Pulled
  pull_vetted url expected s (err e) = refuse_with 400 s
  pull_vetted url expected s (ok (host, ip)) =
      store_download host host expected s (stream_with_redirects (later 2 net) client none 5 url [])

  abbrev pub pull_from : Option String → Option String → BlobStore → Pulled
  pull_from none expected s = refuse_with 400 s
  pull_from (some url) expected s =
      if url == ""
      then refuse_with 400 s
      else pull_vetted url expected s (double_resolve_check net 0 url)

  unfoldable pub pull_url : Option String → Option String → BlobStore → Pulled
  pull_url url expected s = pull_from url expected s

  abbrev pub is_allowed : String → Bool
  is_allowed host = is_hf_host net host cfg.hf_host_allowlist

  abbrev pub pull_hf_vetted :
      String → String → Option String → BlobStore → Result UrlSafetyError (String × String) → Pulled
  pull_hf_vetted repo url expected s (err e) = refuse_with 400 s
  pull_hf_vetted repo url expected s (ok (host, ip)) =
      if is_allowed host
      then store_download repo host expected s
          (stream_with_redirects (later 2 net) client (some is_allowed) 5 url (bearer cfg))
      else refuse_with 403 s

  abbrev pub hf_url : String → String → String → String
  hf_url repo filename revision =
      concat "https://huggingface.co/"
        (concat repo (concat "/resolve/" (concat revision (concat "/" filename))))

  -- A missing name is an empty one here.
  unfoldable pub pull_hf : String → String → String → Option String → BlobStore → Pulled
  pull_hf repo filename revision expected s =
      if repo == "" || filename == ""
      then refuse_with 400 s
      else pull_hf_vetted repo (hf_url repo filename revision) expected s
          (double_resolve_check net 0 (hf_url repo filename revision))
