-- ===== src/Pull/Tests.antt =====
-- A download with one redirect to another host, and a resolver that changes its answer.
use turbohaul_manager_rocm.Prelude.{
  ℕ, ◌+◌, ◌≤◌, ◌==◌, String, true, false, Option, none, some, List, [], ◌∷◌, length, if◌then◌else◌,
  eqb, ok, ◌≡◌, refl, All,
}
use turbohaul_manager_rocm.Ssrf.{
  Net, Url, IpAddress, v4, octets, validate_pull_url, resolve_safely, is_blocked_ip, is_denied,
  deny_ipv4_networks,
}
use turbohaul_manager_rocm.Pull.{
  Client, double_resolve_check, stream_with_redirects, hops, round, follow, respond,
  without_authorization,
}
use turbohaul_manager_rocm.Pull.Hops.{IsSafe, stream_with_redirects-IsSafe}
use turbohaul_manager_rocm.Pull.Rebind.{double_resolve_check_blind}
use turbohaul_manager_rocm.Prelude.{chop, all_codes}
use turbohaul_manager_rocm.Pull.Routes.{PullConfig, completed, refused, pull_url, pull_hf}
use turbohaul_manager_rocm.Pull.Stored.{
  IsVettedPull, IsKept, url_source, hf_source, pull_url-IsVettedPull, pull_hf-IsKept,
}
use turbohaul_manager_rocm.Blob.{Sha256, BlobStore, write_stream_atomic, copy_chunks, sha256_re}

abbrev address : String → Option IpAddress
address s =
    if s == "8.8.8.8"
    then some (v4 (octets 8 8 8 8))
    else if s == "9.9.9.9"
    then some (v4 (octets 9 9 9 9))
    else none

abbrev parsed : String → Url
parsed u = record {
  scheme = "https";
  hostname = if u == "https://hf.co/m" then some "hf.co" else some "cdn.hf.co";
}

-- The answers alternate.
abbrev answers : ℕ → String → Option (List String)
answers query host = if eqb query 1 then some ("9.9.9.9" ∷ []) else some ("8.8.8.8" ∷ [])

abbrev net : Net
net = record {
  ip_address = address;
  ip_text = λ a. "8.8.8.8";
  urlparse = parsed;
  urljoin = λ base location. location;
  lower = λ s. if s == "Authorization" then "authorization" else s;
  getaddrinfo = answers;
}

abbrev client : Client
client = record {
  get = λ url hs.
      if url == "https://hf.co/m"
      then some (record {
        status_code = 302;
        location = some "https://cdn.hf.co/m";
        chunks = [];
        breaks = false;
      })
      else some (record {
        status_code = 200;
        location = none;
        chunks = (1 ∷ 2 ∷ []) ∷ [];
        breaks = false;
      });
  raises = λ s. if eqb s 200 then false else true;
}

abbrev headers : List (String × String)
headers = ("Authorization", "Bearer t") ∷ ("Accept", "*/*") ∷ []

delivered :
    (stream_with_redirects net client none 5 "https://hf.co/m" headers).outcome
    ≡ record { chunks = (1 ∷ 2 ∷ []) ∷ []; failure = none }
unfolding stream_with_redirects hops round follow respond double_resolve_check validate_pull_url
    resolve_safely is_blocked_ip is_denied deny_ipv4_networks without_authorization
delivered = refl

stream_with_redirects-IsSafe_example :
    All
      (IsSafe net client none)
      (stream_with_redirects net client none 5 "https://hf.co/m" headers).requests
    × (length (stream_with_redirects net client none 5 "https://hf.co/m" headers).requests ≤ 5)
stream_with_redirects-IsSafe_example =
    stream_with_redirects-IsSafe net client none 5 "https://hf.co/m" headers

first_answer : validate_pull_url net 0 "https://hf.co/m" ≡ ok ("hf.co", "8.8.8.8")
unfolding validate_pull_url resolve_safely is_blocked_ip is_denied deny_ipv4_networks
first_answer = refl

second_answer : validate_pull_url net (0 + 1) "https://hf.co/m" ≡ ok ("hf.co", "9.9.9.9")
unfolding validate_pull_url resolve_safely is_blocked_ip is_denied deny_ipv4_networks
second_answer = refl

double_resolve_check_blind_example :
    double_resolve_check net 0 "https://hf.co/m" ≡ ok ("hf.co", "8.8.8.8")
double_resolve_check_blind_example =
    double_resolve_check_blind net 0 "https://hf.co/m" "hf.co" "8.8.8.8" "hf.co" "9.9.9.9"
      first_answer second_answer

-- A hash of the tests: every text of bytes has this one.
abbrev sha : Sha256
sha = record {
  digest = λ bytes. "0123456789abcdef0123456789abcdef0123456789abcdef0123456789abcdef";
}

abbrev config : PullConfig
config = record {
  per_stream_max_bytes = 100;
  hf_host_allowlist = "huggingface.co" ∷ "hf.co" ∷ [];
  hf_key = "t";
  tempfile = "pull_1.tmp";
  io = record { takes = λ n. true; flushes = true; replaces = true; syncs = true };
}

abbrev empty : BlobStore
empty = record { blobs = []; incoming = [] }

pull_url-reply :
    (pull_url net client sha config (some "https://hf.co/m") none empty).reply
    ≡ completed (sha.digest []) 2 "hf.co"
unfolding pull_url double_resolve_check validate_pull_url resolve_safely is_blocked_ip is_denied
    deny_ipv4_networks stream_with_redirects hops round follow respond without_authorization
    write_stream_atomic copy_chunks sha256_re chop all_codes
pull_url-reply = refl

-- Connecting raises: the upstream's error, and no bytes.
pull_url-unreachable :
    (pull_url net
      (record client { get = λ url hs. none })
      sha
      config
      (some "https://hf.co/m")
      none
      empty).reply
    ≡ refused 502
unfolding pull_url double_resolve_check validate_pull_url resolve_safely is_blocked_ip is_denied
    deny_ipv4_networks stream_with_redirects hops round follow respond without_authorization
    write_stream_atomic copy_chunks sha256_re chop all_codes
pull_url-unreachable = refl

pull_url-IsVettedPull_example :
    IsVettedPull net client sha config none
      (url_source net client sha config none "https://hf.co/m" [])
      none
      empty
      (pull_url net client sha config (some "https://hf.co/m") none empty)
pull_url-IsVettedPull_example =
    pull_url-IsVettedPull net client sha config (some "https://hf.co/m") none empty

pull_hf-IsKept_example :
    IsKept net client sha config
      (hf_source net client sha config "https://huggingface.co/org/model/resolve/main/m.gguf")
      none
      empty
      (pull_hf net client sha config "org/model" "m.gguf" "main" none empty)
pull_hf-IsKept_example = pull_hf-IsKept net client sha config "org/model" "m.gguf" "main" none empty
