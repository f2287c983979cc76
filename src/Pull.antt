-- ===== src/Pull.antt =====
-- api/pull.py: the streaming download that follows redirects, `_stream_with_redirects`. The HTTP client
-- is a parameter: the response that it gives to a URL and headers, if it raises no error, and where a
-- body breaks off. A download is the list of requests made, in order, with the chunks that it gives and
-- the error that ends it, if one does. The number of the next query to the resolver is threaded through.
pub mod Hops
pub mod Rebind
pub mod Routes
pub mod Stored
mod Tests
use turbohaul_manager_rocm.Prelude.{
  ℕ, zero, suc, ◌+◌, ◌==◌, String, Bool, true, false, not, ◌&&◌, Option, none, some, List, [], ◌∷◌,
  if◌then◌else◌, ltb, leb, Result, ok, err,
}
use turbohaul_manager_rocm.Ssrf.{
  Net, UrlSafetyError, rebind, not_allowed, too_many_redirects, validate_pull_url,
}
use turbohaul_manager_rocm.Blob.{Source}

abbrev pub Headers : Type 0
Headers = List (String × String)

pub record Response : Type 0 where
  pub status_code : ℕ
  pub location : Option String
  pub chunks : List (List ℕ)
  pub breaks : Bool

-- `get` gives none where connecting or reading the response's head raises an `httpx.HTTPError`; `breaks` says
-- that reading the body raises one behind the chunks. `raise_for_status` raises for the statuses that `raises` picks.
pub record Client : Type 0 where
  pub get : String → Headers → Option Response
  pub raises : ℕ → Bool

pub data PullError : Type 0 where
  unsafe : UrlSafetyError → PullError
  http_status : ℕ → PullError
  upstream : PullError

pub record Fetch : Type 0 where
  pub query : ℕ
  pub url : String
  pub host : String
  pub ip : String
  pub headers : Headers

pub record Download : Type 0 where
  pub requests : List Fetch
  pub outcome : Source PullError

-- `_double_resolve_check`: the second validation asks the resolver again.
abbrev pub compare_hosts :
    Result UrlSafetyError (String × String)
    → Result UrlSafetyError (String × String)
    → Result UrlSafetyError (String × String)
compare_hosts (err e) second = err e
compare_hosts (ok (host1, ip1)) (err e) = err e
compare_hosts (ok (host1, ip1)) (ok (host2, ip2)) =
    if host1 == host2 then ok (host1, ip1) else err rebind

unfoldable pub double_resolve_check : Net → ℕ → String → Result UrlSafetyError (String × String)
unfolding validate_pull_url
double_resolve_check net query url =
    compare_hosts (validate_pull_url net query url) (validate_pull_url net (query + 1) url)

abbrev pub is_authorization : Net → String × String → Bool
is_authorization net (k, v) = net.lower k == "authorization"

unfoldable pub without_authorization : Net → Headers → Headers
without_authorization net [] = []
without_authorization net (h ∷ hs) =
    if is_authorization net h
    then without_authorization net hs
    else h ∷ without_authorization net hs

-- `prev_host is not None and host != prev_host`
abbrev pub headers_for : Net → Option String → String → Headers → Headers
headers_for net none host hs = hs
headers_for net (some prev) host hs = if host == prev then hs else without_authorization net hs

-- `allowlist_check is not None and not allowlist_check(host)`
abbrev pub accepts : Option (String → Bool) → String → Bool
accepts none host = true
accepts (some check) host = check host

-- `300 <= status < 400 and location`
abbrev pub redirect_of : Response → Option String
redirect_of r = elim r.location [
  | none ↦ none
  | some l ↦
      if leb 300 r.status_code && ltb r.status_code 400 && not (l == "") then some l else none
]

abbrev pub fails : PullError → Source PullError
fails e = record { chunks = []; failure = some e }

abbrev pub read_body : Response → Source PullError
read_body r = record { chunks = r.chunks; failure = if r.breaks then some upstream else none }

abbrev pub refuse : UrlSafetyError → Download
refuse e = record { requests = []; outcome = fails (unsafe e) }

abbrev pub after : Fetch → Download → Download
after f d = record d { requests = f ∷ d.requests }

abbrev pub finish : Client → Fetch → Response → Download
finish client f r = record {
  requests = f ∷ [];
  outcome = if client.raises r.status_code then fails (http_status r.status_code) else read_body r;
}

module _ (net : Net) (client : Client) (check : Option (String → Bool)) where
  -- What a round does with a response; `next` is the rest of the loop, on the new URL.
  pub follow : (Headers → String → String → Download) → Fetch → Option String → Response → Download
  follow next f (some location) r = after f (next f.headers f.host (net.urljoin f.url location))
  follow next f none r = finish client f r

  -- The request to a vetted host: the client may raise.
  pub respond : (Headers → String → String → Download) → Fetch → Option Response → Download
  unfolding follow
  respond next f none = record { requests = f ∷ []; outcome = fails upstream }
  respond next f (some r) = follow next f (redirect_of r) r

  pub round :
      (Headers → String → String → Download)
      → ℕ
      → String
      → Headers
      → Option String
      → Result UrlSafetyError (String × String)
      → Download
  unfolding respond
  round next query url hs prev (err e) = refuse e
  round next query url hs prev (ok (host, ip)) =
      let sent = headers_for net prev host hs in
      let f : Fetch = record { query = query; url = url; host = host; ip = ip; headers = sent } in
      if accepts check host then respond next f (client.get url sent) else refuse not_allowed

  -- The `for` over the hops that are left.
  pub hops : ℕ → ℕ → String → Headers → Option String → Download
  unfolding round
  hops zero query url hs prev = refuse too_many_redirects
  hops (suc n) query url hs prev =
      round (λ sent host next_url. hops n (query + 2) next_url sent (some host)) query url hs prev
        (double_resolve_check net query url)

  pub stream_with_redirects : ℕ → String → Headers → Download
  unfolding hops
  stream_with_redirects max_hops url headers = hops max_hops 0 url headers none
