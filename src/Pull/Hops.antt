-- ===== src/Pull/Hops.antt =====
-- api/pull.py: every request of a download with redirects was vetted, and a credential does not leave
-- the first host.
use turbohaul_manager_rocm.Prelude.{
  ℕ, zero, suc, ◌+◌, ◌≤◌, ◌==◌, String, Bool, true, false, Option, none, some, List, [], ◌∷◌,
  length, Result, ok, err, arith, ◌≡◌, refl, sym, subst, ◌⊎◌, inl, inr, Bool-cases, All, eq_iff,
}
use turbohaul_manager_rocm.Ssrf.{Net, UrlSafetyError, validate_pull_url}
use turbohaul_manager_rocm.Ssrf.Urls.{IsVetted, validate_pull_url-IsVetted}
use turbohaul_manager_rocm.Pull.{
  Headers, Client, Response, Fetch, Download, compare_hosts, double_resolve_check, is_authorization,
  without_authorization, headers_for, accepts, redirect_of, follow, respond, round, hops,
  stream_with_redirects,
}

compare_hosts-first :
    (a b : Result UrlSafetyError (String × String)) (host ip : String)
    → compare_hosts a b ≡ ok (host, ip)
    → a ≡ ok (host, ip)
compare_hosts-first (err e) b host ip h = absurd cc
compare_hosts-first (ok (host1, ip1)) (err e) host ip h = absurd cc
compare_hosts-first (ok (host1, ip1)) (ok (host2, ip2)) host ip h =
    elim (Bool-cases (host1 == host2)) [
      | inl same ↦ rw same at h
      | inr other ↦ absurd (let h' = rw other at h in cc)
    ]

abbrev pub NoAuthorization : Net → Headers → Type 0
NoAuthorization net hs = All (λ (h : String × String). is_authorization net h ≡ false) hs

stripped : (net : Net) (hs : Headers) → NoAuthorization net (without_authorization net hs)
unfolding without_authorization
stripped net [] = tt
stripped net (h ∷ hs) = elim (Bool-cases (is_authorization net h)) [
  | inl e ↦ rw e (stripped net hs)
  | inr e ↦ rw e (e, stripped net hs)
]

headers_for-clean :
    (net : Net) (prev : Option String) (host : String) (hs : Headers)
    → NoAuthorization net hs
    → NoAuthorization net (headers_for net prev host hs)
headers_for-clean net none host hs h = h
headers_for-clean net (some p) host hs h = elim (Bool-cases (host == p)) [
  | inl e ↦ rw e h
  | inr e ↦ rw e (stripped net hs)
]

module _ (net : Net) (client : Client) (check : Option (String → Bool)) where
  -- The URL was vetted and its host accepted.
  pub record IsSafe (f : Fetch) : Type 0 where
    pub vetted : IsVetted net f.query f.url f.host f.ip
    pub accepted : accepts check f.host ≡ true

  abbrev Covers : (Fetch → Type 0) → ℕ → Download → Type 0
  Covers P n d = All P d.requests × (length d.requests ≤ n)

  -- One rule for the loop: a property of requests that a round gives to its own request and asks of the
  -- rest of the loop holds of all.
  follow-Covers :
      (P : Fetch → Type 0) (n : ℕ) (next : Headers → String → String → Download) (f : Fetch)
      (o : Option String) (r : Response)
      → P f
      → ((url : String) → Covers P n (next f.headers f.host url))
      → Covers P (suc n) (follow net client check next f o r)
  unfolding follow
  follow-Covers P n next f (some l) r p rest =
      let (all, few) = rest (net.urljoin f.url l) in ((p, all), omega arith)
  follow-Covers P n next f none r p rest = ((p, tt), omega arith)

  respond-Covers :
      (P : Fetch → Type 0) (n : ℕ) (next : Headers → String → String → Download) (f : Fetch)
      (o : Option Response)
      → P f
      → ((url : String) → Covers P n (next f.headers f.host url))
      → Covers P (suc n) (respond net client check next f o)
  unfolding respond
  respond-Covers P n next f none p rest = ((p, tt), omega arith)
  respond-Covers P n next f (some r) p rest = follow-Covers P n next f (redirect_of r) r p rest

  round-IsSafe :
      (n : ℕ) (next : Headers → String → String → Download) (query : ℕ) (url : String)
      (hs : Headers) (prev : Option String) (r : Result UrlSafetyError (String × String))
      → ((host ip : String) → r ≡ ok (host, ip) → IsVetted net query url host ip)
      → ((sent : Headers) (host next_url : String) → Covers IsSafe n (next sent host next_url))
      → Covers IsSafe (suc n) (round net client check next query url hs prev r)
  unfolding round
  round-IsSafe n next query url hs prev (err e) vet rest = (tt, omega arith)
  round-IsSafe n next query url hs prev (ok (host, ip)) vet rest =
      let sent = headers_for net prev host hs in
      let f : Fetch = record { query = query; url = url; host = host; ip = ip; headers = sent } in
      elim (Bool-cases (accepts check host)) [
        | inl a ↦
            let safe : IsSafe f = record { vetted = vet host ip refl; accepted = a } in
            rw a (respond-Covers IsSafe n next f (client.get url sent) safe (λ u. rest sent host u))
        | inr a ↦ rw a (tt, omega arith)
      ]

  hops-IsSafe :
      (n query : ℕ) (url : String) (hs : Headers) (prev : Option String)
      → Covers IsSafe n (hops net client check n query url hs prev)
  unfolding hops double_resolve_check
  hops-IsSafe zero query url hs prev = (tt, omega arith)
  hops-IsSafe (suc n) query url hs prev =
      round-IsSafe n (λ sent host u. hops net client check n (query + 2) u sent (some host)) query
        url hs prev (double_resolve_check net query url)
        (λ host ip e. validate_pull_url-IsVetted net query url host ip (
          compare_hosts-first (validate_pull_url net query url)
            (validate_pull_url net (query + 1) url) host ip e))
        (λ sent host u. hops-IsSafe n (query + 2) u sent (some host))

  -- A download makes at most `max_hops` requests, and each of them was vetted just before: the URL is an
  -- https one, its host is the one that the caller's check accepted, and the address that the resolver
  -- gave for it is in no denied range.
  pub stream_with_redirects-IsSafe :
      (max_hops : ℕ) (url : String) (headers : Headers)
      → All IsSafe (stream_with_redirects net client check max_hops url headers).requests
        × (length (stream_with_redirects net client check max_hops url headers).requests ≤ max_hops)
  unfolding stream_with_redirects
  stream_with_redirects-IsSafe max_hops url headers = hops-IsSafe max_hops 0 url headers none

  abbrev pub IsClean : Fetch → Type 0
  IsClean f = NoAuthorization net f.headers

  -- From here on: the request goes to this host, or carries no credential.
  abbrev pub Keeps : String → Fetch → Type 0
  Keeps host f = ((f.host == host) ≡ true) ⊎ IsClean f

  round_clean :
      (P : Fetch → Type 0) (n : ℕ) (next : Headers → String → String → Download) (query : ℕ)
      (url : String) (hs : Headers) (prev : Option String)
      (r : Result UrlSafetyError (String × String))
      → ((host ip : String)
          → P (record {
            query = query;
            url = url;
            host = host;
            ip = ip;
            headers = headers_for net prev host hs;
          }))
      → ((host next_url : String) → Covers P n (next (headers_for net prev host hs) host next_url))
      → Covers P (suc n) (round net client check next query url hs prev r)
  unfolding round
  round_clean P n next query url hs prev (err e) own rest = (tt, omega arith)
  round_clean P n next query url hs prev (ok (host, ip)) own rest =
      let sent = headers_for net prev host hs in
      elim (Bool-cases (accepts check host)) [
        | inl a ↦
            rw a (respond-Covers P n next _ (client.get url sent) (own host ip) (λ u. rest host u))
        | inr a ↦ rw a (tt, omega arith)
      ]

  hops-IsClean :
      (n query : ℕ) (url : String) (hs : Headers) (prev : Option String)
      → NoAuthorization net hs
      → Covers IsClean n (hops net client check n query url hs prev)
  unfolding hops
  hops-IsClean zero query url hs prev h = (tt, omega arith)
  hops-IsClean (suc n) query url hs prev h =
      round_clean IsClean n (λ sent host u. hops net client check n (query + 2) u sent (some host))
        query url hs prev (double_resolve_check net query url)
        (λ host ip. headers_for-clean net prev host hs h)
        (λ host u.
          hops-IsClean n (query + 2) u (headers_for net prev host hs) (some host)
            (headers_for-clean net prev host hs h))

  weaken : (p : String) (n : ℕ) (d : Download) → Covers IsClean n d → Covers (Keeps p) n d
  weaken p n d (all, few) = (each d.requests all, few)
    where
      each : (fs : List Fetch) → All IsClean fs → All (Keeps p) fs
      each [] h = tt
      each (f ∷ fs) (c, h) = (inr c, each fs h)

  hops-Keeps :
      (n query : ℕ) (url : String) (hs : Headers) (p : String)
      → Covers (Keeps p) n (hops net client check n query url hs (some p))
  unfolding hops
  hops-Keeps zero query url hs p = (tt, omega arith)
  hops-Keeps (suc n) query url hs p =
      round_clean (Keeps p) n
        (λ sent host u. hops net client check n (query + 2) u sent (some host)) query url hs
        (some p) (double_resolve_check net query url)
        (λ host ip. elim (Bool-cases (host == p)) [
          | inl e ↦ inl e
          | inr e ↦ inr (rw e (stripped net hs))
        ])
        (λ host u. elim (Bool-cases (host == p)) [
          | inl e ↦
              let same : p ≡ host = ground (arith, eq_iff host p) in
              let sent = headers_for net (some p) host hs in
              subst
                (λ (q : String).
                  Covers (Keeps q) n (hops net client check n (query + 2) u sent (some host)))
                (sym same) (hops-Keeps n (query + 2) u sent host)
          | inr e ↦
              weaken p n
                (hops net client check n (query + 2) u (headers_for net (some p) host hs)
                  (some host))
                (hops-IsClean n (query + 2) u (headers_for net (some p) host hs) (some host)
                  (rw e (stripped net hs)))
        ])

  abbrev pub KeepsFirst : List Fetch → Type 0
  KeepsFirst [] = Unit
  KeepsFirst (f ∷ fs) = All (Keeps f.host) fs

  follow_first :
      (next : Headers → String → String → Download) (f : Fetch) (o : Option String) (r : Response)
      → ((u : String) → All (Keeps f.host) (next f.headers f.host u).requests)
      → KeepsFirst (follow net client check next f o r).requests
  unfolding follow
  follow_first next f (some l) r rest = rest (net.urljoin f.url l)
  follow_first next f none r rest = tt

  respond_first :
      (next : Headers → String → String → Download) (f : Fetch) (o : Option Response)
      → ((u : String) → All (Keeps f.host) (next f.headers f.host u).requests)
      → KeepsFirst (respond net client check next f o).requests
  unfolding respond
  respond_first next f none rest = tt
  respond_first next f (some r) rest = follow_first next f (redirect_of r) r rest

  round_first :
      (next : Headers → String → String → Download) (query : ℕ) (url : String) (hs : Headers)
      (prev : Option String) (r : Result UrlSafetyError (String × String))
      → ((sent : Headers) (host u : String) → All (Keeps host) (next sent host u).requests)
      → KeepsFirst (round net client check next query url hs prev r).requests
  unfolding round
  round_first next query url hs prev (err e) rest = tt
  round_first next query url hs prev (ok (host, ip)) rest =
      let sent = headers_for net prev host hs in
      elim (Bool-cases (accepts check host)) [
        | inl a ↦ rw a (respond_first next _ (client.get url sent) (λ u. rest sent host u))
        | inr a ↦ rw a tt
      ]

  -- A credential does not leave the first host: each request after the first goes to the host of the
  -- first, or carries no header that is named "authorization" in any case of letters.
  pub stream_with_redirects-KeepsFirst :
      (max_hops : ℕ) (url : String) (headers : Headers)
      → KeepsFirst (stream_with_redirects net client check max_hops url headers).requests
  unfolding stream_with_redirects hops
  stream_with_redirects-KeepsFirst zero url headers = tt
  stream_with_redirects-KeepsFirst (suc n) url headers =
      round_first (λ sent host u. hops net client check n 2 u sent (some host)) 0 url headers none
        (double_resolve_check net 0 url) (λ sent host u. (hops-Keeps n 2 u sent host).0)
