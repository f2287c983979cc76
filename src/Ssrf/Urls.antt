-- ===== src/Ssrf/Urls.antt =====
-- ssrf_guard.py: what a validated URL has.
use turbohaul_manager_rocm.Prelude.{
  ℕ, ◌==◌, String, true, false, Option, none, some, List, [], ◌∷◌, Result, ok, err, ◌≡◌, refl, sym,
  ap, ◌∙◌, subst, ◌⊎◌, inl, inr, Bool-cases,
}
use turbohaul_manager_rocm.Ssrf.{
  Net, IpAddress, UrlSafetyError, is_blocked_ip, first_record, resolve_safely, with_host,
  validate_host, validate_named, validate_pull_url,
}

-- The URL is an https one of this host, and the address is one that is not denied: the host itself, or
-- the first answer to the query.
pub record IsVetted (net : Net) (query : ℕ) (url host ip : String) : Type 0 where
  pub https : ((net.urlparse url).scheme == "https") ≡ true
  pub named : (net.urlparse url).hostname ≡ some host
  pub open_range : is_blocked_ip net ip ≡ false
  pub resolved :
      ((a : IpAddress) × (net.ip_address host ≡ some a) × (ip ≡ net.ip_text a))
      ⊎ ((net.ip_address host ≡ none)
          × (ips : List String) × (net.getaddrinfo query host ≡ some (ip ∷ ips)))

abbrev Answer : Net → ℕ → String → String → Type 0
Answer net query host ip =
    (is_blocked_ip net ip ≡ false)
    × (ips : List String) × (net.getaddrinfo query host ≡ some (ip ∷ ips))

first_record-Answer :
    (net : Net) (query : ℕ) (host ip : String) (o : Option (List String))
    → net.getaddrinfo query host ≡ o
    → first_record net o ≡ ok ip
    → Answer net query host ip
first_record-Answer net query host ip none e h = absurd cc
first_record-Answer net query host ip (some []) e h = absurd cc
first_record-Answer net query host ip (some (i ∷ is)) e h =
    elim (Bool-cases (is_blocked_ip net i)) [
      | inl b ↦ absurd (let h' = rw b at h in cc)
      | inr b ↦
          let same : i ≡ ip = (let h' = rw b at h in cc) in
          (
            subst (λ (x : String). is_blocked_ip net x ≡ false) same b,
            is,
            e ∙ ap (λ (x : String). some (x ∷ is)) same,
          )
    ]

abbrev Vetted : Net → ℕ → String → String → String → Type 0
Vetted net query named host ip =
    (named ≡ host)
    × (is_blocked_ip net ip ≡ false)
    × (((a : IpAddress) × (net.ip_address host ≡ some a) × (ip ≡ net.ip_text a))
        ⊎ ((net.ip_address host ≡ none)
            × (ips : List String) × (net.getaddrinfo query host ≡ some (ip ∷ ips))))

validate_host-Vetted :
    (net : Net) (query : ℕ) (named host ip : String) (o : Option IpAddress)
    → net.ip_address named ≡ o
    → validate_host net query named o ≡ ok (host, ip)
    → Vetted net query named host ip
unfolding resolve_safely
validate_host-Vetted net query named host ip (some a) e h =
    elim (Bool-cases (is_blocked_ip net (net.ip_text a))) [
      | inl b ↦ absurd (let h' = rw b at h in cc)
      | inr b ↦
          let same : named ≡ host = (let h' = rw b at h in cc) in
          let text : net.ip_text a ≡ ip = (let h' = rw b at h in cc) in
          (
            same,
            subst (λ (x : String). is_blocked_ip net x ≡ false) text b,
            inl (a, ap net.ip_address (sym same) ∙ e, sym text),
          )
    ]
validate_host-Vetted net query named host ip none e h =
    resolved (resolve_safely net query named) refl h
  where
    resolved :
        (r : Result UrlSafetyError String)
        → resolve_safely net query named ≡ r
        → with_host named r ≡ ok (host, ip)
        → Vetted net query named host ip
    resolved (err x) er hr = absurd cc
    resolved (ok i) er hr =
        let same : named ≡ host = cc in
        let text : i ≡ ip = cc in
        let (open_range, ips, answer) =
          first_record-Answer net query named i (net.getaddrinfo query named) refl er in
        (
          same,
          subst (λ (x : String). is_blocked_ip net x ≡ false) text open_range,
          inr (
            ap net.ip_address (sym same) ∙ e,
            ips,
            ap (net.getaddrinfo query) (sym same)
                ∙ answer
                ∙ ap (λ (x : String). some (x ∷ ips)) text,
          ),
        )

IsVetted-name :
    (net : Net) (query : ℕ) (url host ip : String) (o : Option String)
    → ((net.urlparse url).scheme == "https") ≡ true
    → (net.urlparse url).hostname ≡ o
    → validate_named net query o ≡ ok (host, ip)
    → IsVetted net query url host ip
IsVetted-name net query url host ip none s e h = absurd cc
IsVetted-name net query url host ip (some named) s e h = elim (Bool-cases (named == "")) [
  | inl blank ↦ absurd (let h' = rw blank at h in cc)
  | inr full ↦
      let (same, open_range, resolved) =
        validate_host-Vetted net query named host ip (net.ip_address named) refl (rw full at h) in
      record { https = s; named = e ∙ ap some same; open_range = open_range; resolved = resolved }
]

-- A URL that `validate_pull_url` accepts is an https one of the host that it returns, and the address
-- that it returns is not denied: it is the host itself, where that is an address, and otherwise the
-- first answer of the resolver to this query.
pub validate_pull_url-IsVetted :
    (net : Net) (query : ℕ) (url host ip : String)
    → validate_pull_url net query url ≡ ok (host, ip)
    → IsVetted net query url host ip
unfolding validate_pull_url
validate_pull_url-IsVetted net query url host ip h =
    elim (Bool-cases ((net.urlparse url).scheme == "https")) [
      | inl s ↦ IsVetted-name net query url host ip (net.urlparse url).hostname s refl (rw s at h)
      | inr s ↦ absurd (let h' = rw s at h in cc)
    ]
