-- ===== src/Ssrf.antt =====
-- ssrf_guard.py: which URL a download may be fetched from. The parsers of addresses and URLs and the
-- resolver are libraries: they are the fields of `Net`. A resolver is asked several times and may answer
-- differently, so its answer depends on the number of the query. An address is its value.
pub mod Ranges
pub mod Urls
mod Tests
use turbohaul_manager_rocm.Prelude.{
  ℕ, ◌+◌, ◌-◌, ◌*◌, ◌/◌, ◌^◌, ◌==◌, String, Bool, true, false, not, ◌&&◌, ◌||◌, Option, none, some,
  List, [], ◌∷◌, if◌then◌else◌, eqb, Result, ok, err,
}

pub data IpAddress : Type 0 where
  v4 v6 : ℕ → IpAddress

pub record Network : Type 0 where
  pub base : ℕ
  pub prefix : ℕ

-- What `urlparse` gives: the scheme and the host's name.
pub record Url : Type 0 where
  pub scheme : String
  pub hostname : Option String

-- `getaddrinfo` gives the addresses' texts, or `none` where it raises.
pub record Net : Type 0 where
  pub ip_address : String → Option IpAddress
  pub ip_text : IpAddress → String
  pub urlparse : String → Url
  pub urljoin : String → String → String
  pub lower : String → String
  pub getaddrinfo : ℕ → String → Option (List String)

pub data UrlSafetyError : Type 0 where
  bad_scheme no_hostname denied_literal resolution_failed no_records denied_network : UrlSafetyError
  rebind not_allowed too_many_redirects : UrlSafetyError

abbrev pub octets : ℕ → ℕ → ℕ → ℕ → ℕ
octets a b c d = ((a * 256 + b) * 256 + c) * 256 + d

abbrev pub net4 : ℕ → ℕ → ℕ → Network
net4 a b prefix = record { base = octets a b 0 0; prefix = prefix }

unfoldable pub deny_ipv4_networks : List Network
deny_ipv4_networks =
    net4 10 0 8
    ∷ net4 172 16 12
    ∷ net4 192 168 16
    ∷ net4 127 0 8
    ∷ net4 169 254 16
    ∷ net4 100 64 10
    ∷ net4 0 0 8
    ∷ net4 224 0 4
    ∷ net4 240 0 4
    ∷ []

-- The first group of sixteen bits.
abbrev pub net6 : ℕ → ℕ → Network
net6 group prefix = record { base = group * 2 ^ 112; prefix = prefix }

unfoldable pub deny_ipv6_networks : List Network
deny_ipv6_networks =
    record { base = 1; prefix = 128 }
    ∷ net6 64512 7
    ∷ net6 65152 10
    ∷ net6 65280 8
    ∷ record { base = 100 * 2 ^ 112 + 65435 * 2 ^ 96; prefix = 96 }
    ∷ record { base = 0; prefix = 96 }
    ∷ record { base = 65535 * 2 ^ 32; prefix = 96 }
    ∷ record { base = 8193 * 2 ^ 112 + 3512 * 2 ^ 96; prefix = 32 }
    ∷ []

-- `ip in net`: the leading bits agree.
abbrev pub in_network : ℕ → ℕ → Network → Bool
in_network width ip n = eqb (ip / 2 ^ (width - n.prefix)) (n.base / 2 ^ (width - n.prefix))

abbrev pub in_any : ℕ → ℕ → List Network → Bool
in_any width ip [] = false
in_any width ip (n ∷ ns) = in_network width ip n || in_any width ip ns

unfoldable pub is_denied : IpAddress → Bool
unfolding deny_ipv4_networks deny_ipv6_networks
is_denied (v4 ip) = in_any 32 ip deny_ipv4_networks
is_denied (v6 ip) = in_any 128 ip deny_ipv6_networks

-- A text that is no address is blocked.
unfoldable pub is_blocked_ip : Net → String → Bool
unfolding is_denied
is_blocked_ip net ip_str = elim (net.ip_address ip_str) [ none ↦ true | some ip ↦ is_denied ip ]

abbrev pub first_record : Net → Option (List String) → Result UrlSafetyError String
first_record net none = err resolution_failed
first_record net (some []) = err no_records
first_record net (some (ip ∷ ips)) = if is_blocked_ip net ip then err denied_network else ok ip

unfoldable pub resolve_safely : Net → ℕ → String → Result UrlSafetyError String
resolve_safely net query host = first_record net (net.getaddrinfo query host)

abbrev pub with_host :
    String → Result UrlSafetyError String → Result UrlSafetyError (String × String)
with_host host (err e) = err e
with_host host (ok ip) = ok (host, ip)

-- A host that is an address itself is not resolved.
abbrev pub validate_host :
    Net → ℕ → String → Option IpAddress → Result UrlSafetyError (String × String)
validate_host net query host (some ip) =
    if is_blocked_ip net (net.ip_text ip) then err denied_literal else ok (host, net.ip_text ip)
validate_host net query host none = with_host host (resolve_safely net query host)

abbrev pub validate_named : Net → ℕ → Option String → Result UrlSafetyError (String × String)
validate_named net query none = err no_hostname
validate_named net query (some host) =
    if host == "" then err no_hostname else validate_host net query host (net.ip_address host)

unfoldable pub validate_pull_url : Net → ℕ → String → Result UrlSafetyError (String × String)
unfolding resolve_safely
validate_pull_url net query url =
    if (net.urlparse url).scheme == "https"
    then validate_named net query (net.urlparse url).hostname
    else err bad_scheme
