-- ===== src/Ssrf/Tests.antt =====
-- The guard at addresses on both sides of a range.
use turbohaul_manager_rocm.Prelude.{◌+◌, ◌*◌, ◌^◌, true, false, ◌≡◌, refl, ◌↔◌, arith}
use turbohaul_manager_rocm.Ssrf.{v4, v6, octets, is_denied, deny_ipv4_networks, deny_ipv6_networks}
use turbohaul_manager_rocm.Ssrf.Ranges.{IsSpecial, is_denied_v4_iff}

metadata_denied : is_denied (v4 (octets 169 254 169 254)) ≡ true
unfolding is_denied deny_ipv4_networks
metadata_denied = refl

public_allowed : is_denied (v4 (octets 172 32 0 1)) ≡ false
unfolding is_denied deny_ipv4_networks
public_allowed = refl

-- The private address 10.0.0.1 behind NAT64.
nat64_denied : is_denied (v6 (100 * 2 ^ 112 + 65435 * 2 ^ 96 + 167772161)) ≡ true
unfolding is_denied deny_ipv6_networks
nat64_denied = refl

is_denied_v4_iff_example : (is_denied (v4 (octets 100 64 0 1)) ≡ true) ↔ IsSpecial 100 64
is_denied_v4_iff_example =
    is_denied_v4_iff 100 64 0 1 (omega arith) (omega arith) (omega arith) (omega arith)
