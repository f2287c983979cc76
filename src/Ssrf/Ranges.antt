-- ===== src/Ssrf/Ranges.antt =====
-- ssrf_guard.py: the denied IPv4 networks, octet by octet.
use turbohaul_manager_rocm.Prelude.{ℕ, ◌+◌, ◌*◌, ◌/◌, ◌≤◌, ◌<◌, true, arith, ◌≡◌, ◌⊎◌, ◌↔◌}
use turbohaul_manager_rocm.Ssrf.{v4, octets, is_denied, deny_ipv4_networks}

-- The address with these octets is not public: "this" network, private, shared by a carrier, loopback,
-- link-local, multicast or reserved.
abbrev pub IsSpecial : ℕ → ℕ → Type 0
IsSpecial a b =
    (a ≡ 0)
    ⊎ (a ≡ 10)
    ⊎ (a ≡ 127)
    ⊎ (224 ≤ a)
    ⊎ ((a ≡ 100) × (64 ≤ b) × (b ≤ 127))
    ⊎ ((a ≡ 169) × (b ≡ 254))
    ⊎ ((a ≡ 172) × (16 ≤ b) × (b ≤ 31))
    ⊎ ((a ≡ 192) × (b ≡ 168))

leading :
    (a b c d : ℕ)
    → b < 256
    → c < 256
    → d < 256
    → (octets a b c d / 16777216 ≡ a)
      × (octets a b c d / 65536 ≡ a * 256 + b)
      × (octets a b c d / 1048576 ≡ (a * 256 + b) / 16)
      × (octets a b c d / 4194304 ≡ (a * 256 + b) / 64)
      × (octets a b c d / 268435456 ≡ a / 16)
leading a b c d hb hc hd = (omega arith, omega arith, omega arith, omega arith, omega arith)

-- An IPv4 address is denied exactly when its first two octets are those of a special range.
pub is_denied_v4_iff :
    (a b c d : ℕ)
    → a < 256
    → b < 256
    → c < 256
    → d < 256
    → (is_denied (v4 (octets a b c d)) ≡ true) ↔ IsSpecial a b
unfolding is_denied deny_ipv4_networks
is_denied_v4_iff a b c d ha hb hc hd =
    let (x, y, z, u, v) = leading a b c d hb hc hd in (λ h. ground arith, λ h. ground arith)
