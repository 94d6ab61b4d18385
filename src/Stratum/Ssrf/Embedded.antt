-- ===== src/Stratum/Ssrf/Embedded.antt =====
-- apps/stratum/src/hashden/api/ssrf-guard.ts: the ranges of IPv6 addresses that are refused, and those
-- that stand for an IPv4 address.
use hashden.Common.{
  ℕ, ◌+◌, ◌-◌, ◌*◌, ◌/◌, ◌%◌, ◌^◌, ◌≡◌, ◌||◌, List, [], ◌∷◌, any, arith, if◌then◌else◌,
}
use hashden.Stratum.Ssrf.Ipv4.{is_disallowed_ipv4}
use hashden.Stratum.Ssrf.Ipv6.{is_disallowed_ipv6}
use hashden.Stratum.Ssrf.Ranges.{within}

-- ::ffff:0:0/96, 64:ff9b::/96 and 2002::/16.
abbrev pub mapped : ℕ × ℕ
mapped = (65535 * 2 ^ 32, 65536 * 2 ^ 32 - 1)

abbrev pub nat64 : ℕ × ℕ
nat64 = (6619035 * 2 ^ 96, 6619035 * 2 ^ 96 + 2 ^ 32 - 1)

abbrev pub six_to_four : ℕ × ℕ
six_to_four = (8194 * 2 ^ 112, 8195 * 2 ^ 112 - 1)

-- ::/96, fc00::/7, fe80::/10, ff00::/8 and 2001:db8::/32.
abbrev pub v6_ranges : List (ℕ × ℕ)
v6_ranges =
    (0, 2 ^ 32 - 1)
    ∷ (126 * 2 ^ 121, 127 * 2 ^ 121 - 1)
    ∷ (1018 * 2 ^ 118, 1019 * 2 ^ 118 - 1)
    ∷ (255 * 2 ^ 120, 256 * 2 ^ 120 - 1)
    ∷ (536939960 * 2 ^ 96, 536939961 * 2 ^ 96 - 1)
    ∷ []

-- An IPv6 address that is mapped, NAT64 or 6to4 is judged as the IPv4 address that it embeds, and every
-- other one is refused exactly if it stands in one of the five ranges; the IPv4-compatible addresses are
-- the first of these, and refused as a whole.
pub is_disallowed_ipv6-eq :
    (n : ℕ)
    → is_disallowed_ipv6 n ≡ (
        if within n mapped || within n nat64
        then is_disallowed_ipv4 (n % 2 ^ 32)
        else if within n six_to_four
        then is_disallowed_ipv4 (n / 2 ^ 80 % 2 ^ 32)
        else any (within n) v6_ranges)
unfolding is_disallowed_ipv6
is_disallowed_ipv6-eq n = ground arith
