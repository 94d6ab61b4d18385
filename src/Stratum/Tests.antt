-- ===== src/Stratum/Tests.antt =====
-- apps/stratum/src/hashden/api/ssrf-guard.ts: runs at fixed inputs, and the theorems applied to them.
use hashden.Common.{
  ◌+◌, ◌*◌, ◌/◌, ◌%◌, ◌^◌, ◌≡◌, refl, Bool, true, not, ◌||◌, List, [], ◌∷◌, none, some, Result, ok,
  all, any, if◌then◌else◌,
}
use hashden.Common.Text.{Text, codes, text_eq}
use hashden.Shared.Pattern.{is_digit, is_hex, repeats, split}
use hashden.Shared.Hex.{hex_from}
use hashden.Stratum.Ssrf.Ipv4.{
  decimal_from, octet, octets, ipv4_to_int, in_block, is_disallowed_ipv4,
}
use hashden.Stratum.Ssrf.Ipv6.{
  without_zone, before_quad, to_hex, fold_quad, split_gap, groups_of, join_groups, ipv6_to_big_int,
  is_disallowed_ipv6,
}
use hashden.Stratum.Ssrf.Resolution.{
  resolved, private_host, is_disallowed_ip, resolve_public_ip, resolve_public_ip_iff,
}
use hashden.Stratum.Ssrf.Ranges.{quad, within}
use hashden.Stratum.Ssrf.Embedded.{mapped, nat64, six_to_four, v6_ranges, is_disallowed_ipv6-eq}

dotted : ipv4_to_int (codes "169.254.169.254") ≡ some (quad 169 254 169 254)
unfolding ipv4_to_int octets octet decimal_from split repeats is_digit
dotted = refl

too_big : ipv4_to_int (codes "256.1.1.1") ≡ none
unfolding ipv4_to_int octets octet decimal_from split repeats is_digit
too_big = refl

loopback : ipv6_to_big_int (codes "::1%eth0") ≡ some 1
unfolding ipv6_to_big_int without_zone fold_quad split_gap groups_of join_groups hex_from split
    repeats is_hex is_digit
loopback = refl

embedded : ipv6_to_big_int (codes "::ffff:10.0.0.1") ≡ some (65535 * 2 ^ 32 + quad 10 0 0 1)
unfolding ipv6_to_big_int without_zone fold_quad before_quad to_hex split_gap groups_of join_groups
    hex_from split repeats is_hex is_digit ipv4_to_int octets octet decimal_from
embedded = refl

two_gaps : ipv6_to_big_int (codes "1::2::3") ≡ none
unfolding ipv6_to_big_int without_zone fold_quad split_gap groups_of
two_gaps = refl

is_disallowed_ipv6-eq_example : is_disallowed_ipv6 (65535 * 2 ^ 32 + quad 10 0 0 1) ≡ (
    if within (65535 * 2 ^ 32 + quad 10 0 0 1) mapped
      || within (65535 * 2 ^ 32 + quad 10 0 0 1) nat64
    then is_disallowed_ipv4 ((65535 * 2 ^ 32 + quad 10 0 0 1) % 2 ^ 32)
    else if within (65535 * 2 ^ 32 + quad 10 0 0 1) six_to_four
    then is_disallowed_ipv4 ((65535 * 2 ^ 32 + quad 10 0 0 1) / 2 ^ 80 % 2 ^ 32)
    else any (within (65535 * 2 ^ 32 + quad 10 0 0 1)) v6_ranges)
is_disallowed_ipv6-eq_example = is_disallowed_ipv6-eq (65535 * 2 ^ 32 + quad 10 0 0 1)

-- A resolver with one public host, and one that answers with a private address behind a public one.
abbrev lookup : Text → Result Text (List Text)
lookup host =
    if text_eq host (codes "pay.example")
    then ok (codes "8.8.8.8" ∷ codes "1.1.1.1" ∷ [])
    else ok (codes "8.8.8.8" ∷ codes "127.0.0.1" ∷ [])

abbrev all_v4 : Text → Bool
all_v4 ip = true

split_horizon : resolve_public_ip all_v4 all_v4 lookup (codes "evil.example") ≡ private_host
unfolding resolve_public_ip is_disallowed_ip is_disallowed_ipv4 in_block ipv4_to_int octets octet
    decimal_from split repeats is_digit text_eq
split_horizon = refl

public : resolve_public_ip all_v4 all_v4 lookup (codes "pay.example") ≡ resolved (codes "8.8.8.8")
unfolding resolve_public_ip is_disallowed_ip is_disallowed_ipv4 in_block ipv4_to_int octets octet
    decimal_from split repeats is_digit text_eq
public = refl

resolve_public_ip_iff_example :
    (rest : List Text) × (lookup (codes "pay.example") ≡ ok (codes "8.8.8.8" ∷ rest))
    × (all (λ r. not (is_disallowed_ip all_v4 all_v4 r)) (codes "8.8.8.8" ∷ rest) ≡ true)
resolve_public_ip_iff_example =
    (resolve_public_ip_iff all_v4 all_v4 lookup (codes "pay.example") (codes "8.8.8.8")).0 public
