-- ===== src/Stratum/Ssrf/Ipv4.antt =====
-- apps/stratum/src/hashden/api/ssrf-guard.ts: IPv4 addresses as 32-bit numbers, and the blocks that are
-- not public. JavaScript's 32-bit operators are arithmetic modulo 2 ^ 32 here.
use hashden.Common.{
  ℕ, ◌+◌, ◌-◌, ◌*◌, ◌/◌, ◌%◌, ◌^◌, Bool, ◌==◌, List, [], ◌∷◌, Option, none, some, ltb,
  if◌then◌else◌, any,
}
use hashden.Common.Text.{Text, codes}
use hashden.Shared.Pattern.{is_digit, repeats, split}

-- `Number(p)` of a string of digits.
unfoldable pub decimal_from : ℕ → Text → ℕ
decimal_from n [] = n
decimal_from n (c ∷ s) = decimal_from (n * 10 + (c - 48)) s

-- `/^\d{1,3}$/`, and the value if it fits in an octet.
unfoldable pub octet : Text → Option ℕ
octet p =
    if repeats is_digit 1 3 p
    then (let n = decimal_from 0 p in if ltb 255 n then none else some n)
    else none

-- `(n << 8) | octet`
abbrev pub shift_octet : ℕ → Option ℕ → Option ℕ
shift_octet n none = none
shift_octet n (some o) = some (n * 256 % 2 ^ 32 + o)

abbrev pub shift_in : Option ℕ → Option ℕ → Option ℕ
shift_in none o = none
shift_in (some n) o = shift_octet n o

unfoldable pub octets : List Text → Option ℕ
octets (a ∷ b ∷ c ∷ d ∷ []) =
    shift_in (shift_in (shift_in (shift_octet 0 (octet a)) (octet b)) (octet c)) (octet d)
octets _ = none

unfoldable pub ipv4_to_int : Text → Option ℕ
ipv4_to_int ip = octets (split b'.' ip)

-- `(n & mask) >>> 0`, where the mask is `prefix` ones and then zeros.
abbrev pub masked : ℕ → ℕ → ℕ
masked prefix n = n / 2 ^ (32 - prefix) * 2 ^ (32 - prefix)

-- V4_BLOCKS
abbrev pub v4_blocks : List (Text × ℕ)
v4_blocks =
    (codes "0.0.0.0", 8)
    ∷ (codes "10.0.0.0", 8)
    ∷ (codes "100.64.0.0", 10)
    ∷ (codes "127.0.0.0", 8)
    ∷ (codes "169.254.0.0", 16)
    ∷ (codes "172.16.0.0", 12)
    ∷ (codes "192.0.0.0", 24)
    ∷ (codes "192.0.2.0", 24)
    ∷ (codes "192.88.99.0", 24)
    ∷ (codes "192.168.0.0", 16)
    ∷ (codes "198.18.0.0", 15)
    ∷ (codes "198.51.100.0", 24)
    ∷ (codes "203.0.113.0", 24)
    ∷ (codes "224.0.0.0", 4)
    ∷ (codes "240.0.0.0", 4)
    ∷ []

-- `ipv4ToInt(base)!`: the bases are written in the source, and each is an address.
abbrev pub base_of : Option ℕ → ℕ
base_of none = 0
base_of (some b) = b

unfoldable pub in_block : ℕ → Text × ℕ → Bool
in_block n (base, prefix) = masked prefix n == masked prefix (base_of (ipv4_to_int base))

unfoldable pub is_disallowed_ipv4 : ℕ → Bool
is_disallowed_ipv4 n = any (in_block n) v4_blocks
