-- ===== src/Stratum/Ssrf/Ipv6.antt =====
-- apps/stratum/src/hashden/api/ssrf-guard.ts: IPv6 addresses as numbers, and those that are not public.
-- The shifts and masks of BigInt are division and remainder by powers of two.
use hashden.Common.{
  ℕ, zero, suc, ◌+◌, ◌-◌, ◌*◌, ◌/◌, ◌%◌, ◌^◌, Bool, true, false, ◌&&◌, ◌==◌, List, [], ◌∷◌, ◌++◌,
  Option, none, some, ltb, if◌then◌else◌, any, length,
}
use hashden.Common.Text.{Text, codes}
use hashden.Shared.Pattern.{is_hex, repeats, split, push_front}
use hashden.Shared.Hex.{hex_digit, hex_from}
use hashden.Stratum.Ssrf.Ipv4.{ipv4_to_int, is_disallowed_ipv4}

-- `ip.split('%')[0]`
unfoldable pub without_zone : Text → Text
without_zone [] = []
without_zone (c ∷ s) = if c == b'%' then [] else c ∷ without_zone s

-- The text up to the last colon before the first dot, and the text behind that colon.
unfoldable pub before_quad : Text → Option (Text × Text)
before_quad [] = none
before_quad (c ∷ s) = if c == b'.' then none else elim (before_quad s) [
  | some (prefix, rest) ↦ some (c ∷ prefix, rest)
  | none ↦ if c == b':' then some (c ∷ [], s) else none
]

-- `n.toString(16)` for a number below 2 ^ 16.
unfoldable pub to_hex : ℕ → Text
to_hex n =
    if ltb n 16
    then hex_digit n ∷ []
    else if ltb n 256
    then hex_digit (n / 16) ∷ hex_digit (n % 16) ∷ []
    else if ltb n 4096
    then hex_digit (n / 256) ∷ hex_digit (n / 16 % 16) ∷ hex_digit (n % 16) ∷ []
    else hex_digit (n / 4096)
      ∷ hex_digit (n / 256 % 16)
      ∷ hex_digit (n / 16 % 16)
      ∷ hex_digit (n % 16)
      ∷ []

abbrev pub append_quad : Text → Option ℕ → Option Text
append_quad prefix none = none
append_quad prefix (some v) =
    some (prefix ++ to_hex (v / 65536 % 65536) ++ b':' ∷ to_hex (v % 65536))

abbrev pub fold_found : Option (Text × Text) → Option Text
fold_found none = none
fold_found (some (prefix, rest)) = append_quad prefix (ipv4_to_int rest)

-- A trailing IPv4 address is folded into two groups.
unfoldable pub fold_quad : Text → Option Text
fold_quad ip = if any (λ c. c == b'.') ip then fold_found (before_quad ip) else some ip

-- `ip.split('::')`
unfoldable pub split_gap : Text → List Text
split_gap [] = [] ∷ []
split_gap (c ∷ []) = (c ∷ []) ∷ []
split_gap (c ∷ d ∷ s) = elim (c == b':' && d == b':') [
  | true ↦ [] ∷ split_gap s
  | false ↦ push_front c (split_gap (d ∷ s))
]

-- The groups of a half, none if it is empty.
abbrev pub groups_in : Text → List Text
groups_in [] = []
groups_in (c ∷ s) = split b':' (c ∷ s)

abbrev pub zeros : ℕ → List Text
zeros zero = []
zeros (suc n) = codes "0" ∷ zeros n

-- The gap stands for at least one group.
unfoldable pub groups_of : List Text → Option (List Text)
groups_of (half ∷ []) = some (groups_in half)
groups_of (half ∷ other ∷ []) =
    let head = groups_in half in
    let tail = groups_in other in
    if ltb (length head + length tail) 8
    then some (head ++ zeros (8 - (length head + length tail)) ++ tail)
    else none
groups_of _ = none

unfoldable pub join_groups : ℕ → List Text → Option ℕ
join_groups n [] = some n
join_groups n (g ∷ gs) =
    if repeats is_hex 1 4 g then join_groups (n * 65536 + hex_from 0 g) gs else none

abbrev pub number_of : Option (List Text) → Option ℕ
number_of none = none
number_of (some groups) = if length groups == 8 then join_groups 0 groups else none

abbrev pub folded : Option Text → Option ℕ
folded none = none
folded (some ip) = number_of (groups_of (split_gap ip))

unfoldable pub ipv6_to_big_int : Text → Option ℕ
ipv6_to_big_int ip = folded (fold_quad (without_zone ip))

unfoldable pub is_disallowed_ipv6 : ℕ → Bool
is_disallowed_ipv6 n =
    let top96 = n / 2 ^ 32 in
    if n == 0
    then true
    else if n == 1
    then true
    else if top96 == 65535
    then is_disallowed_ipv4 (n % 2 ^ 32)
    else if top96 == 0
    then true
    else if top96 == 6619035 * 2 ^ 64
    then is_disallowed_ipv4 (n % 2 ^ 32)
    else if n / 2 ^ 121 == 126
    then true
    else if n / 2 ^ 118 == 1018
    then true
    else if n / 2 ^ 120 == 255
    then true
    else if n / 2 ^ 112 == 8194
    then is_disallowed_ipv4 (n / 2 ^ 80 % 2 ^ 32)
    else if n / 2 ^ 96 == 536939960
    then true
    else false
