-- ===== src/Stratum/Ssrf/Ranges.antt =====
-- apps/stratum/src/hashden/api/ssrf-guard.ts: the blocks of IPv4 addresses as ranges of numbers.
use hashden.Common.{ℕ, ◌+◌, ◌*◌, ◌≡◌, refl, ap₂, Bool, ◌||◌, ◌&&◌, List, [], ◌∷◌, leb, any, arith}
use hashden.Common.Text.{Text}
use hashden.Shared.Pattern.{is_digit, repeats, split}
use hashden.Stratum.Ssrf.Ipv4.{
  decimal_from, octet, octets, ipv4_to_int, v4_blocks, in_block, is_disallowed_ipv4,
}

-- The number of a dotted quad.
abbrev pub quad : ℕ → ℕ → ℕ → ℕ → ℕ
quad a b c d = a * 16777216 + b * 65536 + c * 256 + d

abbrev pub within : ℕ → ℕ × ℕ → Bool
within n (first, last) = leb first n && leb n last

-- The first and the last address of each block.
abbrev pub v4_ranges : List (ℕ × ℕ)
v4_ranges =
    (quad 0 0 0 0, quad 0 255 255 255)
    ∷ (quad 10 0 0 0, quad 10 255 255 255)
    ∷ (quad 100 64 0 0, quad 100 127 255 255)
    ∷ (quad 127 0 0 0, quad 127 255 255 255)
    ∷ (quad 169 254 0 0, quad 169 254 255 255)
    ∷ (quad 172 16 0 0, quad 172 31 255 255)
    ∷ (quad 192 0 0 0, quad 192 0 0 255)
    ∷ (quad 192 0 2 0, quad 192 0 2 255)
    ∷ (quad 192 88 99 0, quad 192 88 99 255)
    ∷ (quad 192 168 0 0, quad 192 168 255 255)
    ∷ (quad 198 18 0 0, quad 198 19 255 255)
    ∷ (quad 198 51 100 0, quad 198 51 100 255)
    ∷ (quad 203 0 113 0, quad 203 0 113 255)
    ∷ (quad 224 0 0 0, quad 239 255 255 255)
    ∷ (quad 240 0 0 0, quad 255 255 255 255)
    ∷ []

-- Each block is its range.
abbrev Agree : ℕ → List (Text × ℕ) → List (ℕ × ℕ) → Type 0
Agree n [] [] = Unit {0}
Agree n (b ∷ bs) (r ∷ rs) = (in_block n b ≡ within n r) × Agree n bs rs
Agree n [] (r ∷ rs) = ⊥
Agree n (b ∷ bs) [] = ⊥

any-Agree :
    (n : ℕ) (bs : List (Text × ℕ)) (rs : List (ℕ × ℕ))
    → Agree n bs rs
    → any (in_block n) bs ≡ any (within n) rs
any-Agree n [] [] h = refl
any-Agree n (b ∷ bs) (r ∷ rs) h = ap₂ ◌||◌ h.0 (any-Agree n bs rs h.1)
any-Agree n [] (r ∷ rs) h = absurd h
any-Agree n (b ∷ bs) [] h = absurd h

blocks-Agree : (n : ℕ) → Agree n v4_blocks v4_ranges
unfolding in_block ipv4_to_int octets octet decimal_from split repeats is_digit
blocks-Agree n = ground arith

-- An address is refused exactly if it stands in one of the fifteen ranges.
pub is_disallowed_ipv4-eq : (n : ℕ) → is_disallowed_ipv4 n ≡ any (within n) v4_ranges
unfolding is_disallowed_ipv4
is_disallowed_ipv4-eq n = any-Agree n v4_blocks v4_ranges (blocks-Agree n)
