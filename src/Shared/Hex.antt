-- ===== src/Shared/Hex.antt =====
-- Hexadecimal texts, as JavaScript and Node write and read them: `n.toString(16)`, and a Buffer that is
-- read from a text and written again.
use hashden.Common.{
  ℕ, zero, suc, ◌+◌, ◌-◌, ◌*◌, ◌/◌, ◌%◌, ◌<◌, ◌≡◌, refl, sym, ap, ◌∙◌, Bool, true, ◌&&◌, ◌||◌, [],
  ◌∷◌, ◌++◌, if◌then◌else◌, ltb, ltb→le, ltb→lt, Bool-cases, inl, inr, arith, length,
}
use hashden.Common.Text.{Text}
use hashden.Shared.Pattern.{between, is_digit, is_hex}

abbrev pub hex_digit : ℕ → ℕ
hex_digit n = if ltb n 10 then n + 48 else n + 87

abbrev pub hex_value : ℕ → ℕ
hex_value c = if ltb c 58 then c - 48 else c - 87

-- `n.toString(16)`: a number below the fuel is written in full.
unfoldable pub hex_digits : ℕ → ℕ → Text
hex_digits zero n = []
hex_digits (suc fuel) n =
    let rest = hex_digits fuel (n / 16) in
    if ltb n 16 then hex_digit n ∷ [] else rest ++ hex_digit (n % 16) ∷ []

abbrev pub to_string16 : ℕ → Text
to_string16 n = hex_digits (suc n) n

unfoldable pub hex_from : ℕ → Text → ℕ
hex_from n [] = n
hex_from n (c ∷ s) = hex_from (n * 16 + hex_value c) s

hex_from-append :
    (m : ℕ) (s : Text) (c : ℕ) → hex_from m (s ++ c ∷ []) ≡ hex_from m s * 16 + hex_value c
unfolding hex_from
hex_from-append m [] c = refl
hex_from-append m (d ∷ s) c = hex_from-append (m * 16 + hex_value d) s c

hex_value-digit : (n : ℕ) → n < 16 → hex_value (hex_digit n) ≡ n
hex_value-digit n h = ground arith

one_digit : (n : ℕ) → n < 16 → hex_from 0 (hex_digit n ∷ []) ≡ n
unfolding hex_from
one_digit n h = omega (arith, hex_value-digit n h)

hex_from-digits : (fuel n : ℕ) → n < fuel → hex_from 0 (hex_digits fuel n) ≡ n
unfolding hex_digits
hex_from-digits zero n h = omega arith
hex_from-digits (suc fuel) n h = elim (Bool-cases (ltb n 16)) [
  | inl small ↦ rw small (one_digit n (ltb→lt n 16 small))
  | inr large ↦ rw large (
      hex_from-append 0 (hex_digits fuel (n / 16)) (hex_digit (n % 16))
      ∙ omega (
        arith,
        hex_value-digit (n % 16),
        hex_from-digits fuel (n / 16) (omega (arith, ltb→le n 16 large)),
      ))
]

-- Two numbers that are written alike are equal.
pub to_string16-inj : (m n : ℕ) → to_string16 m ≡ to_string16 n → m ≡ n
to_string16-inj m n e =
    sym (hex_from-digits (suc m) m (omega arith))
    ∙ ap (hex_from 0) e
    ∙ hex_from-digits (suc n) n (omega arith)

-- `Buffer.from(s, 'hex').toString('hex')`: the pairs of hex digits at the front, in lower case.
abbrev pub is_hex_digit : ℕ → Bool
is_hex_digit c = is_hex c || between b'A' b'F' c

abbrev pub lower_digit : ℕ → ℕ
lower_digit c = if between b'A' b'F' c then c + 32 else c

unfoldable pub through_buffer : Text → Text
through_buffer [] = []
through_buffer (a ∷ []) = []
through_buffer (a ∷ b ∷ s) =
    let rest = through_buffer s in
    if is_hex_digit a && is_hex_digit b then lower_digit a ∷ lower_digit b ∷ rest else []

-- What a Buffer is written as: pairs of lower-case hex digits.
abbrev pub IsBytes : Text → Type 0
IsBytes [] = Unit
IsBytes (a ∷ []) = ⊥
IsBytes (a ∷ b ∷ s) = (is_hex a ≡ true) × (is_hex b ≡ true) × IsBytes s

pub IsBytes-append : (s t : Text) → IsBytes s → IsBytes t → IsBytes (s ++ t)
IsBytes-append [] t hs ht = ht
IsBytes-append (a ∷ []) t hs ht = absurd hs
IsBytes-append (a ∷ b ∷ s) t hs ht = (hs.0, hs.1, IsBytes-append s t hs.2 ht)

lower_hex : (c : ℕ) → is_hex c ≡ true → (is_hex_digit c ≡ true) × (lower_digit c ≡ c)
unfolding is_hex is_digit
lower_hex c h = ground arith

hex_lower : (c : ℕ) → is_hex_digit c ≡ true → is_hex (lower_digit c) ≡ true
unfolding is_hex is_digit
hex_lower c h = ground arith

pub through_buffer-bytes : (s : Text) → IsBytes s → through_buffer s ≡ s
unfolding through_buffer
through_buffer-bytes [] h = refl
through_buffer-bytes (a ∷ []) h = absurd h
through_buffer-bytes (a ∷ b ∷ s) h =
    rw ((lower_hex a h.0).0, (lower_hex b h.1).0, (lower_hex a h.0).1, (lower_hex b h.1).1)
      (ap (λ t. a ∷ b ∷ t) (through_buffer-bytes s h.2))

pub through_buffer-IsBytes : (s : Text) → IsBytes (through_buffer s)
unfolding through_buffer
through_buffer-IsBytes [] = tt
through_buffer-IsBytes (a ∷ []) = tt
through_buffer-IsBytes (a ∷ b ∷ s) = elim (Bool-cases (is_hex_digit a)) [
  | inl ha ↦ elim (Bool-cases (is_hex_digit b)) [
    | inl hb ↦ rw (ha, hb) (hex_lower a ha, hex_lower b hb, through_buffer-IsBytes s)
    | inr hb ↦ rw (ha, hb) tt
  ]
  | inr ha ↦ rw ha tt
]

-- `"00".repeat(n)`, and `Buffer.alloc(n, 0)`.
unfoldable pub zero_bytes : ℕ → Text
zero_bytes zero = []
zero_bytes (suc n) = 48 ∷ 48 ∷ zero_bytes n

pub length-zero_bytes : (n : ℕ) → length (zero_bytes n) ≡ n * 2
unfolding zero_bytes
length-zero_bytes zero = refl
length-zero_bytes (suc n) = omega (arith, length-zero_bytes n)

pub zero_bytes-IsBytes : (n : ℕ) → IsBytes (zero_bytes n)
unfolding zero_bytes is_hex is_digit
zero_bytes-IsBytes zero = tt
zero_bytes-IsBytes (suc n) = (refl, refl, zero_bytes-IsBytes n)

-- `buffer.length`, of a buffer that is written as a text.
abbrev pub byte_length : Text → ℕ
byte_length s = length s / 2

-- `Buffer.from([n])`
abbrev pub byte_of : ℕ → Text
byte_of n = hex_digit (n / 16 % 16) ∷ hex_digit (n % 16) ∷ []
