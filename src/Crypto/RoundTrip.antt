-- ===== src/Crypto/RoundTrip.antt =====
-- packages/crypto/src/operator-creds.ts: what is encrypted is decrypted again.
use hashden.Common.{
  ℕ, ◌≡◌, refl, ap, ◌∙◌, Bool, true, false, not, ◌&&◌, [], ◌∷◌, some, ok, arith, length, all, ◌==◌,
  ltb,
}
use hashden.Common.Text.{Text, text_eq}
use hashden.Shared.Pattern.{between, is_digit, is_hex, repeats, split, split-join, Lacks}
use hashden.Shared.Hex.{IsBytes, through_buffer-bytes, byte_length}
use hashden.Crypto.{
  Utf8, Aes, version, wire_of, is_filled, is_encrypted_wire, encrypt_operator_cred,
  decrypt_operator_cred, encrypt, decrypt,
}

-- The UTF-16 units of a text that is well formed: a high surrogate stands before each low one, and a low
-- one behind each high one.
abbrev pub is_high : ℕ → Bool
is_high = between 55296 56319

abbrev pub is_low : ℕ → Bool
is_low = between 56320 57343

unfoldable pub well_formed_after : Bool → Text → Bool
well_formed_after high [] = not high
well_formed_after true (c ∷ s) = is_low c && well_formed_after false s
well_formed_after false (c ∷ s) = ltb c 65536 && not (is_low c) && well_formed_after (is_high c) s

abbrev pub is_well_formed : Text → Bool
is_well_formed = well_formed_after false

-- What Node codes in UTF-8 it reads again where no surrogate stands alone; each of those that do is
-- replaced. Only the empty text has no bytes.
pub record IsUtf8 (utf8 : Utf8) : Type 0 where
  pub text_bytes : (s : Text) → IsBytes (utf8.to_bytes s)
  pub text_filled : (s : Text) → is_filled s ≡ true → is_filled (utf8.to_bytes s) ≡ true
  pub reads_again : (s : Text) → is_well_formed s ≡ true → utf8.to_text (utf8.to_bytes s) ≡ s

-- A key of 32 bytes, a vector of twelve, and a plaintext in bytes.
pub record IsInput (key iv plain : Text) : Type 0 where
  pub key_bytes : IsBytes key
  pub key_length : (byte_length key == 32) ≡ true
  pub iv_bytes : IsBytes iv
  pub iv_length : length iv ≡ 24
  pub plain_bytes : IsBytes plain

-- On these AES-256-GCM writes bytes, and a tag of sixteen; what is sealed opens under the same key and
-- vector; a plaintext that is not empty has a ciphertext that is not.
pub record IsAes (aes : Aes) : Type 0 where
  pub ciphertext_bytes :
      (key iv plain : Text) → IsInput key iv plain → IsBytes (aes.seal key iv plain).0
  pub tag_bytes : (key iv plain : Text) → IsInput key iv plain → IsBytes (aes.seal key iv plain).1
  pub tag_length :
      (key iv plain : Text) → IsInput key iv plain → length (aes.seal key iv plain).1 ≡ 32
  pub ciphertext_filled :
      (key iv plain : Text)
      → IsInput key iv plain
      → is_filled plain ≡ true
      → is_filled (aes.seal key iv plain).0 ≡ true
  pub opens :
      (key iv plain : Text)
      → IsInput key iv plain
      → aes.unseal key iv (aes.seal key iv plain).1 (aes.seal key iv plain).0 ≡ some plain

hex_apart : (c : ℕ) → is_hex c ≡ true → (c == b':') ≡ false
unfolding is_hex is_digit
hex_apart c h = ground arith

IsBytes-Lacks : (s : Text) → IsBytes s → Lacks b':' s
IsBytes-Lacks [] h = tt
IsBytes-Lacks (a ∷ []) h = absurd h
IsBytes-Lacks (a ∷ b ∷ s) h = (hex_apart a h.0, (hex_apart b h.1, IsBytes-Lacks s h.2))

all-hex : (s : Text) → IsBytes s → all is_hex s ≡ true
all-hex [] h = refl
all-hex (a ∷ []) h = absurd h
all-hex (a ∷ b ∷ s) h = rw (h.0, h.1) (all-hex s h.2)

repeats-hex : (n : ℕ) (s : Text) → IsBytes s → length s ≡ n → repeats is_hex n n s ≡ true
unfolding repeats
repeats-hex n s h e = rw (e, all-hex s h) (ground arith)

module _ (aes : Aes) (is_aes : IsAes aes) where
  -- The wire of a plaintext splits into its four parts.
  split-wire :
      (key iv plain : Text)
      → IsInput key iv plain
      → split b':' (wire_of iv (aes.seal key iv plain))
        ≡ version ∷ iv ∷ (aes.seal key iv plain).1 ∷ (aes.seal key iv plain).0 ∷ []
  split-wire key iv plain input =
      split-join b':' version (iv ∷ (aes.seal key iv plain).1 ∷ (aes.seal key iv plain).0 ∷ [])
        (refl, (refl, tt))
        (
          IsBytes-Lacks iv input.iv_bytes,
          (
            IsBytes-Lacks _ (is_aes.tag_bytes key iv plain input),
            (IsBytes-Lacks _ (is_aes.ciphertext_bytes key iv plain input), tt),
          ),
        )

  wire-encrypted :
      (key iv plain : Text)
      → IsInput key iv plain
      → is_filled plain ≡ true
      → is_encrypted_wire (wire_of iv (aes.seal key iv plain)) ≡ true
  unfolding is_encrypted_wire text_eq
  wire-encrypted key iv plain input filled =
      rw
        (
          split-wire key iv plain input,
          repeats-hex 24 iv input.iv_bytes input.iv_length,
          repeats-hex 32 _ (is_aes.tag_bytes key iv plain input)
              (is_aes.tag_length key iv plain input),
          is_aes.ciphertext_filled key iv plain input filled,
          all-hex _ (is_aes.ciphertext_bytes key iv plain input),
        )
        refl

  module _ (utf8 : Utf8) (is_utf8 : IsUtf8 utf8) where
    wire-opened :
        (key iv plain : Text)
        → IsInput key iv plain
        → decrypt_operator_cred utf8 aes (wire_of iv (aes.seal key iv plain)) key
          ≡ ok (utf8.to_text plain)
    unfolding decrypt_operator_cred text_eq
    wire-opened key iv plain input =
        rw
          (
            input.key_length,
            split-wire key iv plain input,
            through_buffer-bytes iv input.iv_bytes,
            through_buffer-bytes (aes.seal key iv plain).1 (is_aes.tag_bytes key iv plain input),
            through_buffer-bytes (aes.seal key iv plain).0
                (is_aes.ciphertext_bytes key iv plain input),
            input.iv_length,
            is_aes.tag_length key iv plain input,
            is_aes.opens key iv plain input,
          )
          refl

    -- With a key of 32 bytes and a vector of twelve, every secret that is not empty, and in which no
    -- surrogate stands alone, is encrypted to a text that the service decrypts to the secret again.
    pub encrypt-decrypt :
        (key iv plain : Text)
        → IsBytes key
        → (byte_length key == 32) ≡ true
        → IsBytes iv
        → length iv ≡ 24
        → is_filled plain ≡ true
        → is_well_formed plain ≡ true
        → (wire : Text) × (encrypt utf8 aes (some key) iv plain ≡ ok wire)
          × (decrypt utf8 aes (some key) wire ≡ ok plain)
    unfolding encrypt encrypt_operator_cred decrypt
    encrypt-decrypt key iv plain key_bytes key_size bytes size filled formed =
        let input : IsInput key iv (utf8.to_bytes plain) = record {
          key_bytes = key_bytes;
          key_length = key_size;
          iv_bytes = bytes;
          iv_length = size;
          plain_bytes = is_utf8.text_bytes plain;
        } in
        (
          wire_of iv (aes.seal key iv (utf8.to_bytes plain)),
          rw key_size refl,
          rw (wire-encrypted key iv (utf8.to_bytes plain) input (is_utf8.text_filled plain filled))
              (wire-opened key iv (utf8.to_bytes plain) input
                ∙ ap ok (is_utf8.reads_again plain formed)),
        )
