-- ===== src/Crypto.antt =====
-- packages/crypto/src/operator-creds.ts, the encryption of an operator's credentials at rest, and
-- apps/stratum/src/hashden/operator-creds.service.ts, which reads plain rows as they are. A buffer is the
-- text that it is written as in hex. AES-256-GCM and the UTF-8 coding of Node are parameters.
pub mod RoundTrip
mod Tests
use hashden.Common.{
  ℕ, ◌+◌, Bool, true, false, not, ◌&&◌, ◌||◌, List, [], ◌∷◌, Option, none, some, Result, ok, err,
  throw_if, ◌>>=◌, ◌>>◌, if◌then◌else◌, leb, ◌==◌, all,
}
use hashden.Common.Text.{Text, codes, text_eq}
use hashden.Shared.Pattern.{between, is_hex, repeats, split, join}
use hashden.Shared.Hex.{is_hex_digit, through_buffer, byte_length}

-- The causes of an OperatorCredsCryptoError, and the error of a service without a key.
pub data CryptoError : Type 0 where
  bad_key bad_format bad_version auth_failed key_not_set : CryptoError

-- `update(plaintext, 'utf8')` and `toString('utf8')`.
pub record Utf8 : Type 0 where
  pub to_bytes : Text → Text
  pub to_text : Text → Text

-- `createCipheriv` and `createDecipheriv`, on bytes: the ciphertext and its tag, and the plaintext, none
-- where the authentication fails.
pub record Aes : Type 0 where
  pub seal : Text → Text → Text → Text × Text
  pub unseal : Text → Text → Text → Text → Option Text

abbrev pub iv_bytes : ℕ
iv_bytes = 12

abbrev pub key_bytes : ℕ
key_bytes = 32

abbrev pub version : Text
version = codes "v1"

-- The white space of `trim`.
abbrev pub is_space : ℕ → Bool
is_space c =
    between 9 13 c
    || c == 32
    || c == 160
    || c == 5760
    || between 8192 8202 c
    || between 8232 8233 c
    || c == 8239
    || c == 8287
    || c == 12288
    || c == 65279

unfoldable pub trim_start : Text → Text
trim_start [] = []
trim_start (c ∷ s) = if is_space c then trim_start s else c ∷ s

abbrev pub put_before : ℕ → Text → Text
put_before c [] = if is_space c then [] else c ∷ []
put_before c (d ∷ s) = c ∷ d ∷ s

unfoldable pub trim_end : Text → Text
trim_end [] = []
trim_end (c ∷ s) = put_before c (trim_end s)

abbrev pub is_filled : Text → Bool
is_filled [] = false
is_filled (c ∷ s) = true

-- `/^[0-9a-fA-F]+$/`, and 32 bytes.
unfoldable pub parse_master_key : Text → Result CryptoError Text
parse_master_key hex =
    let trimmed = trim_end (trim_start hex) in
    do
      throw_if (not (is_filled trimmed && all is_hex_digit trimmed)) bad_key
      let key = through_buffer trimmed
      throw_if (not (byte_length key == key_bytes)) bad_key
      ok key

abbrev pub wire_of : Text → Text × Text → Text
wire_of iv (ciphertext, tag) = join b':' version (iv ∷ tag ∷ ciphertext ∷ [])

-- `/^v1:[0-9a-f]{24}:[0-9a-f]{32}:[0-9a-f]+$/`
abbrev pub are_wire_parts : List Text → Bool
are_wire_parts (v ∷ iv ∷ tag ∷ ciphertext ∷ []) =
    text_eq v version
    && repeats is_hex 24 24 iv
    && repeats is_hex 32 32 tag
    && is_filled ciphertext
    && all is_hex ciphertext
are_wire_parts _ = false

unfoldable pub is_encrypted_wire : Text → Bool
is_encrypted_wire s = are_wire_parts (split b':' s)

module _ (utf8 : Utf8) (aes : Aes) where
  unfoldable pub encrypt_operator_cred : Text → Text → Text → Result CryptoError Text
  encrypt_operator_cred iv plaintext key = do
    throw_if (not (byte_length key == key_bytes)) bad_key
    ok (wire_of iv (aes.seal key iv (utf8.to_bytes plaintext)))

  abbrev pub opened : Option Text → Result CryptoError Text
  opened none = err auth_failed
  opened (some bytes) = ok (utf8.to_text bytes)

  abbrev pub decrypt_parts : Text → List Text → Result CryptoError Text
  decrypt_parts key (v ∷ iv_hex ∷ tag_hex ∷ ciphertext_hex ∷ []) = do
    throw_if (not (text_eq v version)) bad_version
    throw_if (not (byte_length (through_buffer iv_hex) == iv_bytes)) bad_format
    throw_if (not (byte_length (through_buffer tag_hex) == 16)) bad_format
    opened (
        aes.unseal key (through_buffer iv_hex) (through_buffer tag_hex)
          (through_buffer ciphertext_hex))
  decrypt_parts key _ = err bad_format

  unfoldable pub decrypt_operator_cred : Text → Text → Result CryptoError Text
  decrypt_operator_cred wire key = do
    throw_if (not (byte_length key == key_bytes)) bad_key
    decrypt_parts key (split b':' wire)

  -- The service; `key` is none where the setting is missing.
  unfoldable pub encrypt : Option Text → Text → Text → Result CryptoError Text
  encrypt none iv plaintext = err key_not_set
  encrypt (some key) iv plaintext = encrypt_operator_cred iv plaintext key

  abbrev pub decrypt_wire : Option Text → Text → Result CryptoError Text
  decrypt_wire none wire = err key_not_set
  decrypt_wire (some key) wire = decrypt_operator_cred wire key

  unfoldable pub decrypt : Option Text → Text → Result CryptoError Text
  decrypt key wire = if not (is_encrypted_wire wire) then ok wire else decrypt_wire key wire
