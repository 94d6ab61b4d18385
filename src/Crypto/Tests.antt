-- ===== src/Crypto/Tests.antt =====
-- packages/crypto/src/operator-creds.ts: runs at fixed inputs, and the theorem applied to them, with a
-- coding that writes each unit as so many bytes 01 and a byte 00, and a cipher that leaves it so.
use hashden.Common.{
  ℕ, zero, suc, ◌+◌, ◌≡◌, refl, ap, ◌∙◌, true, false, [], ◌∷◌, some, ok, err, if◌then◌else◌, ◌==◌,
  arith,
}
use hashden.Common.Text.{Text, codes}
use hashden.Shared.Pattern.{is_hex, is_digit, split}
use hashden.Shared.Hex.{
  IsBytes, zero_bytes, zero_bytes-IsBytes, length-zero_bytes, through_buffer, byte_length,
}
use hashden.Crypto.{
  Utf8, Aes, bad_key, is_filled, trim_start, trim_end, parse_master_key, is_encrypted_wire, encrypt,
  decrypt,
}
use hashden.Crypto.RoundTrip.{is_well_formed, well_formed_after, IsUtf8, IsAes, encrypt-decrypt}

unfoldable pub ones : ℕ → Text → Text
ones zero s = 48 ∷ 48 ∷ s
ones (suc n) s = 48 ∷ 49 ∷ ones n s

unfoldable pub spelled : Text → Text
spelled [] = []
spelled (c ∷ s) = ones c (spelled s)

unfoldable pub read : ℕ → Text → Text
read n [] = []
read n (a ∷ []) = []
read n (a ∷ b ∷ s) = if b == 48 then n ∷ read 0 s else read (suc n) s

abbrev utf8 : Utf8
utf8 = record { to_bytes = spelled; to_text = read 0 }

abbrev aes : Aes
aes = record {
  seal = λ key iv plain. (plain, zero_bytes 16);
  unseal = λ key iv tag ciphertext. some ciphertext;
}

ones-IsBytes : (n : ℕ) (s : Text) → IsBytes s → IsBytes (ones n s)
unfolding ones is_hex is_digit
ones-IsBytes zero s h = (refl, refl, h)
ones-IsBytes (suc n) s h = (refl, refl, ones-IsBytes n s h)

spelled-IsBytes : (s : Text) → IsBytes (spelled s)
unfolding spelled
spelled-IsBytes [] = tt
spelled-IsBytes (c ∷ s) = ones-IsBytes c (spelled s) (spelled-IsBytes s)

read-ones : (m n : ℕ) (s : Text) → read m (ones n s) ≡ (m + n) ∷ read 0 s
unfolding read ones
read-ones m zero s = ground arith
read-ones m (suc n) s = read-ones (suc m) n s ∙ ap (λ k. k ∷ read 0 s) (omega arith)

read-spelled : (s : Text) → read 0 (spelled s) ≡ s
unfolding read spelled
read-spelled [] = refl
read-spelled (c ∷ s) =
    read-ones 0 c (spelled s)
    ∙ ap (λ k. k ∷ read 0 (spelled s)) zero_add
    ∙ ap (λ t. c ∷ t) (read-spelled s)
  where
    zero_add : 0 + c ≡ c
    zero_add = omega arith

ones-filled : (n : ℕ) (s : Text) → is_filled (ones n s) ≡ true
unfolding ones
ones-filled zero s = refl
ones-filled (suc n) s = refl

spelled-filled : (s : Text) → is_filled s ≡ true → is_filled (spelled s) ≡ true
unfolding spelled
spelled-filled [] h = ground arith
spelled-filled (c ∷ s) h = ones-filled c (spelled s)

is_utf8 : IsUtf8 utf8
is_utf8 = record {
  text_bytes = spelled-IsBytes;
  text_filled = spelled-filled;
  reads_again = λ s formed. read-spelled s;
}

is_aes : IsAes aes
is_aes = record {
  ciphertext_bytes = λ key iv plain input. input.plain_bytes;
  tag_bytes = λ key iv plain input. zero_bytes-IsBytes 16;
  tag_length = λ key iv plain input. length-zero_bytes 16;
  ciphertext_filled = λ key iv plain input filled. filled;
  opens = λ key iv plain input. refl;
}

-- A pair of surrogates, and one alone.
surrogates :
    (is_well_formed (55357 ∷ 56832 ∷ []) ≡ true) × (is_well_formed (55357 ∷ 97 ∷ []) ≡ false)
unfolding well_formed_after
surrogates = (refl, refl)

abbrev key : Text
key = zero_bytes 32

abbrev iv : Text
iv = zero_bytes 12

secret_formed : is_well_formed (codes "ab") ≡ true
unfolding well_formed_after
secret_formed = refl

key_sized : (byte_length key == 32) ≡ true
unfolding zero_bytes
key_sized = refl

padded :
    parse_master_key (codes " 0123456789ABCDEF0123456789abcdef0123456789abcdef0123456789abcdef\n")
    ≡ ok (codes "0123456789abcdef0123456789abcdef0123456789abcdef0123456789abcdef")
unfolding parse_master_key trim_start trim_end through_buffer is_hex is_digit
padded = refl

too_short : parse_master_key (codes "0123") ≡ err bad_key
unfolding parse_master_key trim_start trim_end through_buffer is_hex is_digit
too_short = refl

plain_row : decrypt utf8 aes (some key) (codes "user:pass") ≡ ok (codes "user:pass")
unfolding decrypt is_encrypted_wire split
plain_row = refl

encrypt-decrypt_example :
    (wire : Text) × (encrypt utf8 aes (some key) iv (codes "ab") ≡ ok wire)
    × (decrypt utf8 aes (some key) wire ≡ ok (codes "ab"))
encrypt-decrypt_example =
    encrypt-decrypt aes is_aes utf8 is_utf8 key iv (codes "ab") (zero_bytes-IsBytes 32) key_sized
      (zero_bytes-IsBytes 12) (length-zero_bytes 12) refl secret_formed
