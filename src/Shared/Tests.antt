-- ===== src/Shared/Tests.antt =====
-- packages/shared/src/worker-name.ts: runs at fixed inputs, and the theorems applied to them.
use hashden.Common.{
  ◌≡◌, refl, true, Option, none, some, if◌then◌else◌, Bool-cases, inl, inr, sym, ◌∙◌, subst,
}
use hashden.Common.Text.{Text, codes, text_eq}
use hashden.Shared.Pattern.{
  join, split, strip_prefix, repeats, is_digit, is_lower, is_upper, is_hex,
}
use hashden.Shared.WorkerName.{
  Decoded, npub, string, parsed, failed, too_many_parts, is_pubkey_hex, is_slug, is_slug_rest,
  is_slug_end, is_slug_char, is_worker_id, is_worker_char, is_bech32, is_pubkey_npub, is_base58,
  is_base58_address, is_btc_address, normalize_pubkey, has_payout_prefix, strip_payout,
  parse_fields, parse_parts, parse_worker_name,
}
use hashden.Shared.WorkerName.Parsed.{IsRouted, parse_worker_name_iff}
use hashden.Shared.WorkerName.RoundTrip.{worker_name, parse-worker_name}

abbrev key : Text
key = codes "0123456789abcdef0123456789abcdef0123456789abcdef0123456789abcdef"

abbrev npub_form : Text
npub_form = codes "npub1qpzry9x8gf2tvdw0s3jn54khce6mua7lqpzry9x8gf2tvdw0s3jn54khce"

-- `nip19.decode`, for one text.
abbrev decode : Text → Option Decoded
decode t = if text_eq t npub_form then some (npub key) else none

abbrev den : Text
den = codes "den-1"

abbrev rig : Text
rig = codes "rig_1"

abbrev payout : Text
payout = codes "bc1qw508d6qejxtdg4y5r3zarvary0c5xw7k"

key_normal : normalize_pubkey decode key ≡ some key
unfolding normalize_pubkey is_pubkey_hex repeats is_hex is_digit
key_normal = refl

npub_normal : normalize_pubkey decode npub_form ≡ some key
unfolding normalize_pubkey is_pubkey_hex is_pubkey_npub strip_prefix is_bech32 repeats is_hex
    is_digit is_lower text_eq
npub_normal = refl

key_hex : is_pubkey_hex key ≡ true
unfolding is_pubkey_hex repeats is_hex is_digit
key_hex = refl

npub-inj : {a b : Text} → some (npub a) ≡ some (npub b) → a ≡ b
npub-inj e = cc

none_is_not_some : {d : Decoded} → none ≡ some d → ⊥
none_is_not_some e = cc

-- `<slug>.<npub>.<worker-id>`, read back with the key in hex.
name_read :
    parse_worker_name decode (string (worker_name den npub_form (some rig)))
    ≡ parsed den key (some rig)
unfolding parse_worker_name parse_parts parse_fields strip_payout split join normalize_pubkey
    is_pubkey_hex is_pubkey_npub strip_prefix is_bech32 repeats is_hex is_digit is_lower is_slug
    is_slug_rest is_slug_end is_slug_char is_worker_id is_worker_char text_eq is_btc_address
    is_base58_address
name_read = refl

-- A name with a dot too many is refused.
too_many : parse_worker_name decode (string (codes "a.b.c.d")) ≡ failed too_many_parts
unfolding parse_worker_name parse_parts strip_payout has_payout_prefix is_btc_address
    is_base58_address is_base58 strip_prefix split repeats is_slug_end
too_many = refl

parse_worker_name_iff_example :
    IsRouted decode
      (strip_payout decode (split b'.' (worker_name den npub_form (some rig))))
      den
      key
      (some rig)
parse_worker_name_iff_example =
    (parse_worker_name_iff decode (worker_name den npub_form (some rig)) den key (some rig)).0
      name_read

decoded_hex : (t hex : Text) → decode t ≡ some (npub hex) → is_pubkey_hex hex ≡ true
decoded_hex t hex e = elim (Bool-cases (text_eq t npub_form)) [
  | inl found ↦ subst (λ k. is_pubkey_hex k ≡ true) (npub-inj (sym (rw found refl) ∙ e)) key_hex
  | inr unknown ↦ absurd (none_is_not_some (sym (rw unknown refl) ∙ e))
]

den_slug : is_slug den ≡ true
unfolding is_slug is_slug_rest is_slug_end is_slug_char is_lower is_digit
den_slug = refl

rig_id : is_worker_id rig ≡ true
unfolding is_worker_id is_worker_char repeats is_lower is_upper is_digit
rig_id = refl

payout_address : is_btc_address payout ≡ true
unfolding is_btc_address is_base58_address is_base58 strip_prefix repeats is_slug_end is_lower
    is_digit
payout_address = refl

den_is_no_key : normalize_pubkey decode den ≡ none
unfolding normalize_pubkey is_pubkey_hex is_pubkey_npub strip_prefix repeats is_hex is_digit
den_is_no_key = refl

parse-worker_name_example :
    parse_worker_name decode (string (worker_name den npub_form (some rig)))
    ≡ parsed den key (some rig)
parse-worker_name_example =
    parse-worker_name decode den npub_form key (some rig) den_slug npub_normal rig_id
