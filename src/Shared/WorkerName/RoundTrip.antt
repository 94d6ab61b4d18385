-- ===== src/Shared/WorkerName/RoundTrip.antt =====
-- packages/shared/src/worker-name.ts: a name that is put together from well-formed parts is read
-- back, also behind the payout address that a hashpower marketplace puts in front.
use hashden.Common.{
  ℕ, ◌≡◌, refl, ◌⊎◌, inl, inr, Bool, true, false, ◌||◌, [], ◌∷◌, ◌++◌, Option, none, some, arith,
  Bool-cases, ◌==◌, All, ◌∙◌, ap,
}
use hashden.Common.Text.{Text, codes}
use hashden.Shared.Pattern.{
  is_hex, join, split, split-join, prefixed, Lacks, repeats-Lacks, prefixed-Lacks,
}
use hashden.Shared.WorkerName.{
  Decoded, string, parsed, is_slug_end, is_slug_char, is_slug_rest, is_slug, is_pubkey_hex,
  is_pubkey_npub, is_bech32, is_worker_char, is_worker_id, is_base58, is_base58_address,
  is_btc_address, normalize_pubkey, strip_payout, parse_worker_name,
}
use hashden.Shared.WorkerName.Parsed.{optional, IsWorkerId, parse_worker_name_iff}

slug_end-no_dot : (c : ℕ) → is_slug_end c ≡ true → (c == b'.') ≡ false
unfolding is_slug_end
slug_end-no_dot c h = ground arith

is_slug_rest-Lacks : (c : ℕ) (s : Text) → is_slug_rest c s ≡ true → Lacks b'.' (c ∷ s)
unfolding is_slug_rest is_slug_char
is_slug_rest-Lacks c [] h = (slug_end-no_dot c h, tt)
is_slug_rest-Lacks c (d ∷ s) h = (ground arith, is_slug_rest-Lacks d s (ground arith))

is_slug-Lacks : (s : Text) → is_slug s ≡ true → Lacks b'.' s
unfolding is_slug
is_slug-Lacks [] h = tt
is_slug-Lacks (c ∷ []) h = (slug_end-no_dot c h, tt)
is_slug-Lacks (c ∷ d ∷ s) h =
    (slug_end-no_dot c (ground arith), is_slug_rest-Lacks d s (ground arith))

hex-no_dot : (c : ℕ) → is_hex c ≡ true → (c == b'.') ≡ false
unfolding is_hex
hex-no_dot c h = ground arith

bech32-no_dot : (c : ℕ) → is_bech32 c ≡ true → (c == b'.') ≡ false
unfolding is_bech32
bech32-no_dot c h = ground arith

worker_char-no_dot : (c : ℕ) → is_worker_char c ≡ true → (c == b'.') ≡ false
unfolding is_worker_char
worker_char-no_dot c h = ground arith

base58-no_dot : (c : ℕ) → is_base58 c ≡ true → (c == b'.') ≡ false
unfolding is_base58
base58-no_dot c h = ground arith

is_worker_id-Lacks : (s : Text) → is_worker_id s ≡ true → Lacks b'.' s
unfolding is_worker_id
is_worker_id-Lacks s h = repeats-Lacks b'.' is_worker_char 1 32 s worker_char-no_dot h

is_pubkey_npub-Lacks : (s : Text) → is_pubkey_npub s ≡ true → Lacks b'.' s
unfolding is_pubkey_npub
is_pubkey_npub-Lacks s h =
    prefixed-Lacks b'.' (codes "npub1") is_bech32 58 58 s (ground arith) bech32-no_dot h

is_pubkey_hex-Lacks : (s : Text) → is_pubkey_hex s ≡ true → Lacks b'.' s
unfolding is_pubkey_hex
is_pubkey_hex-Lacks s h = repeats-Lacks b'.' is_hex 64 64 s hex-no_dot h

is_base58_address-Lacks : (s : Text) → is_base58_address s ≡ true → Lacks b'.' s
unfolding is_base58_address
is_base58_address-Lacks [] h = tt
is_base58_address-Lacks (c ∷ s) h =
    (ground arith, repeats-Lacks b'.' is_base58 25 39 s base58-no_dot (ground arith))

bech32_address-Lacks :
    (prefix s : Text) → Lacks b'.' prefix → prefixed prefix is_slug_end 6 87 s ≡ true → Lacks b'.' s
bech32_address-Lacks prefix s before h =
    prefixed-Lacks b'.' prefix is_slug_end 6 87 s before slug_end-no_dot h

or-cases : (a b : Bool) → (a || b) ≡ true → (a ≡ true) ⊎ (b ≡ true)
or-cases a b h = ground arith

is_btc_address-Lacks : (s : Text) → is_btc_address s ≡ true → Lacks b'.' s
unfolding is_btc_address
is_btc_address-Lacks s h =
    let bc = prefixed (codes "bc1") is_slug_end 6 87 s in
    let tb = prefixed (codes "tb1") is_slug_end 6 87 s in
    let bcrt = prefixed (codes "bcrt1") is_slug_end 6 87 s in
    elim (or-cases (bc || tb || bcrt) (is_base58_address s) h) [
      | inr base58 ↦ is_base58_address-Lacks s base58
      | inl bech32 ↦ elim (or-cases (bc || tb) bcrt bech32) [
        | inr is_bcrt ↦ bech32_address-Lacks (codes "bcrt1") s (ground arith) is_bcrt
        | inl main ↦ elim (or-cases bc tb main) [
          | inl is_bc ↦ bech32_address-Lacks (codes "bc1") s (ground arith) is_bc
          | inr is_tb ↦ bech32_address-Lacks (codes "tb1") s (ground arith) is_tb
        ]
      ]
    ]

optional-Lacks :
    (worker_id : Option Text) → IsWorkerId worker_id → All (Lacks b'.') (optional worker_id)
optional-Lacks none h = tt
optional-Lacks (some w) h = (is_worker_id-Lacks w h, tt)

-- `<slug>.<pubkey>[.<worker-id>]`
abbrev pub worker_name : Text → Text → Option Text → Text
worker_name slug raw worker_id = join b'.' slug (raw ∷ optional worker_id)

module _ (decode : Text → Option Decoded) where
  normalize_pubkey-Lacks :
      (raw pubkey : Text) → normalize_pubkey decode raw ≡ some pubkey → Lacks b'.' raw
  unfolding normalize_pubkey
  normalize_pubkey-Lacks raw pubkey h = elim (Bool-cases (is_pubkey_hex raw)) [
    | inl hex ↦ is_pubkey_hex-Lacks raw hex
    | inr other_form ↦ is_pubkey_npub-Lacks raw (ground arith)
  ]

  -- In a name of two or three parts the second is a public key, so nothing is stripped.
  strip_payout-native :
      (slug raw pubkey : Text) (worker_id : Option Text)
      → normalize_pubkey decode raw ≡ some pubkey
      → strip_payout decode (slug ∷ raw ∷ optional worker_id) ≡ slug ∷ raw ∷ optional worker_id
  unfolding strip_payout
  strip_payout-native slug raw pubkey none h = refl
  strip_payout-native slug raw pubkey (some w) h = ground arith

  strip_payout-marketplace :
      (address slug raw : Text) (worker_id : Option Text)
      → is_btc_address address ≡ true
      → normalize_pubkey decode slug ≡ none
      → strip_payout decode (address ∷ slug ∷ raw ∷ optional worker_id)
        ≡ slug ∷ raw ∷ optional worker_id
  unfolding strip_payout
  strip_payout-marketplace address slug raw w a h = ground arith

  module _ (slug raw pubkey : Text) (worker_id : Option Text) (slug_ok : is_slug slug ≡ true)
      (pubkey_ok : normalize_pubkey decode raw ≡ some pubkey)
      (worker_ok : IsWorkerId worker_id) where
    split-worker_name :
        split b'.' (worker_name slug raw worker_id) ≡ slug ∷ raw ∷ optional worker_id
    split-worker_name =
        split-join b'.' slug (raw ∷ optional worker_id) (is_slug-Lacks slug slug_ok)
          (normalize_pubkey-Lacks raw pubkey pubkey_ok, optional-Lacks worker_id worker_ok)

    -- A slug, a public key in either form and perhaps a worker id, joined by dots, are read back.
    pub parse-worker_name :
        parse_worker_name decode (string (worker_name slug raw worker_id))
        ≡ parsed slug pubkey worker_id
    parse-worker_name = (parse_worker_name_iff decode _ slug pubkey worker_id).1 (record {
      raw = raw;
      shape =
          ap (strip_payout decode) split-worker_name
          ∙ strip_payout-native slug raw pubkey worker_id pubkey_ok;
      slug_ok = slug_ok;
      pubkey_ok = pubkey_ok;
      worker_ok = worker_ok;
    })

    -- A payout address in front changes nothing, unless the slug could be read as a public key.
    pub parse-worker_name_marketplace :
        (address : Text)
        → is_btc_address address ≡ true
        → normalize_pubkey decode slug ≡ none
        → parse_worker_name decode (string (address ++ b'.' ∷ worker_name slug raw worker_id))
          ≡ parsed slug pubkey worker_id
    unfolding join
    parse-worker_name_marketplace address a k =
        (parse_worker_name_iff decode _ slug pubkey worker_id).1 (record {
          raw = raw;
          shape =
              ap (strip_payout decode) (
                split-join b'.' address (slug ∷ raw ∷ optional worker_id)
                  (is_btc_address-Lacks address a)
                  (
                    is_slug-Lacks slug slug_ok,
                    (
                      normalize_pubkey-Lacks raw pubkey pubkey_ok,
                      optional-Lacks worker_id worker_ok,
                    ),
                  ))
              ∙ strip_payout-marketplace address slug raw worker_id a k;
          slug_ok = slug_ok;
          pubkey_ok = pubkey_ok;
          worker_ok = worker_ok;
        })
