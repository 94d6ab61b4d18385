-- ===== src/Shared/WorkerName.antt =====
-- packages/shared/src/worker-name.ts: the parser of `<group-slug>.<member-pubkey>[.<worker-id>]`.
pub mod Parsed
pub mod RoundTrip
use hashden.Common.{
  ℕ, Bool, true, false, ◌&&◌, ◌||◌, not, List, [], ◌∷◌, Option, none, some, leb, ltb, ◌==◌,
  if◌then◌else◌, length, all, is_some,
}
use hashden.Common.Text.{Text, codes}
use hashden.Shared.Pattern.{is_digit, is_lower, is_upper, is_hex, between, repeats, prefixed, split}

pub data WorkerNameError : Type 0 where
  empty missing_pubkey invalid_slug invalid_pubkey invalid_worker_id too_many_parts :
      WorkerNameError

pub data ParsedWorkerName : Type 0 where
  parsed : Text → Text → Option Text → ParsedWorkerName
  failed : WorkerNameError → ParsedWorkerName

-- An `unknown` value, of which only `typeof input === "string"` is asked.
pub data JsValue : Type 0 where
  string : Text → JsValue
  other : JsValue

-- What `nip19.decode` of nostr-tools returns: the data of an `npub` is a hex string.
pub data Decoded : Type 0 where
  npub : Text → Decoded
  other_type : Decoded

-- `[a-z0-9]`, and with the dash.
unfoldable pub is_slug_end : ℕ → Bool
unfolding is_lower is_digit
is_slug_end c = is_lower c || is_digit c

unfoldable pub is_slug_char : ℕ → Bool
unfolding is_slug_end
is_slug_char c = is_slug_end c || c == b'-'

-- `[a-z0-9-]{0,61}[a-z0-9]` behind the first character.
unfoldable pub is_slug_rest : ℕ → Text → Bool
is_slug_rest c [] = is_slug_end c
is_slug_rest c (d ∷ s) = is_slug_char c && is_slug_rest d s

-- SLUG_RE
unfoldable pub is_slug : Text → Bool
is_slug [] = false
is_slug (c ∷ []) = is_slug_end c
is_slug (c ∷ d ∷ s) = is_slug_end c && leb (length s) 61 && is_slug_rest d s

-- PUBKEY_HEX_RE
unfoldable pub is_pubkey_hex : Text → Bool
is_pubkey_hex = repeats is_hex 64 64

-- `[02-9ac-hj-np-z]`
unfoldable pub is_bech32 : ℕ → Bool
is_bech32 c =
    c == b'0'
    || between b'2' b'9' c
    || c == b'a'
    || between b'c' b'h' c
    || between b'j' b'n' c
    || between b'p' b'z' c

-- PUBKEY_NPUB_RE
unfoldable pub is_pubkey_npub : Text → Bool
is_pubkey_npub = prefixed (codes "npub1") is_bech32 58 58

unfoldable pub is_worker_char : ℕ → Bool
unfolding is_lower is_upper is_digit
is_worker_char c = is_upper c || is_lower c || is_digit c || c == b'_' || c == b'-'

-- WORKER_ID_RE
unfoldable pub is_worker_id : Text → Bool
is_worker_id = repeats is_worker_char 1 32

-- `[1-9A-HJ-NP-Za-km-z]`
unfoldable pub is_base58 : ℕ → Bool
is_base58 c =
    between b'1' b'9' c
    || between b'A' b'H' c
    || between b'J' b'N' c
    || between b'P' b'Z' c
    || between b'a' b'k' c
    || between b'm' b'z' c

-- The second alternative of BTC_ADDR_RE.
unfoldable pub is_base58_address : Text → Bool
is_base58_address [] = false
is_base58_address (c ∷ s) = (c == b'1' || c == b'3') && repeats is_base58 25 39 s

-- BTC_ADDR_RE
unfoldable pub is_btc_address : Text → Bool
is_btc_address s =
    prefixed (codes "bc1") is_slug_end 6 87 s
    || prefixed (codes "tb1") is_slug_end 6 87 s
    || prefixed (codes "bcrt1") is_slug_end 6 87 s
    || is_base58_address s

-- `decode` is `nip19.decode`; `none` stands for what it throws.
module _ (decode : Text → Option Decoded) where
  abbrev pub npub_data : Option Decoded → Option Text
  npub_data none = none
  npub_data (some (npub hex)) = some hex
  npub_data (some other_type) = none

  unfoldable pub normalize_pubkey : Text → Option Text
  normalize_pubkey input =
      if is_pubkey_hex input
      then some input
      else if not (is_pubkey_npub input)
      then none
      else npub_data (decode input)

  -- `parts.length >= 3 && BTC_ADDR_RE.test(parts[0]) && normalizePubkey(parts[1]) === null`
  unfoldable pub has_payout_prefix : List Text → Bool
  has_payout_prefix (first ∷ second ∷ third ∷ parts) =
      is_btc_address first && not (is_some (normalize_pubkey second))
  has_payout_prefix _ = false

  unfoldable pub strip_payout : List Text → List Text
  unfolding has_payout_prefix
  strip_payout [] = []
  strip_payout (first ∷ parts) = if has_payout_prefix (first ∷ parts) then parts else first ∷ parts

  abbrev pub check_worker_id : Text → Text → Option Text → ParsedWorkerName
  check_worker_id slug pubkey none = parsed slug pubkey none
  check_worker_id slug pubkey (some worker_id) =
      if not (is_worker_id worker_id)
      then failed invalid_worker_id
      else parsed slug pubkey (some worker_id)

  unfoldable pub parse_fields : Text → Text → Option Text → ParsedWorkerName
  parse_fields slug raw worker_id =
      if not (is_slug slug) then failed invalid_slug else elim (normalize_pubkey raw) [
        | none ↦ failed invalid_pubkey
        | some pubkey ↦ check_worker_id slug pubkey worker_id
      ]

  unfoldable pub parse_parts : List Text → ParsedWorkerName
  parse_parts [] = failed missing_pubkey
  parse_parts (slug ∷ []) = failed missing_pubkey
  parse_parts (slug ∷ raw ∷ []) = parse_fields slug raw none
  parse_parts (slug ∷ raw ∷ worker_id ∷ []) = parse_fields slug raw (some worker_id)
  parse_parts (slug ∷ raw ∷ worker_id ∷ extra ∷ parts) = failed too_many_parts

  unfoldable pub parse_worker_name : JsValue → ParsedWorkerName
  parse_worker_name other = failed empty
  parse_worker_name (string []) = failed empty
  parse_worker_name (string (c ∷ s)) = parse_parts (strip_payout (split b'.' (c ∷ s)))
