-- ===== src/Payouts/ZapReceipt.antt =====
-- apps/payouts/src/zap-receipt.ts: `buildZapReceiptEvent`, the public receipt of a payout. `now` is
-- `Date.now()`.
pub mod Amount
mod Tests
use hashden.Common.{
  ℕ, zero, suc, ◌+◌, ◌*◌, ◌/◌, ◌%◌, Bool, not, ◌&&◌, List, [], ◌∷◌, ◌++◌, Option, none, some,
  if◌then◌else◌, ltb, length, all, Result, err, ok, throw_if, ◌>>◌,
}
use hashden.Common.Text.{Text, codes}
use hashden.Shared.Pattern.{is_digit, is_hex, repeats}
use hashden.Stratum.Ssrf.Ipv4.{decimal_from}
use hashden.Payouts.Types.{PayoutKind, on_chain_coinbase, ln_dust}

pub record ZapReceiptInput : Type 0 where
  pub project_pubkey : Text
  pub recipient_pubkey : Text
  pub amount_sats : Text
  pub block_event_id : Text
  pub kind : PayoutKind
  pub bolt11 : Option Text
  pub payment_hash : Option Text
  pub block_hash : Option Text
  pub created_at : Option ℕ

pub record UnsignedEvent : Type 0 where
  pub event_kind : ℕ
  pub event_created_at : ℕ
  pub pubkey : Option Text
  pub tags : List (List Text)
  pub content : Text

-- `BigInt.toString`: a number below the fuel is written in full.
unfoldable pub digits : ℕ → ℕ → Text
digits zero n = []
digits (suc fuel) n =
    let rest = digits fuel (n / 10) in
    if ltb n 10 then (48 + n) ∷ [] else rest ++ (48 + n % 10) ∷ []

abbrev pub to_string : ℕ → Text
to_string n = digits (suc n) n

-- `/^[0-9a-f]{64}$/`
abbrev pub is_hex64 : Text → Bool
is_hex64 s = repeats is_hex 64 64 s

-- `/^\d+$/`
abbrev pub is_decimal : Text → Bool
is_decimal s = ltb 0 (length s) && all is_digit s

abbrev pub kind_text : PayoutKind → Text
kind_text on_chain_coinbase = codes "ON_CHAIN_COINBASE"
kind_text ln_dust = codes "LN_DUST"

-- `if (value) tags.push([name, value])`: an empty string is no value.
abbrev pub optional_tag : Text → Option Text → List (List Text)
optional_tag name none = []
optional_tag name (some []) = []
optional_tag name (some (c ∷ s)) = (name ∷ (c ∷ s) ∷ []) ∷ []

abbrev pub zap_tags : ZapReceiptInput → List (List Text)
zap_tags input =
    (codes "p" ∷ input.recipient_pubkey ∷ [])
      ∷ (codes "e" ∷ input.block_event_id ∷ [])
      ∷ (codes "amount" ∷ to_string (decimal_from 0 input.amount_sats * 1000) ∷ [])
      ∷ (codes "app" ∷ codes "hashden" ∷ [])
      ∷ (codes "payout_kind" ∷ kind_text input.kind ∷ [])
      ∷ optional_tag (codes "bolt11") input.bolt11
    ++ optional_tag (codes "preimage_hash") input.payment_hash
    ++ optional_tag (codes "block") input.block_hash

abbrev pub summary_of : PayoutKind → Text → Text
summary_of ln_dust amount = codes "dust fan-out: " ++ amount ++ codes " sats"
summary_of on_chain_coinbase amount = codes "on-chain coinbase: " ++ amount ++ codes " sats"

abbrev pub created : ℕ → Option ℕ → ℕ
created now none = now / 1000
created now (some t) = t

abbrev pub receipt_of : ℕ → ZapReceiptInput → UnsignedEvent
receipt_of now input = record {
  event_kind = 9735;
  event_created_at = created now input.created_at;
  pubkey = some input.project_pubkey;
  tags = zap_tags input;
  content = summary_of input.kind input.amount_sats;
}

unfoldable pub build_zap_receipt_event : ℕ → ZapReceiptInput → Result Text UnsignedEvent
build_zap_receipt_event now input =
    throw_if (not (is_hex64 input.project_pubkey)) (codes "projectPubkey must be 64 hex chars")
    >> (throw_if (not (is_hex64 input.recipient_pubkey))
          (codes "recipientPubkey must be 64 hex chars")
        >> (throw_if (not (is_decimal input.amount_sats))
              (codes "amountSats must be a non-negative decimal-string")
            >> (throw_if (not (is_hex64 input.block_event_id))
                  (codes "blockEventId must be 64 hex chars")
                >> ok (receipt_of now input))))
