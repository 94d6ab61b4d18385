-- ===== src/Coinbase/Output.antt =====
-- packages/shared/src/coinbase.ts and pplns.ts: the data that the builders exchange, and the errors
-- that packages/coinbase throws. A decimal string of sats is modelled by the integer it spells.
use hashden.Common.{ℕ, Bool, true, false, List, [], ◌∷◌, Option}
use hashden.Common.Int.{ℤ, pos, ◌+ℤ◌}
use hashden.Common.Text.{Text}

pub data CoinbaseOutputKind : Type 0 where
  member operator_fee platform_fee dust_bucket : CoinbaseOutputKind

pub record CoinbaseOutput : Type 0 where
  pub address : Text
  pub sats : ℤ
  pub kind : CoinbaseOutputKind
  pub member_pubkey : Option Text

pub record DustBreakdownEntry : Type 0 where
  pub member_pubkey : Text
  pub owed_sats : ℤ

pub record PplnsMember : Type 0 where
  pub member_pubkey : Text
  pub btc_address : Text
  pub share_weight : ℤ

-- A JavaScript number as `Number.isInteger` sees it: `non_integer` stands for every fraction, for
-- NaN and for the infinities.
pub data JsNumber : Type 0 where
  int : ℤ → JsNumber
  non_integer : JsNumber

-- One constructor for each `throw new Error(...)`; `range_error` is BigInt's own.
pub data CoinbaseError : Type 0 where
  reward_not_positive operator_bps_invalid platform_bps_invalid fees_exceed_whole : CoinbaseError
  range_error : CoinbaseError
  miner_address_required operator_address_required platform_address_required : CoinbaseError
  miner_pubkey_required negative_dust_threshold : CoinbaseError
  members_not_sorted : ℕ → CoinbaseError
  negative_share_weight member_address_required : Text → CoinbaseError
  address_not_encodable : Text → CoinbaseError
  negative_output : Text → ℤ → CoinbaseError

-- `!text`: the empty string is falsy.
abbrev pub is_empty : Text → Bool
is_empty [] = true
is_empty (c ∷ s) = false

-- What a list of outputs pays in all.
abbrev pub total_sats : List CoinbaseOutput → ℤ
total_sats [] = pos 0
total_sats (o ∷ os) = o.sats +ℤ total_sats os
