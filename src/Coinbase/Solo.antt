-- ===== src/Coinbase/Solo.antt =====
-- packages/coinbase/src/solo-showcase.ts: the outputs of a coinbase that pays one miner.
pub mod Payment
use hashden.Common.{
  Bool, List, [], ◌∷◌, ◌++◌, Option, none, some, Result, ok, err, throw_if, ◌>>=◌, ◌>>◌,
  if◌then◌else◌,
}
use hashden.Common.Int.{ℤ, pos, ltb_ℤ}
use hashden.Common.Text.{Text}
use hashden.Coinbase.Output.{
  CoinbaseOutput, CoinbaseOutputKind, member, operator_fee, platform_fee, CoinbaseError,
  miner_address_required, operator_address_required, platform_address_required,
  miner_pubkey_required, is_empty,
}
use hashden.Coinbase.Fees.{FeeContext, FeeSplit, split_fees}

pub record SoloShowcaseInput : Type 0 where
  pub fees : FeeContext
  pub miner_btc_address : Text
  pub operator_btc_address : Text
  pub platform_btc_address : Text
  pub miner_pubkey : Text

unfoldable pub validate_addresses : SoloShowcaseInput → Result CoinbaseError (Unit {0})
validate_addresses input = do
  throw_if (is_empty input.miner_btc_address) miner_address_required
  throw_if (is_empty input.operator_btc_address) operator_address_required
  throw_if (is_empty input.platform_btc_address) platform_address_required
  throw_if (is_empty input.miner_pubkey) miner_pubkey_required

-- `if (sats > 0n) outputs.push({ address, sats, kind })`
abbrev pub push_positive : List CoinbaseOutput → Text → ℤ → CoinbaseOutputKind → List CoinbaseOutput
push_positive outputs address sats kind =
    if ltb_ℤ (pos 0) sats
    then outputs
      ++ record { address = address; sats = sats; kind = kind; member_pubkey = none } ∷ []
    else outputs

-- The outputs for fees that have been split.
unfoldable pub solo_outputs : SoloShowcaseInput → FeeSplit → List CoinbaseOutput
solo_outputs input fees =
    let winner : CoinbaseOutput = record {
      address = input.miner_btc_address;
      sats = fees.remaining_sats;
      kind = member;
      member_pubkey = some input.miner_pubkey;
    } in
    let with_operator =
      push_positive (winner ∷ []) input.operator_btc_address fees.operator_fee_sats operator_fee in
    push_positive with_operator input.platform_btc_address fees.platform_fee_sats platform_fee

unfoldable pub build_solo_showcase_coinbase :
    SoloShowcaseInput → Result CoinbaseError (List CoinbaseOutput)
build_solo_showcase_coinbase input = do
  validate_addresses input
  fees ← split_fees input.fees
  ok (solo_outputs input fees)
