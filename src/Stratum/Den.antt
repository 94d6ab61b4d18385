-- ===== src/Stratum/Den.antt =====
-- apps/stratum/src/hashden/hashden.service.ts: the payouts that `HashdenService` puts together for the
-- coinbase of a den's jobs. The queries are parameters, which answer alike within a call; so is the
-- float arithmetic of a percentage.
pub mod Covers
pub mod Paid
pub mod Template
mod Tests
use hashden.Common.{
  ℕ, List, [], ◌∷◌, map, Option, none, some, Bool, true, false, not, Result, ok, err, throw_if,
  ◌>>=◌, ◌>>◌, if◌then◌else◌,
}
use hashden.Common.Int.{ℤ, pos}
use hashden.Common.Text.{Text, codes, text_eq}
use hashden.Coinbase.Output.{JsNumber, int, CoinbaseOutput, CoinbaseError, PplnsMember}
use hashden.Coinbase.Fees.{FeeContext}
use hashden.Coinbase.Solo.{SoloShowcaseInput, build_solo_showcase_coinbase}
use hashden.Coinbase.Pplns.{PplnsInput, PplnsResult, build_pplns_coinbase}
use hashden.Groups.Window.{WindowError, ShareRow, AddressRow, compute_pplns_window}
use hashden.Stratum.MiningJob.{AddressObject}

-- The columns of a den that are read.
pub record DenRow : Type 0 where
  pub payout_rule : Text
  pub fee_bps : JsNumber
  pub operator_btc_address : Text
  pub dust_threshold : ℤ

pub data DenError : Type 0 where
  den_not_found platform_address_missing not_solo_showcase not_pplns member_not_found : DenError
  not_built : CoinbaseError → DenError
  no_window : WindowError → DenError

-- The error of a builder is passed on.
abbrev pub built : {A : Type 0} → Result CoinbaseError A → Result DenError A
built (err e) = err (not_built e)
built (ok a) = ok a

abbrev pub windowed : {A : Type 0} → Result WindowError A → Result DenError A
windowed (err e) = err (no_window e)
windowed (ok a) = ok a

-- `windowSize = 100_000`
abbrev pub window_size : JsNumber
window_size = int (pos 100000)

-- What the service reads, and `percent_of sats reward`, `(Number(sats) / Number(reward)) * 100`.
pub record Registry (D N : Type 0) : Type 0 where
  pub find_den : Text → Option DenRow
  pub find_address : Text → Text → Option Text
  pub find_shares : Text → ℕ → List (ShareRow D)
  pub find_members : Text → List Text → List AddressRow
  pub scaled : D → Option ℤ
  pub platform_btc_address : Option Text
  pub platform_fee_bps : JsNumber
  pub percent_of : ℤ → ℤ → N

abbrev pub found : {A : Type 0} → DenError → Option A → Result DenError A
found e none = err e
found e (some a) = ok a

-- `!platformBtcAddress`
abbrev pub given : Option Text → Result DenError Text
given none = err platform_address_missing
given (some []) = err platform_address_missing
given (some (c ∷ s)) = ok (c ∷ s)

abbrev pub is_solo_showcase : DenRow → Bool
is_solo_showcase den = text_eq den.payout_rule (codes "SOLO_SHOWCASE")

module _ {D N : Type 0} (registry : Registry D N) where
  unfoldable pub get_solo_showcase_payouts :
      Text → Text → ℤ → Text → JsNumber → Result DenError (List CoinbaseOutput)
  get_solo_showcase_payouts group_id miner_pubkey reward platform platform_bps = do
    den ← found den_not_found (registry.find_den group_id)
    throw_if (not (is_solo_showcase den)) not_solo_showcase
    address ← found member_not_found (registry.find_address group_id miner_pubkey)
    built (
        build_solo_showcase_coinbase (record {
          fees = record {
            block_reward_sats = reward;
            operator_fee_bps = den.fee_bps;
            platform_fee_bps = platform_bps;
          };
          miner_btc_address = address;
          operator_btc_address = den.operator_btc_address;
          platform_btc_address = platform;
          miner_pubkey = miner_pubkey;
        }))

  unfoldable pub get_pplns_payouts :
      Text → ℤ → Text → JsNumber → ℤ → JsNumber → Result DenError PplnsResult
  get_pplns_payouts group_id reward platform platform_bps threshold size = do
    den ← found den_not_found (registry.find_den group_id)
    throw_if (not (text_eq den.payout_rule (codes "PPLNS"))) not_pplns
    members ← windowed (
        compute_pplns_window registry.scaled registry.find_shares registry.find_members group_id
          size)
    built (
        build_pplns_coinbase (record {
          fees = record {
            block_reward_sats = reward;
            operator_fee_bps = den.fee_bps;
            platform_fee_bps = platform_bps;
          };
          members = members;
          operator_btc_address = den.operator_btc_address;
          platform_btc_address = platform;
          dust_threshold_sats = threshold;
        }))

  abbrev pub outputs_of : Result DenError PplnsResult → Result DenError (List CoinbaseOutput)
  outputs_of (err e) = err e
  outputs_of (ok r) = ok r.outputs

  abbrev pub payouts_of : DenRow → Text → ℤ → Text → Text → Result DenError (List CoinbaseOutput)
  payouts_of den group_id reward miner_pubkey platform =
      if is_solo_showcase den
      then get_solo_showcase_payouts group_id miner_pubkey reward platform registry.platform_fee_bps
      else outputs_of (
          get_pplns_payouts group_id reward platform registry.platform_fee_bps den.dust_threshold
            window_size)

  abbrev pub to_address_percent : ℤ → CoinbaseOutput → AddressObject N
  to_address_percent reward o = record {
    address = o.address;
    percent = registry.percent_of o.sats reward;
  }

  abbrev pub to_upstream_payout_information : List CoinbaseOutput → ℤ → List (AddressObject N)
  to_upstream_payout_information outputs reward = map (to_address_percent reward) outputs

  unfoldable pub get_upstream_payout_information :
      Text → ℤ → Text → Result DenError (List (AddressObject N))
  get_upstream_payout_information group_id reward miner_pubkey = do
    den ← found den_not_found (registry.find_den group_id)
    platform ← given registry.platform_btc_address
    outputs ← payouts_of den group_id reward miner_pubkey platform
    ok (to_upstream_payout_information outputs reward)
