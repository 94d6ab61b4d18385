-- ===== src/Coinbase/Solo/Payment.antt =====
-- packages/coinbase/src/solo-showcase.ts: what the outputs pay, and to whom.
use hashden.Common.{
  ℕ, ◌+◌, ◌-◌, ◌≤◌, ◌≡◌, refl, ◌⊎◌, true, List, [], ◌∷◌, some, ok, >>=-eq-ok, arith, All,
}
use hashden.Common.Int.{pos, ltb_ℤ}
use hashden.Coinbase.Output.{CoinbaseOutput, member, operator_fee, platform_fee, total_sats}
use hashden.Coinbase.Fees.{FeeSplit, split_fees}
use hashden.Coinbase.Fees.Split.{fee, split_fees-IsSplit, fees-le-reward}
use hashden.Coinbase.Solo.{
  SoloShowcaseInput, validate_addresses, solo_outputs, push_positive, build_solo_showcase_coinbase,
}

-- Fees that are naturals and do not pass the reward leave outputs that sum to it.
solo_outputs-total :
    (input : SoloShowcaseInput) (reward o p : ℕ)
    → p + o ≤ reward
    → total_sats (
        solo_outputs input (record {
          operator_fee_sats = pos o;
          platform_fee_sats = pos p;
          remaining_sats = pos (reward - p - o);
        }))
      ≡ pos reward
unfolding solo_outputs
solo_outputs-total input reward o p h = ground arith

pub build-parts :
    (input : SoloShowcaseInput) (outputs : List CoinbaseOutput)
    → build_solo_showcase_coinbase input ≡ ok outputs
    → (validate_addresses input ≡ ok tt)
      × (s : FeeSplit) × (split_fees input.fees ≡ ok s)
      × (outputs ≡ solo_outputs input s)
unfolding build_solo_showcase_coinbase
build-parts input outputs h =
    let (u, valid, rest) = >>=-eq-ok (validate_addresses input) _ h in
    let (s, split, same) = >>=-eq-ok (split_fees input.fees) _ rest in
    (valid, s, split, ground arith)

-- The outputs of a solo coinbase pay the block reward, no more and no less.
pub build_solo-total :
    (input : SoloShowcaseInput) (outputs : List CoinbaseOutput)
    → build_solo_showcase_coinbase input ≡ ok outputs
    → total_sats outputs ≡ input.fees.block_reward_sats
build_solo-total input outputs h =
    let (_, s, split, same) = build-parts input outputs h in
    let d = split_fees-IsSplit input.fees s split in
    ground (
      arith,
      same,
      d.from_context,
      d.operator_fee,
      d.platform_fee,
      d.remaining,
      solo_outputs-total input d.reward (fee d.reward d.operator_bps) (fee d.reward d.platform_bps)
          (fees-le-reward d.reward d.operator_bps d.platform_bps d.bounded),
    )

-- The first output goes to the miner, with all but the two fees; what follows are at most the two
-- fee outputs, each of a positive amount.
pub record PaysWinner (input : SoloShowcaseInput) (outputs : List CoinbaseOutput) : Type 0 where
  pub split : FeeSplit
  pub agreed : split_fees input.fees ≡ ok split
  pub winner : CoinbaseOutput
  pub fee_outputs : List CoinbaseOutput
  pub listed : outputs ≡ winner ∷ fee_outputs
  pub to_miner : winner.address ≡ input.miner_btc_address
  pub identified : winner.member_pubkey ≡ some input.miner_pubkey
  pub kept : winner.sats ≡ split.remaining_sats
  pub only_fees :
      All
        (λ (f : CoinbaseOutput).
          ((f.kind ≡ operator_fee)
              × (f.address ≡ input.operator_btc_address)
              × (f.sats ≡ split.operator_fee_sats)
            ⊎ (f.kind ≡ platform_fee)
              × (f.address ≡ input.platform_btc_address)
              × (f.sats ≡ split.platform_fee_sats))
          × (ltb_ℤ (pos 0) f.sats ≡ true))
        fee_outputs

fee_outputs : SoloShowcaseInput → FeeSplit → List CoinbaseOutput
fee_outputs input s =
    push_positive (push_positive [] input.operator_btc_address s.operator_fee_sats operator_fee)
      input.platform_btc_address s.platform_fee_sats platform_fee

-- The first output of a solo coinbase pays the miner what the fees leave, and the others are the fees
-- that are positive, to their addresses.
pub build_solo-PaysWinner :
    (input : SoloShowcaseInput) (outputs : List CoinbaseOutput)
    → build_solo_showcase_coinbase input ≡ ok outputs
    → PaysWinner input outputs
unfolding solo_outputs fee_outputs
build_solo-PaysWinner input outputs h =
    let (_, s, split, same) = build-parts input outputs h in
    record {
      split = s;
      agreed = split;
      winner = record {
        address = input.miner_btc_address;
        sats = s.remaining_sats;
        kind = member;
        member_pubkey = some input.miner_pubkey;
      };
      fee_outputs = fee_outputs input s;
      listed = ground (arith, same);
      to_miner = refl;
      identified = refl;
      kept = refl;
      only_fees = ground arith;
    }
