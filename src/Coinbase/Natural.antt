-- ===== src/Coinbase/Natural.antt =====
-- packages/coinbase/src: the sats of the outputs that the builders return are natural numbers.
use hashden.Common.{
  ℕ, ◌≡◌, false, List, [], ◌∷◌, map, ok, arith, All, All-append, Bool-cases, inl, inr, sum_of, some,
}
use hashden.Common.Int.{ℤ, pos, ltb_ℤ}
use hashden.Common.Text.{Text}
use hashden.Coinbase.Output.{
  CoinbaseOutput, CoinbaseOutputKind, member, operator_fee, platform_fee, dust_bucket, PplnsMember,
}
use hashden.Coinbase.Fees.Split.{split_fees-IsSplit}
use hashden.Coinbase.Solo.{
  SoloShowcaseInput, push_positive, solo_outputs, build_solo_showcase_coinbase,
}
use hashden.Coinbase.Solo.Payment.{build-parts}
use hashden.Coinbase.Pplns.{PplnsInput, PplnsResult, member_output, push_fees, build_pplns_coinbase}
use hashden.Coinbase.Pplns.Shares.{with_sats, paid, weight}
use hashden.Coinbase.Pplns.Payout.{build_pplns-IsShared}

abbrev pub IsNatural : CoinbaseOutput → Type 0
IsNatural o = ltb_ℤ o.sats (pos 0) ≡ false

push_positive-IsNatural :
    (os : List CoinbaseOutput) (address : Text) (z : ℤ) (k : CoinbaseOutputKind)
    → All IsNatural os
    → All IsNatural (push_positive os address z k)
push_positive-IsNatural os address z k h = elim (Bool-cases (ltb_ℤ (pos 0) z)) [
  | inl positive ↦ rw positive (All-append IsNatural os _ h (ground arith, tt))
  | inr not_positive ↦ rw not_positive h
]

push_fees-IsNatural :
    (input : PplnsInput) (os : List CoinbaseOutput) (b o p : ℤ)
    → All IsNatural os
    → All IsNatural (push_fees input os b o p)
unfolding push_fees
push_fees-IsNatural input os b o p h =
    push_positive-IsNatural _ input.platform_btc_address p platform_fee (
      push_positive-IsNatural _ input.operator_btc_address o operator_fee
        (push_positive-IsNatural os input.operator_btc_address b dust_bucket h))

members-IsNatural :
    (r w t : ℕ) (ms : List PplnsMember)
    → All IsNatural (map member_output (map (with_sats r w) (paid r w t ms)))
members-IsNatural r w t [] = tt
members-IsNatural r w t (m ∷ ms) = ground (arith, members-IsNatural r w t ms)

pub build_pplns-IsNatural :
    (input : PplnsInput) (result : PplnsResult)
    → build_pplns_coinbase input ≡ ok result
    → All IsNatural result.outputs
build_pplns-IsNatural input result h =
    let r = build_pplns-IsShared input result h in
    let w : ℕ = sum_of weight input.members in
    let f = r.f in
    elim r.outcome [
      | inl (_, e) ↦ rw e (push_fees-IsNatural input [] _ _ _ tt)
      | inr (_, e) ↦ rw e (
          push_fees-IsNatural input _ _ _ _
            (members-IsNatural f.remaining w f.threshold input.members))
    ]

pub build_solo-IsNatural :
    (input : SoloShowcaseInput) (outputs : List CoinbaseOutput)
    → build_solo_showcase_coinbase input ≡ ok outputs
    → All IsNatural outputs
unfolding solo_outputs
build_solo-IsNatural input outputs h =
    let (_, s, split, same) = build-parts input outputs h in
    let d = split_fees-IsSplit input.fees s split in
    let winner : CoinbaseOutput = record {
      address = input.miner_btc_address;
      sats = s.remaining_sats;
      kind = member;
      member_pubkey = some input.miner_pubkey;
    } in
    rw same (
      push_positive-IsNatural _ input.platform_btc_address s.platform_fee_sats platform_fee (
        push_positive-IsNatural (winner ∷ []) input.operator_btc_address s.operator_fee_sats
          operator_fee (ground (arith, d.remaining), tt)))
