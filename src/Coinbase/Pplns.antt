-- ===== src/Coinbase/Pplns.antt =====
-- packages/coinbase/src/pplns.ts: the outputs of a coinbase that is shared among the members of a
-- share window, in proportion to their weights.
pub mod Shares
pub mod Conservation
pub mod Payout
pub mod Guarantees
pub mod Validation
use hashden.Common.{
  ℕ, suc, Bool, true, false, not, List, [], ◌∷◌, ◌++◌, map, Option, none, some, Result, ok, err,
  throw_if, ◌>>=◌, ◌>>◌, if◌then◌else◌,
}
use hashden.Common.Int.{ℤ, pos, ◌+ℤ◌, ◌-ℤ◌, ◌*ℤ◌, ◌/ℤ◌, ltb_ℤ, leb_ℤ, eqb_ℤ}
use hashden.Common.Text.{Text, text_lt}
use hashden.Coinbase.Output.{
  CoinbaseOutput, CoinbaseOutputKind, member, operator_fee, platform_fee, dust_bucket,
  DustBreakdownEntry, PplnsMember, CoinbaseError, operator_address_required,
  platform_address_required, negative_dust_threshold, members_not_sorted, negative_share_weight,
  member_address_required, is_empty,
}
use hashden.Coinbase.Fees.{FeeContext, FeeSplit, split_fees}
use hashden.Coinbase.Solo.{push_positive}

pub record PplnsInput : Type 0 where
  pub fees : FeeContext
  pub members : List PplnsMember
  pub operator_btc_address : Text
  pub platform_btc_address : Text
  pub dust_threshold_sats : ℤ

pub record PplnsResult : Type 0 where
  pub outputs : List CoinbaseOutput
  pub dust_breakdown : List DustBreakdownEntry

-- The first loop of `validatePplnsInput`; `i` is the index of the second member of a pair.
unfoldable pub check_order : ℕ → List PplnsMember → Result CoinbaseError (Unit {0})
check_order i [] = ok tt
check_order i (m ∷ []) = ok tt
check_order i (m ∷ n ∷ ms) = do
  throw_if (not (text_lt m.member_pubkey n.member_pubkey)) (members_not_sorted i)
  check_order (suc i) (n ∷ ms)

-- The second loop.
unfoldable pub check_members : List PplnsMember → Result CoinbaseError (Unit {0})
check_members [] = ok tt
check_members (m ∷ ms) = do
  throw_if (ltb_ℤ m.share_weight (pos 0)) (negative_share_weight m.member_pubkey)
  throw_if (is_empty m.btc_address) (member_address_required m.member_pubkey)
  check_members ms

unfoldable pub validate_pplns_input : PplnsInput → Result CoinbaseError (Unit {0})
validate_pplns_input input = do
  throw_if (is_empty input.operator_btc_address) operator_address_required
  throw_if (is_empty input.platform_btc_address) platform_address_required
  throw_if (ltb_ℤ input.dust_threshold_sats (pos 0)) negative_dust_threshold
  check_order 1 input.members
  check_members input.members

-- `members.reduce((acc, m) => acc + m.shareWeight, acc)`
unfoldable pub total_weight_from : ℤ → List PplnsMember → ℤ
total_weight_from acc [] = acc
total_weight_from acc (m ∷ ms) = total_weight_from (acc +ℤ m.share_weight) ms

-- The variables of the loop over the members.
pub record Allocation : Type 0 where
  pub above_dust : List (PplnsMember × ℤ)
  pub dust_breakdown : List DustBreakdownEntry
  pub dust_bucket_sats : ℤ
  pub allocated_sats : ℤ

abbrev pub nothing_allocated : Allocation
nothing_allocated = record {
  above_dust = [];
  dust_breakdown = [];
  dust_bucket_sats = pos 0;
  allocated_sats = pos 0;
}

-- One round of the loop.
unfoldable pub allocate_member : ℤ → ℤ → ℤ → Allocation → PplnsMember → Allocation
allocate_member remaining total threshold a m =
    let sats = remaining *ℤ m.share_weight /ℤ total in
    if leb_ℤ threshold sats
    then record a {
      above_dust = a.above_dust ++ (m, sats) ∷ [];
      allocated_sats = a.allocated_sats +ℤ sats;
    }
    else if ltb_ℤ (pos 0) sats
    then record a {
      dust_bucket_sats = a.dust_bucket_sats +ℤ sats;
      dust_breakdown =
          a.dust_breakdown ++ record { member_pubkey = m.member_pubkey; owed_sats = sats } ∷ [];
      allocated_sats = a.allocated_sats +ℤ sats;
    }
    else a

unfoldable pub allocate : ℤ → ℤ → ℤ → Allocation → List PplnsMember → Allocation
allocate remaining total threshold a [] = a
allocate remaining total threshold a (m ∷ ms) =
    allocate remaining total threshold (allocate_member remaining total threshold a m) ms

abbrev pub member_output : PplnsMember × ℤ → CoinbaseOutput
member_output (m, sats) = record {
  address = m.btc_address;
  sats = sats;
  kind = member;
  member_pubkey = some m.member_pubkey;
}

-- The outputs that follow the members': the dust bucket and the two fees, each if it is positive.
unfoldable pub push_fees : PplnsInput → List CoinbaseOutput → ℤ → ℤ → ℤ → List CoinbaseOutput
push_fees input outputs bucket operator platform =
    push_positive
      (push_positive (push_positive outputs input.operator_btc_address bucket dust_bucket)
        input.operator_btc_address operator operator_fee)
      input.platform_btc_address platform platform_fee

unfoldable pub finalize_without_members : PplnsInput → FeeSplit → PplnsResult
unfolding push_fees
finalize_without_members input fees = record {
  outputs = push_fees input [] fees.remaining_sats fees.operator_fee_sats fees.platform_fee_sats;
  dust_breakdown = [];
}

abbrev pub is_nil {ℓ} : {A : Type ℓ} → List A → Bool
is_nil [] = true
is_nil (x ∷ xs) = false

-- What follows the loop: the remainder of the floors goes into the dust bucket, or, if nobody is
-- owed dust, to the operator.
unfoldable pub finalize : PplnsInput → FeeSplit → Allocation → PplnsResult
finalize input fees a =
    let remainder = fees.remaining_sats -ℤ a.allocated_sats in
    let members = map member_output a.above_dust in
    if is_nil a.dust_breakdown
    then record {
      outputs =
          push_fees input members a.dust_bucket_sats (fees.operator_fee_sats +ℤ remainder)
            fees.platform_fee_sats;
      dust_breakdown = a.dust_breakdown;
    }
    else record {
      outputs =
          push_fees input members (a.dust_bucket_sats +ℤ remainder) fees.operator_fee_sats
            fees.platform_fee_sats;
      dust_breakdown = a.dust_breakdown;
    }

-- The result for fees that have been split.
unfoldable pub share_reward : PplnsInput → FeeSplit → PplnsResult
share_reward input fees =
    let total = total_weight_from (pos 0) input.members in
    if eqb_ℤ total (pos 0)
    then finalize_without_members input fees
    else finalize input fees (
        allocate fees.remaining_sats total input.dust_threshold_sats nothing_allocated
          input.members)

unfoldable pub build_pplns_coinbase : PplnsInput → Result CoinbaseError PplnsResult
build_pplns_coinbase input = do
  validate_pplns_input input
  fees ← split_fees input.fees
  ok (share_reward input fees)
