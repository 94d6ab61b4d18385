-- ===== src/Coinbase/Pplns/Payout.antt =====
-- packages/coinbase/src/pplns.ts, `buildPplnsCoinbase`: what a successful build returns, described
-- without the loop, and what follows for the sats that it pays.
use hashden.Common.{
  ℕ, ◌+◌, ◌-◌, ◌<◌, ◌≡◌, refl, ◌⊎◌, inl, inr, [], ok, arith, All, sum_of, sym, ap, ◌∙◌,
  if◌then◌else◌,
}
use hashden.Common.Int.{ℤ, pos, pos_part, eqb_ℤ, pos_of_nonneg}
use hashden.Coinbase.Output.{total_sats}
use hashden.Coinbase.Fees.{FeeContext, FeeSplit, split_fees}
use hashden.Coinbase.Fees.Split.{fee, split_fees-IsSplit, fees-le-reward}
use hashden.Coinbase.Pplns.{
  PplnsInput, PplnsResult, nothing_allocated, total_weight_from, allocate, push_fees, finalize,
  finalize_without_members, share_reward, build_pplns_coinbase,
}
use hashden.Coinbase.Pplns.Shares.{
  IsWeighed, weight, allocate-eq, total_weight_from-eq, sum-owed-le,
}
use hashden.Coinbase.Pplns.Validation.{IsValidInput}
use hashden.Coinbase.Pplns.Conservation.{
  build_pplns-parts, described, described-total, finalize-eq, total_sats-push_fees,
}

-- The natural numbers of a valid input: the fees, what remains for the members, the threshold and
-- the total weight.
pub record Figures (input : PplnsInput) : Type 0 where
  pub reward : ℕ
  pub operator : ℕ
  pub platform : ℕ
  pub remaining : ℕ
  pub threshold : ℕ
  pub reward_is : input.fees.block_reward_sats ≡ pos reward
  pub threshold_is : input.dust_threshold_sats ≡ pos threshold
  pub split :
      split_fees input.fees
      ≡ ok (record {
        operator_fee_sats = pos operator;
        platform_fee_sats = pos platform;
        remaining_sats = pos remaining;
      })
  pub whole : remaining + operator + platform ≡ reward

figures :
    (input : PplnsInput)
    → IsValidInput input
    → (s : FeeSplit) → split_fees input.fees ≡ ok s
    → Figures input
figures input v s split =
    let d = split_fees-IsSplit input.fees s split in
    let o = fee d.reward d.operator_bps in
    let p = fee d.reward d.platform_bps in
    record {
      reward = d.reward;
      operator = o;
      platform = p;
      remaining = d.reward - p - o;
      threshold = pos_part input.dust_threshold_sats;
      reward_is = ap (λ (c : FeeContext). c.block_reward_sats) d.from_context;
      threshold_is = pos_of_nonneg _ v.threshold;
      split = split ∙ ground (arith, d.operator_fee, d.platform_fee, d.remaining);
      whole = omega (arith, fees-le-reward d.reward d.operator_bps d.platform_bps d.bounded);
    }

-- The result is determined by the figures: without weight all that remains goes to the dust
-- bucket; else each member is paid, or owed as dust, the floor of the proportional share.
pub record IsShared (input : PplnsInput) (result : PplnsResult) : Type 0 where
  pub f : Figures input
  pub valid : IsValidInput input
  pub outcome :
      ((sum_of weight input.members ≡ 0)
        × (result ≡ record {
          outputs = push_fees input [] (pos f.remaining) (pos f.operator) (pos f.platform);
          dust_breakdown = [];
        }))
      ⊎ ((0 < sum_of weight input.members)
          × (result
              ≡ described input f.remaining
                  (sum_of weight input.members)
                  f.threshold
                  f.operator
                  f.platform
                  input.members))

abbrev natural_fees : ℕ → ℕ → ℕ → FeeSplit
natural_fees o p r = record {
  operator_fee_sats = pos o;
  platform_fee_sats = pos p;
  remaining_sats = pos r;
}

by_weight :
    (x a b : PplnsResult) (total : ℤ) (w : ℕ)
    → total ≡ pos w
    → x ≡ (if eqb_ℤ total (pos 0) then a else b)
    → ((w ≡ 0) × (x ≡ a)) ⊎ ((0 < w) × (x ≡ b))
by_weight x a b total w e h = ground arith

module _ (input : PplnsInput) (f : Figures input) (s : FeeSplit)
    (fees : s ≡ natural_fees f.operator f.platform f.remaining) where
  without_weight : finalize_without_members input s ≡ record {
    outputs = push_fees input [] (pos f.remaining) (pos f.operator) (pos f.platform);
    dust_breakdown = [];
  }
  unfolding finalize_without_members
  without_weight = rw fees refl

  with_weight :
      (total threshold : ℤ) (w : ℕ)
      → total ≡ pos w
      → threshold ≡ pos f.threshold
      → w ≡ sum_of weight input.members
      → 0 < w
      → All IsWeighed input.members
      → finalize input s (allocate s.remaining_sats total threshold nothing_allocated input.members)
        ≡ described input f.remaining w f.threshold f.operator f.platform input.members
  with_weight total threshold w e below sum positive weighed =
      rw
        (
          fees,
          e,
          below,
          allocate-eq f.remaining w f.threshold nothing_allocated input.members weighed,
        )
        (finalize-eq input f.remaining w f.threshold f.operator f.platform input.members
          (sum-owed-le f.remaining w input.members sum positive))

-- A successful build returns the result that the figures determine.
pub build_pplns-IsShared :
    (input : PplnsInput) (result : PplnsResult)
    → build_pplns_coinbase input ≡ ok result
    → IsShared input result
unfolding share_reward
build_pplns-IsShared input result h =
    let (v, s, split, same) = build_pplns-parts input result h in
    let f = figures input v s split in
    let w : ℕ = sum_of weight input.members in
    let weighed : total_weight_from (pos 0) input.members ≡ pos w =
      total_weight_from-eq 0 input.members v.weighed ∙ ap pos (omega arith) in
    let fees : s ≡ natural_fees f.operator f.platform f.remaining = cc (split, f.split) in
    record {
      f = f;
      valid = v;
      outcome = elim (by_weight result _ _ _ w weighed same) [
        | inl (none_weighs, e) ↦ inl (none_weighs, e ∙ without_weight input f s fees)
        | inr (positive, e) ↦ inr (
          positive,
          e ∙ with_weight input f s fees _ _ w weighed f.threshold_is refl positive v.weighed,
        )
      ];
    }

-- Whatever the shares, the outputs pay the block reward, no more and no less.
pub build_pplns-total :
    (input : PplnsInput) (result : PplnsResult)
    → build_pplns_coinbase input ≡ ok result
    → total_sats result.outputs ≡ input.fees.block_reward_sats
build_pplns-total input result h =
    let r = build_pplns-IsShared input result h in
    let w : ℕ = sum_of weight input.members in
    let f = r.f in
    elim r.outcome [
      | inl (_, e) ↦
          ap (λ (x : PplnsResult). total_sats x.outputs) e
          ∙ total_sats-push_fees input [] f.remaining f.operator f.platform 0 refl
          ∙ ap pos (omega (arith, f.whole))
          ∙ sym f.reward_is
      | inr (positive, e) ↦
          ap (λ (x : PplnsResult). total_sats x.outputs) e
          ∙ described-total input f.remaining w f.threshold f.operator f.platform input.members
              (sum-owed-le f.remaining w input.members refl positive)
          ∙ ap pos f.whole
          ∙ sym f.reward_is
    ]
