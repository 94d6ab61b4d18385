-- ===== src/Coinbase/Fees.antt =====
-- packages/coinbase/src/fees.ts: validation of the fee rates, and the split of a block reward into
-- the operator's fee, the platform's fee and what remains for the members.
pub mod Split
use hashden.Common.{Bool, true, false, ◌||◌, Result, ok, err, throw_if, ◌>>=◌, ◌>>◌}
use hashden.Common.Int.{ℤ, pos, ◌-ℤ◌, ◌+ℤ◌, ◌*ℤ◌, ◌/ℤ◌, ltb_ℤ, leb_ℤ}
use hashden.Coinbase.Output.{
  JsNumber, int, non_integer, CoinbaseError, reward_not_positive, operator_bps_invalid,
  platform_bps_invalid, fees_exceed_whole, range_error,
}

pub record FeeSplit : Type 0 where
  pub operator_fee_sats : ℤ
  pub platform_fee_sats : ℤ
  pub remaining_sats : ℤ

pub record FeeContext : Type 0 where
  pub block_reward_sats : ℤ
  pub operator_fee_bps : JsNumber
  pub platform_fee_bps : JsNumber

-- `!Number.isInteger(bps) || bps < 0 || bps > 10_000`
abbrev pub bps_out_of_range : JsNumber → Bool
bps_out_of_range non_integer = true
bps_out_of_range (int b) = ltb_ℤ b (pos 0) || ltb_ℤ (pos 10000) b

-- `a + b > 10_000`, reached only when both are integers.
abbrev pub bps_sum_exceeds : JsNumber → JsNumber → Bool
bps_sum_exceeds (int a) (int b) = ltb_ℤ (pos 10000) (a +ℤ b)
bps_sum_exceeds (int a) non_integer = true
bps_sum_exceeds non_integer b = true

unfoldable pub validate_fees : FeeContext → Result CoinbaseError (Unit {0})
validate_fees ctx = do
  throw_if (leb_ℤ ctx.block_reward_sats (pos 0)) reward_not_positive
  throw_if (bps_out_of_range ctx.operator_fee_bps) operator_bps_invalid
  throw_if (bps_out_of_range ctx.platform_fee_bps) platform_bps_invalid
  throw_if (bps_sum_exceeds ctx.operator_fee_bps ctx.platform_fee_bps) fees_exceed_whole

-- `BigInt(n)`
abbrev pub big_int : JsNumber → Result CoinbaseError ℤ
big_int (int n) = ok n
big_int non_integer = err range_error

unfoldable pub split_fees : FeeContext → Result CoinbaseError FeeSplit
split_fees ctx = do
  validate_fees ctx
  platform_bps ← big_int ctx.platform_fee_bps
  operator_bps ← big_int ctx.operator_fee_bps
  let platform_fee = ctx.block_reward_sats *ℤ platform_bps /ℤ pos 10000
  let operator_fee = ctx.block_reward_sats *ℤ operator_bps /ℤ pos 10000
  ok (record {
    operator_fee_sats = operator_fee;
    platform_fee_sats = platform_fee;
    remaining_sats = ctx.block_reward_sats -ℤ platform_fee -ℤ operator_fee;
  })
