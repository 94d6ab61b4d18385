-- ===== src/Coinbase/Fees/Split.antt =====
-- packages/coinbase/src/fees.ts: the fees of a valid context as floors over the natural numbers.
use native.Mathlib.Nat.{mul-le-mul_left}
use hashden.Common.{ℕ, ◌+◌, ◌-◌, ◌*◌, ◌/◌, ◌≤◌, ◌<◌, ◌≡◌, refl, ◌↔◌, ok, >>=-eq-ok, ◌∙◌, arith}
use hashden.Common.Int.{ℤ, pos, negsuc}
use hashden.Coinbase.Output.{JsNumber, int, non_integer}
use hashden.Coinbase.Fees.{FeeSplit, FeeContext, validate_fees, split_fees}

-- A fee of `bps` basis points, rounded down.
abbrev pub fee : ℕ → ℕ → ℕ
fee reward bps = reward * bps / 10000

-- The context that natural numbers stand for.
abbrev pub context : ℕ → ℕ → ℕ → FeeContext
context reward operator_bps platform_bps = record {
  block_reward_sats = pos reward;
  operator_fee_bps = int (pos operator_bps);
  platform_fee_bps = int (pos platform_bps);
}

fees-scaled : (reward o p : ℕ) → o + p ≤ 10000 → reward * p + reward * o ≤ reward * 10000
fees-scaled reward o p h = omega (arith, mul-le-mul_left {m = o + p} reward h)

pub fees-le-reward : (reward o p : ℕ) → o + p ≤ 10000 → fee reward p + fee reward o ≤ reward
fees-le-reward reward o p h = omega (arith, fees-scaled reward o p h)

-- Only integers pass the tests of the rates.
validate_fees-int :
    (reward : ℤ) (operator_bps platform_bps : JsNumber)
    → validate_fees (record {
      block_reward_sats = reward;
      operator_fee_bps = operator_bps;
      platform_fee_bps = platform_bps;
    })
      ≡ ok tt
    → (r : ℕ) × (o : ℕ) × (p : ℕ) × (reward ≡ pos r)
      × (operator_bps ≡ int (pos o))
      × (platform_bps ≡ int (pos p))
      × (0 < r)
      × (o + p ≤ 10000)
unfolding validate_fees
validate_fees-int (pos r) (int (pos o)) (int (pos p)) h =
    (r, o, p, refl, refl, refl, ground arith, ground arith)
validate_fees-int (pos r) (int (pos o)) (int (negsuc p)) h = absurd (ground arith)
validate_fees-int (pos r) (int (pos o)) non_integer h = absurd (ground arith)
validate_fees-int (pos r) (int (negsuc o)) p h = absurd (ground arith)
validate_fees-int (pos r) non_integer p h = absurd (ground arith)
validate_fees-int (negsuc r) o p h = absurd (ground arith)

valid-validate_fees :
    (reward o p : ℕ) → 0 < reward → o + p ≤ 10000 → validate_fees (context reward o p) ≡ ok tt
unfolding validate_fees
valid-validate_fees reward o p h k = ground arith

-- The fees of a valid context: two floors, and the rest of the reward, which is not negative.
pub split_fees-eq :
    (reward o p : ℕ)
    → 0 < reward
    → o + p ≤ 10000
    → split_fees (context reward o p)
      ≡ ok (record {
        operator_fee_sats = pos (fee reward o);
        platform_fee_sats = pos (fee reward p);
        remaining_sats = pos (reward - fee reward p - fee reward o);
      })
unfolding split_fees validate_fees
split_fees-eq reward o p h k = ground (arith, fees-le-reward reward o p k)

-- The split of a valid context, described without the code: the reward is positive, the rates are
-- naturals of sum at most 10000, each fee is rounded down, and the members have the rest.
pub record IsSplit (ctx : FeeContext) (s : FeeSplit) : Type 0 where
  pub reward : ℕ
  pub operator_bps : ℕ
  pub platform_bps : ℕ
  pub from_context : ctx ≡ context reward operator_bps platform_bps
  pub positive : 0 < reward
  pub bounded : operator_bps + platform_bps ≤ 10000
  pub operator_fee : s.operator_fee_sats ≡ pos (fee reward operator_bps)
  pub platform_fee : s.platform_fee_sats ≡ pos (fee reward platform_bps)
  pub remaining :
      s.remaining_sats ≡ pos (reward - fee reward platform_bps - fee reward operator_bps)

split_fees-validates :
    (ctx : FeeContext) (s : FeeSplit) → split_fees ctx ≡ ok s → validate_fees ctx ≡ ok tt
unfolding split_fees
split_fees-validates ctx s h = (>>=-eq-ok (validate_fees ctx) _ h).1

pub split_fees-IsSplit : (ctx : FeeContext) (s : FeeSplit) → split_fees ctx ≡ ok s → IsSplit ctx s
split_fees-IsSplit ctx s h =
    let (r, o, p, er, eo, ep, positive, bounded) =
      validate_fees-int ctx.block_reward_sats ctx.operator_fee_bps ctx.platform_fee_bps
        (split_fees-validates ctx s h) in
    let same : ctx ≡ context r o p = ground arith in
    let e : split_fees (context r o p) ≡ ok s = rw (← same) h in
    let f = split_fees-eq r o p positive bounded in
    record {
      reward = r;
      operator_bps = o;
      platform_bps = p;
      from_context = same;
      positive = positive;
      bounded = bounded;
      operator_fee = ground (arith, f, e);
      platform_fee = ground (arith, f, e);
      remaining = ground (arith, f, e);
    }

-- `splitFees` succeeds exactly on the contexts with a positive reward and natural rates of sum at
-- most 10000, and the result is then determined: two fees rounded down, and the rest.
pub split_fees_iff : (ctx : FeeContext) (s : FeeSplit) → (split_fees ctx ≡ ok s) ↔ IsSplit ctx s
split_fees_iff ctx s = (
  split_fees-IsSplit ctx s,
  λ d. rw d.from_context (
      split_fees-eq d.reward d.operator_bps d.platform_bps d.positive d.bounded
      ∙ ground (arith, d.operator_fee, d.platform_fee, d.remaining)),
)
