-- ===== src/Verifier.antt =====
-- apps/verifier/src/verify.ts: the miner's own check that a job's coinbase pays its address. The division
-- and the comparison of floats, and the script of the miner's address (bitcoinjs-lib), are parameters; the
-- `reason` texts are left out.
pub mod Payment
mod Job
mod Tests
use hashden.Common.{
  ℕ, suc, Bool, true, false, ◌&&◌, ◌||◌, ◌==◌, List, [], ◌∷◌, Option, none, some, length,
  if◌then◌else◌,
}
use hashden.Common.Int.{ℤ, pos, ◌+ℤ◌, ltb_ℤ, eqb_ℤ}
use hashden.Common.Text.{Text}

-- apps/verifier/src/coinbase.ts, `CoinbaseOutputParsed`.
pub record CoinbaseOutputParsed : Type 0 where
  pub script_pub_key : List ℕ
  pub value_sats : ℤ

pub data PayoutRule : Type 0 where
  solo_showcase pplns : PayoutRule

unfoldable pub scripts_equal : List ℕ → List ℕ → Bool
scripts_equal [] [] = true
scripts_equal [] (d ∷ t) = false
scripts_equal (c ∷ s) [] = false
scripts_equal (c ∷ s) (d ∷ t) = (c == d) && scripts_equal s t

-- The variables of the loop.
pub record Tally : Type 0 where
  pub my_sats : ℤ
  pub total_sats : ℤ
  pub my_output_count : ℕ

abbrev pub nothing_counted : Tally
nothing_counted = record { my_sats = pos 0; total_sats = pos 0; my_output_count = 0 }

unfoldable pub count_output : List ℕ → CoinbaseOutputParsed → Tally → Tally
count_output my_script out t =
    if scripts_equal out.script_pub_key my_script
    then record {
      my_sats = t.my_sats +ℤ out.value_sats;
      total_sats = t.total_sats +ℤ out.value_sats;
      my_output_count = suc t.my_output_count;
    }
    else record {
      my_sats = t.my_sats;
      total_sats = t.total_sats +ℤ out.value_sats;
      my_output_count = t.my_output_count;
    }

unfoldable pub count_outputs : List ℕ → List CoinbaseOutputParsed → Tally → Tally
count_outputs my_script [] t = t
count_outputs my_script (out ∷ outs) t = count_outputs my_script outs (count_output my_script out t)

-- `cfg.minSats ?? 1n`
abbrev pub floor_of : Option ℤ → ℤ
floor_of none = pos 1
floor_of (some z) = z

module _ {R : Type 0} (ratio : ℤ → ℤ → R) (no_share : R) (less : R → R → Bool) where
  pub record VerifyConfig : Type 0 where
    pub payout_rule : PayoutRule
    pub min_reward_share : R
    pub min_sats : Option ℤ

  pub record VerifyResult : Type 0 where
    pub accepted : Bool
    pub tally : Tally
    pub share_pct : R
    pub output_count : ℕ

  -- `totalSats > 0n ? Number(mySats) / Number(totalSats) : 0`
  abbrev pub share_of : Tally → R
  share_of t = if ltb_ℤ (pos 0) t.total_sats then ratio t.my_sats t.total_sats else no_share

  abbrev pub rule_accepts : VerifyConfig → PayoutRule → Tally → Bool
  rule_accepts cfg solo_showcase t = if less (share_of t) cfg.min_reward_share then false else true
  rule_accepts cfg pplns t = if ltb_ℤ t.my_sats (floor_of cfg.min_sats) then false else true

  abbrev pub accepts : VerifyConfig → Tally → Bool
  accepts cfg t =
      if (t.my_output_count == 0) || eqb_ℤ t.my_sats (pos 0)
      then false
      else rule_accepts cfg cfg.payout_rule t

  -- The outcome for a coinbase, given the script of the miner's address.
  unfoldable pub verify_outputs : List ℕ → List CoinbaseOutputParsed → VerifyConfig → VerifyResult
  verify_outputs my_script outputs cfg =
      let t = count_outputs my_script outputs nothing_counted in
      record {
        accepted = accepts cfg t;
        tally = t;
        share_pct = share_of t;
        output_count = length outputs;
      }
