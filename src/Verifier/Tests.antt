-- ===== src/Verifier/Tests.antt =====
-- apps/verifier/src/verify.ts: runs at fixed inputs, and the theorems applied to them. A ratio is a pair
-- of integers here, compared crosswise.
use hashden.Common.{◌≡◌, ◌≢◌, ◌↔◌, refl, Bool, true, false, List, [], ◌∷◌, none, some, ok}
use hashden.Common.Int.{ℤ, pos, ltb_ℤ, ◌*ℤ◌}
use hashden.Common.Text.{codes}
use hashden.Shared.Hex.{zero_bytes}
use hashden.Verifier.Job.{to_lower_case, reconstruct_coinbase_hex}
use hashden.Verifier.{
  CoinbaseOutputParsed, pplns, solo_showcase, scripts_equal, count_output, count_outputs,
  VerifyConfig, verify_outputs,
}
use hashden.Verifier.Payment.{IsPaid, paid_to, IsEnough, verify_outputs_iff}

abbrev ratio : ℤ → ℤ → ℤ × ℤ
ratio a b = (a, b)

abbrev less : ℤ × ℤ → ℤ × ℤ → Bool
less (a, b) (c, d) = ltb_ℤ (a *ℤ d) (c *ℤ b)

abbrev outputs : List CoinbaseOutputParsed
outputs =
    record { script_pub_key = codes "op"; value_sats = pos 100 }
    ∷ record { script_pub_key = codes "me"; value_sats = pos 900 }
    ∷ []

abbrev config : VerifyConfig ratio (pos 0, pos 1) less
config = record {
  payout_rule = pplns;
  min_reward_share = (pos 9, pos 10);
  min_sats = some (pos 500);
}

abbrev solo_config : VerifyConfig ratio (pos 0, pos 1) less
solo_config = record {
  payout_rule = solo_showcase;
  min_reward_share = (pos 95, pos 100);
  min_sats = none;
}

solo_refused :
    (verify_outputs ratio (pos 0, pos 1) less (codes "me") outputs solo_config).accepted ≡ false
unfolding verify_outputs count_outputs count_output scripts_equal
solo_refused = refl

verify_outputs_iff_example :
    ((verify_outputs ratio (pos 0, pos 1) less (codes "me") outputs config).accepted ≡ true) ↔ (
      IsPaid (codes "me") outputs
      × (paid_to (codes "me") outputs ≢ pos 0)
      × IsEnough ratio (pos 0, pos 1) less config pplns (codes "me") outputs)
verify_outputs_iff_example =
    verify_outputs_iff ratio (pos 0, pos 1) less (codes "me") outputs config

reconstructed :
    reconstruct_coinbase_hex (codes "0A") (codes "bc") (pos 2) (codes "F9")
    ≡ ok (codes "0abc0000f9")
unfolding reconstruct_coinbase_hex to_lower_case zero_bytes
reconstructed = refl
