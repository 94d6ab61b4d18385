-- ===== src/Verifier/Job.antt =====
-- apps/verifier/src/coinbase.ts: the coinbase of a job, put together from the parts that a pool sends.
-- The decoder of bitcoinjs-lib is a parameter. The parts are ASCII texts, and the
-- error's text is left out but for its beginning.
use hashden.Common.{◌+◌, ◌||◌, List, [], ◌∷◌, ◌++◌, Result, err, ok, if◌then◌else◌}
use hashden.Common.Int.{ℤ, pos, negsuc, ltb_ℤ}
use hashden.Common.Text.{Text, codes}
use hashden.Shared.Pattern.{between}
use hashden.Shared.Hex.{zero_bytes}

unfoldable pub to_lower_case : Text → Text
to_lower_case [] = []
to_lower_case (c ∷ s) =
    let rest = to_lower_case s in if between 65 90 c then (c + 32) ∷ rest else c ∷ rest

abbrev filler : ℤ → Text
filler (pos n) = zero_bytes n
filler (negsuc n) = []

unfoldable pub reconstruct_coinbase_hex : Text → Text → ℤ → Text → Result Text Text
reconstruct_coinbase_hex coinbase1 extranonce1 size coinbase2 =
    if ltb_ℤ size (pos 0) || ltb_ℤ (pos 64) size
    then err (codes "Implausible extranonce2_size")
    else ok (to_lower_case (coinbase1 ++ extranonce1 ++ filler size ++ coinbase2))

module _ {Output : Type 0} (decode : Text → Result Text (List Output)) where
  abbrev decode_text : Result Text Text → Result Text (List Output)
  decode_text (err e) = err e
  decode_text (ok hex) = decode hex

  unfoldable parse_job_coinbase_outputs : Text → Text → ℤ → Text → Result Text (List Output)
  parse_job_coinbase_outputs coinbase1 extranonce1 size coinbase2 =
      decode_text (reconstruct_coinbase_hex coinbase1 extranonce1 size coinbase2)
