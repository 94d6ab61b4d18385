-- ===== src/Payouts/Samples.antt =====
-- apps/payouts/src: the rows and the wallet of the tests.
use hashden.Common.{true, false, List, [], ◌∷◌, ◌++◌, Option, none, some, ok, err, if◌then◌else◌}
use hashden.Common.Int.{pos}
use hashden.Common.Text.{Text, codes, text_eq}
use hashden.Payouts.Types.{
  Block, BlockStatus, Attempt, ln_dust, PayoutStatus, pending, LnClient, other_error,
}
use hashden.Payouts.Fanout.{ZapPublisher}

abbrev pub block : Text → BlockStatus → Block
block hash status = record { group_id = codes "g"; hash = hash; status = status }

abbrev pub attempt : Text → PayoutStatus → Attempt
attempt k status = record {
  block_id = codes "b1";
  member_pubkey = k;
  amount_sats = pos 600;
  kind = ln_dust;
  status = status;
  ln_payment_hash = none;
  zap_event_id = none;
}

-- Of the members aa and bb the wallet pays aa, and cc has left the den.
abbrev pub addresses : Text → Text → Option Text
addresses group_id k = if text_eq k (codes "cc") then none else some (k ++ codes "@ln")

abbrev pub wallet : LnClient
wallet = record {
  get_payment_status = λ hash. ok (record { settled = true; waiting = false });
  pay_lightning_address = λ sent address sats.
      if text_eq address (codes "aa@ln")
      then ok (codes "hash")
      else err (other_error (codes "no route"));
}

abbrev pub build_client : Text → Option LnClient
build_client group_id = some wallet

abbrev pub publisher : Option ZapPublisher
publisher = some (record { publish_zap = λ r. ok (some (codes "event")) })

abbrev pub good_dust : List (Text × Attempt)
good_dust = (codes "p1", attempt (codes "aa") pending) ∷ []
