-- ===== src/Coinbase/Tests.antt =====
-- packages/coinbase/src: runs at fixed inputs, and the theorems applied to them.
use hashden.Common.{ℕ, ◌≡◌, refl, Option, List, [], ◌∷◌, none, some, ok, err}
use hashden.Common.Int.{pos, ◌≤ℤ◌}
use hashden.Common.Text.{Text, codes, text_lt}
use hashden.Coinbase.Output.{
  CoinbaseOutput, member, operator_fee, platform_fee, dust_bucket, PplnsMember, total_sats,
  members_not_sorted,
}
use hashden.Coinbase.Script.{encode_output, encode_outputs}
use hashden.Coinbase.Fees.{FeeContext, FeeSplit, validate_fees, split_fees}
use hashden.Coinbase.Fees.Split.{context}
use hashden.Coinbase.Solo.{
  SoloShowcaseInput, validate_addresses, solo_outputs, build_solo_showcase_coinbase,
}
use hashden.Coinbase.Pplns.{
  PplnsInput, PplnsResult, check_order, check_members, validate_pplns_input, total_weight_from,
  allocate_member, allocate, push_fees, finalize, share_reward, build_pplns_coinbase,
}
use hashden.Coinbase.Pplns.Validation.{IsValidInput}
use hashden.Coinbase.Pplns.Payout.{IsShared, build_pplns-IsShared, build_pplns-total}
use hashden.Coinbase.Pplns.Guarantees.{
  build_pplns_iff, promised, bucketed, build_pplns-dust_covered,
}

-- A reward of 100003 sats, an operator's fee of 2.5% and a platform's fee of 1%.
abbrev fees : FeeContext
fees = context 100003 250 100

abbrev split : FeeSplit
split = record {
  operator_fee_sats = pos 2500;
  platform_fee_sats = pos 1000;
  remaining_sats = pos 96503;
}

fees_split : split_fees fees ≡ ok split
unfolding split_fees validate_fees
fees_split = refl

abbrev solo : SoloShowcaseInput
solo = record {
  fees = fees;
  miner_btc_address = codes "bc1miner";
  operator_btc_address = codes "bc1operator";
  platform_btc_address = codes "bc1platform";
  miner_pubkey = codes "aa";
}

abbrev solo_paid : List CoinbaseOutput
solo_paid =
    record {
      address = codes "bc1miner";
      sats = pos 96503;
      kind = member;
      member_pubkey = some (codes "aa");
    }
    ∷ record {
      address = codes "bc1operator";
      sats = pos 2500;
      kind = operator_fee;
      member_pubkey = none;
    }
    ∷ record {
      address = codes "bc1platform";
      sats = pos 1000;
      kind = platform_fee;
      member_pubkey = none;
    }
    ∷ []

solo_built : build_solo_showcase_coinbase solo ≡ ok solo_paid
unfolding build_solo_showcase_coinbase validate_addresses solo_outputs split_fees validate_fees
solo_built = refl

-- Weights 90, 9 and 1, so that the third member's share is dust.
abbrev window : List PplnsMember
window =
    record { member_pubkey = codes "aa"; btc_address = codes "bc1aa"; share_weight = pos 90 }
    ∷ record { member_pubkey = codes "bb"; btc_address = codes "bc1bb"; share_weight = pos 9 }
    ∷ record { member_pubkey = codes "cc"; btc_address = codes "bc1cc"; share_weight = pos 1 }
    ∷ []

abbrev shared : PplnsInput
shared = record {
  fees = fees;
  members = window;
  operator_btc_address = codes "bc1operator";
  platform_btc_address = codes "bc1platform";
  dust_threshold_sats = pos 1000;
}

-- 96503 * 90 / 100 = 86852, 96503 * 9 / 100 = 8685 and 96503 / 100 = 965; a remainder of 1.
abbrev shared_result : PplnsResult
shared_result = record {
  outputs =
      record {
        address = codes "bc1aa";
        sats = pos 86852;
        kind = member;
        member_pubkey = some (codes "aa");
      }
      ∷ record {
        address = codes "bc1bb";
        sats = pos 8685;
        kind = member;
        member_pubkey = some (codes "bb");
      }
      ∷ record {
        address = codes "bc1operator";
        sats = pos 966;
        kind = dust_bucket;
        member_pubkey = none;
      }
      ∷ record {
        address = codes "bc1operator";
        sats = pos 2500;
        kind = operator_fee;
        member_pubkey = none;
      }
      ∷ record {
        address = codes "bc1platform";
        sats = pos 1000;
        kind = platform_fee;
        member_pubkey = none;
      }
      ∷ [];
  dust_breakdown = record { member_pubkey = codes "cc"; owed_sats = pos 965 } ∷ [];
}

window_valid : validate_pplns_input shared ≡ ok tt
unfolding validate_pplns_input check_order check_members text_lt
window_valid = refl

shared_built : build_pplns_coinbase shared ≡ ok shared_result
unfolding build_pplns_coinbase share_reward total_weight_from allocate allocate_member finalize
    push_fees split_fees validate_fees validate_pplns_input check_order check_members text_lt
shared_built = refl

-- Members out of order are refused, with the index of the second of the two.
unsorted_refused :
    check_order 1 (
      record { member_pubkey = codes "bb"; btc_address = codes "x"; share_weight = pos 1 }
      ∷ record { member_pubkey = codes "aa"; btc_address = codes "y"; share_weight = pos 1 }
      ∷ [])
    ≡ err (members_not_sorted 1)
unfolding check_order text_lt
unsorted_refused = refl

build_pplns_iff_example : IsValidInput shared × (s : FeeSplit) × (split_fees fees ≡ ok s)
build_pplns_iff_example = (build_pplns_iff shared).0 (shared_result, shared_built)

build_pplns-total_example : total_sats shared_result.outputs ≡ pos 100003
build_pplns-total_example = build_pplns-total shared shared_result shared_built

build_pplns-IsShared_example : IsShared shared shared_result
build_pplns-IsShared_example = build_pplns-IsShared shared shared_result shared_built

build_pplns-dust_covered_example :
    promised shared_result.dust_breakdown ≤ℤ bucketed shared_result.outputs
build_pplns-dust_covered_example = build_pplns-dust_covered shared shared_result shared_built

-- Every address has a script of its own.
abbrev to_script : Text → Option (List ℕ)
to_script address = some address

abbrev owned : CoinbaseOutput
owned = record {
  address = codes "me";
  sats = pos 900;
  kind = member;
  member_pubkey = some (codes "aa");
}

owned_encoded :
    encode_outputs to_script (owned ∷ [])
    ≡ ok (
        record {
          script_pub_key = codes "me";
          value_sats = pos 900;
          kind = member;
          member_pubkey = some (codes "aa");
        }
        ∷ [])
unfolding encode_outputs encode_output
owned_encoded = refl
