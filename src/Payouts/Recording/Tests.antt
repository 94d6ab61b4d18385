-- ===== src/Payouts/Recording/Tests.antt =====
-- apps/payouts/src/dust-fanout.ts, `recordOnChainPayouts`: two calls at a fixed input, and the theorems
-- applied to them.
use mathlib.Core.Option
use hashden.Common.{◌≡◌, refl, [], ◌∷◌, Option, none, some, ok, if◌then◌else◌}
use hashden.Common.Int.{pos}
use hashden.Common.Text.{codes, text_eq}
use hashden.Coinbase.Output.{member, dust_bucket}
use hashden.Payouts.Types.{Attempt, ln_dust, pending}
use hashden.Payouts.Recording.{
  AttemptKey, same_key, or_else, UniqueStore, Snapshot, flat, new_attempt, OutputZapPublisher,
  Recorded, Outcome, find_dust_breakdown, record_all_dust, record_outputs, record_on_chain_payouts,
  outputs_of, breakdown_of,
}
use hashden.Payouts.Recording.Plan.{view, merge, first_for, plan, record_payouts-view}

-- A table as a function of the key.
abbrev map_store : UniqueStore
map_store = record {
  Table = AttemptKey → Option Attempt;
  get = λ k t. t k;
  upsert = λ k a t. λ j. if same_key k j then some (or_else (t j) a) else t j;
  put = λ k f t. λ j. if same_key k j then Option.map f (t j) else t j;
  get-upsert = λ k j a t. refl;
  get-put = λ k j f t. refl;
}

abbrev publisher : Option OutputZapPublisher
publisher = some (record { publish_output_zap = λ pubkey sats. ok (some (codes "event")) })

abbrev snapshot : Snapshot
snapshot = flat (
    (
      record {
        address = codes "bc1aa";
        sats = pos 90000;
        kind = member;
        member_pubkey = some (codes "aa");
      },
      none,
    )
    ∷ (
      record { address = codes "bc1op"; sats = pos 600; kind = dust_bucket; member_pubkey = none },
      some (record { member_pubkey = codes "bb"; owed_sats = pos 600 } ∷ []),
    )
    ∷ [])

abbrev call : (AttemptKey → Option Attempt) → Outcome map_store
call = record_on_chain_payouts map_store publisher (codes "b1") (some snapshot)

abbrev empty : AttemptKey → Option Attempt
empty k = none

abbrev once : Recorded map_store
once = (call empty).0

abbrev twice : Recorded map_store
twice = (call once.attempts).0

call_ends : call empty ≡ (once, none)
unfolding record_on_chain_payouts record_outputs record_all_dust find_dust_breakdown text_eq
call_ends = refl

second_ends : call once.attempts ≡ (twice, none)
unfolding record_on_chain_payouts record_outputs record_all_dust find_dust_breakdown text_eq
second_ends = refl

abbrev dust_of_bb : AttemptKey
dust_of_bb = record { block = codes "b1"; pubkey = codes "bb"; payout = ln_dust }

bb_is_pending :
    once.attempts dust_of_bb
    ≡ some (new_attempt (codes "b1") (codes "bb") (pos 600) ln_dust pending)
unfolding record_on_chain_payouts record_outputs record_all_dust find_dust_breakdown text_eq
bb_is_pending = refl

record_payouts-view_example :
    view map_store publisher (codes "b1") dust_of_bb once.attempts
    ≡ merge (view map_store publisher (codes "b1") dust_of_bb empty) (
        first_for dust_of_bb
          (plan map_store publisher (codes "b1") (outputs_of snapshot) (breakdown_of snapshot)))
record_payouts-view_example =
    record_payouts-view map_store publisher (codes "b1") snapshot empty once dust_of_bb call_ends
