-- ===== src/Payouts/Recording.antt =====
-- apps/payouts/src/dust-fanout.ts, `recordOnChainPayouts`: a row for each output of a block's coinbase and
-- for each member who is owed dust. `@@unique([blockId, memberPubkey, kind])` makes the three the key of a
-- row; the table is the interface UniqueStore, with the documented behaviour of `upsert` with an empty
-- `update`, and of `update`.
pub mod Plan
mod Tests
use hashden.Common.{
  ℕ, suc, ◌≡◌, Bool, true, false, ◌&&◌, List, [], ◌∷◌, ◌++◌, Option, none, some, is_some, Result,
  ok, err, if◌then◌else◌,
}
use mathlib.Core.Option
use hashden.Common.Int.{ℤ}
use hashden.Common.Text.{Text, codes, text_eq}
use hashden.Coinbase.Output.{
  CoinbaseOutput, CoinbaseOutputKind, member, dust_bucket, DustBreakdownEntry,
}
use hashden.Payouts.Types.{
  Attempt, PayoutKind, on_chain_coinbase, ln_dust, PayoutStatus, paid, pending, usable, PayError,
  other_error,
}
use hashden.Payouts.Fanout.{with_zap_event}

pub record AttemptKey : Type 0 where
  pub block : Text
  pub pubkey : Text
  pub payout : PayoutKind

abbrev pub same_kind : PayoutKind → PayoutKind → Bool
same_kind on_chain_coinbase on_chain_coinbase = true
same_kind ln_dust ln_dust = true
same_kind _ _ = false

abbrev pub same_key : AttemptKey → AttemptKey → Bool
same_key a b = text_eq a.block b.block && text_eq a.pubkey b.pubkey && same_kind a.payout b.payout

-- What `upsert` leaves: the row that was there, or the new one.
abbrev pub or_else {ℓ} : {A : Type ℓ} → Option A → A → A
or_else none b = b
or_else (some a) b = a

pub record UniqueStore : Type 1 where
  pub Table : Type 0
  pub get : AttemptKey → Table → Option Attempt
  pub upsert : AttemptKey → Attempt → Table → Table
  pub put : AttemptKey → (Attempt → Attempt) → Table → Table
  pub get-upsert :
      (k j : AttemptKey) (a : Attempt) (t : Table)
      → get j (upsert k a t) ≡ (if same_key k j then some (or_else (get j t) a) else get j t)
  pub get-put :
      (k j : AttemptKey) (f : Attempt → Attempt) (t : Table)
      → get j (put k f t) ≡ (if same_key k j then Option.map f (get j t) else get j t)

-- `Block.coinbaseOutputs`: a list of outputs, of which some carry a breakdown, or an object with both.
pub data Snapshot : Type 0 where
  flat : List (CoinbaseOutput × Option (List DustBreakdownEntry)) → Snapshot
  split : List CoinbaseOutput → Option (List DustBreakdownEntry) → Snapshot

abbrev pub flat_outputs :
    List (CoinbaseOutput × Option (List DustBreakdownEntry)) → List CoinbaseOutput
flat_outputs [] = []
flat_outputs ((o, d) ∷ os) = o ∷ flat_outputs os

abbrev pub outputs_of : Snapshot → List CoinbaseOutput
outputs_of (flat os) = flat_outputs os
outputs_of (split os d) = os

abbrev pub is_bucket : CoinbaseOutputKind → Bool
is_bucket dust_bucket = true
is_bucket _ = false

unfoldable pub find_dust_breakdown :
    List (CoinbaseOutput × Option (List DustBreakdownEntry)) → Option (List DustBreakdownEntry)
find_dust_breakdown [] = none
find_dust_breakdown ((o, d) ∷ os) =
    let rest = find_dust_breakdown os in if is_bucket o.kind && is_some d then d else rest

-- `dustBreakdown ?? []`
abbrev pub entries_or_none : Option (List DustBreakdownEntry) → List DustBreakdownEntry
entries_or_none none = []
entries_or_none (some d) = d

abbrev pub breakdown_of : Snapshot → List DustBreakdownEntry
breakdown_of (flat os) = entries_or_none (find_dust_breakdown os)
breakdown_of (split os d) = entries_or_none d

-- `o.kind !== "MEMBER" || !o.memberPubkey`: such an output has no row.
abbrev pub member_of : CoinbaseOutputKind → Option Text → Option Text
member_of member pubkey = usable pubkey
member_of _ pubkey = none

abbrev pub new_attempt : Text → Text → ℤ → PayoutKind → PayoutStatus → Attempt
new_attempt block_id pubkey sats kind status = record {
  block_id = block_id;
  member_pubkey = pubkey;
  amount_sats = sats;
  kind = kind;
  status = status;
  ln_payment_hash = none;
  zap_event_id = none;
}

-- `publishZap` for a member's output of so many sats; a throw ends the whole call.
pub record OutputZapPublisher : Type 0 where
  pub publish_output_zap : Text → ℤ → Result PayError (Option Text)

abbrev pub event_of : Option Attempt → Option Text
event_of none = none
event_of (some a) = usable a.zap_event_id

module _ (store : UniqueStore) where
  pub record Recorded : Type 0 where
    pub attempts : store.Table
    pub recorded : ℕ
    pub pending_count : ℕ
    pub zaps_published : ℕ

  abbrev pub count_recorded : store.Table → Recorded → Recorded
  count_recorded t s = record {
    attempts = t;
    recorded = suc s.recorded;
    pending_count = s.pending_count;
    zaps_published = s.zaps_published;
  }

  abbrev pub count_pending : store.Table → Recorded → Recorded
  count_pending t s = record {
    attempts = t;
    recorded = s.recorded;
    pending_count = suc s.pending_count;
    zaps_published = s.zaps_published;
  }

  abbrev pub count_zap : store.Table → Recorded → Recorded
  count_zap t s = record {
    attempts = t;
    recorded = s.recorded;
    pending_count = s.pending_count;
    zaps_published = suc s.zaps_published;
  }

  -- The thrown error, if any, beside what was done before it.
  abbrev pub Outcome : Type 0
  Outcome = Recorded × Option PayError

  abbrev pub note_event : AttemptKey → Result PayError (Option Text) → Recorded → Outcome
  note_event k (err e) s = (s, some e)
  note_event k (ok none) s = (s, none)
  note_event k (ok (some [])) s = (s, none)
  note_event k (ok (some (c ∷ event))) s =
      (count_zap (store.put k (with_zap_event (c ∷ event)) s.attempts) s, none)

  module _ (zap_publisher : Option OutputZapPublisher) (block_id : Text) where
    abbrev pub zap_unless :
        AttemptKey
        → CoinbaseOutput
        → Text
        → Option Text
        → Option OutputZapPublisher
        → Recorded
        → Outcome
    zap_unless k o pubkey (some event) publisher s = (s, none)
    zap_unless k o pubkey none none s = (s, none)
    zap_unless k o pubkey none (some publisher) s =
        note_event k (publisher.publish_output_zap pubkey o.sats) s

    abbrev pub output_key : Text → AttemptKey
    output_key pubkey = record { block = block_id; pubkey = pubkey; payout = on_chain_coinbase }

    abbrev pub dust_key : Text → AttemptKey
    dust_key pubkey = record { block = block_id; pubkey = pubkey; payout = ln_dust }

    abbrev pub record_member : CoinbaseOutput → Option Text → Recorded → Outcome
    record_member o none s = (s, none)
    record_member o (some pubkey) s =
        let k = output_key pubkey in
        let t =
          store.upsert k (new_attempt block_id pubkey o.sats on_chain_coinbase paid) s.attempts in
        zap_unless k o pubkey (event_of (store.get k t)) zap_publisher (count_recorded t s)

    abbrev pub record_dust : DustBreakdownEntry → Recorded → Recorded
    record_dust d s =
        count_pending
          (store.upsert (dust_key d.member_pubkey)
            (new_attempt block_id d.member_pubkey d.owed_sats ln_dust pending) s.attempts)
          s

    unfoldable pub record_all_dust : List DustBreakdownEntry → Recorded → Recorded
    record_all_dust [] s = s
    record_all_dust (d ∷ ds) s = record_all_dust ds (record_dust d s)

    -- The two loops: nothing follows a throw.
    unfoldable pub record_outputs :
        List CoinbaseOutput → List DustBreakdownEntry → Outcome → Outcome
    record_outputs outputs ds (s, some e) = (s, some e)
    record_outputs [] ds (s, none) = (record_all_dust ds s, none)
    record_outputs (o ∷ os) ds (s, none) =
        record_outputs os ds (record_member o (member_of o.kind o.member_pubkey) s)

    abbrev pub nothing_recorded : store.Table → Recorded
    nothing_recorded t = record {
      attempts = t;
      recorded = 0;
      pending_count = 0;
      zaps_published = 0;
    }

    -- `block` is what `findUnique` found.
    unfoldable pub record_on_chain_payouts : Option Snapshot → store.Table → Outcome
    record_on_chain_payouts none t =
        (nothing_recorded t, some (other_error (codes "block " ++ block_id ++ codes " not found")))
    record_on_chain_payouts (some snapshot) t =
        record_outputs (outputs_of snapshot) (breakdown_of snapshot) (nothing_recorded t, none)
