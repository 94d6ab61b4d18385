-- ===== src/Payouts/Fanout.antt =====
-- apps/payouts/src/dust-fanout.ts, `fanoutDust`: the dust that a matured block owes is paid over
-- Lightning. The queue is worked off in its order here, which is what a concurrency of one does; the
-- child Interleaving has the schedules of several workers. The wallet, the table of members and the
-- zap publisher are parameters. `sent` is not a variable of the source: it lists the calls of
-- `payLightningAddress` in their order.
pub mod Attempts
pub mod Settled
pub mod Pass
pub mod Failures
pub mod Marked
pub mod Interleaving
mod Tests
use hashden.Common.{
  ℕ, suc, ◌≡◌, Bool, true, false, not, ◌||◌, ◌&&◌, ◌==◌, List, [], ◌∷◌, ◌++◌, length, Option, none,
  some, is_some, if◌then◌else◌, Result, ok, err,
}
use hashden.Common.Int.{ℤ}
use hashden.Common.Text.{Text, codes, text_eq}
use hashden.Payouts.Types.{
  LnClient, Payment, PayError, lnbits, nwc, other_error, usable, Attempt, PayoutStatus, in_flight,
  is_pending, is_ln_dust, paid, failed, with_status, Block, BlockStatus, is_matured,
  dust_fanned_out,
}
use hashden.Payouts.Store.{RowStore}
use hashden.Payouts.Store.Sweep.{sweep}
use hashden.Payouts.Maturity.{with_block_status}

pub data FanoutError : Type 0 where
  block_not_found : FanoutError
  not_matured : BlockStatus → FanoutError

pub record FanoutResult : Type 0 where
  pub block_id : Text
  pub recorded_on_chain : ℕ
  pub recorded_ln_pending : ℕ
  pub paid_count : ℕ
  pub failed_count : ℕ
  pub errors : List (Text × Text)

-- What a zap receipt for a dust payment is made of.
pub record ZapRequest : Type 0 where
  pub recipient_pubkey : Text
  pub amount_sats : ℤ
  pub payment_hash : Text
  pub block_hash : Text

-- `publishZap`: it throws, or it answers with the id of the event, or without one.
pub record ZapPublisher : Type 0 where
  pub publish_zap : ZapRequest → Result PayError (Option Text)

-- The `reason` of the `catch`.
abbrev pub reason_of : PayError → Text
reason_of (lnbits kind message) = kind ++ codes ": " ++ message
reason_of (nwc none message) = codes "NWC: " ++ message
reason_of (nwc (some kind) message) = kind ++ codes ": " ++ message
reason_of (other_error message) = message

abbrev pub with_payment_hash : Text → Attempt → Attempt
with_payment_hash hash a = record {
  block_id = a.block_id;
  member_pubkey = a.member_pubkey;
  amount_sats = a.amount_sats;
  kind = a.kind;
  status = paid;
  ln_payment_hash = some hash;
  zap_event_id = a.zap_event_id;
}

abbrev pub with_zap_event : Text → Attempt → Attempt
with_zap_event event a = record {
  block_id = a.block_id;
  member_pubkey = a.member_pubkey;
  amount_sats = a.amount_sats;
  kind = a.kind;
  status = a.status;
  ln_payment_hash = a.ln_payment_hash;
  zap_event_id = some event;
}

-- The rows of `where: { blockId, kind: "LN_DUST", status: "PENDING" }`.
abbrev pub is_payable : Text → Attempt → Bool
is_payable block_id a = text_eq a.block_id block_id && is_ln_dust a.kind && is_pending a.status

-- `!fresh.zapEventId`.
abbrev pub lacks_zap : Option Attempt → Bool
lacks_zap none = false
lacks_zap (some a) = not (is_some (usable a.zap_event_id))

-- `r.ok && r.eventId`.
abbrev pub usable_event : Result PayError (Option Text) → Result PayError (Option Text)
usable_event (err e) = err e
usable_event (ok event) = ok (usable event)

module _ (store : RowStore Attempt) where
  pub record Fanning : Type 0 where
    pub attempts : store.Table
    pub sent : List Payment
    pub result : FanoutResult

  abbrev pub is_claimable : Option Attempt → Bool
  is_claimable none = false
  is_claimable (some a) = is_pending a.status

  -- `updateMany({ where: { id, status: "PENDING" }, data: { status: "IN_FLIGHT" } })`, with whether
  -- `count` is not zero.
  abbrev pub claim : Text → store.Table → store.Table × Bool
  claim k t =
      if is_claimable (store.get k t)
      then (store.put k (with_status in_flight) t, true)
      else (t, false)

  abbrev pub with_attempts : store.Table → Fanning → Fanning
  with_attempts t s = record { attempts = t; sent = s.sent; result = s.result }

  -- FAILED, counted, and the reason noted.
  abbrev pub fail_attempt : Text → Text → Text → Fanning → Fanning
  fail_attempt k member_pubkey reason s = record {
    attempts = store.put k (with_status failed) s.attempts;
    sent = s.sent;
    result = record {
      block_id = s.result.block_id;
      recorded_on_chain = s.result.recorded_on_chain;
      recorded_ln_pending = s.result.recorded_ln_pending;
      paid_count = s.result.paid_count;
      failed_count = suc s.result.failed_count;
      errors = s.result.errors ++ ((member_pubkey, reason) ∷ []);
    };
  }

  abbrev pub mark_paid : Text → Text → Fanning → Fanning
  mark_paid k hash s = record {
    attempts = store.put k (with_payment_hash hash) s.attempts;
    sent = s.sent;
    result = record {
      block_id = s.result.block_id;
      recorded_on_chain = s.result.recorded_on_chain;
      recorded_ln_pending = s.result.recorded_ln_pending;
      paid_count = suc s.result.paid_count;
      failed_count = s.result.failed_count;
      errors = s.result.errors;
    };
  }

  abbrev pub note_sent : Payment → Fanning → Fanning
  note_sent p s = record { attempts = s.attempts; sent = s.sent ++ (p ∷ []); result = s.result }

  -- The answer of `publishZap`. A throw is caught by the handler of the payment.
  abbrev pub note_zap : Text → Attempt → Result PayError (Option Text) → Fanning → Fanning
  note_zap k a (err e) s = fail_attempt k a.member_pubkey (reason_of e) s
  note_zap k a (ok none) s = s
  note_zap k a (ok (some event)) s = with_attempts (store.put k (with_zap_event event) s.attempts) s

  module _ (zap_publisher : Option ZapPublisher) (block_hash : Text) where
    abbrev pub publish : Text → Attempt → Text → Option ZapPublisher → Fanning → Fanning
    publish k a hash none s = s
    publish k a hash (some publisher) s =
        if lacks_zap (store.get k s.attempts)
        then note_zap k a
            (usable_event (
              publisher.publish_zap (record {
                recipient_pubkey = a.member_pubkey;
                amount_sats = a.amount_sats;
                payment_hash = hash;
                block_hash = block_hash;
              })))
            s
        else s

    abbrev pub settle_payment : Text → Attempt → Result PayError Text → Fanning → Fanning
    settle_payment k a (err e) s = fail_attempt k a.member_pubkey (reason_of e) s
    settle_payment k a (ok hash) s = publish k a hash zap_publisher (mark_paid k hash s)

    module _ (client : LnClient) (lightning_address : Text → Option Text) where
      abbrev pub pay_member : Text → Attempt → Option Text → Fanning → Fanning
      pay_member k a none s =
          fail_attempt k a.member_pubkey (codes "member no longer registered in group") s
      pay_member k a (some address) s =
          settle_payment k a (client.pay_lightning_address s.sent address a.amount_sats)
            (note_sent (record { attempt = k; address = address; sats = a.amount_sats }) s)

      abbrev pub pay_claimed : Text → Attempt → store.Table × Bool → Fanning → Fanning
      pay_claimed k a (t, false) s = s
      pay_claimed k a (t, true) s =
          pay_member k a (lightning_address a.member_pubkey) (with_attempts t s)

      -- The worker of `runWithConcurrency`.
      abbrev pub pay_attempt : Text × Attempt → Fanning → Fanning
      pay_attempt (k, a) s = pay_claimed k a (claim k s.attempts) s

  -- `updateMany({ where, data: { status: "FAILED" } })`: the new table and `count`.
  abbrev pub fail_all : (Attempt → Bool) → store.Table → store.Table × ℕ
  fail_all p t = (
    sweep (λ (e : Text × Attempt). store.put e.0 (with_status failed)) (store.select p t) t,
    length (store.select p t),
  )

  module _ (blocks : RowStore Block) (build_ln_client : Text → Option LnClient)
      (lightning_address : Text → Text → Option Text) (zap_publisher : Option ZapPublisher)
      (block_id : Text) where
    abbrev pub World : Type 0
    World = blocks.Table × Fanning

    abbrev pub fail_without_client : store.Table × ℕ → Fanning → Fanning
    fail_without_client (t, count) s = record {
      attempts = t;
      sent = s.sent;
      result = record {
        block_id = block_id;
        recorded_on_chain = 0;
        recorded_ln_pending = 0;
        paid_count = 0;
        failed_count = count;
        errors = (codes "*", codes "operator has no LN credentials configured") ∷ [];
      };
    }

    abbrev pub start : List (Text × Attempt) → Fanning → Fanning
    start pending s = record {
      attempts = s.attempts;
      sent = s.sent;
      result = record {
        block_id = block_id;
        recorded_on_chain = 0;
        recorded_ln_pending = length pending;
        paid_count = 0;
        failed_count = 0;
        errors = [];
      };
    }

    abbrev pub finish : blocks.Table → Fanning → World
    finish t s = (
      if s.result.failed_count == 0
          then blocks.put block_id (with_block_status dust_fanned_out) t
          else t,
      s,
    )

    abbrev pub fanout_block : Block → Option LnClient → World → World
    fanout_block block none (t, s) =
        (t, fail_without_client (fail_all (is_payable block_id) s.attempts) s)
    fanout_block block (some client) (t, s) =
        let pending = store.select (is_payable block_id) s.attempts in
        finish t (
          sweep (pay_attempt zap_publisher block.hash client (lightning_address block.group_id))
            pending (start pending s))

    abbrev pub fanout_found : Option Block → World → Result FanoutError World
    fanout_found none s = err block_not_found
    fanout_found (some block) s =
        if is_matured block.status
        then ok (fanout_block block (build_ln_client block.group_id) s)
        else err (not_matured block.status)

    unfoldable pub fanout_dust : World → Result FanoutError World
    fanout_dust (t, s) = fanout_found (blocks.get block_id t) (t, s)
