-- ===== src/Payouts/Reconcile.antt =====
-- apps/payouts/src/reconcile-inflight.ts, `reconcileInFlight`: at the start of the worker the dust
-- payments that a crash left IN_FLIGHT are settled by what the operator's wallet says of them. The
-- wallet (`LnClient`), the function that builds it for a group (`buildLnClient`, an argument in the
-- source) and the relation `block: { groupId }` of a row are parameters.
pub mod Outcome
pub mod Counters
mod Tests
use hashden.Common.{
  ℕ, suc, ◌≡◌, Bool, true, false, not, ◌||◌, ◌&&◌, List, [], ◌∷◌, length, Option, none, some,
  if◌then◌else◌, Result, ok, err,
}
use hashden.Common.Text.{Text}
use hashden.Payouts.Types.{
  PaymentStatus, LnClient, usable, Attempt, PayoutStatus, is_in_flight, is_ln_dust, paid, failed,
  with_status,
}
use hashden.Payouts.Store.{RowStore}
use hashden.Payouts.Store.Sweep.{sweep}

pub record ReconcileResult : Type 0 where
  pub scanned : ℕ
  pub promoted_paid : ℕ
  pub marked_failed : ℕ
  pub still_in_flight : ℕ
  pub unrecoverable : ℕ

module _ (store : RowStore Attempt) where
  abbrev pub Recovery : Type 0
  Recovery = store.Table × ReconcileResult

  abbrev pub fail_unrecoverable : Text → Recovery → Recovery
  fail_unrecoverable k (t, r) = (
    store.put k (with_status failed) t,
    record {
      scanned = r.scanned;
      promoted_paid = r.promoted_paid;
      marked_failed = suc r.marked_failed;
      still_in_flight = r.still_in_flight;
      unrecoverable = suc r.unrecoverable;
    },
  )

  abbrev pub fail_attempt : Text → Recovery → Recovery
  fail_attempt k (t, r) = (
    store.put k (with_status failed) t,
    record {
      scanned = r.scanned;
      promoted_paid = r.promoted_paid;
      marked_failed = suc r.marked_failed;
      still_in_flight = r.still_in_flight;
      unrecoverable = r.unrecoverable;
    },
  )

  abbrev pub promote_paid : Text → Recovery → Recovery
  promote_paid k (t, r) = (
    store.put k (with_status paid) t,
    record {
      scanned = r.scanned;
      promoted_paid = suc r.promoted_paid;
      marked_failed = r.marked_failed;
      still_in_flight = r.still_in_flight;
      unrecoverable = r.unrecoverable;
    },
  )

  abbrev pub leave_in_flight : Recovery → Recovery
  leave_in_flight (t, r) = (
    t,
    record {
      scanned = r.scanned;
      promoted_paid = r.promoted_paid;
      marked_failed = r.marked_failed;
      still_in_flight = suc r.still_in_flight;
      unrecoverable = r.unrecoverable;
    },
  )

  -- The `try` block and its `catch`.
  abbrev pub settle_status : Text → Result Text PaymentStatus → Recovery → Recovery
  settle_status k (ok status) s =
      if status.settled
      then promote_paid k s
      else if status.waiting
      then leave_in_flight s
      else fail_attempt k s
  settle_status k (err reason) s = leave_in_flight s

  abbrev pub ask_client : Text → Text → Option LnClient → Recovery → Recovery
  ask_client k hash none s = leave_in_flight s
  ask_client k hash (some client) s = settle_status k (client.get_payment_status hash) s

  module _ (group_of_block : Text → Text) (build_ln_client : Text → Option LnClient) where
    abbrev pub reconcile_hash : Text → Attempt → Option Text → Recovery → Recovery
    reconcile_hash k row none s = fail_unrecoverable k s
    reconcile_hash k row (some hash) s =
        ask_client k hash (build_ln_client (group_of_block row.block_id)) s

    -- The body of the loop.
    abbrev pub reconcile_row : Text × Attempt → Recovery → Recovery
    reconcile_row (k, row) s = reconcile_hash k row (usable row.ln_payment_hash) s

    abbrev pub in_flight_rows : store.Table → List (Text × Attempt)
    in_flight_rows t = store.select (λ a. is_in_flight a.status && is_ln_dust a.kind) t

    unfoldable pub reconcile_in_flight : store.Table → Recovery
    reconcile_in_flight t = sweep reconcile_row (in_flight_rows t) (
      t,
      record {
        scanned = length (in_flight_rows t);
        promoted_paid = 0;
        marked_failed = 0;
        still_in_flight = 0;
        unrecoverable = 0;
      },
    )
