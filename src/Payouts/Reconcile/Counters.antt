-- ===== src/Payouts/Reconcile/Counters.antt =====
-- apps/payouts/src/reconcile-inflight.ts, `reconcileInFlight`: the counters of a pass.
use hashden.Common.{
  ℕ, suc, ◌+◌, ◌≡◌, refl, sym, Bool, true, false, List, [], ◌∷◌, Option, none, some, if◌then◌else◌,
  Result, ok, err, length, Bool-cases, Option-cases, inl, inr, arith, is_some, not,
}
use hashden.Common.Text.{Text}
use hashden.Payouts.Types.{
  PaymentStatus, LnClient, usable, Attempt, PayoutStatus, is_in_flight, is_pending, is_paid,
  is_failed,
}
use hashden.Payouts.Store.{RowStore}
use hashden.Payouts.Store.Sweep.{sweep}
use hashden.Payouts.Reconcile.{
  ReconcileResult, Recovery, settle_status, ask_client, reconcile_row, in_flight_rows,
  reconcile_in_flight,
}
use hashden.Payouts.Reconcile.Outcome.{outcome, outcome_of_client, outcome_of_status}

-- A row's part in the counters, by its outcome.
abbrev pub tally : Bool → PayoutStatus → ReconcileResult → ReconcileResult
tally has_hash s r = record {
  scanned = r.scanned;
  promoted_paid = if is_paid s then suc r.promoted_paid else r.promoted_paid;
  marked_failed = if is_failed s then suc r.marked_failed else r.marked_failed;
  still_in_flight = if is_in_flight s then suc r.still_in_flight else r.still_in_flight;
  unrecoverable = if has_hash then r.unrecoverable else suc r.unrecoverable;
}

module _ (store : RowStore Attempt) (group_of_block : Text → Text)
    (build_ln_client : Text → Option LnClient) where
  abbrev step : Text × Attempt → Recovery store → Recovery store
  step = reconcile_row store group_of_block build_ln_client

  abbrev outcome_here : Attempt → PayoutStatus
  outcome_here = outcome store group_of_block build_ln_client

  status-tally :
      (k : Text) (answer : Result Text PaymentStatus) (s : Recovery store)
      → (settle_status store k answer s).1 ≡ tally true (outcome_of_status answer) s.1
  status-tally k (err reason) s = refl
  status-tally k (ok status) s = elim (Bool-cases status.settled) [
    | inl is ↦ rw is refl
    | inr not ↦
        rw not
          (elim (Bool-cases status.waiting) [ inl waits ↦ rw waits refl | inr over ↦ rw over refl ])
  ]

  client-tally :
      (k hash : Text) (client : Option LnClient) (s : Recovery store)
      → (ask_client store k hash client s).1 ≡ tally true (outcome_of_client hash client) s.1
  client-tally k hash none s = refl
  client-tally k hash (some client) s = status-tally k (client.get_payment_status hash) s

  row-tally :
      (k : Text) (a : Attempt) (s : Recovery store)
      → (step (k, a) s).1 ≡ tally (is_some (usable a.ln_payment_hash)) (outcome_here a) s.1
  row-tally k a s = elim (Option-cases (usable a.ln_payment_hash)) [
    | inl missing ↦ rw missing refl
    | inr (hash, e) ↦ rw e (client-tally k hash (build_ln_client (group_of_block a.block_id)) s)
  ]

  -- The number of rows whose outcome passes a test, and of those without a payment hash.
  abbrev pub counted : (PayoutStatus → Bool) → List (Text × Attempt) → ℕ
  counted p [] = 0
  counted p ((k, a) ∷ rows) = if p (outcome_here a) then suc (counted p rows) else counted p rows

  abbrev pub without_hash : List (Text × Attempt) → ℕ
  without_hash [] = 0
  without_hash ((k, a) ∷ rows) =
      if is_some (usable a.ln_payment_hash) then without_hash rows else suc (without_hash rows)

  record Counts (rows : List (Text × Attempt)) (before after : ReconcileResult) : Type 0 where
    scanned : after.scanned ≡ before.scanned
    promoted_paid : after.promoted_paid ≡ before.promoted_paid + counted is_paid rows
    marked_failed : after.marked_failed ≡ before.marked_failed + counted is_failed rows
    still_in_flight : after.still_in_flight ≡ before.still_in_flight + counted is_in_flight rows
    unrecoverable : after.unrecoverable ≡ before.unrecoverable + without_hash rows

  tally-Counts :
      (k : Text) (a : Attempt) (rows : List (Text × Attempt)) (before after : ReconcileResult)
      → Counts rows (tally (is_some (usable a.ln_payment_hash)) (outcome_here a) before) after
      → Counts ((k, a) ∷ rows) before after
  tally-Counts k a rows before after c = record {
    scanned = c.scanned;
    promoted_paid = ground (arith, c.promoted_paid);
    marked_failed = ground (arith, c.marked_failed);
    still_in_flight = ground (arith, c.still_in_flight);
    unrecoverable = ground (arith, c.unrecoverable);
  }

  sweep-Counts :
      (rows : List (Text × Attempt)) (s : Recovery store) → Counts rows s.1 (sweep step rows s).1
  sweep-Counts [] s = record {
    scanned = refl;
    promoted_paid = omega arith;
    marked_failed = omega arith;
    still_in_flight = omega arith;
    unrecoverable = omega arith;
  }
  sweep-Counts ((k, a) ∷ rows) s =
      tally-Counts k a rows s.1 (sweep step ((k, a) ∷ rows) s).1
        (rw (sym (row-tally k a s)) (sweep-Counts rows (step (k, a) s)))

  outcome_of_status-settled :
      (answer : Result Text PaymentStatus) → is_pending (outcome_of_status answer) ≡ false
  outcome_of_status-settled (err reason) = refl
  outcome_of_status-settled (ok status) = ground arith

  outcome_of_client-settled :
      (hash : Text) (client : Option LnClient) → is_pending (outcome_of_client hash client) ≡ false
  outcome_of_client-settled hash none = refl
  outcome_of_client-settled hash (some client) =
      outcome_of_status-settled (client.get_payment_status hash)

  -- No outcome is PENDING: a recovered payment is never sent again.
  outcome-settled : (a : Attempt) → is_pending (outcome_here a) ≡ false
  outcome-settled a = elim (Option-cases (usable a.ln_payment_hash)) [
    | inl missing ↦ rw missing refl
    | inr (hash, e) ↦
        rw e (outcome_of_client-settled hash (build_ln_client (group_of_block a.block_id)))
  ]

  all_counted :
      (rows : List (Text × Attempt))
      → counted is_paid rows + counted is_failed rows + counted is_in_flight rows ≡ length rows
  all_counted [] = refl
  all_counted ((k, a) ∷ rows) = ground (arith, all_counted rows, outcome-settled a)

  -- The counters of a pass are the numbers of interrupted payments that end PAID, FAILED and still
  -- IN_FLIGHT, and of those without a payment hash; every scanned payment is in one of the first
  -- three.
  pub reconcile-counters :
      (t : store.Table)
      → let rows = in_flight_rows store group_of_block build_ln_client t in
        let r = (reconcile_in_flight store group_of_block build_ln_client t).1 in
        (r ≡ record {
          scanned = length rows;
          promoted_paid = counted is_paid rows;
          marked_failed = counted is_failed rows;
          still_in_flight = counted is_in_flight rows;
          unrecoverable = without_hash rows;
        })
        × (r.promoted_paid + r.marked_failed + r.still_in_flight ≡ r.scanned)
  unfolding reconcile_in_flight
  reconcile-counters t =
      let rows = in_flight_rows store group_of_block build_ln_client t in
      let c = sweep-Counts rows (
        t,
        record {
          scanned = length rows;
          promoted_paid = 0;
          marked_failed = 0;
          still_in_flight = 0;
          unrecoverable = 0;
        },
      ) in
      let total = all_counted rows in
      (
        ground (
          arith, c.scanned, c.promoted_paid, c.marked_failed, c.still_in_flight, c.unrecoverable,
        ),
        omega (arith, c.scanned, c.promoted_paid, c.marked_failed, c.still_in_flight, total),
      )
