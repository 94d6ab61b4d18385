-- ===== src/Payouts/Reconcile/Tests.antt =====
-- apps/payouts/src/reconcile-inflight.ts and dust-fanout.ts: a crash and its recovery, and the theorems
-- applied to them.
use hashden.Common.{◌≡◌, refl, ◌⊎◌, ◌≤◌, true, false, List, [], ◌∷◌, none, some, arith}
use hashden.Common.Text.{Text, codes, text_eq}
use hashden.Payouts.Types.{Attempt, in_flight, failed}
use hashden.Payouts.Store.Rows.{rows_store, get_row, put_row}
use hashden.Payouts.Reconcile.{reconcile_in_flight}
use hashden.Payouts.Reconcile.Outcome.{reconcile-get}
use hashden.Payouts.Fanout.{claim}
use hashden.Payouts.Fanout.Interleaving.{
  queue, State, at, answered, Steps, begin, claimed, pay, stop, done, next,
}
use hashden.Payouts.Fanout.Interleaving.Once.{fanout-at_most_once, calls, is_open}
use hashden.Payouts.Fanout.Interleaving.Hashes.{reconcile-never_asks, IsUnhashed}
use hashden.Payouts.Samples.{attempt, build_client, good_dust}

abbrev interrupted : List (Text × Attempt)
interrupted = (codes "p1", attempt (codes "aa") in_flight) ∷ []

p1_row : get_row (codes "p1") interrupted ≡ some (attempt (codes "aa") in_flight)
unfolding get_row text_eq
p1_row = refl

reconcile-get_example :
    get_row
      (codes "p1")
      (reconcile_in_flight rows_store (λ b. codes "g") build_client interrupted).0
    ≡ some (attempt (codes "aa") failed)
reconcile-get_example =
    reconcile-get rows_store (λ b. codes "g") build_client interrupted (codes "p1")
      (attempt (codes "aa") in_flight) p1_row

-- Two workers have the attempt in their queues; one claims it, calls the wallet and crashes.
p1_claimed : claim rows_store (codes "p1") good_dust ≡ (interrupted, true)
unfolding get_row text_eq put_row
p1_claimed = refl

abbrev crashed : State rows_store
crashed = at rows_store interrupted (queue (codes "p1") ∷ []) (codes "p1" ∷ [])

crash : Steps rows_store (at rows_store good_dust [] []) crashed
crash = next (begin good_dust [] [] (codes "p1" ∷ codes "p1" ∷ [])) (
    next (claimed good_dust interrupted [] (queue (codes "p1") ∷ []) [] (codes "p1") p1_claimed) (
      next (pay interrupted [] (queue (codes "p1") ∷ []) [] (codes "p1") (some (codes "hash"))) (
        next
          (stop interrupted [] (queue (codes "p1") ∷ []) (codes "p1" ∷ []) (codes "p1")
            (answered (some (codes "hash"))))
          done)))

fanout-at_most_once_example :
    (calls (codes "p1") crashed.sent ≤ 1)
    × ((is_open rows_store (codes "p1") interrupted ≡ false)
        ⊎ (calls (codes "p1") crashed.sent ≡ 0))
fanout-at_most_once_example = fanout-at_most_once rows_store good_dust crashed (codes "p1") crash

good_dust-IsUnhashed : IsUnhashed rows_store good_dust
unfolding get_row
good_dust-IsUnhashed k a g u = ground arith

reconcile-never_asks_example :
    let after = reconcile_in_flight rows_store (λ b. codes "g") build_client interrupted in
    (get_row (codes "p1") after.0 ≡ some (attempt (codes "aa") failed))
    × (after.1.marked_failed ≡ after.1.scanned)
    × (after.1.unrecoverable ≡ after.1.scanned)
    × (reconcile_in_flight rows_store (λ b. codes "g") (λ g. none) interrupted ≡ after)
reconcile-never_asks_example =
    reconcile-never_asks rows_store (λ b. codes "g") build_client good_dust crashed (λ g. none)
      (codes "p1") (attempt (codes "aa") in_flight) good_dust-IsUnhashed crash p1_row
