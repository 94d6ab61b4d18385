-- ===== src/Payouts/Reconcile/Outcome.antt =====
-- apps/payouts/src/reconcile-inflight.ts, `reconcileInFlight`: how each interrupted payment is
-- settled, and the counters of the pass.
use hashden.Common.{
  ◌≡◌, refl, ap, ◌∙◌, true, false, ◌&&◌, List, [], ◌∷◌, Option, none, some, if◌then◌else◌, Result,
  ok, err, All, Bool-cases, Option-cases, inl, inr, arith, and-eq-true,
}
use hashden.Common.Text.{Text, text_eq}
use hashden.Payouts.Types.{
  PaymentStatus, LnClient, usable, Attempt, PayoutStatus, is_in_flight, in_flight, is_ln_dust, paid,
  failed, with_status,
}
use hashden.Payouts.Store.{RowStore}
use hashden.Payouts.Store.Sweep.{sweep-get, put_other, put_same, has_id-select}
use hashden.Payouts.Reconcile.{
  Recovery, settle_status, ask_client, reconcile_row, in_flight_rows, reconcile_in_flight,
}

-- The rule: what the wallet's answer makes of an interrupted payment.
abbrev pub outcome_of_status : Result Text PaymentStatus → PayoutStatus
outcome_of_status (ok status) =
    if status.settled then paid else if status.waiting then in_flight else failed
outcome_of_status (err reason) = in_flight

abbrev pub outcome_of_client : Text → Option LnClient → PayoutStatus
outcome_of_client hash none = in_flight
outcome_of_client hash (some client) = outcome_of_status (client.get_payment_status hash)

abbrev pub outcome_of_hash : Option LnClient → Option Text → PayoutStatus
outcome_of_hash client none = failed
outcome_of_hash client (some hash) = outcome_of_client hash client

module _ (store : RowStore Attempt) (group_of_block : Text → Text)
    (build_ln_client : Text → Option LnClient) where
  abbrev pub outcome : Attempt → PayoutStatus
  outcome a =
      outcome_of_hash (build_ln_client (group_of_block a.block_id)) (usable a.ln_payment_hash)

  abbrev step : Text × Attempt → Recovery store → Recovery store
  step = reconcile_row store group_of_block build_ln_client

  status-frame :
      (k j : Text) (answer : Result Text PaymentStatus) (s : Recovery store)
      → text_eq k j ≡ false
      → store.get j (settle_status store k answer s).0 ≡ store.get j s.0
  status-frame k j (err reason) s h = refl
  status-frame k j (ok status) s h = elim (Bool-cases status.settled) [
    | inl is ↦ rw is (put_other store k j _ s.0 h)
    | inr not ↦ rw not (elim (Bool-cases status.waiting) [
      | inl waits ↦ rw waits refl
      | inr over ↦ rw over (put_other store k j _ s.0 h)
    ])
  ]

  client-frame :
      (k j hash : Text) (client : Option LnClient) (s : Recovery store)
      → text_eq k j ≡ false
      → store.get j (ask_client store k hash client s).0 ≡ store.get j s.0
  client-frame k j hash none s h = refl
  client-frame k j hash (some client) s h = status-frame k j (client.get_payment_status hash) s h

  reconcile-frame :
      (e : Text × Attempt) (s : Recovery store) (j : Text)
      → text_eq e.0 j ≡ false
      → store.get j (step e s).0 ≡ store.get j s.0
  reconcile-frame (k, a) s j h = elim (Option-cases (usable a.ln_payment_hash)) [
    | inl missing ↦ rw missing (put_other store k j _ s.0 h)
    | inr (hash, e) ↦ rw e (client-frame k j hash (build_ln_client (group_of_block a.block_id)) s h)
  ]

  status_kept : (a : Attempt) → is_in_flight a.status ≡ true → a ≡ with_status in_flight a
  status_kept a h = ground arith

  status-turn :
      (k : Text) (a : Attempt) (answer : Result Text PaymentStatus) (s : Recovery store)
      → store.get k s.0 ≡ some a
      → is_in_flight a.status ≡ true
      → store.get k (settle_status store k answer s).0
        ≡ some (with_status (outcome_of_status answer) a)
  status-turn k a (err reason) s g h = g ∙ ap some (status_kept a h)
  status-turn k a (ok status) s g h = elim (Bool-cases status.settled) [
    | inl is ↦ rw is (put_same store k _ s.0 a g)
    | inr not ↦ rw not (elim (Bool-cases status.waiting) [
      | inl waits ↦ rw waits (g ∙ ap some (status_kept a h))
      | inr over ↦ rw over (put_same store k _ s.0 a g)
    ])
  ]

  client-turn :
      (k hash : Text) (a : Attempt) (client : Option LnClient) (s : Recovery store)
      → store.get k s.0 ≡ some a
      → is_in_flight a.status ≡ true
      → store.get k (ask_client store k hash client s).0
        ≡ some (with_status (outcome_of_client hash client) a)
  client-turn k hash a none s g h = g ∙ ap some (status_kept a h)
  client-turn k hash a (some client) s g h = status-turn k a (client.get_payment_status hash) s g h

  reconcile-turn :
      (k : Text) (a : Attempt) (s : Recovery store)
      → store.get k s.0 ≡ some a
      → is_in_flight a.status ≡ true
      → store.get k (step (k, a) s).0 ≡ some (with_status (outcome a) a)
  reconcile-turn k a s g h = elim (Option-cases (usable a.ln_payment_hash)) [
    | inl missing ↦ rw missing (put_same store k _ s.0 a g)
    | inr (hash, e) ↦
        rw e (client-turn k hash a (build_ln_client (group_of_block a.block_id)) s g h)
  ]

  selected :
      (rows : List (Text × Attempt)) (t : store.Table)
      → All
          (λ (e : Text × Attempt).
            (store.get e.0 t ≡ some e.1)
            × ((is_in_flight e.1.status && is_ln_dust e.1.kind) ≡ true))
          rows
      → All
          (λ (e : Text × Attempt). (store.get e.0 t ≡ some e.1) × (is_in_flight e.1.status ≡ true))
          rows
  selected [] t h = tt
  selected (e ∷ rows) t h = ((h.0.0, (and-eq-true _ _ h.0.1).0), selected rows t h.1)

  -- After a pass an interrupted dust payment has the status that the rule gives it: PAID or FAILED
  -- by the wallet's answer, FAILED without a payment hash, and IN_FLIGHT still where the payment is
  -- pending, the wallet does not answer or is not configured. Nothing else of it changes, and no
  -- other row does.
  pub reconcile-get :
      (t : store.Table) (k : Text) (a : Attempt)
      → store.get k t ≡ some a
      → store.get k (reconcile_in_flight store group_of_block build_ln_client t).0
        ≡ some (if is_in_flight a.status && is_ln_dust a.kind then with_status (outcome a) a else a)
  unfolding reconcile_in_flight
  reconcile-get t k a h =
      sweep-get store (λ s. s.0) step reconcile-frame (λ a. is_in_flight a.status ≡ true)
        (λ a. with_status (outcome a) a) (λ (k, a) s. reconcile-turn k a s)
        (in_flight_rows store group_of_block build_ln_client t) _ k a (store.select-distinct _ t)
        (selected _ t (store.select-sound _ t)) h
      ∙ rw (has_id-select store (λ a. is_in_flight a.status && is_ln_dust a.kind) t k a h) refl
