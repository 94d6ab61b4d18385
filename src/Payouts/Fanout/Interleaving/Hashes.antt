-- ===== src/Payouts/Fanout/Interleaving/Hashes.antt =====
-- apps/payouts/src/dust-fanout.ts and reconcile-inflight.ts: a payment hash is stored together with
-- the status PAID only, so that an attempt that a crash left IN_FLIGHT never has one.
use mathlib.Core.Option
use hashden.Common.{
  suc, ◌≡◌, refl, sym, ap, subst, ◌∙◌, inl, inr, Bool, true, false, ◌||◌, ◌&&◌, List, [], ◌∷◌,
  Option, none, some, is_some, if◌then◌else◌, arith, All, length, Bool-cases, and-eq-true,
}
use hashden.Common.Text.{Text, text_eq, text_eq_iff}
use hashden.Payouts.Types.{
  Attempt, LnClient, in_flight, is_pending, is_in_flight, is_failed, with_status, usable,
  is_ln_dust, failed,
}
use hashden.Payouts.Store.{RowStore}
use hashden.Payouts.Fanout.{is_claimable}
use hashden.Payouts.Fanout.Interleaving.{
  State, at, Step, begin, claimed, lost, unregistered, pay, record_paid, record_failed, note_zap,
  zap_thrown, stop, reconciled, Steps, done, next,
}
use hashden.Payouts.Fanout.Interleaving.Once.{is_open, chosen, not_chosen}
use hashden.Payouts.Store.Sweep.{sweep}
use hashden.Payouts.Reconcile.{
  Recovery, fail_unrecoverable, reconcile_row, reconcile_in_flight, in_flight_rows,
}
use hashden.Payouts.Reconcile.Outcome.{outcome, reconcile-get}
use hashden.Payouts.Reconcile.Counters.{counted, without_hash, reconcile-counters}

abbrev is_unsettled : Attempt → Bool
is_unsettled a = is_pending a.status || is_in_flight a.status

row-inj : {a b : Attempt} → some a ≡ some b → a ≡ b
row-inj e = cc

module _ (store : RowStore Attempt) where
  -- A PENDING or IN_FLIGHT attempt has no payment hash.
  abbrev pub IsUnhashed : store.Table → Type 0
  IsUnhashed t =
      (k : Text) (a : Attempt)
      → store.get k t ≡ some a
      → is_unsettled a ≡ true
      → is_some a.ln_payment_hash ≡ false

  IsUnhashed-put :
      (t : store.Table) (k : Text) (f : Attempt → Attempt)
      → ((a : Attempt)
          → store.get k t ≡ some a
          → is_unsettled (f a) ≡ true
          → (is_unsettled a ≡ true) × ((f a).ln_payment_hash ≡ a.ln_payment_hash))
      → IsUnhashed t
      → IsUnhashed (store.put k f t)
  IsUnhashed-put t k f calm h j a g u = elim (Bool-cases (text_eq k j)) [
    | inr apart ↦ h j a (sym (store.get-put k j f t ∙ rw apart refl) ∙ g) u
    | inl same ↦
        mapped ((text_eq_iff k j).0 same) (store.get j t) refl
          (sym (store.get-put k j f t ∙ rw same refl) ∙ g)
  ]
    where
      mapped :
          k ≡ j
          → (o : Option Attempt) → store.get j t ≡ o
          → Option.map f o ≡ some a
          → is_some a.ln_payment_hash ≡ false
      mapped id none found e = cc
      mapped id (some b) found e =
          let now : f b ≡ a = row-inj e in
          let (was, same_hash) =
            calm b (ap (λ i. store.get i t) id ∙ found)
              (subst (λ c. is_unsettled c ≡ true) (sym now) u) in
          subst (λ c. is_some c.ln_payment_hash ≡ false) now
            (ap is_some same_hash ∙ h j b found was)

  unsettled : (a : Attempt) → is_pending a.status ≡ true → is_unsettled a ≡ true
  unsettled a h = rw h refl

  Step-IsUnhashed :
      {s r : State store} → Step store s r → IsUnhashed s.attempts → IsUnhashed r.attempts
  Step-IsUnhashed (begin t tasks sent ids) h = h
  Step-IsUnhashed (claimed t u before after sent k e) h =
      let (free, same) =
        chosen store (is_open store k t) (store.put k (with_status in_flight) t) t u e in
      subst IsUnhashed (sym same) (
        IsUnhashed-put t k (with_status in_flight)
          (λ a g u. (unsettled a (subst (λ o. is_claimable store o ≡ true) g free), refl)) h)
  Step-IsUnhashed (lost t u before after sent k e) h =
      subst IsUnhashed
        (sym (not_chosen store (is_open store k t) (store.put k (with_status in_flight) t) t u e)) h
  Step-IsUnhashed (unregistered t before after sent k) h = IsUnhashed-put t k _ (λ a g u. cc) h
  Step-IsUnhashed (pay t before after sent k answer) h = h
  Step-IsUnhashed (record_paid t before after sent k hash) h = IsUnhashed-put t k _ (λ a g u. cc) h
  Step-IsUnhashed (record_failed t before after sent k) h = IsUnhashed-put t k _ (λ a g u. cc) h
  Step-IsUnhashed (note_zap t before after sent k event) h =
      IsUnhashed-put t k _ (λ a g u. (u, refl)) h
  Step-IsUnhashed (zap_thrown t before after sent k) h = IsUnhashed-put t k _ (λ a g u. cc) h
  Step-IsUnhashed (stop t before after sent k place) h = h
  Step-IsUnhashed (reconciled t tasks sent k a status g e p) h =
      IsUnhashed-put t k _ (λ b r u. cc) h

  Steps-IsUnhashed :
      {s last : State store} → Steps store s last → IsUnhashed s.attempts → IsUnhashed last.attempts
  Steps-IsUnhashed done h = h
  Steps-IsUnhashed (next step steps) h = Steps-IsUnhashed steps (Step-IsUnhashed step h)

  module _ (group_of_block : Text → Text) (build_ln_client : Text → Option LnClient) where
    no_hash : (o : Option Text) → is_some o ≡ false → usable o ≡ none
    no_hash none e = refl
    no_hash (some s) e = cc

    in_flight-unsettled : (a : Attempt) → is_in_flight a.status ≡ true → is_unsettled a ≡ true
    in_flight-unsettled a e = ground arith

    All-unhashed :
        (t : store.Table) (rows : List (Text × Attempt))
        → IsUnhashed t
        → All
            (λ (e : Text × Attempt).
              (store.get e.0 t ≡ some e.1)
              × ((is_in_flight e.1.status && is_ln_dust e.1.kind) ≡ true))
            rows
        → All (λ (e : Text × Attempt). usable e.1.ln_payment_hash ≡ none) rows
    All-unhashed t [] h g = tt
    All-unhashed t ((k, a) ∷ rows) h g = (
      no_hash a.ln_payment_hash (h k a g.0.0 (in_flight-unsettled a (and-eq-true _ _ g.0.1).0)),
      All-unhashed t rows h g.1,
    )

    each_unhashed :
        (rows : List (Text × Attempt))
        → All (λ (e : Text × Attempt). usable e.1.ln_payment_hash ≡ none) rows
        → (counted store group_of_block build_ln_client is_failed rows ≡ length rows)
          × (without_hash store group_of_block build_ln_client rows ≡ length rows)
    each_unhashed [] h = (refl, refl)
    each_unhashed ((k, a) ∷ rows) h =
        let rest = each_unhashed rows h.1 in rw h.0 (ap suc rest.0, ap suc rest.1)

    any_wallet :
        (other : Text → Option LnClient) (rows : List (Text × Attempt)) (s : Recovery store)
        → All (λ (e : Text × Attempt). usable e.1.ln_payment_hash ≡ none) rows
        → sweep (reconcile_row store group_of_block other) rows s
          ≡ sweep (reconcile_row store group_of_block build_ln_client) rows s
    any_wallet other [] s h = refl
    any_wallet other ((k, a) ∷ rows) s h =
        rw h.0 (any_wallet other rows (fail_unrecoverable store k s) h.1)

    outcome-failed :
        (a : Attempt)
        → (is_in_flight a.status ≡ true → usable a.ln_payment_hash ≡ none)
        → (if is_in_flight a.status && is_ln_dust a.kind
            then with_status (outcome store group_of_block build_ln_client a) a
            else a)
          ≡ (if is_in_flight a.status && is_ln_dust a.kind then with_status failed a else a)
    outcome-failed a h = elim (Bool-cases (is_in_flight a.status)) [
      | inl flies ↦ rw (h flies) refl
      | inr settled ↦ rw settled refl
    ]

    -- If no open attempt has a payment hash at first, then after any interleaving of the workers' steps
    -- a recovery marks every interrupted dust payment FAILED, changes no other attempt, counts each as
    -- unrecoverable, and does the same whatever the wallets are: it asks none of them.
    pub reconcile-never_asks :
        (t : store.Table) (last : State store) (other : Text → Option LnClient) (k : Text)
        (a : Attempt)
        → IsUnhashed t
        → Steps store (at store t [] []) last
        → store.get k last.attempts ≡ some a
        → let after = reconcile_in_flight store group_of_block build_ln_client last.attempts in
          (store.get k after.0
            ≡ some (if is_in_flight a.status && is_ln_dust a.kind then with_status failed a else a))
          × (after.1.marked_failed ≡ after.1.scanned)
          × (after.1.unrecoverable ≡ after.1.scanned)
          × (reconcile_in_flight store group_of_block other last.attempts ≡ after)
    unfolding reconcile_in_flight
    reconcile-never_asks t last other k a h steps g =
        let unhashed = Steps-IsUnhashed steps h in
        let rows = in_flight_rows store group_of_block build_ln_client last.attempts in
        let missing =
          All-unhashed last.attempts rows unhashed (store.select-sound _ last.attempts) in
        let counters = (reconcile-counters store group_of_block build_ln_client last.attempts).0 in
        let (failed_all, missing_all) = each_unhashed rows missing in
        let counts : let r =
              (reconcile_in_flight store group_of_block build_ln_client last.attempts).1 in
            (r.marked_failed ≡ r.scanned) × (r.unrecoverable ≡ r.scanned) =
          rw counters (failed_all, missing_all) in
        (
          reconcile-get store group_of_block build_ln_client last.attempts k a g
              ∙ ap some (
                  outcome-failed a (λ flies.
                    no_hash a.ln_payment_hash (unhashed k a g (in_flight-unsettled a flies)))),
          counts.0,
          counts.1,
          any_wallet other rows _ missing,
        )
