-- ===== src/Payouts/Fanout/Failures.antt =====
-- apps/payouts/src/dust-fanout.ts, `fanoutDust`: the count of the failures in the loop over the
-- attempts that are due.
use hashden.Common.{
  ℕ, ◌+◌, ◌≤◌, ◌≡◌, refl, sym, ap, subst, ◌∙◌, Bool, true, false, List, [], ◌∷◌, Option, none, some,
  is_some, Result, ok, err, All, Bool-cases, inl, inr, arith,
}
use hashden.Common.Text.{Text, text_eq, text_eq_iff}
use hashden.Payouts.Types.{
  LnClient, Payment, PayError, usable, Attempt, in_flight, is_pending, is_failed, with_status,
}
use hashden.Payouts.Store.{RowStore, HasDistinctIds}
use hashden.Payouts.Store.Sweep.{sweep, has_id, sweep-frame, put_same, apart_of_All}
use hashden.Payouts.Fanout.{
  ZapPublisher, with_payment_hash, is_claimable, note_zap, publish, settle_payment, pay_member,
  Fanning,
}
use hashden.Payouts.Fanout.Attempts.{
  zapped_row, published_row, answered_row, paid_row, end_row, pay-frame, pay-row,
}
use hashden.Payouts.Fanout.Settled.{IsDue, IsDue-after, turn}

abbrev mark : Bool → ℕ
mark true = 1
mark false = 0

module _ (zap_publisher : Option ZapPublisher) (block_hash : Text) (store : RowStore Attempt) where
  zap-failed :
      (k : Text) (a b : Attempt) (answer : Result PayError (Option Text)) (s : Fanning store)
      → is_failed b.status ≡ false
      → (note_zap store k a answer s).result.failed_count
        ≡ s.result.failed_count + mark (is_failed (zapped_row b answer).status)
  zap-failed k a b (err e) s h = omega arith
  zap-failed k a b (ok none) s h = rw h (omega arith)
  zap-failed k a b (ok (some event)) s h = rw h (omega arith)

  publish-failed :
      (k hash : Text) (a : Attempt) (publisher : Option ZapPublisher) (s : Fanning store)
      → store.get k s.attempts ≡ some (with_payment_hash hash a)
      → (publish store zap_publisher block_hash k a hash publisher s).result.failed_count
        ≡ s.result.failed_count
          + mark (
              is_failed
                (published_row zap_publisher block_hash
                  (with_payment_hash hash a)
                  hash
                  publisher).status)
  publish-failed k hash a none s h = omega arith
  publish-failed k hash a (some publisher) s h =
      rw h (elim (Bool-cases (is_some (usable a.zap_event_id))) [
        | inl has ↦ rw has (omega arith)
        | inr lacks ↦ rw lacks (zap-failed k a (with_payment_hash hash a) _ s refl)
      ])

  settle-failed :
      (k : Text) (a : Attempt) (answer : Result PayError Text) (s : Fanning store)
      → store.get k s.attempts ≡ some (with_status in_flight a)
      → (settle_payment store zap_publisher block_hash k a answer s).result.failed_count
        ≡ s.result.failed_count
          + mark (is_failed (answered_row zap_publisher block_hash a answer).status)
  settle-failed k a (err e) s h = omega arith
  settle-failed k a (ok hash) s h =
      publish-failed k hash a zap_publisher _
        (put_same store k _ s.attempts (with_status in_flight a) h)

  module _ (client : LnClient) (lightning_address : Text → Option Text) where
    member-failed :
        (k : Text) (a : Attempt) (address : Option Text) (s : Fanning store)
        → store.get k s.attempts ≡ some (with_status in_flight a)
        → (pay_member store zap_publisher block_hash client lightning_address k a address
            s).result.failed_count
          ≡ s.result.failed_count
            + mark (
                is_failed
                  (paid_row zap_publisher block_hash client lightning_address a s.sent
                    address).status)
    member-failed k a none s h = omega arith
    member-failed k a (some address) s h = settle-failed k a _ _ h

    abbrev here : Text × Attempt → Fanning store → Fanning store
    here = turn zap_publisher block_hash client lightning_address store

    abbrev after : List Payment → Attempt → Attempt
    after = end_row zap_publisher block_hash client lightning_address

    pay-failed :
        (k : Text) (a : Attempt) (s : Fanning store)
        → store.get k s.attempts ≡ some a
        → is_pending a.status ≡ true
        → (here (k, a) s).result.failed_count
          ≡ s.result.failed_count + mark (is_failed (after s.sent a).status)
    pay-failed k a s h p =
        let claimed : is_claimable store (store.get k s.attempts) ≡ true = rw h p in
        rw claimed (
          member-failed k a (lightning_address a.member_pubkey) _
            (put_same store k _ s.attempts a h))

    sweep-monotone :
        (rows : List (Text × Attempt)) (s : Fanning store)
        → HasDistinctIds rows
        → All (IsDue zap_publisher block_hash client lightning_address store s.attempts) rows
        → s.result.failed_count ≤ (sweep here rows s).result.failed_count
    sweep-monotone [] s d h = omega arith
    sweep-monotone ((k, a) ∷ rows) s d h = omega (
      arith,
      pay-failed k a s h.0.0 h.0.1,
      sweep-monotone rows (here (k, a) s) d.1 (
          IsDue-after zap_publisher block_hash client lightning_address store (k, a) s rows d.0
            h.1),
    )

    -- If a loop over due attempts counts no failure, none of them ends FAILED.
    pub sweep-unfailed :
        (rows : List (Text × Attempt)) (s : Fanning store) (k : Text)
        → HasDistinctIds rows
        → All (IsDue zap_publisher block_hash client lightning_address store s.attempts) rows
        → (sweep here rows s).result.failed_count ≡ 0
        → has_id k rows ≡ true
        → (b : Attempt) × (store.get k (sweep here rows s).attempts ≡ some b)
          × (is_failed b.status ≡ false)
    sweep-unfailed [] s k d h z c = cc
    sweep-unfailed ((j, a) ∷ rows) s k d h z c =
        let later =
          IsDue-after zap_publisher block_hash client lightning_address store (j, a) s rows d.0
            h.1 in
        elim (Bool-cases (text_eq j k)) [
          | inr apart ↦ sweep-unfailed rows (here (j, a) s) k d.1 later z (cc)
          | inl same ↦
              let id : j ≡ k = (text_eq_iff j k).0 same in
              let own : store.get k (here (j, a) s).attempts ≡ some (after s.sent a) =
                ap (λ i. store.get i (here (j, a) s).attempts) (sym id)
                ∙ pay-row zap_publisher block_hash client lightning_address store j a s h.0.0
                    h.0.1 in
              (
                after s.sent a,
                sweep-frame store (λ s. s.attempts) here
                      (pay-frame zap_publisher block_hash client lightning_address store) rows
                      (here (j, a) s) k
                      (subst (λ i. has_id i rows ≡ false) id
                        (apart_of_All store (λ (s : Fanning store). s.attempts) here
                          (pay-frame zap_publisher block_hash client lightning_address store) j rows
                          d.0))
                    ∙ own,
                unmarked (is_failed (after s.sent a).status) (
                    omega (
                      arith,
                      pay-failed j a s h.0.0 h.0.1,
                      sweep-monotone rows (here (j, a) s) d.1 later,
                      z,
                    )),
              )
        ]
      where
        unmarked : (b : Bool) → mark b ≡ 0 → b ≡ false
        unmarked true e = absurd (omega (arith, e))
        unmarked false e = refl
