-- ===== src/Payouts/Fanout/Attempts.antt =====
-- apps/payouts/src/dust-fanout.ts, `fanoutDust`: what the pass does to each attempt.
use mathlib.Core.List.{append-nil}
use hashden.Common.{
  ◌≡◌, refl, sym, ◌∙◌, true, false, List, [], ◌∷◌, ◌++◌, Option, none, some, is_some, if◌then◌else◌,
  Result, ok, err, Bool-cases, inl, inr,
}
use hashden.Common.Text.{Text, text_eq}
use hashden.Payouts.Types.{
  LnClient, Payment, PayError, usable, Attempt, in_flight, is_pending, failed, with_status,
}
use hashden.Payouts.Store.{RowStore}
use hashden.Payouts.Store.Sweep.{put_other, put_same}
use hashden.Payouts.Fanout.{
  ZapPublisher, with_payment_hash, with_zap_event, lacks_zap, Fanning, is_claimable, note_zap,
  usable_event, publish, settle_payment, pay_member, pay_attempt,
}

-- The row of an attempt after its payment, by the answer to its zap receipt.
abbrev pub zapped_row : Attempt → Result PayError (Option Text) → Attempt
zapped_row a (err e) = with_status failed a
zapped_row a (ok none) = a
zapped_row a (ok (some event)) = with_zap_event event a

module _ (zap_publisher : Option ZapPublisher) (block_hash : Text) where
  abbrev pub published_row : Attempt → Text → Option ZapPublisher → Attempt
  published_row a hash none = a
  published_row a hash (some publisher) =
      if is_some (usable a.zap_event_id)
      then a
      else zapped_row a (
          usable_event (
            publisher.publish_zap (record {
              recipient_pubkey = a.member_pubkey;
              amount_sats = a.amount_sats;
              payment_hash = hash;
              block_hash = block_hash;
            })))

  abbrev pub answered_row : Attempt → Result PayError Text → Attempt
  answered_row a (err e) = with_status failed a
  answered_row a (ok hash) = published_row (with_payment_hash hash a) hash zap_publisher

  module _ (client : LnClient) (lightning_address : Text → Option Text) where
    abbrev pub paid_row : Attempt → List Payment → Option Text → Attempt
    paid_row a sent none = with_status failed a
    paid_row a sent (some address) =
        answered_row a (client.pay_lightning_address sent address a.amount_sats)

    -- The row of an attempt after its turn, given the payments before it.
    abbrev pub end_row : List Payment → Attempt → Attempt
    end_row sent a = paid_row a sent (lightning_address a.member_pubkey)

    -- The payment that a turn sends.
    abbrev pub payments_of : Text → Attempt → Option Text → List Payment
    payments_of k a none = []
    payments_of k a (some address) =
        record { attempt = k; address = address; sats = a.amount_sats } ∷ []

    module _ (store : RowStore Attempt) where
      abbrev pub pay : Text × Attempt → Fanning store → Fanning store
      pay = pay_attempt store zap_publisher block_hash client lightning_address

      note_zap-frame :
          (k j : Text) (a : Attempt) (answer : Result PayError (Option Text)) (s : Fanning store)
          → text_eq k j ≡ false
          → store.get j (note_zap store k a answer s).attempts ≡ store.get j s.attempts
      note_zap-frame k j a (err e) s h = put_other store k j _ s.attempts h
      note_zap-frame k j a (ok none) s h = refl
      note_zap-frame k j a (ok (some event)) s h = put_other store k j _ s.attempts h

      publish-frame :
          (k j hash : Text) (a : Attempt) (publisher : Option ZapPublisher) (s : Fanning store)
          → text_eq k j ≡ false
          → store.get j (publish store zap_publisher block_hash k a hash publisher s).attempts
            ≡ store.get j s.attempts
      publish-frame k j hash a none s h = refl
      publish-frame k j hash a (some publisher) s h =
          elim (Bool-cases (lacks_zap (store.get k s.attempts))) [
            | inl lacks ↦ rw lacks (note_zap-frame k j a _ s h)
            | inr has ↦ rw has refl
          ]

      settle-frame :
          (k j : Text) (a : Attempt) (answer : Result PayError Text) (s : Fanning store)
          → text_eq k j ≡ false
          → store.get j (settle_payment store zap_publisher block_hash k a answer s).attempts
            ≡ store.get j s.attempts
      settle-frame k j a (err e) s h = put_other store k j _ s.attempts h
      settle-frame k j a (ok hash) s h =
          publish-frame k j hash a zap_publisher _ h ∙ put_other store k j _ s.attempts h

      member-frame :
          (k j : Text) (a : Attempt) (address : Option Text) (s : Fanning store)
          → text_eq k j ≡ false
          → store.get j
              (pay_member store zap_publisher block_hash client lightning_address k a address
                s).attempts
            ≡ store.get j s.attempts
      member-frame k j a none s h = put_other store k j _ s.attempts h
      member-frame k j a (some address) s h = settle-frame k j a _ _ h

      -- A turn changes its own row at most.
      pub pay-frame :
          (e : Text × Attempt) (s : Fanning store) (j : Text)
          → text_eq e.0 j ≡ false
          → store.get j (pay e s).attempts ≡ store.get j s.attempts
      pay-frame (k, a) s j h = elim (Bool-cases (is_claimable store (store.get k s.attempts))) [
        | inl claimed ↦ rw claimed (
            member-frame k j a (lightning_address a.member_pubkey) _ h
            ∙ put_other store k j _ s.attempts h)
        | inr lost ↦ rw lost refl
      ]

      note_zap-row :
          (k : Text) (a b : Attempt) (answer : Result PayError (Option Text)) (s : Fanning store)
          → store.get k s.attempts ≡ some b
          → store.get k (note_zap store k a answer s).attempts ≡ some (zapped_row b answer)
      note_zap-row k a b (err e) s h = put_same store k _ s.attempts b h
      note_zap-row k a b (ok none) s h = h
      note_zap-row k a b (ok (some event)) s h = put_same store k _ s.attempts b h

      publish-row :
          (k hash : Text) (a : Attempt) (publisher : Option ZapPublisher) (s : Fanning store)
          → store.get k s.attempts ≡ some (with_payment_hash hash a)
          → store.get k (publish store zap_publisher block_hash k a hash publisher s).attempts
            ≡ some (published_row (with_payment_hash hash a) hash publisher)
      publish-row k hash a none s h = h
      publish-row k hash a (some publisher) s h =
          rw h (elim (Bool-cases (is_some (usable a.zap_event_id))) [
            | inl has ↦ rw has h
            | inr lacks ↦ rw lacks (note_zap-row k a (with_payment_hash hash a) _ s h)
          ])

      settle-row :
          (k : Text) (a : Attempt) (answer : Result PayError Text) (s : Fanning store)
          → store.get k s.attempts ≡ some (with_status in_flight a)
          → store.get k (settle_payment store zap_publisher block_hash k a answer s).attempts
            ≡ some (answered_row a answer)
      settle-row k a (err e) s h = put_same store k _ s.attempts (with_status in_flight a) h
      settle-row k a (ok hash) s h =
          publish-row k hash a zap_publisher _
            (put_same store k _ s.attempts (with_status in_flight a) h)

      member-row :
          (k : Text) (a : Attempt) (address : Option Text) (s : Fanning store)
          → store.get k s.attempts ≡ some (with_status in_flight a)
          → store.get k
              (pay_member store zap_publisher block_hash client lightning_address k a address
                s).attempts
            ≡ some (paid_row a s.sent address)
      member-row k a none s h = put_same store k _ s.attempts (with_status in_flight a) h
      member-row k a (some address) s h = settle-row k a _ _ h

      -- A turn leaves the row of its attempt as `end_row` says.
      pub pay-row :
          (k : Text) (a : Attempt) (s : Fanning store)
          → store.get k s.attempts ≡ some a
          → is_pending a.status ≡ true
          → store.get k (pay (k, a) s).attempts ≡ some (end_row s.sent a)
      pay-row k a s h p =
          let claimed : is_claimable store (store.get k s.attempts) ≡ true = rw h p in
          rw claimed (
            member-row k a (lightning_address a.member_pubkey) _
              (put_same store k _ s.attempts a h))

      -- What a turn adds to the payments that were sent.
      note_zap-sent :
          (k : Text) (a : Attempt) (answer : Result PayError (Option Text)) (s : Fanning store)
          → (note_zap store k a answer s).sent ≡ s.sent
      note_zap-sent k a (err e) s = refl
      note_zap-sent k a (ok none) s = refl
      note_zap-sent k a (ok (some event)) s = refl

      settle-sent :
          (k : Text) (a : Attempt) (answer : Result PayError Text) (s : Fanning store)
          → (settle_payment store zap_publisher block_hash k a answer s).sent ≡ s.sent
      settle-sent k a (err e) s = refl
      settle-sent k a (ok hash) s = published k hash a zap_publisher _
        where
          published :
              (k hash : Text) (a : Attempt) (publisher : Option ZapPublisher) (s : Fanning store)
              → (publish store zap_publisher block_hash k a hash publisher s).sent ≡ s.sent
          published k hash a none s = refl
          published k hash a (some publisher) s =
              elim (Bool-cases (lacks_zap (store.get k s.attempts))) [
                | inl lacks ↦ rw lacks (note_zap-sent k a _ s)
                | inr has ↦ rw has refl
              ]

      member-sent :
          (k : Text) (a : Attempt) (address : Option Text) (s : Fanning store)
          → (pay_member store zap_publisher block_hash client lightning_address k a address s).sent
            ≡ s.sent ++ payments_of k a address
      member-sent k a none s = sym (append-nil s.sent)
      member-sent k a (some address) s = settle-sent k a _ _

      pub pay-sent :
          (k : Text) (a : Attempt) (s : Fanning store)
          → store.get k s.attempts ≡ some a
          → is_pending a.status ≡ true
          → (pay (k, a) s).sent ≡ s.sent ++ payments_of k a (lightning_address a.member_pubkey)
      pay-sent k a s h p =
          let claimed : is_claimable store (store.get k s.attempts) ≡ true = rw h p in
          rw claimed (member-sent k a (lightning_address a.member_pubkey) _)
