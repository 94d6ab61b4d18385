-- ===== src/Payouts/Fanout/Settled.antt =====
-- apps/payouts/src/dust-fanout.ts, `fanoutDust`: the loop over the attempts that are due: where it
-- leaves each of them, and the payments that it sends.
use mathlib.Core.Option
use mathlib.Core.List.{append-nil, append_assoc}
use hashden.Common.{
  ◌≡◌, refl, sym, ap, ◌∙◌, ◌⊎◌, true, false, List, [], ◌∷◌, ◌++◌, Option, none, some, is_some,
  Result, ok, err, All, Bool-cases, inl, inr, arith,
}
use hashden.Common.Text.{Text, text_eq, text_eq_iff}
use hashden.Payouts.Types.{
  LnClient, Payment, PayError, usable, Attempt, is_pending, is_paid, is_failed, failed, with_status,
}
use hashden.Payouts.Store.{RowStore, HasDistinctIds}
use hashden.Payouts.Store.Sweep.{sweep, has_id, sweep-Turn}
use hashden.Payouts.Fanout.{ZapPublisher, with_payment_hash, Fanning}
use hashden.Payouts.Fanout.Attempts.{
  zapped_row, published_row, answered_row, paid_row, end_row, payments_of, pay, pay-frame, pay-row,
  pay-sent,
}

-- An attempt after the pass: the same payment, and PAID with the hash of the Lightning payment or
-- FAILED, so that no later pass takes it again.
pub record IsSettled (a b : Attempt) : Type 0 where
  pub same_block : b.block_id ≡ a.block_id
  pub same_member : b.member_pubkey ≡ a.member_pubkey
  pub same_amount : b.amount_sats ≡ a.amount_sats
  pub same_kind : b.kind ≡ a.kind
  pub final :
      ((is_paid b.status ≡ true) × (is_some b.ln_payment_hash ≡ true)) ⊎ (is_failed b.status ≡ true)

pub failed-IsSettled : (a : Attempt) → IsSettled a (with_status failed a)
failed-IsSettled a = record {
  same_block = refl;
  same_member = refl;
  same_amount = refl;
  same_kind = refl;
  final = inr refl;
}

zapped-IsSettled :
    (a : Attempt) (hash : Text) (answer : Result PayError (Option Text))
    → IsSettled a (zapped_row (with_payment_hash hash a) answer)
zapped-IsSettled a hash (err e) = record {
  same_block = refl;
  same_member = refl;
  same_amount = refl;
  same_kind = refl;
  final = inr refl;
}
zapped-IsSettled a hash (ok none) = record {
  same_block = refl;
  same_member = refl;
  same_amount = refl;
  same_kind = refl;
  final = inl (refl, refl);
}
zapped-IsSettled a hash (ok (some event)) = record {
  same_block = refl;
  same_member = refl;
  same_amount = refl;
  same_kind = refl;
  final = inl (refl, refl);
}

module _ (zap_publisher : Option ZapPublisher) (block_hash : Text) where
  published-IsSettled :
      (a : Attempt) (hash : Text) (publisher : Option ZapPublisher)
      → IsSettled a
          (published_row zap_publisher block_hash (with_payment_hash hash a) hash publisher)
  published-IsSettled a hash none = zapped-IsSettled a hash (ok none)
  published-IsSettled a hash (some publisher) =
      elim (Bool-cases (is_some (usable a.zap_event_id))) [
        | inl has ↦ rw has (zapped-IsSettled a hash (ok none))
        | inr lacks ↦ rw lacks (zapped-IsSettled a hash _)
      ]

  answered-IsSettled :
      (a : Attempt) (answer : Result PayError Text)
      → IsSettled a (answered_row zap_publisher block_hash a answer)
  answered-IsSettled a (err e) = failed-IsSettled a
  answered-IsSettled a (ok hash) = published-IsSettled a hash zap_publisher

  module _ (client : LnClient) (lightning_address : Text → Option Text) where
    pub paid-IsSettled :
        (a : Attempt) (sent : List Payment) (address : Option Text)
        → IsSettled a (paid_row zap_publisher block_hash client lightning_address a sent address)
    paid-IsSettled a sent none = failed-IsSettled a
    paid-IsSettled a sent (some address) = answered-IsSettled a _

    -- The payments for a list of attempts: one for each whose member is registered.
    abbrev pub payments : List (Text × Attempt) → List Payment
    payments [] = []
    payments ((k, a) ∷ rows) =
        payments_of zap_publisher block_hash client lightning_address k a
          (lightning_address a.member_pubkey)
        ++ payments rows

    module _ (store : RowStore Attempt) where
      abbrev pub IsDue : store.Table → Text × Attempt → Type 0
      IsDue t e = (store.get e.0 t ≡ some e.1) × (is_pending e.1.status ≡ true)

      abbrev pub turn : Text × Attempt → Fanning store → Fanning store
      turn = pay zap_publisher block_hash client lightning_address store

      pub IsDue-after :
          (e : Text × Attempt) (s : Fanning store) (rows : List (Text × Attempt))
          → All (λ (d : Text × Attempt). text_eq d.0 e.0 ≡ false) rows
          → All (IsDue s.attempts) rows
          → All (IsDue (turn e s).attempts) rows
      IsDue-after e s [] d h = tt
      IsDue-after e s (c ∷ rows) d h = (
        (
          pay-frame zap_publisher block_hash client lightning_address store e s c.0
                (ground (arith, d.0, text_eq_iff e.0 c.0, text_eq_iff c.0 e.0))
              ∙ h.0.0,
          h.0.1,
        ),
        IsDue-after e s rows d.1 h.1,
      )

      pub sweep-sent :
          (rows : List (Text × Attempt)) (s : Fanning store)
          → HasDistinctIds rows
          → All (IsDue s.attempts) rows
          → (sweep turn rows s).sent ≡ s.sent ++ payments rows
      sweep-sent [] s d h = sym (append-nil s.sent)
      sweep-sent ((k, a) ∷ rows) s d h =
          sweep-sent rows (turn (k, a) s) d.1 (IsDue-after (k, a) s rows d.0 h.1)
          ∙ ap (λ l. l ++ payments rows)
              (pay-sent zap_publisher block_hash client lightning_address store k a s h.0.0 h.0.1)
          ∙ append_assoc s.sent _ (payments rows)

      -- In a loop over due attempts each ends as its turn leaves it.
      pub sweep-row :
          (rows : List (Text × Attempt)) (s : Fanning store) (k : Text) (a : Attempt)
          → HasDistinctIds rows
          → All (IsDue s.attempts) rows
          → has_id k rows ≡ true
          → store.get k s.attempts ≡ some a
          → (sent : List Payment) × (store.get k (sweep turn rows s).attempts
              ≡ some (end_row zap_publisher block_hash client lightning_address sent a))
      sweep-row rows s k a d due chosen h =
          let one =
            sweep-Turn store (λ s. s.attempts) turn
              (pay-frame zap_publisher block_hash client lightning_address store) (IsDue s.attempts)
              rows s k d due chosen in
          let same : some one.e.1 ≡ some a =
            sym one.holds.0 ∙ ap (λ i. store.get i s.attempts) one.id_is ∙ h in
          let at : store.get one.e.0 one.at.attempts ≡ some one.e.1 =
            ap (λ i. store.get i one.at.attempts) one.id_is ∙ one.before ∙ h ∙ sym same in
          (
            one.at.sent,
            one.after
                ∙ ap (λ i. store.get i (turn one.e one.at).attempts) (sym one.id_is)
                ∙ pay-row zap_publisher block_hash client lightning_address store one.e.0 one.e.1
                    one.at at one.holds.1
                ∙ ap
                    (Option.map
                      (end_row zap_publisher block_hash client lightning_address one.at.sent))
                    same,
          )
