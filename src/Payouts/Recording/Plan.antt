-- ===== src/Payouts/Recording/Plan.antt =====
-- apps/payouts/src/dust-fanout.ts, `recordOnChainPayouts`: the rows that a call leaves, and that a second
-- call changes none of them.
use mathlib.Core.Option
use hashden.Common.{
  ◌≡◌, refl, sym, ap, ◌∙◌, List, [], ◌∷◌, ◌++◌, Option, none, some, Result, ok, err, if◌then◌else◌,
  Bool-cases, inl, inr,
}
use hashden.Common.Text.{Text}
use hashden.Coinbase.Output.{CoinbaseOutput, DustBreakdownEntry}
use hashden.Payouts.Types.{Attempt, on_chain_coinbase, ln_dust, paid, pending, PayError}
use hashden.Payouts.Fanout.{with_zap_event}
use hashden.Payouts.Recording.{
  AttemptKey, same_key, or_else, UniqueStore, Snapshot, outputs_of, breakdown_of, member_of,
  new_attempt, OutputZapPublisher, Recorded, Outcome, note_event, zap_unless, output_key, dust_key,
  record_member, record_dust, record_all_dust, record_outputs, record_on_chain_payouts,
}

-- A row without its zap receipt.
abbrev pub unzapped : Attempt → Attempt
unzapped a = record {
  block_id = a.block_id;
  member_pubkey = a.member_pubkey;
  amount_sats = a.amount_sats;
  kind = a.kind;
  status = a.status;
  ln_payment_hash = a.ln_payment_hash;
  zap_event_id = none;
}

abbrev pub merge : Option Attempt → Option Attempt → Option Attempt
merge none b = b
merge (some a) b = some a

-- The first of the planned rows that has the key.
abbrev pub first_for : AttemptKey → List (AttemptKey × Attempt) → Option Attempt
first_for j [] = none
first_for j ((k, a) ∷ plan) = if same_key k j then some a else first_for j plan

module _ (store : UniqueStore) (zap_publisher : Option OutputZapPublisher) (block_id : Text) where
  abbrev pub view : AttemptKey → store.Table → Option Attempt
  view j t = Option.map unzapped (store.get j t)

  abbrev pub plan_member : CoinbaseOutput → Option Text → List (AttemptKey × Attempt)
  plan_member o none = []
  plan_member o (some pubkey) =
      (
        output_key store zap_publisher block_id pubkey,
        new_attempt block_id pubkey o.sats on_chain_coinbase paid,
      )
      ∷ []

  -- The rows that a coinbase asks for: PAID for a member's output, PENDING for a dust entry.
  abbrev pub plan_dust : List DustBreakdownEntry → List (AttemptKey × Attempt)
  plan_dust [] = []
  plan_dust (d ∷ ds) =
      (
        dust_key store zap_publisher block_id d.member_pubkey,
        new_attempt block_id d.member_pubkey d.owed_sats ln_dust pending,
      )
      ∷ plan_dust ds

  abbrev pub plan : List CoinbaseOutput → List DustBreakdownEntry → List (AttemptKey × Attempt)
  plan [] ds = plan_dust ds
  plan (o ∷ os) ds = plan_member o (member_of o.kind o.member_pubkey) ++ plan os ds

  view-upsert :
      (k j : AttemptKey) (a : Attempt) (t : store.Table)
      → unzapped a ≡ a
      → view j (store.upsert k a t) ≡ merge (view j t) (if same_key k j then some a else none)
  view-upsert k j a t fresh = elim (Bool-cases (same_key k j)) [
    | inr other ↦ rw (store.get-upsert k j a t, other) (kept (view j t))
    | inl same ↦ rw (store.get-upsert k j a t, same) (added (store.get j t))
  ]
    where
      kept : (o : Option Attempt) → o ≡ merge o none
      kept none = refl
      kept (some b) = refl

      added :
          (o : Option Attempt)
          → some (unzapped (or_else o a)) ≡ merge (Option.map unzapped o) (some a)
      added none = ap some fresh
      added (some b) = refl

  view-put :
      (k j : AttemptKey) (event : Text) (t : store.Table)
      → view j (store.put k (with_zap_event event) t) ≡ view j t
  view-put k j event t = elim (Bool-cases (same_key k j)) [
    | inr other ↦ rw (store.get-put k j (with_zap_event event) t, other) refl
    | inl same ↦ rw (store.get-put k j (with_zap_event event) t, same) (erased (store.get j t))
  ]
    where
      erased :
          (o : Option Attempt)
          → Option.map unzapped (Option.map (with_zap_event event) o) ≡ Option.map unzapped o
      erased none = refl
      erased (some a) = refl

  merge_assoc : (a b c : Option Attempt) → merge (merge a b) c ≡ merge a (merge b c)
  merge_assoc none b c = refl
  merge_assoc (some a) b c = refl

  first_for-cons :
      (j k : AttemptKey) (a : Attempt) (l : List (AttemptKey × Attempt))
      → merge (if same_key k j then some a else none) (first_for j l) ≡ first_for j ((k, a) ∷ l)
  first_for-cons j k a l = elim (Bool-cases (same_key k j)) [
    | inl same ↦ rw same refl
    | inr other ↦ rw other refl
  ]

  note_event-view :
      (k j : AttemptKey) (answer : Result PayError (Option Text)) (s : Recorded store)
      → view j (note_event store k answer s).0.attempts ≡ view j s.attempts
  note_event-view k j (err e) s = refl
  note_event-view k j (ok none) s = refl
  note_event-view k j (ok (some [])) s = refl
  note_event-view k j (ok (some (c ∷ event))) s = view-put k j (c ∷ event) s.attempts

  zap-view :
      (k j : AttemptKey) (o : CoinbaseOutput) (pubkey : Text) (event : Option Text)
      (publisher : Option OutputZapPublisher) (s : Recorded store)
      → view j (zap_unless store zap_publisher block_id k o pubkey event publisher s).0.attempts
        ≡ view j s.attempts
  zap-view k j o pubkey (some event) publisher s = refl
  zap-view k j o pubkey none none s = refl
  zap-view k j o pubkey none (some publisher) s = note_event-view k j _ s

  member-view :
      (j : AttemptKey) (o : CoinbaseOutput) (pubkey : Option Text) (s : Recorded store)
      (l : List (AttemptKey × Attempt))
      → merge
          (view j (record_member store zap_publisher block_id o pubkey s).0.attempts)
          (first_for j l)
        ≡ merge (view j s.attempts) (first_for j (plan_member o pubkey ++ l))
  member-view j o none s l = refl
  member-view j o (some pubkey) s l =
      let k = output_key store zap_publisher block_id pubkey in
      let a = new_attempt block_id pubkey o.sats on_chain_coinbase paid in
      ap (λ v. merge v (first_for j l))
        (zap-view k j o pubkey _ zap_publisher _ ∙ view-upsert k j a s.attempts refl)
      ∙ merge_assoc (view j s.attempts) _ (first_for j l)
      ∙ ap (merge (view j s.attempts)) (first_for-cons j k a l)

  dust-view :
      (j : AttemptKey) (ds : List DustBreakdownEntry) (s : Recorded store)
      → view j (record_all_dust store zap_publisher block_id ds s).attempts
        ≡ merge (view j s.attempts) (first_for j (plan_dust ds))
  unfolding record_all_dust
  dust-view j [] s = merge-none (view j s.attempts)
    where
      merge-none : (o : Option Attempt) → o ≡ merge o none
      merge-none none = refl
      merge-none (some a) = refl
  dust-view j (d ∷ ds) s =
      let k = dust_key store zap_publisher block_id d.member_pubkey in
      let a = new_attempt block_id d.member_pubkey d.owed_sats ln_dust pending in
      dust-view j ds (record_dust store zap_publisher block_id d s)
      ∙ ap (λ v. merge v (first_for j (plan_dust ds))) (view-upsert k j a s.attempts refl)
      ∙ merge_assoc (view j s.attempts) _ (first_for j (plan_dust ds))
      ∙ ap (merge (view j s.attempts)) (first_for-cons j k a (plan_dust ds))

  outputs-view :
      (j : AttemptKey) (os : List CoinbaseOutput) (ds : List DustBreakdownEntry) (s : Outcome store)
      (last : Recorded store)
      → record_outputs store zap_publisher block_id os ds s ≡ (last, none)
      → view j last.attempts ≡ merge (view j s.0.attempts) (first_for j (plan os ds))
  unfolding record_outputs
  outputs-view j os ds (s, some e) last h = cc
  outputs-view j [] ds (s, none) last h =
      sym (ap (λ (o : Outcome store). view j o.0.attempts) h) ∙ dust-view j ds s
  outputs-view j (o ∷ os) ds (s, none) last h =
      outputs-view j os ds
        (record_member store zap_publisher block_id o (member_of o.kind o.member_pubkey) s) last h
      ∙ member-view j o (member_of o.kind o.member_pubkey) s (plan os ds)

  -- When a call ends without a throw, each row is as it was before, or, if there was none, it is the first
  -- that the coinbase asks for: PAID for a member's output, PENDING for a dust entry. Only the zap receipt
  -- of a row may change.
  pub record_payouts-view :
      (snapshot : Snapshot) (t : store.Table) (last : Recorded store) (j : AttemptKey)
      → record_on_chain_payouts store zap_publisher block_id (some snapshot) t ≡ (last, none)
      → view j last.attempts
        ≡ merge (view j t) (first_for j (plan (outputs_of snapshot) (breakdown_of snapshot)))
  unfolding record_on_chain_payouts
  record_payouts-view snapshot t last j h =
      outputs-view j (outputs_of snapshot) (breakdown_of snapshot) _ last h

  -- A second call for the same block changes no row, but for its zap receipt.
  pub record_payouts_twice :
      (snapshot : Snapshot) (t : store.Table) (first last : Recorded store) (j : AttemptKey)
      → record_on_chain_payouts store zap_publisher block_id (some snapshot) t ≡ (first, none)
      → record_on_chain_payouts store zap_publisher block_id (some snapshot) first.attempts
        ≡ (last, none)
      → view j last.attempts ≡ view j first.attempts
  record_payouts_twice snapshot t first last j h k =
      let planned = first_for j (plan (outputs_of snapshot) (breakdown_of snapshot)) in
      let once = record_payouts-view snapshot t first j h in
      record_payouts-view snapshot first.attempts last j k
      ∙ ap (λ v. merge v planned) once
      ∙ again (view j t) planned
      ∙ sym once
    where
      again : (a b : Option Attempt) → merge (merge a b) b ≡ merge a b
      again none none = refl
      again none (some b) = refl
      again (some a) b = refl
