-- ===== src/Payouts/Fanout/Marked.antt =====
-- apps/payouts/src/dust-fanout.ts, `fanoutDust`: when the block is marked DUST_FANNED_OUT.
use mathlib.Core.Option
use hashden.Common.{
  ◌&&◌, ◌==◌, ◌≡◌, refl, sym, ap, subst, ◌∙◌, Bool, true, false, Option, none, some, is_some,
  if◌then◌else◌, ok, Bool-cases, Option-cases, inl, inr, arith, ==_iff, and-eq-true,
}
use hashden.Common.Text.{Text}
use hashden.Payouts.Types.{
  LnClient, Attempt, is_paid, is_failed, Block, is_dust_fanned_out, dust_fanned_out, is_matured,
}
use hashden.Payouts.Maturity.{with_block_status}
use hashden.Payouts.Store.{RowStore}
use hashden.Payouts.Store.Sweep.{sweep, put_same, has_id-select}
use hashden.Payouts.Fanout.{ZapPublisher, is_payable, Fanning, fanout_block, start}
use hashden.Payouts.Fanout.Pass.{
  pass, due_rows, fanout_dust-eq, fanout_dust-IsAfter, fanout_dust_iff,
}
use hashden.Payouts.Fanout.Settled.{IsSettled, turn}
use hashden.Payouts.Fanout.Failures.{sweep-unfailed}

true_is_not_false : true ≡ false → ⊥
true_is_not_false e = cc

some_Bool-inj : {b c : Bool} → some b ≡ some c → b ≡ c
some_Bool-inj e = cc

paid_if_unfailed :
    (a b : Attempt)
    → IsSettled a b
    → some (is_failed b.status) ≡ some false
    → is_paid b.status ≡ true
paid_if_unfailed a b h f = elim h.final [
  | inl p ↦ p.0
  | inr q ↦ absurd (true_is_not_false (sym q ∙ some_Bool-inj f))
]

marked_if :
    (block : Block) (c : Bool)
    → some (is_matured block.status) ≡ some true
    → some
        (is_dust_fanned_out (if c then with_block_status dust_fanned_out block else block).status)
      ≡ some true
    → c ≡ true
marked_if block true h e = refl
marked_if block false h e = ground (arith, h, e)

module _ (store : RowStore Attempt) (blocks : RowStore Block)
    (build_ln_client : Text → Option LnClient) (lightning_address : Text → Text → Option Text)
    (zap_publisher : Option ZapPublisher) (block_id : Text) where
  -- The status of the block after the pass: it is marked if the operator has a wallet and no payment
  -- is counted as failed, and is left matured otherwise.
  pub fanout_dust-block :
      (t : blocks.Table) (s : Fanning store) (block : Block) (last : blocks.Table × Fanning store)
      → blocks.get block_id t ≡ some block
      → pass store blocks build_ln_client lightning_address zap_publisher block_id (t, s) ≡ ok last
      → blocks.get block_id last.0
        ≡ some (
            if is_some (build_ln_client block.group_id) && (last.1.result.failed_count == 0)
            then with_block_status dust_fanned_out block
            else block)
  fanout_dust-block t s block last h e =
      let same =
        fanout_dust-eq store blocks build_ln_client lightning_address zap_publisher block_id t s
          block last h e in
      rw same (marked (build_ln_client block.group_id))
    where
      marked :
          (client : Option LnClient)
          → let last =
              fanout_block store blocks build_ln_client lightning_address zap_publisher block_id
                block client
                (t, s) in
            blocks.get block_id last.0
            ≡ some (
                if is_some client && (last.1.result.failed_count == 0)
                then with_block_status dust_fanned_out block
                else block)
      marked none = h
      marked (some client) =
          let pending = store.select (is_payable block_id) s.attempts in
          let count =
            (sweep (turn zap_publisher block.hash client (lightning_address block.group_id) store)
              pending
              (start store blocks build_ln_client lightning_address zap_publisher block_id pending
                s)).result.failed_count in
          elim (Bool-cases (count == 0)) [
            | inl none_failed ↦ rw none_failed (put_same blocks block_id _ t block h)
            | inr some_failed ↦ rw some_failed h
          ]

  unfailed_row :
      (t : blocks.Table) (s : Fanning store) (block : Block) (client : LnClient) (k : Text)
      (a : Attempt)
      → let last =
          fanout_block store blocks build_ln_client lightning_address zap_publisher block_id block
            (some client)
            (t, s) in
        last.1.result.failed_count ≡ 0
        → store.get k s.attempts ≡ some a
        → is_payable block_id a ≡ true
        → (b : Attempt) × (store.get k last.1.attempts ≡ some b) × (is_failed b.status ≡ false)
  unfailed_row t s block client k a z g p =
      let pending = store.select (is_payable block_id) s.attempts in
      sweep-unfailed zap_publisher block.hash store client (lightning_address block.group_id)
        pending
        (start store blocks build_ln_client lightning_address zap_publisher block_id pending s) k
        (store.select-distinct _ s.attempts)
        (due_rows store block_id s.attempts pending (store.select-sound _ s.attempts)) z
        (has_id-select store (is_payable block_id) s.attempts k a g ∙ p)

  marked_only_if :
      (t : blocks.Table) (s : Fanning store) (block : Block) (last : blocks.Table × Fanning store)
      → blocks.get block_id t ≡ some block
      → pass store blocks build_ln_client lightning_address zap_publisher block_id (t, s) ≡ ok last
      → Option.map (λ b. is_dust_fanned_out b.status) (blocks.get block_id last.0) ≡ some true
      → (client : LnClient) × (build_ln_client block.group_id ≡ some client)
        × (last.1.result.failed_count ≡ 0)
  marked_only_if t s block last h e m =
      let (found, at, is) =
        (fanout_dust_iff store blocks build_ln_client lightning_address zap_publisher block_id t
            s).0
          (last, e) in
      let now : some found ≡ some block = sym at ∙ h in
      let status : some (
            is_dust_fanned_out
              (if is_some (build_ln_client block.group_id) && (last.1.result.failed_count == 0)
                then with_block_status dust_fanned_out block
                else block).status)
          ≡ some true =
        ap (Option.map (λ (b : Block). is_dust_fanned_out b.status))
          (sym (fanout_dust-block t s block last h e))
        ∙ m in
      let matured : some (is_matured block.status) ≡ some true =
        ap (Option.map (λ (b : Block). is_matured b.status)) (sym now) ∙ ap some is in
      let (built, unfailed) = and-eq-true _ _ (marked_if block _ matured status) in
      elim (Option-cases (build_ln_client block.group_id)) [
        | inl none_built ↦ absurd (true_is_not_false (sym built ∙ ap is_some none_built))
        | inr (client, is_built) ↦
            (client, is_built, (==_iff last.1.result.failed_count 0).0 unfailed)
      ]

  -- A block that a pass marks DUST_FANNED_OUT has no open payment: each dust attempt of the block that
  -- was pending is PAID.
  pub fanout_dust-paid :
      (t : blocks.Table) (s : Fanning store) (block : Block) (last : blocks.Table × Fanning store)
      (k : Text) (a : Attempt)
      → blocks.get block_id t ≡ some block
      → pass store blocks build_ln_client lightning_address zap_publisher block_id (t, s) ≡ ok last
      → Option.map (λ b. is_dust_fanned_out b.status) (blocks.get block_id last.0) ≡ some true
      → store.get k s.attempts ≡ some a
      → is_payable block_id a ≡ true
      → Option.map (λ (b : Attempt). is_paid b.status) (store.get k last.1.attempts) ≡ some true
  fanout_dust-paid t s block last k a h e m g p =
      let (b, row, after) =
        fanout_dust-IsAfter store blocks build_ln_client lightning_address zap_publisher block_id t
          s block last k a h e g in
      let (client, built, z) = marked_only_if t s block last h e m in
      let same =
        fanout_dust-eq store blocks build_ln_client lightning_address zap_publisher block_id t s
          block last h e
        ∙ ap
            (λ c.
              fanout_block store blocks build_ln_client lightning_address zap_publisher block_id
                block c (t, s))
            built in
      let (c, row_c, unfailed) =
        unfailed_row t s block client k a
          (ap (λ (l : blocks.Table × Fanning store). l.1.result.failed_count) (sym same) ∙ z) g p in
      let one : some b ≡ some c =
        sym row
        ∙ ap (λ (l : blocks.Table × Fanning store). store.get k l.1.attempts) same
        ∙ row_c in
      ap (Option.map (λ (b : Attempt). is_paid b.status)) row
      ∙ ap some (
          paid_if_unfailed a b (subst (λ i. if i then IsSettled a b else (b ≡ a)) p after)
            (ap (Option.map (λ (b : Attempt). is_failed b.status)) one ∙ ap some unfailed))
