-- ===== src/Payouts/Fanout/Pass.antt =====
-- apps/payouts/src/dust-fanout.ts, `fanoutDust`: when a pass runs, the payments that it sends, and the
-- status in which it leaves each attempt.
use mathlib.Core.List.{append-nil}
use hashden.Common.{
  ◌≡◌, ◌↔◌, refl, sym, ap, subst, ◌∙◌, true, List, [], ◌∷◌, ◌++◌, Option, none, some, if◌then◌else◌,
  Result, ok, err, All, Bool-cases, Option-cases, inl, inr, and-eq-true,
}
use hashden.Common.Text.{Text}
use hashden.Payouts.Types.{
  LnClient, Payment, Attempt, is_pending, failed, with_status, Block, is_matured,
}
use hashden.Payouts.Store.{RowStore}
use hashden.Payouts.Store.Sweep.{sweep-get, sweep-frame, put_other, put_same, has_id-select}
use hashden.Payouts.Fanout.{
  ZapPublisher, is_payable, Fanning, World, fanout_block, fanout_found, fanout_dust, fail_all,
  start, FanoutError, not_matured,
}
use hashden.Payouts.Fanout.Attempts.{end_row, pay, pay-frame}
use hashden.Payouts.Fanout.Settled.{
  IsSettled, failed-IsSettled, paid-IsSettled, payments, sweep-sent, sweep-row,
}

ok-inj : {E A : Type 0} {a b : A} → ◌≡◌ {A = Result E A} (ok a) (ok b) → a ≡ b
ok-inj e = cc

err_is_not_ok : {E A : Type 0} {e : E} {a : A} → ◌≡◌ {A = Result E A} (err e) (ok a) → ⊥
err_is_not_ok e = cc

pub due_rows :
    (store : RowStore Attempt) (block_id : Text) (t : store.Table) (rows : List (Text × Attempt))
    → All
        (λ (e : Text × Attempt). (store.get e.0 t ≡ some e.1) × (is_payable block_id e.1 ≡ true))
        rows
    → All
        (λ (e : Text × Attempt). (store.get e.0 t ≡ some e.1) × (is_pending e.1.status ≡ true))
        rows
due_rows store block_id t [] h = tt
due_rows store block_id t (e ∷ rows) h =
    ((h.0.0, (and-eq-true _ _ h.0.1).1), due_rows store block_id t rows h.1)

module _ (store : RowStore Attempt) (blocks : RowStore Block)
    (build_ln_client : Text → Option LnClient) (lightning_address : Text → Text → Option Text)
    (zap_publisher : Option ZapPublisher) (block_id : Text) where
  abbrev pub pass :
      World store blocks build_ln_client lightning_address zap_publisher block_id
      → Result FanoutError
          (World store blocks build_ln_client lightning_address zap_publisher block_id)
  pass = fanout_dust store blocks build_ln_client lightning_address zap_publisher block_id

  -- A pass runs to its end exactly for a block that is stored and matured; every other call throws.
  pub fanout_dust_iff :
      (t : blocks.Table) (s : Fanning store)
      → ((last : blocks.Table × Fanning store) × (pass (t, s) ≡ ok last)) ↔ (
          (block : Block) × (blocks.get block_id t ≡ some block) × (is_matured block.status ≡ true))
  unfolding fanout_dust
  fanout_dust_iff t s = elim (Option-cases (blocks.get block_id t)) [
    | inl missing ↦ rw missing ((λ (last, h). cc), (λ (block, h, m). cc))
    | inr (block, e) ↦ rw e (elim (Bool-cases (is_matured block.status)) [
      | inl is ↦ rw is ((λ (last, h). (block, refl, is)), (λ (b, h, m). (_, refl)))
      | inr isnt ↦ rw isnt ((λ (last, h). cc), (λ (b, h, m). cc))
    ])
  ]

  -- What a pass returns.
  pub fanout_dust-eq :
      (t : blocks.Table) (s : Fanning store) (block : Block) (last : blocks.Table × Fanning store)
      → blocks.get block_id t ≡ some block
      → pass (t, s) ≡ ok last
      → last
        ≡ fanout_block store blocks build_ln_client lightning_address zap_publisher block_id block
            (build_ln_client block.group_id)
            (t, s)
  unfolding fanout_dust
  fanout_dust-eq t s block last h e =
      let found : fanout_found store blocks build_ln_client lightning_address zap_publisher block_id
            (some block) (t, s)
          ≡ ok last =
        ap
          (λ b.
            fanout_found store blocks build_ln_client lightning_address zap_publisher block_id b
              (t, s))
          (sym h)
        ∙ e in
      elim (Bool-cases (is_matured block.status)) [
        | inl is ↦ ok-inj (sym found ∙ rw is refl)
        | inr isnt ↦ absurd (
            err_is_not_ok (
              subst
                (λ m.
                  (if m
                    then ok (
                        fanout_block store blocks build_ln_client lightning_address zap_publisher
                          block_id block (build_ln_client block.group_id) (t, s))
                    else err (not_matured block.status))
                  ≡ ok last)
                isnt found))
      ]

  abbrev pub planned : Block → Option LnClient → List (Text × Attempt) → List Payment
  planned block none rows = []
  planned block (some client) rows =
      payments zap_publisher block.hash client (lightning_address block.group_id) rows

  block-sent :
      (t : blocks.Table) (s : Fanning store) (block : Block) (client : Option LnClient)
      → (fanout_block store blocks build_ln_client lightning_address zap_publisher block_id block
          client
          (t, s)).1.sent
        ≡ s.sent ++ planned block client (store.select (is_payable block_id) s.attempts)
  block-sent t s block none = sym (append-nil s.sent)
  block-sent t s block (some client) =
      let pending = store.select (is_payable block_id) s.attempts in
      sweep-sent zap_publisher block.hash client (lightning_address block.group_id) store pending _
        (store.select-distinct _ s.attempts)
        (due_rows store block_id s.attempts pending (store.select-sound _ s.attempts))

  -- The payments of a pass with one worker are exactly one for each pending dust attempt of the block
  -- whose member is still registered, of the attempt's amount to the member's address, in the order of
  -- the rows; without a wallet there are none.
  pub fanout_dust-sent :
      (t : blocks.Table) (s : Fanning store) (block : Block) (last : blocks.Table × Fanning store)
      → blocks.get block_id t ≡ some block
      → pass (t, s) ≡ ok last
      → last.1.sent
        ≡ s.sent
          ++ planned block
              (build_ln_client block.group_id)
              (store.select (is_payable block_id) s.attempts)
  fanout_dust-sent t s block last h e =
      ap (λ (l : blocks.Table × Fanning store). l.1.sent) (fanout_dust-eq t s block last h e)
      ∙ block-sent t s block (build_ln_client block.group_id)

  abbrev pub IsAfter : Attempt → Attempt → Type 0
  IsAfter a b = if is_payable block_id a then IsSettled a b else (b ≡ a)

  fail_all-row :
      (t : store.Table) (k : Text) (a : Attempt)
      → store.get k t ≡ some a
      → store.get k (fail_all store (is_payable block_id) t).0
        ≡ some (if is_payable block_id a then with_status failed a else a)
  fail_all-row t k a h =
      sweep-get store (λ t. t) (λ (e : Text × Attempt). store.put e.0 (with_status failed))
        (λ e t j apart. put_other store e.0 j _ t apart) (λ a. is_payable block_id a ≡ true)
        (with_status failed) (λ e t g p. put_same store e.0 _ t e.1 g)
        (store.select (is_payable block_id) t) t k a (store.select-distinct _ t)
        (store.select-sound _ t) h
      ∙ rw (has_id-select store (is_payable block_id) t k a h) refl

  block-row :
      (t : blocks.Table) (s : Fanning store) (block : Block) (client : Option LnClient) (k : Text)
      (a : Attempt)
      → store.get k s.attempts ≡ some a
      → (b : Attempt) × (store.get k
            (fanout_block store blocks build_ln_client lightning_address zap_publisher block_id
              block client
              (t, s)).1.attempts
          ≡ some b)
        × IsAfter a b
  block-row t s block none k a h = elim (Bool-cases (is_payable block_id a)) [
    | inl due ↦ (
      with_status failed a,
      fail_all-row s.attempts k a h ∙ rw due refl,
      rw due (failed-IsSettled a),
    )
    | inr isnt ↦ (a, fail_all-row s.attempts k a h ∙ rw isnt refl, rw isnt refl)
  ]
  block-row t s block (some client) k a h =
      let pending = store.select (is_payable block_id) s.attempts in
      let chosen = has_id-select store (is_payable block_id) s.attempts k a h in
      let here = pay zap_publisher block.hash client (lightning_address block.group_id) store in
      let apart =
        pay-frame zap_publisher block.hash client (lightning_address block.group_id) store in
      elim (Bool-cases (is_payable block_id a)) [
        | inr isnt ↦ (
          a,
          sweep-frame store (λ s. s.attempts) here apart pending
                (start store blocks build_ln_client lightning_address zap_publisher block_id pending
                  s)
                k (chosen ∙ isnt)
              ∙ h,
          rw isnt refl,
        )
        | inl due ↦
            let first =
              start store blocks build_ln_client lightning_address zap_publisher block_id pending
                s in
            let (sent, row) =
              sweep-row zap_publisher block.hash client (lightning_address block.group_id) store
                pending first k a (store.select-distinct _ s.attempts)
                (due_rows store block_id s.attempts pending (store.select-sound _ s.attempts))
                (chosen ∙ due) h in
            (
              end_row zap_publisher block.hash client (lightning_address block.group_id) sent a,
              row,
              rw due (
                  paid-IsSettled zap_publisher block.hash client (lightning_address block.group_id)
                    a sent (lightning_address block.group_id a.member_pubkey)),
            )
      ]

  -- After a pass every pending dust attempt of the block is settled: it is PAID, with the hash of the
  -- Lightning payment, or FAILED, for the same member and amount. Every other attempt is unchanged.
  pub fanout_dust-IsAfter :
      (t : blocks.Table) (s : Fanning store) (block : Block) (last : blocks.Table × Fanning store)
      (k : Text) (a : Attempt)
      → blocks.get block_id t ≡ some block
      → pass (t, s) ≡ ok last
      → store.get k s.attempts ≡ some a
      → (b : Attempt) × (store.get k last.1.attempts ≡ some b) × IsAfter a b
  fanout_dust-IsAfter t s block last k a h e g =
      subst
        (λ (l : blocks.Table × Fanning store).
          (b : Attempt) × (store.get k l.1.attempts ≡ some b) × IsAfter a b)
        (sym (fanout_dust-eq t s block last h e))
        (block-row t s block (build_ln_client block.group_id) k a g)
