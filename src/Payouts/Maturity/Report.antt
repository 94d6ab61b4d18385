-- ===== src/Payouts/Maturity/Report.antt =====
-- apps/payouts/src/maturity-watcher.ts, `checkMaturity`: the result says exactly what the tick did,
-- and a block that has left FOUND is never moved again.
use mathlib.Core.List.{append-nil, append_assoc}
use hashden.Common.{
  ◌≡◌, refl, sym, ap, ◌∙◌, Bool, true, false, List, [], ◌∷◌, ◌++◌, some, if◌then◌else◌, Result, ok,
  err, All, Bool-cases, Result-cases, inl, inr, arith, length, ◌≤◌, ℕ, zero, suc,
}
use hashden.Common.Int.{ℤ, pos, ltb_ℤ, leb_ℤ}
use hashden.Common.Text.{Text, text_eq, text_eq_iff}
use hashden.Payouts.Types.{Block, BlockStatus, is_found, orphaned, is_matured}
use hashden.Payouts.Store.{RowStore}
use hashden.Payouts.Store.Sweep.{sweep, has_id}
use hashden.Payouts.Maturity.{
  MaturityResult, take, candidate_limit, with_block_status, is_block_not_found, Progress,
  settle_block, candidates, check_maturity,
}
use hashden.Payouts.Maturity.Rule.{verdict, check_maturity-get, IsCandidate, candidates_sound}

abbrev pub is_orphaned : BlockStatus → Bool
is_orphaned orphaned = true
is_orphaned _ = false

-- The answers that say nothing of the block.
abbrev pub error_of : Text → Result Text ℤ → List (Text × Text)
error_of k (ok confirmations) = []
error_of k (err reason) = if is_block_not_found reason then [] else (k, reason) ∷ []

module _ (getblock : Text → Result Text ℤ) (maturity_confs : ℤ) where
  -- The ids of the rows that the rule sends to a status.
  abbrev pub judged : (BlockStatus → Bool) → List (Text × Block) → List Text
  judged p [] = []
  judged p ((k, b) ∷ rows) =
      if p (verdict maturity_confs (getblock b.hash)) then k ∷ judged p rows else judged p rows

  abbrev pub errors : List (Text × Block) → List (Text × Text)
  errors [] = []
  errors ((k, b) ∷ rows) = error_of k (getblock b.hash) ++ errors rows

  abbrev pub report_after : MaturityResult → List (Text × Block) → MaturityResult
  report_after r rows = record {
    matured_ids = r.matured_ids ++ judged is_matured rows;
    orphaned_ids = r.orphaned_ids ++ judged is_orphaned rows;
    errored = r.errored ++ errors rows;
  }

  module _ (store : RowStore Block) where
    abbrev step : Text × Block → Progress store → Progress store
    step = settle_block store getblock maturity_confs

    step-report :
        (k : Text) (b : Block) (s : Progress store) (rows : List (Text × Block))
        → report_after (step (k, b) s).1 rows ≡ report_after s.1 ((k, b) ∷ rows)
    step-report k b s rows =
        let m = s.1.matured_ids in
        let o = s.1.orphaned_ids in
        let x = s.1.errored in
        let later_m = judged is_matured rows in
        let later_o = judged is_orphaned rows in
        let later_x = errors rows in
        elim (Result-cases (getblock b.hash)) [
          | inl (confirmations, e) ↦ rw e (elim (Bool-cases (ltb_ℤ confirmations (pos 0))) [
            | inl gone ↦ rw gone (
                ap
                  (λ l. record {
                    matured_ids = m ++ later_m;
                    orphaned_ids = l;
                    errored = x ++ later_x;
                  })
                  (append_assoc o (k ∷ []) later_o))
            | inr chained ↦ rw chained (elim (Bool-cases (leb_ℤ maturity_confs confirmations)) [
              | inl deep ↦ rw deep (
                  ap
                    (λ l. record {
                      matured_ids = l;
                      orphaned_ids = o ++ later_o;
                      errored = x ++ later_x;
                    })
                    (append_assoc m (k ∷ []) later_m))
              | inr young ↦ rw young refl
            ])
          ])
          | inr (reason, e) ↦ rw e (elim (Bool-cases (is_block_not_found reason)) [
            | inl gone ↦ rw gone (
                ap
                  (λ l. record {
                    matured_ids = m ++ later_m;
                    orphaned_ids = l;
                    errored = x ++ later_x;
                  })
                  (append_assoc o (k ∷ []) later_o))
            | inr lagging ↦ rw lagging (
                ap
                  (λ l. record {
                    matured_ids = m ++ later_m;
                    orphaned_ids = o ++ later_o;
                    errored = l;
                  })
                  (append_assoc x ((k, reason) ∷ []) later_x))
          ])
        ]

    sweep-report :
        (rows : List (Text × Block)) (s : Progress store)
        → (sweep step rows s).1 ≡ report_after s.1 rows
    sweep-report [] s =
        rw (append-nil s.1.matured_ids, append-nil s.1.orphaned_ids, append-nil s.1.errored) refl
    sweep-report ((k, b) ∷ rows) s = sweep-report rows (step (k, b) s) ∙ step-report k b s rows

    -- The result of a tick lists, in the order in which they were read, the candidates that the rule
    -- makes matured, those that it makes orphaned, and those whose error says nothing of the block,
    -- with its message.
    pub check_maturity-report :
        (t : store.Table)
        → (check_maturity store getblock maturity_confs t).1 ≡ record {
          matured_ids = judged is_matured (candidates store getblock maturity_confs t);
          orphaned_ids = judged is_orphaned (candidates store getblock maturity_confs t);
          errored = errors (candidates store getblock maturity_confs t);
        }
    unfolding check_maturity
    check_maturity-report t =
        sweep-report (candidates store getblock maturity_confs t)
          (t, record { matured_ids = []; orphaned_ids = []; errored = [] })

    not_candidate :
        (t : store.Table) (k : Text) (b : Block) (rows : List (Text × Block))
        → All (IsCandidate store getblock maturity_confs t) rows
        → store.get k t ≡ some b
        → is_found b.status ≡ false
        → has_id k rows ≡ false
    not_candidate t k b [] h g f = refl
    not_candidate t k b ((j, c) ∷ rows) h g f = elim (Bool-cases (text_eq j k)) [
      | inr apart ↦ rw apart (not_candidate t k b rows h.1 g f)
      | inl same ↦
          let both : some c ≡ some b =
            sym h.0.0 ∙ ap (λ i. store.get i t) ((text_eq_iff j k).0 same) ∙ g in
          ground (arith, both, h.0.1)
    ]

    all_taken : (n : ℕ) (rows : List (Text × Block)) → length rows ≤ n → take n rows ≡ rows
    all_taken zero [] h = refl
    all_taken (suc n) [] h = refl
    all_taken zero (e ∷ rows) h = absurd (omega (arith, h))
    all_taken (suc n) (e ∷ rows) h = ap (◌∷◌ e) (all_taken n rows (omega arith))

    -- A tick with at most 200 found blocks judges each of them by the rule, and leaves every block
    -- that is not found, a matured or an orphaned one for example, as it is.
    pub check_maturity_complete :
        (t : store.Table) (k : Text) (b : Block)
        → length (store.select (λ b. is_found b.status) t) ≤ candidate_limit
        → store.get k t ≡ some b
        → store.get k (check_maturity store getblock maturity_confs t).0
          ≡ some (
              if is_found b.status
              then with_block_status (verdict maturity_confs (getblock b.hash)) b
              else b)
    check_maturity_complete t k b few h = elim (Bool-cases (is_found b.status)) [
      | inl is ↦
          let chosen : has_id k (candidates store getblock maturity_confs t) ≡ true =
            ap (has_id k) (all_taken candidate_limit _ few) ∙ store.select-complete _ t k b h is in
          rw is (check_maturity-get store getblock maturity_confs t k b h ∙ rw chosen refl)
      | inr not ↦ rw not (
          check_maturity-get store getblock maturity_confs t k b h
          ∙ rw (not_candidate t k b _ (candidates_sound store getblock maturity_confs t) h not)
              refl)
    ]
