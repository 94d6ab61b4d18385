-- ===== src/Payouts/Tests.antt =====
-- apps/payouts/src/maturity-watcher.ts: runs at fixed inputs, and the theorems applied to them.
use hashden.Common.{
  ◌≡◌, refl, ◌≤◌, List, [], ◌∷◌, some, Result, ok, err, if◌then◌else◌, arith, length,
}
use hashden.Common.Int.{ℤ, pos, negsuc}
use hashden.Common.Text.{Text, codes, text_eq}
use hashden.Payouts.Types.{is_found, Block, found, matured, orphaned}
use hashden.Payouts.Store.Rows.{rows_store, get_row, put_row, select_rows}
use hashden.Payouts.Maturity.{
  candidates, candidate_limit, check_maturity, contains_ignoring_case, starts_with_ignoring_case,
  fold_case, with_block_status,
}
use hashden.Payouts.Store.Sweep.{has_id}
use hashden.Payouts.Maturity.Rule.{verdict, check_maturity-get}
use hashden.Payouts.Maturity.Report.{check_maturity_complete}
use hashden.Payouts.Samples.{block}

-- The node knows a deep, a young and an orphaned block, and not the block dd.
abbrev confirmations : Text → Result Text ℤ
confirmations h =
    if text_eq h (codes "aa")
    then ok (pos 120)
    else if text_eq h (codes "bb")
    then ok (pos 7)
    else if text_eq h (codes "cc")
    then ok (negsuc 0)
    else err (codes "RPC error: block not FOUND")

abbrev chain : List (Text × Block)
chain =
    (codes "b1", block (codes "aa") found)
    ∷ (codes "b2", block (codes "bb") found)
    ∷ (codes "b3", block (codes "cc") found)
    ∷ (codes "b4", block (codes "dd") found)
    ∷ []

tick : check_maturity rows_store confirmations (pos 100) chain ≡ (
  (codes "b1", block (codes "aa") matured)
      ∷ (codes "b2", block (codes "bb") found)
      ∷ (codes "b3", block (codes "cc") orphaned)
      ∷ (codes "b4", block (codes "dd") orphaned)
      ∷ [],
  record {
    matured_ids = codes "b1" ∷ [];
    orphaned_ids = codes "b3" ∷ codes "b4" ∷ [];
    errored = [];
  },
)
unfolding check_maturity contains_ignoring_case starts_with_ignoring_case fold_case text_eq get_row
    put_row select_rows
tick = refl

abbrev b1 : Block
b1 = block (codes "aa") found

b1_row : get_row (codes "b1") chain ≡ some b1
unfolding get_row text_eq
b1_row = refl

check_maturity-get_example :
    get_row (codes "b1") (check_maturity rows_store confirmations (pos 100) chain).0
    ≡ some (
        if has_id (codes "b1") (candidates rows_store confirmations (pos 100) chain)
        then with_block_status (verdict (pos 100) (confirmations (codes "aa"))) b1
        else b1)
check_maturity-get_example =
    check_maturity-get rows_store confirmations (pos 100) chain (codes "b1") b1 b1_row

few : length (select_rows (λ (b : Block). is_found b.status) chain) ≤ candidate_limit
unfolding select_rows text_eq
few = omega arith

check_maturity_complete_example :
    get_row (codes "b1") (check_maturity rows_store confirmations (pos 100) chain).0
    ≡ some (with_block_status (verdict (pos 100) (confirmations (codes "aa"))) b1)
check_maturity_complete_example =
    check_maturity_complete confirmations (pos 100) rows_store chain (codes "b1") b1 few b1_row
