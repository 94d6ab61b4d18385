-- ===== src/Payouts/Maturity.antt =====
-- apps/payouts/src/maturity-watcher.ts, `checkMaturity`: found blocks become matured or orphaned by
-- what the Bitcoin node says of them. The node is a parameter: it answers a block hash with a number
-- of confirmations or with the message of the error that the call throws.
pub mod Rule
pub mod Report
use hashden.Common.{
  take, ℕ, zero, suc, ◌≡◌, Bool, true, false, ◌||◌, ◌&&◌, ◌<◌, ◌+◌, ◌==◌, leb, List, [], ◌∷◌, ◌++◌,
  if◌then◌else◌, Result, ok, err,
}
use hashden.Common.Int.{ℤ, pos, ltb_ℤ, leb_ℤ}
use hashden.Common.Text.{Text, codes}
use hashden.Payouts.Types.{Block, BlockStatus, is_found, orphaned, matured}
use hashden.Payouts.Store.{RowStore}
use hashden.Payouts.Store.Sweep.{sweep}

pub record MaturityResult : Type 0 where
  pub matured_ids : List Text
  pub orphaned_ids : List Text
  pub errored : List (Text × Text)

-- `/Block not found/i.test(reason)`. Without the flag `u` only an ASCII letter matches an ASCII
-- letter, whatever the case of both.
unfoldable pub fold_case : ℕ → ℕ
fold_case c = if leb 65 c && leb c 90 then c + 32 else c

unfoldable pub starts_with_ignoring_case : Text → Text → Bool
starts_with_ignoring_case [] s = true
starts_with_ignoring_case (p ∷ ps) [] = false
starts_with_ignoring_case (p ∷ ps) (c ∷ s) =
    (fold_case p == fold_case c) && starts_with_ignoring_case ps s

unfoldable pub contains_ignoring_case : Text → Text → Bool
contains_ignoring_case p [] = starts_with_ignoring_case p []
contains_ignoring_case p (c ∷ s) = starts_with_ignoring_case p (c ∷ s) || contains_ignoring_case p s

abbrev pub is_block_not_found : Text → Bool
is_block_not_found = contains_ignoring_case (codes "Block not found")

-- `take: 200` of `findMany`.
abbrev pub candidate_limit : ℕ
candidate_limit = 200

abbrev pub with_block_status : BlockStatus → Block → Block
with_block_status s b = record { group_id = b.group_id; hash = b.hash; status = s }

module _ (store : RowStore Block) where
  abbrev pub Progress : Type 0
  Progress = store.Table × MaturityResult

  abbrev pub mark_orphaned : Text → Progress → Progress
  mark_orphaned k (t, r) = (
    store.put k (with_block_status orphaned) t,
    record {
      matured_ids = r.matured_ids;
      orphaned_ids = r.orphaned_ids ++ (k ∷ []);
      errored = r.errored;
    },
  )

  abbrev pub mark_matured : Text → Progress → Progress
  mark_matured k (t, r) = (
    store.put k (with_block_status matured) t,
    record {
      matured_ids = r.matured_ids ++ (k ∷ []);
      orphaned_ids = r.orphaned_ids;
      errored = r.errored;
    },
  )

  abbrev pub note_error : Text → Text → Progress → Progress
  note_error k reason (t, r) = (
    t,
    record {
      matured_ids = r.matured_ids;
      orphaned_ids = r.orphaned_ids;
      errored = r.errored ++ ((k, reason) ∷ []);
    },
  )

  -- The body of the loop, given the node's answer.
  abbrev pub settle_answer : ℤ → Text → Result Text ℤ → Progress → Progress
  settle_answer maturity_confs k (ok confirmations) s =
      if ltb_ℤ confirmations (pos 0)
      then mark_orphaned k s
      else if leb_ℤ maturity_confs confirmations
      then mark_matured k s
      else s
  settle_answer maturity_confs k (err reason) s =
      if is_block_not_found reason then mark_orphaned k s else note_error k reason s

  module _ (getblock : Text → Result Text ℤ) (maturity_confs : ℤ) where
    abbrev pub settle_block : Text × Block → Progress → Progress
    settle_block (k, block) s = settle_answer maturity_confs k (getblock block.hash) s

    abbrev pub candidates : store.Table → List (Text × Block)
    candidates t = take candidate_limit (store.select (λ b. is_found b.status) t)

    unfoldable pub check_maturity : store.Table → Progress
    check_maturity t =
        sweep settle_block (candidates t)
          (t, record { matured_ids = []; orphaned_ids = []; errored = [] })
