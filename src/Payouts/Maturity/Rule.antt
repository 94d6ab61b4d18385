-- ===== src/Payouts/Maturity/Rule.antt =====
-- apps/payouts/src/maturity-watcher.ts, `checkMaturity`: which blocks a tick moves, and to what.
use hashden.Common.{
  take, ℕ, zero, suc, ◌≡◌, refl, ap, ◌∙◌, true, false, List, [], ◌∷◌, some, if◌then◌else◌, Result,
  ok, err, All, Bool-cases, Result-cases, inl, inr, arith,
}
use hashden.Common.Int.{ℤ, pos, ltb_ℤ, leb_ℤ}
use hashden.Common.Text.{Text, text_eq}
use hashden.Payouts.Types.{Block, BlockStatus, found, is_found, orphaned, matured}
use hashden.Payouts.Store.{RowStore, HasDistinctIds}
use hashden.Payouts.Store.Sweep.{has_id, sweep-get, put_other, put_same}
use hashden.Payouts.Maturity.{
  candidate_limit, with_block_status, is_block_not_found, Progress, settle_block, candidates,
  check_maturity,
}

-- The rule: the status that a found block gets by the node's answer.
abbrev pub verdict : ℤ → Result Text ℤ → BlockStatus
verdict maturity_confs (ok confirmations) =
    if ltb_ℤ confirmations (pos 0)
    then orphaned
    else if leb_ℤ maturity_confs confirmations
    then matured
    else found
verdict maturity_confs (err reason) = if is_block_not_found reason then orphaned else found

take-All {ℓ κ} : {A : Type ℓ} (P : A → Type κ) (n : ℕ) (xs : List A) → All P xs → All P (take n xs)
take-All P zero xs h = tt
take-All P (suc n) [] h = tt
take-All P (suc n) (x ∷ xs) h = (h.0, take-All P n xs h.1)

take-HasDistinctIds :
    {Row : Type 0} (n : ℕ) (rows : List (Text × Row))
    → HasDistinctIds rows
    → HasDistinctIds (take n rows)
take-HasDistinctIds zero rows h = tt
take-HasDistinctIds (suc n) [] h = tt
take-HasDistinctIds (suc n) (e ∷ rows) h = (take-All _ n rows h.0, take-HasDistinctIds n rows h.1)

module _ (store : RowStore Block) (getblock : Text → Result Text ℤ) (maturity_confs : ℤ) where
  settle-frame :
      (e : Text × Block) (s : Progress store) (j : Text)
      → text_eq e.0 j ≡ false
      → store.get j (settle_block store getblock maturity_confs e s).0 ≡ store.get j s.0
  settle-frame (k, b) s j h = elim (Result-cases (getblock b.hash)) [
    | inl (confirmations, e) ↦ rw e (elim (Bool-cases (ltb_ℤ confirmations (pos 0))) [
      | inl gone ↦ rw gone (put_other store k j _ s.0 h)
      | inr chained ↦ rw chained (elim (Bool-cases (leb_ℤ maturity_confs confirmations)) [
        | inl deep ↦ rw deep (put_other store k j _ s.0 h)
        | inr young ↦ rw young refl
      ])
    ])
    | inr (reason, e) ↦ rw e (elim (Bool-cases (is_block_not_found reason)) [
      | inl gone ↦ rw gone (put_other store k j _ s.0 h)
      | inr lagging ↦ rw lagging refl
    ])
  ]

  status_kept : (b : Block) → is_found b.status ≡ true → b ≡ with_block_status found b
  status_kept b h = ground arith

  settle-turn :
      (k : Text) (b : Block) (s : Progress store)
      → store.get k s.0 ≡ some b
      → is_found b.status ≡ true
      → store.get k (settle_block store getblock maturity_confs (k, b) s).0
        ≡ some (with_block_status (verdict maturity_confs (getblock b.hash)) b)
  settle-turn k b s h f =
      let kept : store.get k s.0 ≡ some (with_block_status found b) =
        h ∙ ap some (status_kept b f) in
      elim (Result-cases (getblock b.hash)) [
        | inl (confirmations, e) ↦ rw e (elim (Bool-cases (ltb_ℤ confirmations (pos 0))) [
          | inl gone ↦ rw gone (put_same store k _ s.0 b h)
          | inr chained ↦ rw chained (elim (Bool-cases (leb_ℤ maturity_confs confirmations)) [
            | inl deep ↦ rw deep (put_same store k _ s.0 b h)
            | inr young ↦ rw young kept
          ])
        ])
        | inr (reason, e) ↦ rw e (elim (Bool-cases (is_block_not_found reason)) [
          | inl gone ↦ rw gone (put_same store k _ s.0 b h)
          | inr lagging ↦ rw lagging kept
        ])
      ]

  abbrev pub IsCandidate : store.Table → Text × Block → Type 0
  IsCandidate t e = (store.get e.0 t ≡ some e.1) × (is_found e.1.status ≡ true)

  pub candidates_sound :
      (t : store.Table) → All (IsCandidate t) (candidates store getblock maturity_confs t)
  candidates_sound t = take-All (IsCandidate t) candidate_limit _ (store.select-sound _ t)

  candidates-distinct :
      (t : store.Table) → HasDistinctIds (candidates store getblock maturity_confs t)
  candidates-distinct t = take-HasDistinctIds candidate_limit _ (store.select-distinct _ t)

  -- After a tick a candidate has the status that the rule gives it by the node's answer, and every
  -- other block is as before.
  pub check_maturity-get :
      (t : store.Table) (k : Text) (b : Block)
      → store.get k t ≡ some b
      → store.get k (check_maturity store getblock maturity_confs t).0
        ≡ some (
            if has_id k (candidates store getblock maturity_confs t)
            then with_block_status (verdict maturity_confs (getblock b.hash)) b
            else b)
  unfolding check_maturity
  check_maturity-get t k b h =
      sweep-get store (λ s. s.0) (settle_block store getblock maturity_confs) settle-frame
        (λ b. is_found b.status ≡ true)
        (λ b. with_block_status (verdict maturity_confs (getblock b.hash)) b)
        (λ (k, b) s. settle-turn k b s) _ (t, _) k b (candidates-distinct t) (candidates_sound t) h
