-- ===== src/Payouts/Store/Sweep.antt =====
-- Loops over selected rows: each turn changes the row with its own id at most, so that a row ends
-- as its one turn leaves it.
use hashden.Common.{
  ◌≡◌, refl, sym, ap, subst, ◌∙◌, if◌then◌else◌, some, Bool, true, false, List, [], ◌∷◌, All, any,
  Bool-cases, inl, inr,
}
use mathlib.Core.Option
use hashden.Common.Text.{Text, text_eq, text_eq_iff, text_eq_refl}
use hashden.Payouts.Store.{RowStore, HasDistinctIds}

-- `for (const row of rows) { ... }`, with what the body changes as a state.
abbrev pub sweep : {S Row : Type 0} → (Text × Row → S → S) → List (Text × Row) → S → S
sweep step [] s = s
sweep step (e ∷ rows) s = sweep step rows (step e s)

abbrev pub has_id : {Row : Type 0} → Text → List (Text × Row) → Bool
has_id {Row} j = any (λ (e : Text × Row). text_eq e.0 j)

module _ {Row : Type 0} (store : RowStore Row) where
  pub put_other :
      (k j : Text) (f : Row → Row) (t : store.Table)
      → text_eq k j ≡ false
      → store.get j (store.put k f t) ≡ store.get j t
  put_other k j f t h = rw (store.get-put k j f t, h) refl

  pub put_same :
      (k : Text) (f : Row → Row) (t : store.Table) (r : Row)
      → store.get k t ≡ some r
      → store.get k (store.put k f t) ≡ some (f r)
  put_same k f t r h = rw (store.get-put k k f t, text_eq_refl k, h) refl

  unselected :
      (p : Row → Bool) (t : store.Table) (k : Text) (r : Row) (rows : List (Text × Row))
      → All (λ (e : Text × Row). (store.get e.0 t ≡ some e.1) × (p e.1 ≡ true)) rows
      → store.get k t ≡ some r
      → p r ≡ false
      → has_id k rows ≡ false
  unselected p t k r [] h g f = refl
  unselected p t k r (e ∷ rows) h g f = elim (Bool-cases (text_eq e.0 k)) [
    | inr apart ↦ rw apart (unselected p t k r rows h.1 g f)
    | inl same ↦
        let both : some e.1 ≡ some r =
          sym h.0.0 ∙ ap (λ i. store.get i t) ((text_eq_iff e.0 k).0 same) ∙ g in
        let clash : some true ≡ some false =
          ap some (sym h.0.1) ∙ ap (Option.map p) both ∙ ap some f in
        cc
  ]

  -- A row is selected if it passes the test.
  pub has_id-select :
      (p : Row → Bool) (t : store.Table) (k : Text) (r : Row)
      → store.get k t ≡ some r
      → has_id k (store.select p t) ≡ p r
  has_id-select p t k r g = elim (Bool-cases (p r)) [
    | inl passes ↦ store.select-complete p t k r g passes ∙ sym passes
    | inr not ↦ unselected p t k r (store.select p t) (store.select-sound p t) g not ∙ sym not
  ]

module _ {Row S : Type 0} (store : RowStore Row) (table : S → store.Table)
    (step : Text × Row → S → S)
    (frame : (e : Text × Row) (s : S) (j : Text)
      → text_eq e.0 j ≡ false
      → store.get j (table (step e s)) ≡ store.get j (table s)) where
  -- A row that no turn is about stays as it is.
  pub sweep-frame :
      (rows : List (Text × Row)) (s : S) (j : Text)
      → has_id j rows ≡ false
      → store.get j (table (sweep step rows s)) ≡ store.get j (table s)
  sweep-frame [] s j h = refl
  sweep-frame (e ∷ rows) s j h = elim (Bool-cases (text_eq e.0 j)) [
    | inl same ↦ cc
    | inr apart ↦ sweep-frame rows (step e s) j (cc) ∙ frame e s j apart
  ]

  pub apart_of_All :
      (k : Text) (rows : List (Text × Row))
      → All (λ (e : Text × Row). text_eq e.0 k ≡ false) rows
      → has_id k rows ≡ false
  apart_of_All k [] d = refl
  apart_of_All k (e ∷ rows) d = rw (d.0) (apart_of_All k rows d.1)

  -- The one turn of a row with the id `j`: it finds the row as it was at the start, and the loop
  -- leaves the row as this turn does.
  pub record Turn (P : Text × Row → Type 0) (j : Text) (s last : S) : Type 0 where
    pub e : Text × Row
    pub at : S
    pub id_is : e.0 ≡ j
    pub holds : P e
    pub before : store.get j (table at) ≡ store.get j (table s)
    pub after : store.get j (table last) ≡ store.get j (table (step e at))

  pub sweep-Turn :
      (P : Text × Row → Type 0) (rows : List (Text × Row)) (s : S) (j : Text)
      → HasDistinctIds rows
      → All P rows
      → has_id j rows ≡ true
      → Turn P j s (sweep step rows s)
  sweep-Turn P [] s j d p h = cc
  sweep-Turn P (e ∷ rows) s j d p h = elim (Bool-cases (text_eq e.0 j)) [
    | inl same ↦ record {
      e = e;
      at = s;
      id_is = (text_eq_iff e.0 j).0 same;
      holds = p.0;
      before = refl;
      after = sweep-frame rows (step e s) j (
          subst (λ i. has_id i rows ≡ false) ((text_eq_iff e.0 j).0 same)
            (apart_of_All e.0 rows d.0));
    }
    | inr apart ↦
        let later = sweep-Turn P rows (step e s) j d.1 p.1 (cc) in
        record {
          e = later.e;
          at = later.at;
          id_is = later.id_is;
          holds = later.holds;
          before = later.before ∙ frame e s j apart;
          after = later.after;
        }
  ]

  module _ (P : Row → Type 0) (f : Row → Row)
      (settles : (e : Text × Row) (s : S)
        → store.get e.0 (table s) ≡ some e.1
        → P e.1
        → store.get e.0 (table (step e s)) ≡ some (f e.1)) where
    -- Where each turn takes its row by a function, so does the whole loop with the rows it is over.
    pub sweep-get :
        (rows : List (Text × Row)) (s : S) (j : Text) (r : Row)
        → HasDistinctIds rows
        → All (λ (e : Text × Row). (store.get e.0 (table s) ≡ some e.1) × P e.1) rows
        → store.get j (table s) ≡ some r
        → store.get j (table (sweep step rows s)) ≡ some (if has_id j rows then f r else r)
    sweep-get rows s j r d p h = elim (Bool-cases (has_id j rows)) [
      | inr other ↦ rw other (sweep-frame rows s j other ∙ h)
      | inl chosen ↦
          let turn =
            sweep-Turn (λ e. (store.get e.0 (table s) ≡ some e.1) × P e.1) rows s j d p chosen in
          let here : some turn.e.1 ≡ some r =
            sym turn.holds.0 ∙ ap (λ i. store.get i (table s)) turn.id_is ∙ h in
          let at : store.get turn.e.0 (table turn.at) ≡ some turn.e.1 =
            ap (λ i. store.get i (table turn.at)) turn.id_is ∙ turn.before ∙ h ∙ sym here in
          rw chosen (
            turn.after
            ∙ ap (λ i. store.get i (table (step turn.e turn.at))) (sym turn.id_is)
            ∙ settles turn.e turn.at at turn.holds.1
            ∙ ap (Option.map f) here)
    ]
