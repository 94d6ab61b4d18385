-- ===== src/Payouts/Store/Rows.antt =====
-- A table as a list of rows under their ids; of two rows under one id the first counts.
use hashden.Common.{
  ◌≡◌, refl, Bool, true, false, not, List, [], ◌∷◌, Option, none, some, All, any, filterb,
  if◌then◌else◌, arith, Bool-cases, inl, inr,
}
use mathlib.Core.Option
use hashden.Common.Text.{Text, text_eq, text_eq_iff, text_eq_refl}
use hashden.Payouts.Store.{RowStore, HasDistinctIds}

module _ {Row : Type 0} where
  unfoldable pub get_row : Text → List (Text × Row) → Option Row
  get_row k [] = none
  get_row k ((j, r) ∷ t) = if text_eq j k then some r else get_row k t

  unfoldable pub put_row : Text → (Row → Row) → List (Text × Row) → List (Text × Row)
  put_row k f [] = []
  put_row k f ((j, r) ∷ t) = if text_eq j k then (j, f r) ∷ t else (j, r) ∷ put_row k f t

  abbrev others : Text → List (Text × Row) → List (Text × Row)
  others k = filterb (λ (e : Text × Row). not (text_eq e.0 k))

  unfoldable pub select_rows : (Row → Bool) → List (Text × Row) → List (Text × Row)
  select_rows p [] = []
  select_rows p ((j, r) ∷ t) =
      let rest = others j (select_rows p t) in if p r then (j, r) ∷ rest else rest

  pub get_row-put_row :
      (k j : Text) (f : Row → Row) (t : List (Text × Row))
      → get_row j (put_row k f t)
        ≡ (if text_eq k j then Option.map f (get_row j t) else get_row j t)
  unfolding get_row put_row
  get_row-put_row k j f [] = ground arith
  get_row-put_row k j f ((i, r) ∷ t) =
      ground (arith, get_row-put_row k j f t, text_eq_iff i k, text_eq_iff i j, text_eq_iff k j)

  others-apart :
      (k : Text) (rows : List (Text × Row))
      → All (λ (e : Text × Row). text_eq e.0 k ≡ false) (others k rows)
  others-apart k [] = tt
  others-apart k ((j, r) ∷ rows) = ground (arith, others-apart k rows)

  others-All {κ} :
      (P : Text × Row → Type κ) (k : Text) (rows : List (Text × Row))
      → All P rows
      → All P (others k rows)
  others-All P k [] h = tt
  others-All P k ((j, r) ∷ rows) h = ground (arith, others-All P k rows h.1)

  others-distinct :
      (k : Text) (rows : List (Text × Row)) → HasDistinctIds rows → HasDistinctIds (others k rows)
  others-distinct k [] h = tt
  others-distinct k ((j, r) ∷ rows) h = ground (
    arith,
    others-distinct k rows h.1,
    others-All (λ (e : Text × Row). text_eq e.0 j ≡ false) k rows h.0,
  )

  pub select_rows-distinct :
      (p : Row → Bool) (t : List (Text × Row)) → HasDistinctIds (select_rows p t)
  unfolding select_rows
  select_rows-distinct p [] = tt
  select_rows-distinct p ((j, r) ∷ t) = ground (
    arith,
    others-distinct j (select_rows p t) (select_rows-distinct p t),
    others-apart j (select_rows p t),
  )

  -- What a row behind another id says of the shorter table it says of the longer one.
  sound_behind :
      (p : Row → Bool) (j : Text) (r : Row) (t rows : List (Text × Row))
      → All (λ (e : Text × Row). (get_row e.0 t ≡ some e.1) × (p e.1 ≡ true)) rows
      → All
          (λ (e : Text × Row). (get_row e.0 ((j, r) ∷ t) ≡ some e.1) × (p e.1 ≡ true))
          (others j rows)
  unfolding get_row
  sound_behind p j r t [] h = tt
  sound_behind p j r t ((i, q) ∷ rows) h =
      ground (arith, sound_behind p j r t rows h.1, text_eq_iff i j, text_eq_iff j i)

  pub select_rows_sound :
      (p : Row → Bool) (t : List (Text × Row))
      → All (λ (e : Text × Row). (get_row e.0 t ≡ some e.1) × (p e.1 ≡ true)) (select_rows p t)
  unfolding select_rows get_row
  select_rows_sound p [] = tt
  select_rows_sound p ((j, r) ∷ t) =
      let rest = sound_behind p j r t (select_rows p t) (select_rows_sound p t) in
      elim (Bool-cases (p r)) [
        | inl taken ↦ rw (taken) ((rw (text_eq_refl j) refl, taken), rest)
        | inr left ↦ rw left rest
      ]

  any-others :
      (j k : Text) (rows : List (Text × Row))
      → text_eq j k ≡ false
      → any (λ (e : Text × Row). text_eq e.0 k) (others j rows)
        ≡ any (λ (e : Text × Row). text_eq e.0 k) rows
  any-others j k [] h = refl
  any-others j k ((i, r) ∷ rows) h =
      ground (arith, any-others j k rows h, text_eq_iff i j, text_eq_iff i k, text_eq_iff j k)

  pub select_rows_complete :
      (p : Row → Bool) (t : List (Text × Row)) (k : Text) (r : Row)
      → get_row k t ≡ some r
      → p r ≡ true
      → any (λ (e : Text × Row). text_eq e.0 k) (select_rows p t) ≡ true
  unfolding select_rows get_row
  select_rows_complete p [] k r h q = cc
  select_rows_complete p ((j, s) ∷ t) k r h q =
      ground (arith, select_rows_complete p t k r, any-others j k (select_rows p t))

abbrev pub rows_store : {Row : Type 0} → RowStore Row
rows_store {Row} = record {
  Table = List (Text × Row);
  get = get_row;
  put = put_row;
  select = select_rows;
  get-put = get_row-put_row;
  select-sound = select_rows_sound;
  select-distinct = select_rows-distinct;
  select-complete = select_rows_complete;
}
