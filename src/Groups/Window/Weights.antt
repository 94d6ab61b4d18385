-- ===== src/Groups/Window/Weights.antt =====
-- packages/groups/src/pplns-window.ts, `weightsByPubkey`: the map of weights as a function of the
-- public key.
use hashden.Common.{
  ℕ, ◌+◌, ◌≡◌, refl, inl, inr, true, false, List, [], ◌∷◌, Option, none, some, ok, arith, All,
  sum_of, if◌then◌else◌, Option-cases, Bool-cases,
}
use hashden.Common.Int.{ℤ, pos, negsuc, pos_part, ◌+ℤ◌, ltb_ℤ, leb_ℤ}
use hashden.Common.Text.{Text, text_eq, text_eq_iff}
use hashden.Groups.Window.{ShareRow, add_weight, sum_weights}

-- `map.get(k)`
unfoldable pub get_weight : Text → List (Text × ℤ) → Option ℤ
get_weight k [] = none
get_weight k ((j, v) ∷ m) = if text_eq j k then some v else get_weight k m

abbrev pub natural : Option ℤ → ℕ
natural none = 0
natural (some z) = pos_part z

-- The weight that the map gives a key, 0 if it has none.
abbrev pub weight_of : Text → List (Text × ℤ) → ℕ
weight_of k m = natural (get_weight k m)

abbrev pub IsCounted : Text × ℤ → Type 0
IsCounted e = ltb_ℤ (pos 0) e.1 ≡ true

-- No key stands twice.
abbrev pub HasDistinctKeys : List (Text × ℤ) → Type 0
HasDistinctKeys [] = Unit {0}
HasDistinctKeys ((k, v) ∷ m) = All (λ (e : Text × ℤ). text_eq e.0 k ≡ false) m × HasDistinctKeys m

add_weight-absent :
    (k j : Text) (w : ℤ) (m : List (Text × ℤ))
    → text_eq k j ≡ false
    → All (λ (e : Text × ℤ). text_eq e.0 j ≡ false) m
    → All (λ (e : Text × ℤ). text_eq e.0 j ≡ false) (add_weight k w m)
unfolding add_weight
add_weight-absent k j w [] h a = (h, tt)
add_weight-absent k j w ((i, v) ∷ m) h a = ground (arith, add_weight-absent k j w m h a.1)

add_weight-HasDistinctKeys :
    (k : Text) (w : ℤ) (m : List (Text × ℤ))
    → HasDistinctKeys m
    → HasDistinctKeys (add_weight k w m)
unfolding add_weight
add_weight-HasDistinctKeys k w [] h = (tt, tt)
add_weight-HasDistinctKeys k w ((j, v) ∷ m) h = ground (
  arith,
  add_weight-HasDistinctKeys k w m h.1,
  add_weight-absent k j w m,
  text_eq_iff j k,
  text_eq_iff k j,
)

positive_sum :
    (a b : ℤ)
    → ltb_ℤ (pos 0) a ≡ true
    → leb_ℤ b (pos 0) ≡ false
    → (ltb_ℤ (pos 0) (a +ℤ b) ≡ true) × (pos_part (a +ℤ b) ≡ pos_part a + pos_part b)
positive_sum (pos a) (pos b) h k = ground arith
positive_sum (pos a) (negsuc b) h k = absurd (ground arith)
positive_sum (negsuc a) b h k = absurd (ground arith)

add_weight-IsCounted :
    (k : Text) (w : ℤ) (m : List (Text × ℤ))
    → leb_ℤ w (pos 0) ≡ false
    → All IsCounted m
    → All IsCounted (add_weight k w m)
unfolding add_weight
add_weight-IsCounted k w [] h a = ground arith
add_weight-IsCounted k w ((j, v) ∷ m) h a =
    ground (arith, add_weight-IsCounted k w m h a.1, positive_sum v w a.0 h)

weight_of-add_weight :
    (k j : Text) (w : ℤ) (m : List (Text × ℤ))
    → leb_ℤ w (pos 0) ≡ false
    → All IsCounted m
    → weight_of j (add_weight k w m) ≡ weight_of j m + (if text_eq k j then pos_part w else 0)
unfolding add_weight get_weight
weight_of-add_weight k j w [] h a = ground arith
weight_of-add_weight k j w ((i, v) ∷ m) h a = ground (
  arith,
  weight_of-add_weight k j w m h a.1,
  positive_sum v w a.0 h,
  text_eq_iff i k,
  text_eq_iff i j,
  text_eq_iff k j,
)

nothing_counts : (w : ℤ) → leb_ℤ w (pos 0) ≡ true → pos_part w ≡ 0
nothing_counts (pos n) h = ground arith
nothing_counts (negsuc n) h = refl

module _ {D : Type 0} (scaled : D → Option ℤ) where
  -- What a share counts for: its scaled difficulty, if that is positive.
  abbrev pub credit : ShareRow D → ℕ
  credit s = natural (scaled s.difficulty)

  -- What the shares of one member count for.
  abbrev pub credited : Text → List (ShareRow D) → ℕ
  credited k = sum_of (λ (s : ShareRow D). if text_eq s.member_pubkey k then credit s else 0)

  pub sum_weights-IsCounted :
      (m m' : List (Text × ℤ)) (shares : List (ShareRow D))
      → All IsCounted m
      → HasDistinctKeys m
      → sum_weights scaled m shares ≡ ok m'
      → All IsCounted m' × HasDistinctKeys m'
  unfolding sum_weights
  sum_weights-IsCounted m m' [] a d h = ground arith
  sum_weights-IsCounted m m' (s ∷ shares) a d h = elim (Option-cases (scaled s.difficulty)) [
    | inl thrown ↦ absurd (ground arith)
    | inr (w, e) ↦ elim (Bool-cases (leb_ℤ w (pos 0))) [
      | inl nothing ↦ sum_weights-IsCounted m m' shares a d (rw (e, sum_weights, nothing) at h)
      | inr counts ↦
          sum_weights-IsCounted (add_weight s.member_pubkey w m) m' shares
            (add_weight-IsCounted s.member_pubkey w m counts a)
            (add_weight-HasDistinctKeys s.member_pubkey w m d) (rw (e, sum_weights, counts) at h)
    ]
  ]

  -- The map gives each key what its shares count for, beside what it had.
  pub weight_of-sum_weights :
      (k : Text) (m m' : List (Text × ℤ)) (shares : List (ShareRow D))
      → All IsCounted m
      → sum_weights scaled m shares ≡ ok m'
      → weight_of k m' ≡ weight_of k m + credited k shares
  unfolding sum_weights
  weight_of-sum_weights k m m' [] a h = ground arith
  weight_of-sum_weights k m m' (s ∷ shares) a h = elim (Option-cases (scaled s.difficulty)) [
    | inl thrown ↦ absurd (ground arith)
    | inr (w, e) ↦ elim (Bool-cases (leb_ℤ w (pos 0))) [
      | inl nothing ↦ ground (
        arith,
        weight_of-sum_weights k m m' shares a (rw (e, sum_weights, nothing) at h),
        nothing_counts w nothing,
      )
      | inr counts ↦ ground (
        arith,
        weight_of-sum_weights k (add_weight s.member_pubkey w m) m' shares
            (add_weight-IsCounted s.member_pubkey w m counts a) (rw (e, sum_weights, counts) at h),
        weight_of-add_weight s.member_pubkey k w m counts a,
      )
    ]
  ]

  -- The loop starts with an empty map, so a key weighs what its shares count for.
  pub weight_of-all :
      (k : Text) (m : List (Text × ℤ)) (shares : List (ShareRow D))
      → sum_weights scaled [] shares ≡ ok m
      → weight_of k m ≡ credited k shares
  unfolding get_weight
  weight_of-all k m shares h = omega (arith, weight_of-sum_weights k [] m shares tt h)
