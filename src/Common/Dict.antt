-- ===== src/Common/Dict.antt =====
-- JavaScript objects and maps that are keyed by strings: lists of entries, in the order of insertion.
use mathlib.Core.Path.{◌≡◌, refl, subst}
use mathlib.Core.Bool.{Bool, false}
use mathlib.Core.Option.{Option, none, some}
use mathlib.Core.List.{List, [], ◌∷◌}
use mathlib.Core.Logic.{inl, inr}
use native.Mathlib.Omega.{arith}
use hashden.Common.Tests.{if◌then◌else◌, Bool-cases}
use hashden.Common.Text.{Text, text_eq, text_eq_iff}

text_eq_apart : (i j : Text) → text_eq i j ≡ false → text_eq j i ≡ false
text_eq_apart i j h = ground (arith, text_eq_iff i j, text_eq_iff j i)

module _ {V : Type 0} where
  -- `m[k]` and `m.get(k)`
  unfoldable pub lookup : Text → List (Text × V) → Option V
  lookup k [] = none
  lookup k ((j, v) ∷ m) = if text_eq j k then some v else lookup k m

  -- `m[k] = v` and `m.set(k, v)`
  unfoldable pub insert : Text → V → List (Text × V) → List (Text × V)
  insert k v [] = (k, v) ∷ []
  insert k v ((j, w) ∷ m) = if text_eq j k then (j, v) ∷ m else (j, w) ∷ insert k v m

  pub lookup-insert :
      (k j : Text) (v : V) (m : List (Text × V))
      → lookup j (insert k v m) ≡ (if text_eq k j then some v else lookup j m)
  unfolding lookup insert
  lookup-insert k j v [] = refl
  lookup-insert k j v ((i, w) ∷ m) =
      ground (arith, lookup-insert k j v m, text_eq_iff i k, text_eq_iff i j, text_eq_iff k j)

  -- `for (const k in m) if (test(m[k])) delete m[k];` Each key stands once in a JavaScript object.
  unfoldable pub delete_if : (V → Bool) → List (Text × V) → List (Text × V)
  delete_if p [] = []
  delete_if p ((j, v) ∷ m) = let rest = delete_if p m in if p v then rest else (j, v) ∷ rest

  -- No key of the list is `k`.
  abbrev pub Misses : Text → List (Text × V) → Type 0
  Misses k [] = Unit
  Misses k ((j, v) ∷ m) = (text_eq j k ≡ false) × Misses k m

  abbrev pub HasDistinctKeys : List (Text × V) → Type 0
  HasDistinctKeys [] = Unit
  HasDistinctKeys ((j, v) ∷ m) = Misses j m × HasDistinctKeys m

  pub lookup_of_Misses : (k : Text) (m : List (Text × V)) → Misses k m → lookup k m ≡ none
  unfolding lookup
  lookup_of_Misses k [] h = refl
  lookup_of_Misses k ((j, v) ∷ m) h = rw h.0 (lookup_of_Misses k m h.1)

  Misses-insert :
      (k j : Text) (v : V) (m : List (Text × V))
      → text_eq j k ≡ false
      → Misses k m
      → Misses k (insert j v m)
  unfolding insert
  Misses-insert k j v [] apart h = (apart, tt)
  Misses-insert k j v ((i, w) ∷ m) apart h = elim (Bool-cases (text_eq i j)) [
    | inl same ↦ rw same h
    | inr other ↦ rw other (h.0, Misses-insert k j v m apart h.1)
  ]

  pub HasDistinctKeys-insert :
      (j : Text) (v : V) (m : List (Text × V)) → HasDistinctKeys m → HasDistinctKeys (insert j v m)
  unfolding insert
  HasDistinctKeys-insert j v [] h = (tt, tt)
  HasDistinctKeys-insert j v ((i, w) ∷ m) h = elim (Bool-cases (text_eq i j)) [
    | inl same ↦ rw same h
    | inr other ↦
        rw other
          (Misses-insert i j v m (text_eq_apart i j other) h.0, HasDistinctKeys-insert j v m h.1)
  ]

  Misses-delete_if :
      (k : Text) (p : V → Bool) (m : List (Text × V)) → Misses k m → Misses k (delete_if p m)
  unfolding delete_if
  Misses-delete_if k p [] h = tt
  Misses-delete_if k p ((j, v) ∷ m) h = elim (Bool-cases (p v)) [
    | inl gone ↦ rw gone (Misses-delete_if k p m h.1)
    | inr kept ↦ rw kept (h.0, Misses-delete_if k p m h.1)
  ]

  pub HasDistinctKeys-delete_if :
      (p : V → Bool) (m : List (Text × V)) → HasDistinctKeys m → HasDistinctKeys (delete_if p m)
  unfolding delete_if
  HasDistinctKeys-delete_if p [] h = tt
  HasDistinctKeys-delete_if p ((j, v) ∷ m) h = elim (Bool-cases (p v)) [
    | inl gone ↦ rw gone (HasDistinctKeys-delete_if p m h.1)
    | inr kept ↦ rw kept (Misses-delete_if j p m h.0, HasDistinctKeys-delete_if p m h.1)
  ]

  -- `v`, unless the test deletes it.
  abbrev pub unless : (V → Bool) → Option V → Option V
  unless p none = none
  unless p (some v) = if p v then none else some v

  pub lookup-delete_if :
      (k : Text) (p : V → Bool) (m : List (Text × V))
      → HasDistinctKeys m
      → lookup k (delete_if p m) ≡ unless p (lookup k m)
  unfolding lookup delete_if
  lookup-delete_if k p [] h = refl
  lookup-delete_if k p ((j, v) ∷ m) h = elim (Bool-cases (text_eq j k)) [
    | inl same ↦ elim (Bool-cases (p v)) [
      | inl gone ↦
          rw (same, gone)
            (lookup_of_Misses k (delete_if p m) (
              subst (λ i. Misses i (delete_if p m)) ((text_eq_iff j k).0 same)
                (Misses-delete_if j p m h.0)))
      | inr kept ↦ rw (same, kept) (rw (same) refl)
    ]
    | inr other ↦ elim (Bool-cases (p v)) [
      | inl gone ↦ rw (other, gone) (lookup-delete_if k p m h.1)
      | inr kept ↦ rw (other, kept) (rw other (lookup-delete_if k p m h.1))
    ]
  ]
