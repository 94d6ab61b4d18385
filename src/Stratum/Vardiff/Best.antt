-- ===== src/Stratum/Vardiff/Best.antt =====
-- apps/stratum/src/models/StratumV1Client.ts: the target that `acceptableTarget` credits is the largest of
-- the active ones that the share clears.
use hashden.Common.{
  ℕ, ◌≡◌, refl, sym, subst, true, false, ◌||◌, List, [], ◌∷◌, Option, none, some, if◌then◌else◌,
  arith, ◌⊎◌, inl, inr, Bool-cases, All,
}
use hashden.Stratum.Vardiff.{
  Ordered, Regime, Vardiff, is_young, visit, is_last, scan, target_among, acceptable_target,
}

module _ {N : Type 0} (order : Ordered N) (grace : ℕ) where
  -- The targets that count at a time: the live one, and those that are young.
  abbrev pub active : ℕ → List (Regime N) → List N
  active now [] = []
  active now (r ∷ rs) =
      if is_last rs || is_young order grace now r
      then r.difficulty ∷ active now rs
      else active now rs

  abbrev pub OneOf : N → List N → Type 0
  OneOf c [] = ⊥
  OneOf c (d ∷ ds) = (c ≡ d) ⊎ OneOf c ds

  abbrev pub Clears : N → N → Type 0
  Clears submission d = order.leq d submission ≡ true

  -- No target in the list is cleared, or the credited one is the largest that is.
  abbrev pub IsBest : N → Option N → List N → Type 0
  IsBest s none ds = All (λ d. order.leq d s ≡ false) ds
  IsBest s (some c) ds = OneOf c ds × Clears s c × All (λ d. Clears s d → order.leq d c ≡ true) ds

  abbrev pub targets_of : ℕ → N → List (Regime N) → List N
  targets_of now session [] = session ∷ []
  targets_of now session (r ∷ rs) = active now (r ∷ rs)

  leq_of_not : (c d : N) → order.leq d c ≡ false → order.leq c d ≡ true
  leq_of_not c d h = ground (arith, order.leq_total c d)

  leq_refl : (c : N) → order.leq c c ≡ true
  leq_refl c = ground (arith, order.leq_total c c)

  -- The loop over the active targets alone.
  abbrev fold : N → Option N → List N → Option N
  fold s cleared [] = cleared
  fold s cleared (d ∷ ds) = fold s (visit order grace s d cleared) ds

  scan-eq-fold :
      (now : ℕ) (s : N) (cleared : Option N) (rs : List (Regime N))
      → scan order grace now s cleared rs ≡ fold s cleared (active now rs)
  unfolding scan
  scan-eq-fold now s cleared [] = refl
  scan-eq-fold now s cleared (r ∷ rs) =
      elim (Bool-cases (is_last rs || is_young order grace now r)) [
        | inl counts ↦ rw counts (scan-eq-fold now s (visit order grace s r.difficulty cleared) rs)
        | inr old ↦ rw old (scan-eq-fold now s cleared rs)
      ]

  -- What holds of the loop from a target that is credited already.
  abbrev From : N → N → Option N → List N → Type 0
  From s c none ds = ⊥
  From s c (some b) ds =
      ((b ≡ c) ⊎ OneOf b ds)
      × Clears s b
      × (order.leq c b ≡ true)
      × All (λ d. Clears s d → order.leq d b ≡ true) ds

  From-replaced :
      (s c d : N) (o : Option N) (ds : List N)
      → order.leq d c ≡ false
      → From s d o ds
      → From s c o (d ∷ ds)
  From-replaced s c d none ds larger h = h
  From-replaced s c d (some b) ds larger h =
      (inr h.0, h.1, order.leq_trans c d b (leq_of_not c d larger) h.2, (λ _. h.2, h.3))

  From-kept :
      (s c d : N) (o : Option N) (ds : List N)
      → (Clears s d → order.leq d c ≡ true)
      → From s c o ds
      → From s c o (d ∷ ds)
  From-kept s c d none ds small h = h
  From-kept s c d (some b) ds small h =
      (later h.0, h.1, h.2, (λ cleared. order.leq_trans d c b (small cleared) h.2, h.3))
    where
      later : (b ≡ c) ⊎ OneOf b ds → (b ≡ c) ⊎ OneOf b (d ∷ ds)
      later (inl same) = inl same
      later (inr among) = inr (inr among)

  fold-From : (s c : N) (ds : List N) → Clears s c → From s c (fold s (some c) ds) ds
  fold-From s c [] h = (inl refl, h, leq_refl c, tt)
  fold-From s c (d ∷ ds) h = elim (Bool-cases (order.leq d s)) [
    | inl cleared ↦ elim (Bool-cases (order.leq d c)) [
      | inl small ↦ rw (cleared, small) (From-kept s c d _ ds (λ _. small) (fold-From s c ds h))
      | inr large ↦ rw (cleared, large) (From-replaced s c d _ ds large (fold-From s d ds cleared))
    ]
    | inr missed ↦ rw missed (From-kept s c d _ ds (λ hit. cc) (fold-From s c ds h))
  ]

  IsBest-From : (s d : N) (o : Option N) (ds : List N) → From s d o ds → IsBest s o (d ∷ ds)
  IsBest-From s d none ds h = absurd h
  IsBest-From s d (some b) ds h = (h.0, h.1, (λ _. h.2, h.3))

  IsBest-missed :
      (s d : N) (o : Option N) (ds : List N)
      → order.leq d s ≡ false
      → IsBest s o ds
      → IsBest s o (d ∷ ds)
  IsBest-missed s d none ds missed h = (missed, h)
  IsBest-missed s d (some c) ds missed h = (inr h.0, h.1, (λ hit. cc, h.2))

  fold-IsBest : (s : N) (ds : List N) → IsBest s (fold s none ds) ds
  fold-IsBest s [] = tt
  fold-IsBest s (d ∷ ds) = elim (Bool-cases (order.leq d s)) [
    | inl cleared ↦ rw cleared (IsBest-From s d _ ds (fold-From s d ds cleared))
    | inr missed ↦ rw missed (IsBest-missed s d _ ds missed (fold-IsBest s ds))
  ]

  -- With no regime the live difficulty is the only target.
  abbrev pub targets : ℕ → Vardiff N → List N
  targets now v = targets_of now v.session_difficulty v.recent_difficulties

  target_among-IsBest :
      (now : ℕ) (s session : N) (rs : List (Regime N))
      → IsBest s (target_among order grace now s session rs) (targets_of now session rs)
  target_among-IsBest now s session [] = elim (Bool-cases (order.leq session s)) [
    | inl cleared ↦ rw cleared (inl refl, cleared, (λ _. leq_refl session, tt))
    | inr missed ↦ rw missed (missed, tt)
  ]
  target_among-IsBest now s session (r ∷ rs) =
      subst (λ o. IsBest s o (active now (r ∷ rs))) (sym (scan-eq-fold now s none (r ∷ rs)))
        (fold-IsBest s (active now (r ∷ rs)))

  -- A share is credited the largest of the active targets that it clears, and it is refused exactly
  -- if it clears none of them.
  pub acceptable_target-IsBest :
      (now : ℕ) (s : N) (v : Vardiff N)
      → IsBest s (acceptable_target order grace now s v) (targets now v)
  unfolding acceptable_target
  acceptable_target-IsBest now s v =
      target_among-IsBest now s v.session_difficulty v.recent_difficulties
