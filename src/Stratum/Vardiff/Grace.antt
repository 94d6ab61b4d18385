-- ===== src/Stratum/Vardiff/Grace.antt =====
-- apps/stratum/src/models/StratumV1Client.ts: which targets stay active after the difficulty is changed.
-- The age of a target counts from when it was set, not from when it was superseded.
use hashden.Common.{
  ℕ, ◌+◌, ◌≤◌, ◌<◌, ◌≡◌, refl, ap, subst, ◌∙◌, true, false, List, [], ◌∷◌, ◌++◌, map, Option, none,
  some, arith, Bool-cases, inl, inr, All, filterb,
}
use hashden.Stratum.Vardiff.{
  Ordered, Regime, Vardiff, is_young, is_last, set_session_difficulty, acceptable_target,
}
use hashden.Stratum.Vardiff.Best.{active, targets, targets_of, IsBest, acceptable_target-IsBest}

module _ {N : Type 0} (order : Ordered N) (grace : ℕ) where
  abbrev pub difficulties : List (Regime N) → List N
  difficulties = map (λ r. r.difficulty)

  is_last-append : (rs : List (Regime N)) (live : Regime N) → is_last (rs ++ live ∷ []) ≡ false
  is_last-append [] live = refl
  is_last-append (r ∷ rs) live = refl

  targets_of-append :
      (now : ℕ) (d : N) (rs : List (Regime N)) (live : Regime N)
      → targets_of order grace now d (rs ++ live ∷ []) ≡ active order grace now (rs ++ live ∷ [])
  targets_of-append now d [] live = refl
  targets_of-append now d (r ∷ rs) live = refl

  -- The live target counts at the end of the list, whatever its age.
  active-live :
      (now : ℕ) (rs : List (Regime N)) (live : Regime N)
      → active order grace now (rs ++ live ∷ [])
        ≡ difficulties (filterb (is_young order grace now) rs) ++ live.difficulty ∷ []
  active-live now [] live = refl
  active-live now (r ∷ rs) live = elim (Bool-cases (is_young order grace now r)) [
    | inl young ↦
        rw (is_last-append rs live, young) (ap (λ ds. r.difficulty ∷ ds) (active-live now rs live))
    | inr old ↦ rw (is_last-append rs live, old) (active-live now rs live)
  ]

  young_before :
      (before now : ℕ) (r : Regime N)
      → before ≤ now
      → is_young order grace now r ≡ true
      → is_young order grace before r ≡ true
  young_before before now r le h = ground arith

  filterb_twice :
      (before now : ℕ) (rs : List (Regime N))
      → before ≤ now
      → filterb (is_young order grace now) (filterb (is_young order grace before) rs)
        ≡ filterb (is_young order grace now) rs
  filterb_twice before now [] le = refl
  filterb_twice before now (r ∷ rs) le = elim (Bool-cases (is_young order grace now r)) [
    | inl young ↦
        rw (young_before before now r le young, young)
          (ap (λ qs. r ∷ qs) (filterb_twice before now rs le))
    | inr old ↦ elim (Bool-cases (is_young order grace before r)) [
      | inl kept ↦ rw (kept, old) (filterb_twice before now rs le)
      | inr dropped ↦ rw (dropped, old) (filterb_twice before now rs le)
    ]
  ]

  -- A target is active after a change exactly if it is the new one, or was set at most `grace` before.
  pub targets-set_session_difficulty :
      (before now : ℕ) (d : N) (v : Vardiff N)
      → before ≤ now
      → targets order grace now (set_session_difficulty order grace before d v)
        ≡ difficulties (filterb (is_young order grace now) v.recent_difficulties) ++ d ∷ []
  unfolding set_session_difficulty
  targets-set_session_difficulty before now d v le =
      targets_of-append now d (filterb (is_young order grace before) v.recent_difficulties)
        (record { difficulty = d; since = before })
      ∙ active-live now (filterb (is_young order grace before) v.recent_difficulties)
          (record { difficulty = d; since = before })
      ∙ ap (λ rs. difficulties rs ++ d ∷ []) (filterb_twice before now v.recent_difficulties le)

  none_young :
      (before now : ℕ) (rs : List (Regime N))
      → before ≤ now
      → All (λ r. r.since + grace < before) rs
      → filterb (is_young order grace now) rs ≡ []
  none_young before now [] le h = refl
  none_young before now (r ∷ rs) le h = ground (arith, h.0, none_young before now rs le h.1)

  only_target :
      (s d : N) (o : Option N) → order.leq d s ≡ false → IsBest order grace s o (d ∷ []) → o ≡ none
  only_target s d none low h = refl
  only_target s d (some c) low h = elim h.0 [ inl same ↦ cc | inr among ↦ absurd among ]

  -- When each target before a change of the difficulty was set longer than `grace` ago, no share is
  -- credited one of them from then on: a share that is below the new difficulty is refused.
  pub superseded-refused :
      (before now : ℕ) (s d : N) (v : Vardiff N)
      → before ≤ now
      → All (λ r. r.since + grace < before) v.recent_difficulties
      → order.leq d s ≡ false
      → acceptable_target order grace now s (set_session_difficulty order grace before d v) ≡ none
  superseded-refused before now s d v le old low = only_target s d _ low (
      subst
        (IsBest order grace s
          (acceptable_target order grace now s (set_session_difficulty order grace before d v)))
        (targets-set_session_difficulty before now d v le
          ∙ ap (λ rs. difficulties rs ++ d ∷ [])
              (none_young before now v.recent_difficulties le old))
        (acceptable_target-IsBest order grace now s
          (set_session_difficulty order grace before d v)))
