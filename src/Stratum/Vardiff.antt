-- ===== src/Stratum/Vardiff.antt =====
-- apps/stratum/src/models/StratumV1Client.ts: the difficulty targets of a connection, `setSessionDifficulty`
-- and `acceptableTarget`. `now` is `Date.now()` at the call. Difficulties (floats) and their order are
-- parameters; none of them is NaN.
pub mod Best
pub mod Grace
mod Tests
use hashden.Common.{
  ℕ, ◌+◌, ◌≡◌, Bool, true, false, not, ◌&&◌, ◌||◌, List, [], ◌∷◌, ◌++◌, Option, none, some,
  if◌then◌else◌, leb, filterb,
}

-- `leq a b` is `b >= a`; `a > b` is its negation.
pub record Ordered (N : Type 0) : Type 0 where
  pub leq : N → N → Bool
  pub leq_total : (a b : N) → (leq a b || leq b a) ≡ true
  pub leq_trans : (a b c : N) → leq a b ≡ true → leq b c ≡ true → leq a c ≡ true

-- An entry of `recentDifficulties`.
pub record Regime (N : Type 0) : Type 0 where
  pub difficulty : N
  pub since : ℕ

pub record Vardiff (N : Type 0) : Type 0 where
  pub recent_difficulties : List (Regime N)
  pub session_difficulty : N

-- `i === lastIndex`: the last regime is the live one.
abbrev pub is_last {ℓ} : {A : Type ℓ} → List A → Bool
is_last [] = true
is_last (r ∷ rs) = false

module _ {N : Type 0} (order : Ordered N) (vardiff_grace_ms : ℕ) where
  -- `(now - r.since) <= this.vardiffGraceMs`
  abbrev pub is_young : ℕ → Regime N → Bool
  is_young now r = leb now (r.since + vardiff_grace_ms)

  unfoldable pub set_session_difficulty : ℕ → N → Vardiff N → Vardiff N
  set_session_difficulty now d v = record {
    recent_difficulties =
        filterb (is_young now) v.recent_difficulties ++ record { difficulty = d; since = now } ∷ [];
    session_difficulty = d;
  }

  -- `cleared == null || regime.difficulty > cleared`
  abbrev pub improves : N → Option N → Bool
  improves d none = true
  improves d (some c) = not (order.leq d c)

  abbrev pub visit : N → N → Option N → Option N
  visit submission d cleared =
      if order.leq d submission && improves d cleared then some d else cleared

  unfoldable pub scan : ℕ → N → Option N → List (Regime N) → Option N
  scan now submission cleared [] = cleared
  scan now submission cleared (r ∷ rs) =
      scan now submission
        (if is_last rs || is_young now r then visit submission r.difficulty cleared else cleared) rs

  abbrev pub fallback : N → N → Option N
  fallback submission d = if order.leq d submission then some d else none

  abbrev pub target_among : ℕ → N → N → List (Regime N) → Option N
  target_among now submission session [] = fallback submission session
  target_among now submission session (r ∷ rs) = scan now submission none (r ∷ rs)

  unfoldable pub acceptable_target : ℕ → N → Vardiff N → Option N
  acceptable_target now submission v =
      target_among now submission v.session_difficulty v.recent_difficulties
