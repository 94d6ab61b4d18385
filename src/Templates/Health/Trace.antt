-- ===== src/Templates/Health/Trace.antt =====
-- packages/templates/src/health.ts: the breaker, described by the history of the calls alone.
use hashden.Common.{
  ℕ, suc, ◌≡◌, refl, ap, ◌∙◌, Bool, true, false, not, ◌&&◌, List, [], ◌∷◌, Option, none, some,
  if◌then◌else◌, arith, ltb, Bool-cases, inl, inr,
}
use hashden.Common.Int.{ℤ, pos, leb_ℤ}
use hashden.Common.Text.{Text, text_eq, text_eq_iff}
use hashden.Templates.Health.{
  HealthState, HealthOpts, threshold, retry_after, fresh, inspect, update, succeed, fail,
  record_success, record_failure, retry_due, fallback_of, should_fallback,
}

-- A call of `recordSuccess` or `recordFailure`, with its key and its time.
pub data Event : Type 0 where
  succeeded failed_at : Text → ℤ → Event

-- A history has the latest call first.
abbrev pub run : HealthOpts → List Event → List (Text × HealthState)
run opts [] = []
run opts (succeeded k now ∷ past) = record_success now k (run opts past)
run opts (failed_at k now ∷ past) = record_failure opts now k (run opts past)

-- The failures of a source since its last success, and the time of the latest failure.
abbrev pub streak : Text → List Event → ℕ
streak k [] = 0
streak k (succeeded j now ∷ past) = if text_eq j k then 0 else streak k past
streak k (failed_at j now ∷ past) = if text_eq j k then suc (streak k past) else streak k past

abbrev pub last_failure : Text → List Event → Option ℤ
last_failure k [] = none
last_failure k (succeeded j now ∷ past) = last_failure k past
last_failure k (failed_at j now ∷ past) = if text_eq j k then some now else last_failure k past

-- The breaker is open: there was a failure since the last success, and there were enough of them.
abbrev pub tripped : HealthOpts → ℕ → Bool
tripped opts n = ltb 0 n && leb_ℤ (threshold opts) (pos n)

abbrev pub state_of : Option HealthState → HealthState
state_of none = fresh
state_of (some s) = s

pub inspect-update :
    (k j : Text) (f : HealthState → HealthState) (m : List (Text × HealthState))
    → state_of (inspect j (update k f m))
      ≡ (if text_eq k j then f (state_of (inspect j m)) else state_of (inspect j m))
unfolding inspect update
inspect-update k j f [] = elim (Bool-cases (text_eq k j)) [
  | inl same ↦ rw same refl
  | inr apart ↦ rw apart refl
]
inspect-update k j f ((i, s) ∷ m) =
    ground (arith, inspect-update k j f m, text_eq_iff i k, text_eq_iff i j, text_eq_iff k j)

trip_next :
    (t : ℤ) (n : ℕ)
    → (if leb_ℤ t (pos (suc n)) then true else (ltb 0 n && leb_ℤ t (pos n)))
      ≡ (ltb 0 (suc n) && leb_ℤ t (pos (suc n)))
trip_next t n = ground arith

-- What the map has for a source, none standing for a fresh state, is what the history says of it.
record Agrees (opts : HealthOpts) (k : Text) (history : List Event) (s : HealthState) : Type 0 where
  counted : s.consecutive_failures ≡ streak k history
  latest : s.last_failure_at ≡ last_failure k history
  decided : s.fallback ≡ tripped opts (streak k history)

run-Agrees :
    (opts : HealthOpts) (k : Text) (history : List Event)
    → Agrees opts k history (state_of (inspect k (run opts history)))
unfolding inspect record_success record_failure
run-Agrees opts k [] = record { counted = refl; latest = refl; decided = refl }
run-Agrees opts k (succeeded j now ∷ past) =
    let before = run-Agrees opts k past in
    let now_is = inspect-update j k (succeed now) (run opts past) in
    elim (Bool-cases (text_eq j k)) [
      | inl same ↦
          rw (now_is, same)
            (record { counted = rw same refl; latest = before.latest; decided = rw same refl })
      | inr apart ↦
          rw (now_is, apart)
            (record {
              counted = rw apart before.counted;
              latest = before.latest;
              decided = rw apart before.decided;
            })
    ]
run-Agrees opts k (failed_at j now ∷ past) =
    let before = run-Agrees opts k past in
    let now_is = inspect-update j k (fail opts now) (run opts past) in
    elim (Bool-cases (text_eq j k)) [
      | inl same ↦
          rw (now_is, same)
            (record {
              counted = rw same (ap suc before.counted);
              latest = rw same refl;
              decided =
                  rw (same, before.counted, before.decided)
                    (trip_next (threshold opts) (streak k past));
            })
      | inr apart ↦
          rw (now_is, apart)
            (record {
              counted = rw apart before.counted;
              latest = rw apart before.latest;
              decided = rw apart before.decided;
            })
    ]

fallback_of-state_of :
    (opts : HealthOpts) (now : ℤ) (o : Option HealthState)
    → fallback_of opts now o ≡ fallback_of opts now (some (state_of o))
fallback_of-state_of opts now none = refl
fallback_of-state_of opts now (some s) = refl

-- After any history of calls, a source is fallen back from exactly if it has failed since its last
-- success at least as often as the threshold says, and its latest failure is not yet as long ago as the
-- retry time; other sources have no part in it.
pub should_fallback-eq :
    (opts : HealthOpts) (now : ℤ) (k : Text) (history : List Event)
    → should_fallback opts now k (run opts history) ≡ (
        tripped opts (streak k history)
        && not (retry_due (retry_after opts) now (last_failure k history)))
unfolding should_fallback
should_fallback-eq opts now k history =
    let agrees = run-Agrees opts k history in
    fallback_of-state_of opts now (inspect k (run opts history))
    ∙ rw (agrees.decided, agrees.latest)
        (both (tripped opts (streak k history))
          (retry_due (retry_after opts) now (last_failure k history)))
  where
    both : (a b : Bool) → (if not a then false else if b then false else true) ≡ (a && not b)
    both true true = refl
    both true false = refl
    both false true = refl
    both false false = refl
