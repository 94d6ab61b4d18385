-- ===== src/Templates/Health.antt =====
-- packages/templates/src/health.ts, `TemplateSourceHealth`: the circuit breaker of a template source.
-- `now` is the clock's value at the call; the clock may go backwards.
pub mod Trace
use hashden.Common.{
  ℕ, suc, Bool, true, false, not, ◌&&◌, List, [], ◌∷◌, Option, none, some, if◌then◌else◌,
}
use hashden.Common.Int.{ℤ, pos, ◌-ℤ◌, leb_ℤ}
use hashden.Common.Text.{Text, text_eq}

pub record HealthState : Type 0 where
  pub consecutive_failures : ℕ
  pub last_failure_at : Option ℤ
  pub last_success_at : Option ℤ
  pub fallback : Bool

-- `failureThreshold ?? 3` and `retryAfterMs ?? 60_000`.
pub record HealthOpts : Type 0 where
  pub failure_threshold : Option ℤ
  pub retry_after_ms : Option ℤ

abbrev pub or_default : ℤ → Option ℤ → ℤ
or_default d none = d
or_default d (some z) = z

abbrev pub threshold : HealthOpts → ℤ
threshold opts = or_default (pos 3) opts.failure_threshold

abbrev pub retry_after : HealthOpts → ℤ
retry_after opts = or_default (pos 60000) opts.retry_after_ms

-- The state of a source that has none yet.
abbrev pub fresh : HealthState
fresh = record {
  consecutive_failures = 0;
  last_failure_at = none;
  last_success_at = none;
  fallback = false;
}

-- `inspect`: `map.get(key)`, as a copy.
unfoldable pub inspect : Text → List (Text × HealthState) → Option HealthState
inspect k [] = none
inspect k ((j, s) ∷ m) = if text_eq j k then some s else inspect k m

-- `getOrInit`, followed by a change of the object that it returns.
unfoldable pub update :
    Text → (HealthState → HealthState) → List (Text × HealthState) → List (Text × HealthState)
update k f [] = (k, f fresh) ∷ []
update k f ((j, s) ∷ m) = if text_eq j k then (j, f s) ∷ m else (j, s) ∷ update k f m

abbrev pub succeed : ℤ → HealthState → HealthState
succeed now s = record {
  consecutive_failures = 0;
  last_failure_at = s.last_failure_at;
  last_success_at = some now;
  fallback = false;
}

abbrev pub fail : HealthOpts → ℤ → HealthState → HealthState
fail opts now s = record {
  consecutive_failures = suc s.consecutive_failures;
  last_failure_at = some now;
  last_success_at = s.last_success_at;
  fallback = if leb_ℤ (threshold opts) (pos (suc s.consecutive_failures)) then true else s.fallback;
}

unfoldable pub record_success : ℤ → Text → List (Text × HealthState) → List (Text × HealthState)
record_success now k m = update k (succeed now) m

unfoldable pub record_failure :
    HealthOpts → ℤ → Text → List (Text × HealthState) → List (Text × HealthState)
record_failure opts now k m = update k (fail opts now) m

-- `s.lastFailureAt !== null && this.now() - s.lastFailureAt >= this.retryAfterMs`
abbrev pub retry_due : ℤ → ℤ → Option ℤ → Bool
retry_due retry now none = false
retry_due retry now (some at) = leb_ℤ retry (now -ℤ at)

abbrev pub fallback_of : HealthOpts → ℤ → Option HealthState → Bool
fallback_of opts now none = false
fallback_of opts now (some s) =
    if not s.fallback
    then false
    else if retry_due (retry_after opts) now s.last_failure_at
    then false
    else true

unfoldable pub should_fallback : HealthOpts → ℤ → Text → List (Text × HealthState) → Bool
should_fallback opts now k m = fallback_of opts now (inspect k m)
