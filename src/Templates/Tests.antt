-- ===== src/Templates/Tests.antt =====
-- packages/templates/src: runs at fixed inputs, and the theorems applied to them.
use hashden.Common.{◌≡◌, refl, true, false, not, ◌&&◌, List, [], ◌∷◌, none, some, ok}
use hashden.Common.Int.{pos}
use hashden.Common.Text.{codes, text_eq}
use hashden.Templates.Health.{
  HealthOpts, retry_after, retry_due, record_success, record_failure, inspect, update,
  should_fallback,
}
use hashden.Templates.Source.{
  Endpoint, GroupTemplateConfig, resolve_template_source, template_source_endpoint,
}
use hashden.Templates.Source.Resolved.{endpoint_of}
use hashden.Templates.Health.Trace.{
  Event, succeeded, failed_at, run, streak, last_failure, tripped, should_fallback-eq,
}

abbrev defaults : HealthOpts
defaults = record { failure_threshold = none; retry_after_ms = none }

-- Three failures of `a` behind a success, with one of `b` between them, the latest at 3000.
abbrev history : List Event
history =
    failed_at (codes "a") (pos 3000)
    ∷ failed_at (codes "b") (pos 2500)
    ∷ failed_at (codes "a") (pos 2000)
    ∷ failed_at (codes "a") (pos 1000)
    ∷ succeeded (codes "a") (pos 0)
    ∷ []

falls_back : should_fallback defaults (pos 4000) (codes "a") (run defaults history) ≡ true
unfolding should_fallback record_success record_failure inspect update text_eq
falls_back = refl

retries_later : should_fallback defaults (pos 63000) (codes "a") (run defaults history) ≡ false
unfolding should_fallback record_success record_failure inspect update text_eq
retries_later = refl

should_fallback-eq_example :
    should_fallback defaults (pos 4000) (codes "a") (run defaults history) ≡ (
      tripped defaults (streak (codes "a") history)
      && not (retry_due (retry_after defaults) (pos 4000) (last_failure (codes "a") history)))
should_fallback-eq_example = should_fallback-eq defaults (pos 4000) (codes "a") history

abbrev platform : Endpoint
platform = record { url = codes "http://node"; auth = codes "p:q" }

abbrev operators_den : GroupTemplateConfig
operators_den = record {
  template_source = codes "OPERATOR_RPC";
  operator_rpc_url = some (codes "http://mine");
  operator_rpc_auth = some (codes "u:v");
}

abbrev mine : Endpoint
mine = record { url = codes "http://mine"; auth = codes "u:v" }

own_node : endpoint_of operators_den platform ≡ ok mine
unfolding resolve_template_source template_source_endpoint text_eq
own_node = refl
