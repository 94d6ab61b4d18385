-- ===== src/Stratum/Den/Template/Stale.antt =====
-- apps/stratum/src/hashden/hashden.service.ts: the cache of templates across a new block, and the circuit
-- breaker of an operator's node across a fetch.
use hashden.Common.{
  ℕ, ◌<◌, ◌≡◌, refl, ap, ◌∙◌, Bool, true, false, List, Option, none, some, if◌then◌else◌, arith,
  ltb,
}
use hashden.Common.Int.{ℤ, pos}
use hashden.Common.Text.{Text, text_eq, text_eq_refl}
use hashden.Common.Dict.{lookup}
use hashden.Templates.Health.{
  HealthState, HealthOpts, inspect, succeed, record_success, fallback_of, should_fallback,
}
use hashden.Templates.Health.Trace.{state_of, inspect-update}
use hashden.Templates.Source.{Endpoint, operator_rpc, template_source_endpoint}
use hashden.Stratum.Jobs.{
  RawTemplate, JobTemplate, JobsService, next_template, get_job_template_by_id,
}
use hashden.Stratum.Jobs.Ids.{IsValid}
use hashden.Stratum.Jobs.Expiry.{next_template-lookups, other_id}
use hashden.Stratum.Den.Template.{
  CachedJobTemplate, DenService, Sources, source_key, fetch_from, get_effective_job_template,
}

picked : (b : Bool) (x y : HealthState) → b ≡ true → (if b then x else y) ≡ x
picked b x y h = rw h refl

soon : (a b : ℕ) → a < b → ltb a b ≡ true
soon a b h = ground arith

module _ {N : Type 0} (sources : Sources N) where
  -- While the cached template of a den is fresh, a new block that clears the jobs leaves it in the
  -- cache: the den's miners are then given the old template, whose id the store no longer knows.
  pub cached_template-orphaned :
      (before after : ℕ) (count : ℤ) (raw : RawTemplate N) (s : JobsService N)
      (fresh : JobTemplate N) (group_id : Text) (cached : CachedJobTemplate N) (d : DenService N)
      → IsValid s
      → get_job_template_by_id cached.template.block_data.id s ≡ some cached.template
      → (next_template before count raw s).0 ≡ some fresh
      → fresh.block_data.clear_jobs ≡ true
      → lookup group_id d.job_template_cache ≡ some cached
      → after < cached.expires_at
      → let s' = (next_template before count raw s).1 in
        ((get_effective_job_template sources after group_id fresh d s').served ≡ cached.template)
        × (get_job_template_by_id cached.template.block_data.id s' ≡ none)
  unfolding get_effective_job_template
  cached_template-orphaned before after count raw s fresh group_id cached d valid stored delivered
        clears in_cache in_time =
      let id = cached.template.block_data.id in
      let found = next_template-lookups before count raw s fresh valid delivered id in
      let apart = other_id fresh.block_data.id id s cached.template found.2 stored in
      (rw (in_cache, soon after cached.expires_at in_time) refl, found.1 ∙ rw (apart, clears) refl)

  closed :
      (opts : HealthOpts) (now : ℤ) (o : Option HealthState)
      → (state_of o).fallback ≡ false
      → fallback_of opts now o ≡ false
  closed opts now none h = refl
  closed opts now (some state) h = rw h refl

  recorded_success :
      (now : ℤ) (k : Text) (health : List (Text × HealthState))
      → (state_of (inspect k (record_success now k health))).fallback ≡ false
  unfolding record_success
  recorded_success now k health =
      ap (λ (state : HealthState). state.fallback)
        (inspect-update k k (succeed now) health
          ∙ picked (text_eq k k) (succeed now (state_of (inspect k health)))
              (state_of (inspect k health)) (text_eq_refl k))

  success-closes :
      (opts : HealthOpts) (now later : ℤ) (k : Text) (health : List (Text × HealthState))
      → should_fallback opts later k (record_success now k health) ≡ false
  unfolding should_fallback
  success-closes opts now later k health =
      closed opts later (inspect k (record_success now k health)) (recorded_success now k health)

  -- The breaker of an operator's node is open, and the platform answers in its stead: the answer is
  -- recorded as a success of the operator's node, and the breaker is closed at once.
  pub fetch_from-closes :
      (now later : ℕ) (url auth : Text) (platform : Endpoint) (raw : RawTemplate N)
      (health : List (Text × HealthState))
      → should_fallback sources.health_opts (pos now) (source_key (operator_rpc url auth)) health
        ≡ true
      → sources.get_block_template platform ≡ some raw
      → let f = fetch_from sources now (operator_rpc url auth) platform health in
        (f.answer ≡ some (raw, true))
        × (should_fallback sources.health_opts
              (pos later)
              (source_key (operator_rpc url auth))
              f.health
            ≡ false)
  unfolding template_source_endpoint
  fetch_from-closes now later url auth platform raw health is_open answers =
      rw (is_open, answers)
        (
          refl,
          success-closes sources.health_opts (pos now) (pos later)
              (source_key (operator_rpc url auth)) health,
        )
