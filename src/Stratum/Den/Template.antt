-- ===== src/Stratum/Den/Template.antt =====
-- apps/stratum/src/hashden/hashden.service.ts: `fetchTemplate` and `getEffectiveJobTemplate`, the template
-- that the miners of a den work on. The row of the den, the answers of the nodes and the reading of a
-- stored secret are given; `now` is the clock, which is read once.
pub mod Stale
use hashden.Common.{
  ℕ, ◌+◌, Bool, true, false, not, ◌&&◌, List, [], ◌∷◌, ◌++◌, Option, none, some, Result, ok, err,
  if◌then◌else◌, ltb,
}
use hashden.Common.Int.{ℤ, pos}
use hashden.Common.Text.{Text, codes, text_eq}
use hashden.Common.Dict.{lookup, insert}
use hashden.Templates.Health.{
  HealthOpts, HealthState, should_fallback, record_success, record_failure,
}
use hashden.Templates.Source.{
  Endpoint, GroupTemplateConfig, SourceError, TemplateSource, platform_default, operator_rpc,
  resolve_template_source, template_source_endpoint,
}
use hashden.Stratum.Jobs.{RawTemplate, JobTemplate, JobsService, build_job_template}

pub record CachedJobTemplate (N : Type 0) : Type 0 where
  pub template : JobTemplate N
  pub expires_at : ℕ

-- The state of the service: the cache by den, and the health of the sources.
pub record DenService (N : Type 0) : Type 0 where
  pub job_template_cache : List (Text × CachedJobTemplate N)
  pub template_health : List (Text × HealthState)

-- `jobTemplateCacheTtlMs`
abbrev pub cache_ttl : ℕ
cache_ttl = 4000

-- What the service asks: the row of a den, the reading of its secret, the platform's own node (none
-- where a setting is missing), and `getblocktemplate` of a node.
pub record Sources (N : Type 0) : Type 0 where
  pub find_config : Text → Option GroupTemplateConfig
  pub decrypt_auth : Text → Option Text
  pub platform_node : Option Endpoint
  pub get_block_template : Endpoint → Option (RawTemplate N)
  pub health_opts : HealthOpts

-- `group.operatorRpcAuth ? decrypt(group.operatorRpcAuth) : null`; none if it throws.
abbrev pub decrypted : (Text → Option Text) → Option Text → Option (Option Text)
decrypted decrypt none = some none
decrypted decrypt (some []) = some none
decrypted decrypt (some (c ∷ auth)) = elim (decrypt (c ∷ auth)) [
  | none ↦ none
  | some plain ↦ some (some plain)
]

abbrev pub source_key : TemplateSource → Text
source_key platform_default = codes "platform"
source_key (operator_rpc url auth) = codes "op:" ++ url

abbrev pub is_operator : TemplateSource → Bool
is_operator platform_default = false
is_operator (operator_rpc url auth) = true

-- A template of a node, and whether the platform's own stood in for the operator's; none is an error.
pub record Fetched (N : Type 0) : Type 0 where
  pub answer : Option (RawTemplate N × Bool)
  pub health : List (Text × HealthState)

module _ {N : Type 0} (sources : Sources N) where
  abbrev pub failed_fetch : List (Text × HealthState) → Fetched N
  failed_fetch health = record { answer = none; health = health }

  abbrev pub hot_fallback : Option (RawTemplate N) → List (Text × HealthState) → Fetched N
  hot_fallback none health = failed_fetch health
  hot_fallback (some raw) health = record { answer = some (raw, true); health = health }

  -- The `try` and the `catch`.
  abbrev pub after_answer :
      ℕ
      → TemplateSource
      → Bool
      → Endpoint
      → Option (RawTemplate N)
      → List (Text × HealthState)
      → Fetched N
  after_answer now source use_fallback platform (some raw) health = record {
    answer = some (raw, use_fallback);
    health = record_success (pos now) (source_key source) health;
  }
  after_answer now source use_fallback platform none health =
      if is_operator source && not use_fallback
      then hot_fallback (sources.get_block_template platform)
          (record_failure sources.health_opts (pos now) (source_key source) health)
      else failed_fetch health

  abbrev pub fetch_from : ℕ → TemplateSource → Endpoint → List (Text × HealthState) → Fetched N
  fetch_from now source platform health =
      let use_fallback =
        is_operator source
        && should_fallback sources.health_opts (pos now) (source_key source) health in
      after_answer now source use_fallback platform
        (sources.get_block_template
          (template_source_endpoint (if use_fallback then platform_default else source) platform))
        health

  abbrev pub fetch_resolved :
      ℕ
      → Result SourceError TemplateSource
      → Option Endpoint
      → List (Text × HealthState)
      → Fetched N
  fetch_resolved now source none health = failed_fetch health
  fetch_resolved now (err e) (some platform) health = failed_fetch health
  fetch_resolved now (ok source) (some platform) health = fetch_from now source platform health

  abbrev pub fetch_config :
      ℕ → GroupTemplateConfig → Option (Option Text) → List (Text × HealthState) → Fetched N
  fetch_config now group none health = failed_fetch health
  fetch_config now group (some auth) health =
      fetch_resolved now (resolve_template_source (record group { operator_rpc_auth = auth }))
        sources.platform_node health

  abbrev pub fetch_group : ℕ → Option GroupTemplateConfig → List (Text × HealthState) → Fetched N
  fetch_group now none health = failed_fetch health
  fetch_group now (some group) health =
      fetch_config now group (decrypted sources.decrypt_auth group.operator_rpc_auth) health

  unfoldable pub fetch_template : ℕ → Text → List (Text × HealthState) → Fetched N
  fetch_template now group_id health = fetch_group now (sources.find_config group_id) health

  -- What `getEffectiveJobTemplate` leaves.
  pub record Served : Type 0 where
    pub served : JobTemplate N
    pub den_service : DenService N
    pub jobs_service : JobsService N

  abbrev pub serve : JobTemplate N → DenService N → JobsService N → Served
  serve t d s = record { served = t; den_service = d; jobs_service = s }

  abbrev pub use_fetched :
      ℕ → Text → JobTemplate N → DenService N → JobsService N → Fetched N → Served
  use_fetched now group_id default d s f = elim f.answer [
    | none ↦ serve default (record d { template_health = f.health }) s
    | some (raw, used_fallback) ↦
        if used_fallback
        then serve default (record d { template_health = f.health }) s
        else (let (t, s') = build_job_template now raw default.block_data.clear_jobs s in
            serve t
              (record {
                job_template_cache =
                    insert group_id (record { template = t; expires_at = now + cache_ttl })
                      d.job_template_cache;
                template_health = f.health;
              })
              s')
  ]

  abbrev pub serves_platform : Option GroupTemplateConfig → Bool
  serves_platform none = true
  serves_platform (some group) = text_eq group.template_source (codes "PLATFORM_DEFAULT")

  abbrev pub serve_uncached : ℕ → Text → JobTemplate N → DenService N → JobsService N → Served
  serve_uncached now group_id default d s =
      if serves_platform (sources.find_config group_id)
      then serve default d s
      else use_fetched now group_id default d s (fetch_template now group_id d.template_health)

  abbrev pub serve_cached :
      ℕ
      → Text
      → JobTemplate N
      → DenService N
      → JobsService N
      → Option (CachedJobTemplate N)
      → Served
  serve_cached now group_id default d s none = serve_uncached now group_id default d s
  serve_cached now group_id default d s (some cached) =
      if ltb now cached.expires_at
      then serve cached.template d s
      else serve_uncached now group_id default d s

  unfoldable pub get_effective_job_template :
      ℕ → Text → JobTemplate N → DenService N → JobsService N → Served
  get_effective_job_template now group_id default d s =
      serve_cached now group_id default d s (lookup group_id d.job_template_cache)
