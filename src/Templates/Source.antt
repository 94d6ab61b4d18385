-- ===== src/Templates/Source.antt =====
-- packages/templates/src/source.ts: the node that a den's templates are fetched from.
pub mod Resolved
use hashden.Common.{[], ◌∷◌, Bool, Option, none, some, Result, ok, err, if◌then◌else◌, ◌>>=◌}
use hashden.Common.Text.{Text, codes, text_eq}

-- A URL with its credentials: `PlatformDefaults`, and what `templateSourceEndpoint` returns.
pub record Endpoint : Type 0 where
  pub url : Text
  pub auth : Text

pub record GroupTemplateConfig : Type 0 where
  pub template_source : Text
  pub operator_rpc_url : Option Text
  pub operator_rpc_auth : Option Text

pub data TemplateSource : Type 0 where
  platform_default : TemplateSource
  operator_rpc : Text → Text → TemplateSource

pub data SourceError : Type 0 where
  operator_rpc_missing : SourceError

-- `!url || !auth`: null and the empty string are missing.
abbrev pub operator_source : Option Text → Option Text → Result SourceError TemplateSource
operator_source none auth = err operator_rpc_missing
operator_source (some []) auth = err operator_rpc_missing
operator_source (some (c ∷ url)) none = err operator_rpc_missing
operator_source (some (c ∷ url)) (some []) = err operator_rpc_missing
operator_source (some (c ∷ url)) (some (d ∷ auth)) = ok (operator_rpc (c ∷ url) (d ∷ auth))

unfoldable pub resolve_template_source : GroupTemplateConfig → Result SourceError TemplateSource
resolve_template_source group =
    if text_eq group.template_source (codes "OPERATOR_RPC")
    then operator_source group.operator_rpc_url group.operator_rpc_auth
    else ok platform_default

unfoldable pub template_source_endpoint : TemplateSource → Endpoint → Endpoint
template_source_endpoint (operator_rpc url auth) platform = record { url = url; auth = auth }
template_source_endpoint platform_default platform = platform
