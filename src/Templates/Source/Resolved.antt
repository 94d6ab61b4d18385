-- ===== src/Templates/Source/Resolved.antt =====
-- packages/templates/src/source.ts: the two functions together.
use hashden.Common.{
  [], ◌∷◌, ◌≡◌, ◌↔◌, inl, inr, refl, Bool, false, Option, none, some, Result, ok, if◌then◌else◌,
  arith, Bool-cases, ◌>>=◌,
}
use hashden.Common.Text.{Text, codes, text_eq}
use hashden.Coinbase.Output.{is_empty}
use hashden.Templates.Source.{
  Endpoint, GroupTemplateConfig, SourceError, operator_source, resolve_template_source,
  template_source_endpoint,
}

abbrev pub endpoint_of : GroupTemplateConfig → Endpoint → Result SourceError Endpoint
endpoint_of group platform =
    resolve_template_source group >>= λ source. ok (template_source_endpoint source platform)

-- The operator's own URL and credentials, both given and not empty.
pub record IsOperators (group : GroupTemplateConfig) (e : Endpoint) : Type 0 where
  pub with_url : group.operator_rpc_url ≡ some e.url
  pub with_auth : group.operator_rpc_auth ≡ some e.auth
  pub url_given : is_empty e.url ≡ false
  pub auth_given : is_empty e.auth ≡ false

abbrev pub operators_choice : Text → Bool
operators_choice source = text_eq source (codes "OPERATOR_RPC")

operator_source_iff :
    (url auth : Option Text) (platform e : Endpoint)
    → ((operator_source url auth >>= λ source. ok (template_source_endpoint source platform))
        ≡ ok e)
      ↔ ((url ≡ some e.url)
          × (auth ≡ some e.auth)
          × (is_empty e.url ≡ false)
          × (is_empty e.auth ≡ false))
unfolding template_source_endpoint
operator_source_iff none auth platform e = ground arith
operator_source_iff (some []) auth platform e = ground arith
operator_source_iff (some (c ∷ url)) none platform e = ground arith
operator_source_iff (some (c ∷ url)) (some []) platform e = ground arith
operator_source_iff (some (c ∷ url)) (some (d ∷ auth)) platform e = ground arith

-- A den that chose its operator's node is served by that node, with the operator's own URL and
-- credentials, or not at all; every other den is served by the platform's. The two are never mixed.
pub endpoint_of_iff :
    (group : GroupTemplateConfig) (platform e : Endpoint)
    → (endpoint_of group platform ≡ ok e)
      ↔ (if operators_choice group.template_source then IsOperators group e else (e ≡ platform))
unfolding resolve_template_source template_source_endpoint
endpoint_of_iff group platform e = elim (Bool-cases (operators_choice group.template_source)) [
  | inl chosen ↦ rw chosen (
      let parts = operator_source_iff group.operator_rpc_url group.operator_rpc_auth platform e in
      (
        (λ h.
            let (u, a, p, q) = parts.0 h in
            record { with_url = u; with_auth = a; url_given = p; auth_given = q }),
        (λ i. parts.1 (i.with_url, i.with_auth, i.url_given, i.auth_given)),
      ))
  | inr default ↦ rw default ((λ h. cc), (λ h. rw h refl))
]
