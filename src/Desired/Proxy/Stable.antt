-- ===== src/Desired/Proxy/Stable.antt =====
-- A Proxy Provider that was created from the spec matches the spec: the next reconcile does not patch it.
use authentik_operator.Prelude.{arith, ◌≡◌, ◌∙◌, String, none, get_or-some, sym}
use authentik_operator.Prelude.{string_eq, bool_eq}
use authentik_operator.Prelude.Int.{int_eq}
use authentik_operator.Models.{
  policy_engine_mode_eq, client_type_eq, grant_type_eq, sub_mode_eq, issuer_mode_eq,
  logout_method_eq, proxy_mode_eq,
}
use authentik_operator.Api.{ProviderSpec, ProxyProviderSpec}
use authentik_operator.Reference.{Flows, ProxyReferences}
use authentik_operator.Models.{ProxyProvider, ProxyProviderRequest, PatchedProxyProviderRequest}
use authentik_operator.Patch.Fields.Laws.{AgreesPointer, AgreesNullable}
use authentik_operator.Patch.ProxyProvider.{diff_proxy_provider}
use authentik_operator.Patch.ProxyProvider.Laws.{diff_proxy_provider_complete}
use authentik_operator.Desired.Application.{provider_name}
use authentik_operator.Desired.Proxy.{desired_proxy_provider, create_proxy_provider_request}

-- What a POST with the body `r` does: the object has the fields that were sent.
pub record StoresProxyProvider (r : ProxyProviderRequest) (n : ProxyProvider) : Type 0 where
  pub name : n.name ≡ r.name
  pub authentication_flow : AgreesNullable r.authentication_flow n.authentication_flow
  pub authorization_flow : n.authorization_flow ≡ r.authorization_flow
  pub invalidation_flow : n.invalidation_flow ≡ r.invalidation_flow
  pub internal_host : AgreesPointer r.internal_host n.internal_host
  pub external_host : n.external_host ≡ r.external_host
  pub internal_host_ssl_validation :
      AgreesPointer r.internal_host_ssl_validation n.internal_host_ssl_validation
  pub certificate : AgreesNullable r.certificate n.certificate
  pub skip_path_regex : AgreesPointer r.skip_path_regex n.skip_path_regex
  pub basic_auth_enabled : AgreesPointer r.basic_auth_enabled n.basic_auth_enabled
  pub basic_auth_password_attribute :
      AgreesPointer r.basic_auth_password_attribute n.basic_auth_password_attribute
  pub basic_auth_user_attribute :
      AgreesPointer r.basic_auth_user_attribute n.basic_auth_user_attribute
  pub mode : AgreesPointer r.mode n.mode
  pub intercept_header_auth : AgreesPointer r.intercept_header_auth n.intercept_header_auth
  pub cookie_domain : AgreesPointer r.cookie_domain n.cookie_domain
  pub access_token_validity : AgreesPointer r.access_token_validity n.access_token_validity
  pub refresh_token_validity : AgreesPointer r.refresh_token_validity n.refresh_token_validity

module _ (slug : String) (provider : ProviderSpec) (proxy : ProxyProviderSpec) (flows : Flows)
    (refs : ProxyReferences) (n : ProxyProvider) where
  abbrev desired : PatchedProxyProviderRequest
  desired = desired_proxy_provider provider proxy flows refs

  managed : (desired.name ≡ provider.name) × (desired.property_mappings ≡ none)
  unfolding desired_proxy_provider
  managed = ground arith

  -- A Proxy Provider that holds what the create request sent has nothing to patch.
  pub diff_proxy_provider-create :
      StoresProxyProvider
        (create_proxy_provider_request
          (provider_name slug provider)
          (desired_proxy_provider provider proxy flows refs))
        n
      → diff_proxy_provider (desired_proxy_provider provider proxy flows refs) n ≡ none
  unfolding create_proxy_provider_request provider_name
  diff_proxy_provider-create h = diff_proxy_provider_complete desired n (record {
    name = λ v p. h.name ∙ get_or-some provider.name slug v (sym managed.0 ∙ p);
    authentication_flow = h.authentication_flow;
    authorization_flow =
        λ v p. h.authorization_flow ∙ get_or-some desired.authorization_flow "" v p;
    invalidation_flow = λ v p. h.invalidation_flow ∙ get_or-some desired.invalidation_flow "" v p;
    property_mappings = λ v p. cc (managed.1, p);
    internal_host = h.internal_host;
    external_host = λ v p. h.external_host ∙ get_or-some desired.external_host "" v p;
    internal_host_ssl_validation = h.internal_host_ssl_validation;
    certificate = h.certificate;
    skip_path_regex = h.skip_path_regex;
    basic_auth_enabled = h.basic_auth_enabled;
    basic_auth_password_attribute = h.basic_auth_password_attribute;
    basic_auth_user_attribute = h.basic_auth_user_attribute;
    mode = h.mode;
    intercept_header_auth = h.intercept_header_auth;
    cookie_domain = h.cookie_domain;
    access_token_validity = h.access_token_validity;
    refresh_token_validity = h.refresh_token_validity;
  })
