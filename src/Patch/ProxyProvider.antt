-- ===== src/Patch/ProxyProvider.antt =====
-- `DiffProxyProvider` of internal/authentik/patch.go. `none` is the result `nil, false`.
pub mod Spec
pub mod Laws
use authentik_operator.Prelude.{Bool, ◌||◌, Option, none, some, is_some, if◌then◌else◌}
use authentik_operator.Prelude.{string_eq, bool_eq}
use authentik_operator.Prelude.Int.{int_eq}
use authentik_operator.Models.{
  policy_engine_mode_eq, client_type_eq, grant_type_eq, sub_mode_eq, issuer_mode_eq,
  logout_method_eq, proxy_mode_eq,
}
use authentik_operator.Models.{ProxyProvider, PatchedProxyProviderRequest}
use authentik_operator.Patch.Fields.{diff_value, diff_pointer, diff_nullable, first_non_nil}
use authentik_operator.Patch.Sets.{diff_set}
use authentik_operator.Patch.RedirectUris.{diff_redirect_uris}

-- the struct literal
unfoldable pub proxy_provider_patch :
    PatchedProxyProviderRequest → ProxyProvider → PatchedProxyProviderRequest
proxy_provider_patch desired observed = record {
  name = diff_value desired.name observed.name;
  authentication_flow = diff_nullable desired.authentication_flow observed.authentication_flow;
  authorization_flow = diff_value desired.authorization_flow observed.authorization_flow;
  invalidation_flow = diff_value desired.invalidation_flow observed.invalidation_flow;
  property_mappings = diff_set desired.property_mappings observed.property_mappings;
  internal_host = diff_pointer desired.internal_host observed.internal_host;
  external_host = diff_value desired.external_host observed.external_host;
  internal_host_ssl_validation =
      diff_pointer desired.internal_host_ssl_validation observed.internal_host_ssl_validation;
  certificate = diff_nullable desired.certificate observed.certificate;
  skip_path_regex = diff_pointer desired.skip_path_regex observed.skip_path_regex;
  basic_auth_enabled = diff_pointer desired.basic_auth_enabled observed.basic_auth_enabled;
  basic_auth_password_attribute =
      diff_pointer desired.basic_auth_password_attribute observed.basic_auth_password_attribute;
  basic_auth_user_attribute =
      diff_pointer desired.basic_auth_user_attribute observed.basic_auth_user_attribute;
  mode = diff_pointer desired.mode observed.mode;
  intercept_header_auth = diff_pointer desired.intercept_header_auth observed.intercept_header_auth;
  cookie_domain = diff_pointer desired.cookie_domain observed.cookie_domain;
  access_token_validity = diff_pointer desired.access_token_validity observed.access_token_validity;
  refresh_token_validity =
      diff_pointer desired.refresh_token_validity observed.refresh_token_validity;
}

unfoldable pub proxy_provider_changed : PatchedProxyProviderRequest → Bool
proxy_provider_changed patch =
    is_some patch.name
    || is_some patch.authentication_flow
    || is_some patch.authorization_flow
    || is_some patch.invalidation_flow
    || is_some patch.property_mappings
    || is_some patch.internal_host
    || is_some patch.external_host
    || is_some patch.internal_host_ssl_validation
    || is_some patch.certificate
    || is_some patch.skip_path_regex
    || is_some patch.basic_auth_enabled
    || is_some patch.basic_auth_password_attribute
    || is_some patch.basic_auth_user_attribute
    || is_some patch.mode
    || is_some patch.intercept_header_auth
    || is_some patch.cookie_domain
    || is_some patch.access_token_validity
    || is_some patch.refresh_token_validity

-- `mode` is sent with every patch.
unfoldable pub diff_proxy_provider :
    PatchedProxyProviderRequest → ProxyProvider → Option PatchedProxyProviderRequest
unfolding proxy_provider_patch proxy_provider_changed
diff_proxy_provider desired observed =
    let patch = proxy_provider_patch desired observed in
    if proxy_provider_changed patch
    then some (record patch { mode = first_non_nil desired.mode observed.mode })
    else none
