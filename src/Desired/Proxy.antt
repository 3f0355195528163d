-- ===== src/Desired/Proxy.antt =====
-- The desired Proxy Provider, and the request that creates it: internal/controller/desired.go.
pub mod Stable
use authentik_operator.Prelude.{String, Option, none, some, true, List, get_or}
use authentik_operator.Api.{
  ProviderSpec, ProxyProviderSpec, ProxyModeSpec, ForwardAuthSingleSpec, ForwardAuthDomainSpec,
  BasicAuthSpec,
}
use authentik_operator.Models.{
  Nullable, ProxyMode, PatchedProxyProviderRequest, ProxyProviderRequest,
}
use authentik_operator.Reference.{Flows, ProxyReferences}
use authentik_operator.Prelude.Text.{join}

unfoldable pub nullable_string : Option String → Nullable String
nullable_string none = none
nullable_string (some value) = some (some value)

-- the struct literal of `desiredProxyProvider`, before the mode is set
unfoldable pub proxy_base :
    ProviderSpec → ProxyProviderSpec → Flows → ProxyReferences → PatchedProxyProviderRequest
proxy_base provider proxy flows refs = record {
  name = provider.name;
  authentication_flow = nullable_string flows.authentication;
  authorization_flow = some flows.authorization;
  invalidation_flow = some flows.invalidation;
  property_mappings = none;
  internal_host = none;
  external_host = none;
  internal_host_ssl_validation = none;
  certificate = nullable_string refs.certificate;
  skip_path_regex = none;
  basic_auth_enabled = none;
  basic_auth_password_attribute = none;
  basic_auth_user_attribute = none;
  mode = none;
  intercept_header_auth = proxy.intercept_header_auth;
  cookie_domain = none;
  access_token_validity = proxy.access_token_validity;
  refresh_token_validity = proxy.refresh_token_validity;
}

-- the switch on the mode
unfoldable pub with_mode :
    Option ProxyModeSpec
    → Option ForwardAuthSingleSpec
    → Option ForwardAuthDomainSpec
    → PatchedProxyProviderRequest
    → PatchedProxyProviderRequest
with_mode (some m) single domain desired = record desired {
  mode = some ProxyMode.proxy;
  external_host = some m.external_host;
  internal_host = some m.internal_host;
  internal_host_ssl_validation = m.internal_host_ssl_validation;
}
with_mode none (some m) domain desired = record desired {
  mode = some ProxyMode.forward_single;
  external_host = some m.external_host;
}
with_mode none none (some m) desired = record desired {
  mode = some ProxyMode.forward_domain;
  external_host = some m.authentication_url;
  cookie_domain = some m.cookie_domain;
}
with_mode none none none desired = desired

unfoldable pub with_paths :
    Option (List String) → PatchedProxyProviderRequest → PatchedProxyProviderRequest
with_paths none desired = desired
with_paths (some paths) desired = record desired { skip_path_regex = some (join "\n" paths) }

unfoldable pub with_basic_auth :
    Option BasicAuthSpec → PatchedProxyProviderRequest → PatchedProxyProviderRequest
with_basic_auth none desired = desired
with_basic_auth (some auth) desired = record desired {
  basic_auth_enabled = some true;
  basic_auth_user_attribute = some auth.user_attribute;
  basic_auth_password_attribute = some auth.password_attribute;
}

unfoldable pub desired_proxy_provider :
    ProviderSpec → ProxyProviderSpec → Flows → ProxyReferences → PatchedProxyProviderRequest
unfolding proxy_base with_mode with_paths with_basic_auth nullable_string
desired_proxy_provider provider proxy flows refs = with_basic_auth proxy.basic_auth (
    with_paths proxy.unauthenticated_paths (
      with_mode proxy.proxy proxy.forward_auth_single proxy.forward_auth_domain
        (proxy_base provider proxy flows refs)))

-- `desiredProxyProvider` sets both flows, so the dereferences of the source are of set fields.
unfoldable pub create_proxy_provider_request :
    String → PatchedProxyProviderRequest → ProxyProviderRequest
create_proxy_provider_request name desired = record {
  name = name;
  authentication_flow = desired.authentication_flow;
  authorization_flow = get_or desired.authorization_flow "";
  invalidation_flow = get_or desired.invalidation_flow "";
  internal_host = desired.internal_host;
  external_host = get_or desired.external_host "";
  internal_host_ssl_validation = desired.internal_host_ssl_validation;
  certificate = desired.certificate;
  skip_path_regex = desired.skip_path_regex;
  basic_auth_enabled = desired.basic_auth_enabled;
  basic_auth_password_attribute = desired.basic_auth_password_attribute;
  basic_auth_user_attribute = desired.basic_auth_user_attribute;
  mode = desired.mode;
  intercept_header_auth = desired.intercept_header_auth;
  cookie_domain = desired.cookie_domain;
  access_token_validity = desired.access_token_validity;
  refresh_token_validity = desired.refresh_token_validity;
}
