-- ===== src/Patch/ProxyProvider/Laws.antt =====
-- The diff of a Proxy Provider is empty exactly on a match, and one partial update reaches a match.
use authentik_operator.Prelude.{
  arith, ◌≡◌, refl, ◌↔◌, false, Option, none, some, or_else, if_some, if_none,
}
use authentik_operator.Prelude.{string_eq, bool_eq}
use authentik_operator.Prelude.Int.{int_eq}
use authentik_operator.Models.{
  policy_engine_mode_eq, client_type_eq, grant_type_eq, sub_mode_eq, issuer_mode_eq,
  logout_method_eq, proxy_mode_eq,
}
use authentik_operator.Models.{ProxyProvider, PatchedProxyProviderRequest}
use authentik_operator.Patch.Fields.{first_non_nil}
use authentik_operator.Patch.Fields.Laws.{
  diff_value_iff, diff_pointer_iff, diff_nullable_iff, AgreesValue-patched, AgreesPointer-patched,
  AgreesNullable-patched, AgreesPointer-first,
}
use authentik_operator.Patch.Sets.Laws.{diff_set_iff, AgreesSet-patched}
use authentik_operator.Patch.ProxyProvider.{
  proxy_provider_patch, proxy_provider_changed, diff_proxy_provider,
}
use authentik_operator.Patch.ProxyProvider.Spec.{MatchesProxyProvider, PatchesProxyProvider}

unchanged :
    (p : PatchedProxyProviderRequest)
    → proxy_provider_changed p ≡ false
    → (p.name ≡ none)
      × (p.authentication_flow ≡ none)
      × (p.authorization_flow ≡ none)
      × (p.invalidation_flow ≡ none)
      × (p.property_mappings ≡ none)
      × (p.internal_host ≡ none)
      × (p.external_host ≡ none)
      × (p.internal_host_ssl_validation ≡ none)
      × (p.certificate ≡ none)
      × (p.skip_path_regex ≡ none)
      × (p.basic_auth_enabled ≡ none)
      × (p.basic_auth_password_attribute ≡ none)
      × (p.basic_auth_user_attribute ≡ none)
      × (p.mode ≡ none)
      × (p.intercept_header_auth ≡ none)
      × (p.cookie_domain ≡ none)
      × (p.access_token_validity ≡ none)
      × (p.refresh_token_validity ≡ none)
unfolding proxy_provider_changed
unchanged p h = ground arith

still :
    (d : PatchedProxyProviderRequest) (o : ProxyProvider)
    → diff_proxy_provider d o ≡ none
    → proxy_provider_changed (proxy_provider_patch d o) ≡ false
unfolding diff_proxy_provider
still d o h = if_none (proxy_provider_changed (proxy_provider_patch d o)) _ h

diff_proxy_provider_sound :
    (d : PatchedProxyProviderRequest) (o : ProxyProvider)
    → diff_proxy_provider d o ≡ none
    → MatchesProxyProvider d o
unfolding proxy_provider_patch
diff_proxy_provider_sound d o h =
    let u = unchanged (proxy_provider_patch d o) (still d o h) in
    record {
      name = (diff_value_iff d.name o.name).0 u.0;
      authentication_flow = (diff_nullable_iff d.authentication_flow o.authentication_flow).0 u.1;
      authorization_flow = (diff_value_iff d.authorization_flow o.authorization_flow).0 u.2;
      invalidation_flow = (diff_value_iff d.invalidation_flow o.invalidation_flow).0 u.3;
      property_mappings = (diff_set_iff d.property_mappings o.property_mappings).0 u.4;
      internal_host = (diff_pointer_iff d.internal_host o.internal_host).0 u.5;
      external_host = (diff_value_iff d.external_host o.external_host).0 u.6;
      internal_host_ssl_validation =
          (diff_pointer_iff d.internal_host_ssl_validation o.internal_host_ssl_validation).0 u.7;
      certificate = (diff_nullable_iff d.certificate o.certificate).0 u.8;
      skip_path_regex = (diff_pointer_iff d.skip_path_regex o.skip_path_regex).0 u.9;
      basic_auth_enabled = (diff_pointer_iff d.basic_auth_enabled o.basic_auth_enabled).0 u.10;
      basic_auth_password_attribute =
          (diff_pointer_iff d.basic_auth_password_attribute o.basic_auth_password_attribute).0 u.11;
      basic_auth_user_attribute =
          (diff_pointer_iff d.basic_auth_user_attribute o.basic_auth_user_attribute).0 u.12;
      mode = (diff_pointer_iff d.mode o.mode).0 u.13;
      intercept_header_auth =
          (diff_pointer_iff d.intercept_header_auth o.intercept_header_auth).0 u.14;
      cookie_domain = (diff_pointer_iff d.cookie_domain o.cookie_domain).0 u.15;
      access_token_validity =
          (diff_pointer_iff d.access_token_validity o.access_token_validity).0 u.16;
      refresh_token_validity =
          (diff_pointer_iff d.refresh_token_validity o.refresh_token_validity).0 u.17;
    }

pub diff_proxy_provider_complete :
    (d : PatchedProxyProviderRequest) (o : ProxyProvider)
    → MatchesProxyProvider d o
    → diff_proxy_provider d o ≡ none
unfolding diff_proxy_provider
diff_proxy_provider_complete d o m = ground (
  arith,
  (diff_value_iff d.name o.name).1 m.name,
  (diff_nullable_iff d.authentication_flow o.authentication_flow).1 m.authentication_flow,
  (diff_value_iff d.authorization_flow o.authorization_flow).1 m.authorization_flow,
  (diff_value_iff d.invalidation_flow o.invalidation_flow).1 m.invalidation_flow,
  (diff_set_iff d.property_mappings o.property_mappings).1 m.property_mappings,
  (diff_pointer_iff d.internal_host o.internal_host).1 m.internal_host,
  (diff_value_iff d.external_host o.external_host).1 m.external_host,
  (diff_pointer_iff d.internal_host_ssl_validation o.internal_host_ssl_validation).1
      m.internal_host_ssl_validation,
  (diff_nullable_iff d.certificate o.certificate).1 m.certificate,
  (diff_pointer_iff d.skip_path_regex o.skip_path_regex).1 m.skip_path_regex,
  (diff_pointer_iff d.basic_auth_enabled o.basic_auth_enabled).1 m.basic_auth_enabled,
  (diff_pointer_iff d.basic_auth_password_attribute o.basic_auth_password_attribute).1
      m.basic_auth_password_attribute,
  (diff_pointer_iff d.basic_auth_user_attribute o.basic_auth_user_attribute).1
      m.basic_auth_user_attribute,
  (diff_pointer_iff d.mode o.mode).1 m.mode,
  (diff_pointer_iff d.intercept_header_auth o.intercept_header_auth).1 m.intercept_header_auth,
  (diff_pointer_iff d.cookie_domain o.cookie_domain).1 m.cookie_domain,
  (diff_pointer_iff d.access_token_validity o.access_token_validity).1 m.access_token_validity,
  (diff_pointer_iff d.refresh_token_validity o.refresh_token_validity).1 m.refresh_token_validity,
)

-- The diff of a Proxy Provider is empty exactly when every managed field has the desired value.
pub diff_proxy_provider_iff :
    (d : PatchedProxyProviderRequest) (o : ProxyProvider)
    → (diff_proxy_provider d o ≡ none) ↔ MatchesProxyProvider d o
diff_proxy_provider_iff d o = (diff_proxy_provider_sound d o, diff_proxy_provider_complete d o)

abbrev full : PatchedProxyProviderRequest → ProxyProvider → PatchedProxyProviderRequest
full d o = record (proxy_provider_patch d o) { mode = first_non_nil d.mode o.mode }

sent :
    (d p : PatchedProxyProviderRequest) (o : ProxyProvider)
    → diff_proxy_provider d o ≡ some p
    → full d o ≡ p
unfolding diff_proxy_provider
sent d p o h = if_some (proxy_provider_changed (proxy_provider_patch d o)) h

patched :
    (d : PatchedProxyProviderRequest) (o n : ProxyProvider)
    → PatchesProxyProvider (full d o) o n
    → MatchesProxyProvider d n
unfolding proxy_provider_patch
patched d o n u = record {
  name = AgreesValue-patched d.name o.name n.name u.name;
  authentication_flow =
      AgreesNullable-patched d.authentication_flow o.authentication_flow n.authentication_flow
        u.authentication_flow;
  authorization_flow =
      AgreesValue-patched d.authorization_flow o.authorization_flow n.authorization_flow
        u.authorization_flow;
  invalidation_flow =
      AgreesValue-patched d.invalidation_flow o.invalidation_flow n.invalidation_flow
        u.invalidation_flow;
  property_mappings =
      AgreesSet-patched d.property_mappings o.property_mappings n.property_mappings
        u.property_mappings;
  internal_host =
      AgreesPointer-patched d.internal_host o.internal_host n.internal_host u.internal_host;
  external_host =
      AgreesValue-patched d.external_host o.external_host n.external_host u.external_host;
  internal_host_ssl_validation =
      AgreesPointer-patched d.internal_host_ssl_validation o.internal_host_ssl_validation
        n.internal_host_ssl_validation u.internal_host_ssl_validation;
  certificate = AgreesNullable-patched d.certificate o.certificate n.certificate u.certificate;
  skip_path_regex =
      AgreesPointer-patched d.skip_path_regex o.skip_path_regex n.skip_path_regex u.skip_path_regex;
  basic_auth_enabled =
      AgreesPointer-patched d.basic_auth_enabled o.basic_auth_enabled n.basic_auth_enabled
        u.basic_auth_enabled;
  basic_auth_password_attribute =
      AgreesPointer-patched d.basic_auth_password_attribute o.basic_auth_password_attribute
        n.basic_auth_password_attribute u.basic_auth_password_attribute;
  basic_auth_user_attribute =
      AgreesPointer-patched d.basic_auth_user_attribute o.basic_auth_user_attribute
        n.basic_auth_user_attribute u.basic_auth_user_attribute;
  mode = AgreesPointer-first d.mode o.mode n.mode u.mode;
  intercept_header_auth =
      AgreesPointer-patched d.intercept_header_auth o.intercept_header_auth n.intercept_header_auth
        u.intercept_header_auth;
  cookie_domain =
      AgreesPointer-patched d.cookie_domain o.cookie_domain n.cookie_domain u.cookie_domain;
  access_token_validity =
      AgreesPointer-patched d.access_token_validity o.access_token_validity n.access_token_validity
        u.access_token_validity;
  refresh_token_validity =
      AgreesPointer-patched d.refresh_token_validity o.refresh_token_validity
        n.refresh_token_validity u.refresh_token_validity;
}

-- One partial update of a Proxy Provider with the body of its diff leaves nothing to send.
pub diff_proxy_provider-converges :
    (d p : PatchedProxyProviderRequest) (o n : ProxyProvider)
    → diff_proxy_provider d o ≡ some p
    → PatchesProxyProvider p o n
    → diff_proxy_provider d n ≡ none
diff_proxy_provider-converges d p o n h u =
    diff_proxy_provider_complete d n (patched d o n (rw (sent d p o h) u))

first_lem : {A : Type 0} (a b : Option A) → first_non_nil a b ≡ or_else a b
unfolding first_non_nil
first_lem none b = refl
first_lem (some a) b = refl

-- A patch of a Proxy Provider that is sent carries the desired mode, or else the observed one.
pub mode-diff_proxy_provider :
    (d p : PatchedProxyProviderRequest) (o : ProxyProvider)
    → diff_proxy_provider d o ≡ some p
    → p.mode ≡ or_else d.mode o.mode
mode-diff_proxy_provider d p o h = rw (← sent d p o h) (first_lem d.mode o.mode)
