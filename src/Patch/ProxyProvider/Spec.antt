-- ===== src/Patch/ProxyProvider/Spec.antt =====
-- What the diff of a Proxy Provider is held against: a match of the managed fields, and a partial update.
use authentik_operator.Prelude.{◌≡◌, get_or, or_else, SameElements}
use authentik_operator.Prelude.{string_eq, bool_eq}
use authentik_operator.Prelude.Int.{int_eq}
use authentik_operator.Models.{
  policy_engine_mode_eq, client_type_eq, grant_type_eq, sub_mode_eq, issuer_mode_eq,
  logout_method_eq, proxy_mode_eq,
}
use authentik_operator.Models.{ProxyProvider, PatchedProxyProviderRequest, get}
use authentik_operator.Patch.Fields.Laws.{AgreesValue, AgreesPointer, AgreesNullable}
use authentik_operator.Patch.Sets.Laws.{AgreesSet}

-- Every managed field has the desired value.
pub record MatchesProxyProvider (d : PatchedProxyProviderRequest) (o : ProxyProvider) : Type 0 where
  pub name : AgreesValue d.name o.name
  pub authentication_flow : AgreesNullable d.authentication_flow o.authentication_flow
  pub authorization_flow : AgreesValue d.authorization_flow o.authorization_flow
  pub invalidation_flow : AgreesValue d.invalidation_flow o.invalidation_flow
  pub property_mappings : AgreesSet d.property_mappings o.property_mappings
  pub internal_host : AgreesPointer d.internal_host o.internal_host
  pub external_host : AgreesValue d.external_host o.external_host
  pub internal_host_ssl_validation :
      AgreesPointer d.internal_host_ssl_validation o.internal_host_ssl_validation
  pub certificate : AgreesNullable d.certificate o.certificate
  pub skip_path_regex : AgreesPointer d.skip_path_regex o.skip_path_regex
  pub basic_auth_enabled : AgreesPointer d.basic_auth_enabled o.basic_auth_enabled
  pub basic_auth_password_attribute :
      AgreesPointer d.basic_auth_password_attribute o.basic_auth_password_attribute
  pub basic_auth_user_attribute :
      AgreesPointer d.basic_auth_user_attribute o.basic_auth_user_attribute
  pub mode : AgreesPointer d.mode o.mode
  pub intercept_header_auth : AgreesPointer d.intercept_header_auth o.intercept_header_auth
  pub cookie_domain : AgreesPointer d.cookie_domain o.cookie_domain
  pub access_token_validity : AgreesPointer d.access_token_validity o.access_token_validity
  pub refresh_token_validity : AgreesPointer d.refresh_token_validity o.refresh_token_validity

-- What a PATCH with the body `p` does: the fields that are sent are set, the others are kept.
pub record PatchesProxyProvider (p : PatchedProxyProviderRequest) (o n : ProxyProvider)
    : Type 0 where
  pub name : n.name ≡ get_or p.name o.name
  pub authentication_flow :
      get n.authentication_flow ≡ get_or p.authentication_flow (get o.authentication_flow)
  pub authorization_flow : n.authorization_flow ≡ get_or p.authorization_flow o.authorization_flow
  pub invalidation_flow : n.invalidation_flow ≡ get_or p.invalidation_flow o.invalidation_flow
  pub property_mappings :
      SameElements n.property_mappings (get_or p.property_mappings o.property_mappings)
  pub internal_host : n.internal_host ≡ or_else p.internal_host o.internal_host
  pub external_host : n.external_host ≡ get_or p.external_host o.external_host
  pub internal_host_ssl_validation :
      n.internal_host_ssl_validation
      ≡ or_else p.internal_host_ssl_validation o.internal_host_ssl_validation
  pub certificate : get n.certificate ≡ get_or p.certificate (get o.certificate)
  pub skip_path_regex : n.skip_path_regex ≡ or_else p.skip_path_regex o.skip_path_regex
  pub basic_auth_enabled : n.basic_auth_enabled ≡ or_else p.basic_auth_enabled o.basic_auth_enabled
  pub basic_auth_password_attribute :
      n.basic_auth_password_attribute
      ≡ or_else p.basic_auth_password_attribute o.basic_auth_password_attribute
  pub basic_auth_user_attribute :
      n.basic_auth_user_attribute ≡ or_else p.basic_auth_user_attribute o.basic_auth_user_attribute
  pub mode : n.mode ≡ or_else p.mode o.mode
  pub intercept_header_auth :
      n.intercept_header_auth ≡ or_else p.intercept_header_auth o.intercept_header_auth
  pub cookie_domain : n.cookie_domain ≡ or_else p.cookie_domain o.cookie_domain
  pub access_token_validity :
      n.access_token_validity ≡ or_else p.access_token_validity o.access_token_validity
  pub refresh_token_validity :
      n.refresh_token_validity ≡ or_else p.refresh_token_validity o.refresh_token_validity
