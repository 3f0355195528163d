-- ===== src/Models/Requests.antt =====
-- The bodies of POST and PATCH requests. A nil field, or an unset Nullable, is not sent; a slice
-- is an `Option` of a list, nil or set.
use authentik_operator.Prelude.{String, Bool, Option, List}
use authentik_operator.Prelude.Int.{ℤ}
use authentik_operator.Models.Enums.{
  Nullable, PolicyEngineMode, ClientTypeEnum, GrantTypeEnum, SubModeEnum, IssuerModeEnum,
  LogoutMethodEnum, MatchingModeEnum, RedirectUriTypeEnum, ProxyMode,
}

pub record PatchedApplicationRequest : Type 0 where
  pub name : Option String
  pub slug : Option String
  pub provider : Nullable ℤ
  pub open_in_new_tab : Option Bool
  pub meta_launch_url : Option String
  pub meta_icon : Option String
  pub meta_description : Option String
  pub meta_publisher : Option String
  pub policy_engine_mode : Option PolicyEngineMode
  pub group : Option String
  pub meta_hide : Option Bool

pub record ApplicationRequest : Type 0 where
  pub name : String
  pub slug : String
  pub provider : Nullable ℤ
  pub open_in_new_tab : Option Bool
  pub meta_launch_url : Option String
  pub meta_icon : Option String
  pub meta_description : Option String
  pub meta_publisher : Option String
  pub policy_engine_mode : Option PolicyEngineMode
  pub group : Option String
  pub meta_hide : Option Bool

pub record PatchedProxyProviderRequest : Type 0 where
  pub name : Option String
  pub authentication_flow : Nullable String
  pub authorization_flow : Option String
  pub invalidation_flow : Option String
  pub property_mappings : Option (List String)
  pub internal_host : Option String
  pub external_host : Option String
  pub internal_host_ssl_validation : Option Bool
  pub certificate : Nullable String
  pub skip_path_regex : Option String
  pub basic_auth_enabled : Option Bool
  pub basic_auth_password_attribute : Option String
  pub basic_auth_user_attribute : Option String
  pub mode : Option ProxyMode
  pub intercept_header_auth : Option Bool
  pub cookie_domain : Option String
  pub access_token_validity : Option String
  pub refresh_token_validity : Option String

pub record ProxyProviderRequest : Type 0 where
  pub name : String
  pub authentication_flow : Nullable String
  pub authorization_flow : String
  pub invalidation_flow : String
  pub internal_host : Option String
  pub external_host : String
  pub internal_host_ssl_validation : Option Bool
  pub certificate : Nullable String
  pub skip_path_regex : Option String
  pub basic_auth_enabled : Option Bool
  pub basic_auth_password_attribute : Option String
  pub basic_auth_user_attribute : Option String
  pub mode : Option ProxyMode
  pub intercept_header_auth : Option Bool
  pub cookie_domain : Option String
  pub access_token_validity : Option String
  pub refresh_token_validity : Option String

pub record RedirectUriRequest : Type 0 where
  pub url : String
  pub matching_mode : MatchingModeEnum
  pub redirect_uri_type : Option RedirectUriTypeEnum

pub record PatchedOAuth2ProviderRequest : Type 0 where
  pub name : Option String
  pub authentication_flow : Nullable String
  pub authorization_flow : Option String
  pub invalidation_flow : Option String
  pub property_mappings : Option (List String)
  pub client_type : Option ClientTypeEnum
  pub grant_types : Option (List GrantTypeEnum)
  pub client_id : Option String
  pub client_secret : Option String
  pub access_code_validity : Option String
  pub access_token_validity : Option String
  pub refresh_token_validity : Option String
  pub refresh_token_threshold : Option String
  pub include_claims_in_id_token : Option Bool
  pub signing_key : Nullable String
  pub encryption_key : Nullable String
  pub redirect_uris : Option (List RedirectUriRequest)
  pub logout_uri : Option String
  pub logout_method : Option LogoutMethodEnum
  pub sub_mode : Option SubModeEnum
  pub issuer_mode : Option IssuerModeEnum

pub record OAuth2ProviderRequest : Type 0 where
  pub name : String
  pub authentication_flow : Nullable String
  pub authorization_flow : String
  pub invalidation_flow : String
  pub property_mappings : Option (List String)
  pub client_type : Option ClientTypeEnum
  pub grant_types : Option (List GrantTypeEnum)
  pub client_id : Option String
  pub client_secret : Option String
  pub access_code_validity : Option String
  pub access_token_validity : Option String
  pub refresh_token_validity : Option String
  pub refresh_token_threshold : Option String
  pub include_claims_in_id_token : Option Bool
  pub signing_key : Nullable String
  pub encryption_key : Nullable String
  pub redirect_uris : Option (List RedirectUriRequest)
  pub logout_uri : Option String
  pub logout_method : Option LogoutMethodEnum
  pub sub_mode : Option SubModeEnum
  pub issuer_mode : Option IssuerModeEnum

pub record PatchedPolicyBindingRequest : Type 0 where
  pub policy : Nullable String
  pub group : Nullable String
  pub user : Nullable ℤ
  pub target : Option String
  pub negate : Option Bool
  pub enabled : Option Bool
  pub order : Option ℤ
  pub timeout : Option ℤ
  pub failure_result : Option Bool

pub record PolicyBindingRequest : Type 0 where
  pub policy : Nullable String
  pub group : Nullable String
  pub user : Nullable ℤ
  pub target : String
  pub negate : Option Bool
  pub order : ℤ
