-- ===== src/Models/Objects.antt =====
-- The objects that authentik returns. An int32 is ℤ.
use authentik_operator.Prelude.{String, Bool, Option, List}
use authentik_operator.Prelude.Int.{ℤ}
use authentik_operator.Models.Enums.{
  Nullable, PolicyEngineMode, ClientTypeEnum, GrantTypeEnum, SubModeEnum, IssuerModeEnum,
  LogoutMethodEnum, MatchingModeEnum, RedirectUriTypeEnum, ProxyMode,
}

pub record Application : Type 0 where
  pub pk : String
  pub pbm_uuid : String
  pub name : String
  pub slug : String
  pub provider : Nullable ℤ
  pub open_in_new_tab : Option Bool
  pub meta_launch_url : Option String
  pub meta_icon : Option String
  pub meta_description : Option String
  pub meta_publisher : Option String
  pub policy_engine_mode : Option PolicyEngineMode
  pub group : Option String
  pub meta_hide : Option Bool

pub record ProxyProvider : Type 0 where
  pub pk : ℤ
  pub name : String
  pub authentication_flow : Nullable String
  pub authorization_flow : String
  pub invalidation_flow : String
  pub property_mappings : List String
  pub assigned_application_slug : Nullable String
  pub internal_host : Option String
  pub external_host : String
  pub internal_host_ssl_validation : Option Bool
  pub certificate : Nullable String
  pub skip_path_regex : Option String
  pub basic_auth_enabled : Option Bool
  pub basic_auth_password_attribute : Option String
  pub basic_auth_user_attribute : Option String
  pub mode : Option ProxyMode
  pub intercept_header_auth : Option Bool
  pub cookie_domain : Option String
  pub access_token_validity : Option String
  pub refresh_token_validity : Option String

pub record RedirectUri : Type 0 where
  pub url : String
  pub matching_mode : MatchingModeEnum
  pub redirect_uri_type : Option RedirectUriTypeEnum

pub record OAuth2Provider : Type 0 where
  pub pk : ℤ
  pub name : String
  pub authentication_flow : Nullable String
  pub authorization_flow : String
  pub invalidation_flow : String
  pub property_mappings : List String
  pub assigned_application_slug : Nullable String
  pub client_type : Option ClientTypeEnum
  pub grant_types : List GrantTypeEnum
  pub client_id : Option String
  pub client_secret : Option String
  pub access_code_validity : Option String
  pub access_token_validity : Option String
  pub refresh_token_validity : Option String
  pub refresh_token_threshold : Option String
  pub include_claims_in_id_token : Option Bool
  pub signing_key : Nullable String
  pub encryption_key : Nullable String
  pub redirect_uris : List RedirectUri
  pub logout_uri : Option String
  pub logout_method : Option LogoutMethodEnum
  pub sub_mode : Option SubModeEnum
  pub issuer_mode : Option IssuerModeEnum

pub record PolicyBinding : Type 0 where
  pub pk : String
  pub policy : Nullable String
  pub group : Nullable String
  pub user : Nullable ℤ
  pub target : String
  pub negate : Option Bool
  pub enabled : Option Bool
  pub order : ℤ
  pub timeout : Option ℤ
  pub failure_result : Option Bool

pub record Outpost : Type 0 where
  pub pk : String
  pub name : String
  pub providers : List ℤ

-- An object that is looked up for its identifier and its name: a Flow, a CertificateKeyPair, a
-- Group, a Policy or an Outpost as a reference, or a Role.
pub record Named : Type 0 where
  pub pk : String
  pub name : String

pub record User : Type 0 where
  pub pk : ℤ
  pub username : String

pub record ScopeMapping : Type 0 where
  pub pk : String
  pub managed : Nullable String

-- An object permission of a role, and a role with its object permissions.
pub record ObjectPermission : Type 0 where
  pub app_label : String
  pub model : String
  pub object_pk : String

pub record RoleAssignment : Type 0 where
  pub role_pk : String
  pub object_permissions : List ObjectPermission
