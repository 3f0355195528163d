-- ===== src/Api/Spec.antt =====
-- The spec of an AuthentikApplication: api/v1alpha1/authentikapplication_types.go. An optional
-- field is an `Option`, and a slice with `omitempty` whose nil value means "not managed" is an
-- `Option` of a list. The enums hold the values that the CRD validation admits. int64 is ℤ.
use authentik_operator.Prelude.{String, Bool, Option, List}
use authentik_operator.Prelude.Int.{ℤ}

pub data DeletionPolicy : Type 0 where
  retain delete : DeletionPolicy

pub data AdoptionPolicy : Type 0 where
  never if_match force : AdoptionPolicy

pub record NamedReference : Type 0 where
  pub name : Option String
  pub uuid : Option String

pub record FlowReference : Type 0 where
  pub slug : Option String
  pub uuid : Option String

pub record UserReference : Type 0 where
  pub username : Option String
  pub pk : Option ℤ

pub record ScopeMappingReference : Type 0 where
  pub scope_name : Option String
  pub uuid : Option String

pub record ProviderFlows : Type 0 where
  pub authorization : FlowReference
  pub invalidation : FlowReference
  pub authentication : Option FlowReference

pub record ProxyModeSpec : Type 0 where
  pub external_host : String
  pub internal_host : String
  pub internal_host_ssl_validation : Option Bool

pub record ForwardAuthSingleSpec : Type 0 where
  pub external_host : String

pub record ForwardAuthDomainSpec : Type 0 where
  pub authentication_url : String
  pub cookie_domain : String

pub record BasicAuthSpec : Type 0 where
  pub user_attribute : String
  pub password_attribute : String

pub record ProxyProviderSpec : Type 0 where
  pub proxy : Option ProxyModeSpec
  pub forward_auth_single : Option ForwardAuthSingleSpec
  pub forward_auth_domain : Option ForwardAuthDomainSpec
  pub unauthenticated_paths : Option (List String)
  pub basic_auth : Option BasicAuthSpec
  pub intercept_header_auth : Option Bool
  pub access_token_validity : Option String
  pub refresh_token_validity : Option String
  pub certificate : Option NamedReference
  pub outpost : Option NamedReference

pub data ClientType : Type 0 where
  confidential public : ClientType

pub data GrantType : Type 0 where
  authorization_code implicit hybrid refresh_token : GrantType
  client_credentials password device_code token_exchange : GrantType

pub data SubjectMode : Type 0 where
  hashed_user_id user_id user_uuid user_username user_email user_upn : SubjectMode

pub data IssuerMode : Type 0 where
  global per_provider : IssuerMode

pub data LogoutMethod : Type 0 where
  back_channel front_channel : LogoutMethod

pub data MatchingMode : Type 0 where
  strict regex : MatchingMode

pub data RedirectUriType : Type 0 where
  authorization post_logout : RedirectUriType

pub record RedirectUri : Type 0 where
  pub url : String
  pub matching_mode : Option MatchingMode
  pub type : Option RedirectUriType

pub record OAuth2CredentialsSecretReference : Type 0 where
  pub name : String
  pub client_id_key : Option String
  pub client_secret_key : Option String

pub record OAuth2CredentialsSpec : Type 0 where
  pub client_id : Option String
  pub secret_ref : OAuth2CredentialsSecretReference

pub record OAuth2ProviderSpec : Type 0 where
  pub client_type : Option ClientType
  pub redirect_uris : Option (List RedirectUri)
  pub scopes : Option (List ScopeMappingReference)
  pub signing_key : Option NamedReference
  pub encryption_key : Option NamedReference
  pub grant_types : Option (List GrantType)
  pub subject_mode : Option SubjectMode
  pub issuer_mode : Option IssuerMode
  pub include_claims_in_id_token : Option Bool
  pub access_code_validity : Option String
  pub access_token_validity : Option String
  pub refresh_token_validity : Option String
  pub refresh_token_threshold : Option String
  pub logout_uri : Option String
  pub logout_method : Option LogoutMethod
  pub credentials : Option OAuth2CredentialsSpec

pub record ProviderSpec : Type 0 where
  pub name : Option String
  pub flows : ProviderFlows
  pub proxy : Option ProxyProviderSpec
  pub oauth2 : Option OAuth2ProviderSpec

pub data AccessMode : Type 0 where
  any all : AccessMode

pub record AccessRule : Type 0 where
  pub group : Option NamedReference
  pub user : Option UserReference
  pub policy : Option NamedReference
  pub negate : Option Bool

pub record AccessSpec : Type 0 where
  pub mode : Option AccessMode
  pub rules : List AccessRule
  pub public : Option Bool
  pub prune : Option Bool

pub record AuthentikApplicationSpec : Type 0 where
  pub slug : String
  pub name : String
  pub launch_url : Option String
  pub icon : Option String
  pub description : Option String
  pub publisher : Option String
  pub group : Option String
  pub open_in_new_tab : Option Bool
  pub hide_from_application_dashboard : Option Bool
  pub deletion_policy : Option DeletionPolicy
  pub adopt : Option AdoptionPolicy
  pub provider : Option ProviderSpec
  pub access : AccessSpec
