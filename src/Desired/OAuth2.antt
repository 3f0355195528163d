-- ===== src/Desired/OAuth2.antt =====
-- The desired OAuth2 Provider, and the request that creates it: internal/controller/desired.go.
pub mod Stable
use authentik_operator.Prelude.{
  String, Option, none, some, List, [], map, get_or, or_else, string_eq, ◌==◌, if◌then◌else◌,
}
use authentik_operator.Api.{
  ClientType, GrantType, SubjectMode, IssuerMode, LogoutMethod, MatchingMode, RedirectUriType,
  RedirectUri, ProviderSpec, OAuth2ProviderSpec,
}
use authentik_operator.Models.{
  Nullable, ClientTypeEnum, GrantTypeEnum, SubModeEnum, IssuerModeEnum, LogoutMethodEnum,
  MatchingModeEnum, RedirectUriTypeEnum, RedirectUriRequest, PatchedOAuth2ProviderRequest,
  OAuth2ProviderRequest,
}
use authentik_operator.Reference.{Flows, Credentials, OAuth2References, CreationDefaults}
use authentik_operator.Desired.Application.{map_enum}
use authentik_operator.Desired.Proxy.{nullable_string}

unfoldable pub client_types : ClientType → ClientTypeEnum
client_types ClientType.confidential = ClientTypeEnum.confidential
client_types ClientType.public = ClientTypeEnum.public

unfoldable pub grant_types : GrantType → GrantTypeEnum
grant_types GrantType.authorization_code = GrantTypeEnum.authorization_code
grant_types GrantType.implicit = GrantTypeEnum.implicit
grant_types GrantType.hybrid = GrantTypeEnum.hybrid
grant_types GrantType.refresh_token = GrantTypeEnum.refresh_token
grant_types GrantType.client_credentials = GrantTypeEnum.client_credentials
grant_types GrantType.password = GrantTypeEnum.password
grant_types GrantType.device_code = GrantTypeEnum.device_code
grant_types GrantType.token_exchange = GrantTypeEnum.token_exchange

unfoldable pub subject_modes : SubjectMode → SubModeEnum
subject_modes SubjectMode.hashed_user_id = SubModeEnum.hashed_user_id
subject_modes SubjectMode.user_id = SubModeEnum.user_id
subject_modes SubjectMode.user_uuid = SubModeEnum.user_uuid
subject_modes SubjectMode.user_username = SubModeEnum.user_username
subject_modes SubjectMode.user_email = SubModeEnum.user_email
subject_modes SubjectMode.user_upn = SubModeEnum.user_upn

unfoldable pub issuer_modes : IssuerMode → IssuerModeEnum
issuer_modes IssuerMode.global = IssuerModeEnum.global
issuer_modes IssuerMode.per_provider = IssuerModeEnum.per_provider

unfoldable pub logout_methods : LogoutMethod → LogoutMethodEnum
logout_methods LogoutMethod.back_channel = LogoutMethodEnum.back_channel
logout_methods LogoutMethod.front_channel = LogoutMethodEnum.front_channel

unfoldable pub matching_modes : MatchingMode → MatchingModeEnum
matching_modes MatchingMode.strict = MatchingModeEnum.strict
matching_modes MatchingMode.regex = MatchingModeEnum.regex

unfoldable pub redirect_uri_types : RedirectUriType → RedirectUriTypeEnum
redirect_uri_types RedirectUriType.authorization = RedirectUriTypeEnum.authorization
redirect_uri_types RedirectUriType.post_logout = RedirectUriTypeEnum.logout

-- one step of the loop over the redirect URIs
unfoldable pub redirect_uri_request : RedirectUri → RedirectUriRequest
redirect_uri_request uri = record {
  url = uri.url;
  matching_mode = matching_modes (get_or uri.matching_mode MatchingMode.strict);
  redirect_uri_type = some (redirect_uri_types (get_or uri.type RedirectUriType.authorization));
}

-- the client ID and the client secret of the credentials
unfoldable pub credentials_id : Option Credentials → Option String
credentials_id none = none
credentials_id (some c) = if c.client_id == "" then none else some c.client_id

unfoldable pub credentials_secret : Option Credentials → Option String
credentials_secret none = none
credentials_secret (some c) = if c.secret_exists then some c.client_secret else none

unfoldable pub map_slice : {A B : Type 0} → (A → B) → Option (List A) → Option (List B)
map_slice f none = none
map_slice f (some xs) = some (map f xs)

unfoldable pub desired_oauth2_provider :
    ProviderSpec → OAuth2ProviderSpec → Flows → OAuth2References → PatchedOAuth2ProviderRequest
unfolding nullable_string credentials_id credentials_secret map_slice map_enum
desired_oauth2_provider provider oauth2 flows refs = record {
  name = provider.name;
  authentication_flow = nullable_string flows.authentication;
  authorization_flow = some flows.authorization;
  invalidation_flow = some flows.invalidation;
  property_mappings = refs.scopes;
  client_type = map_enum client_types oauth2.client_type;
  grant_types = map_slice grant_types oauth2.grant_types;
  client_id = credentials_id refs.credentials;
  client_secret = credentials_secret refs.credentials;
  access_code_validity = oauth2.access_code_validity;
  access_token_validity = oauth2.access_token_validity;
  refresh_token_validity = oauth2.refresh_token_validity;
  refresh_token_threshold = oauth2.refresh_token_threshold;
  include_claims_in_id_token = oauth2.include_claims_in_id_token;
  signing_key = nullable_string refs.signing_key;
  encryption_key = nullable_string refs.encryption_key;
  redirect_uris = map_slice redirect_uri_request oauth2.redirect_uris;
  logout_uri = oauth2.logout_uri;
  logout_method = map_enum logout_methods oauth2.logout_method;
  sub_mode = map_enum subject_modes oauth2.subject_mode;
  issuer_mode = map_enum issuer_modes oauth2.issuer_mode;
}

-- `!request.SigningKey.IsSet() && defaults.SigningKey != nil`
unfoldable pub default_signing_key : Nullable String → Option String → Nullable String
default_signing_key (some key) default = some key
default_signing_key none none = none
default_signing_key none (some key) = some (some key)

unfoldable pub create_oauth2_provider_request :
    String → PatchedOAuth2ProviderRequest → CreationDefaults → OAuth2ProviderRequest
unfolding default_signing_key
create_oauth2_provider_request name desired defaults = record {
  name = name;
  authentication_flow = desired.authentication_flow;
  authorization_flow = get_or desired.authorization_flow "";
  invalidation_flow = get_or desired.invalidation_flow "";
  property_mappings = or_else desired.property_mappings defaults.scopes;
  client_type = desired.client_type;
  grant_types = desired.grant_types;
  client_id = desired.client_id;
  client_secret = desired.client_secret;
  access_code_validity = desired.access_code_validity;
  access_token_validity = desired.access_token_validity;
  refresh_token_validity = desired.refresh_token_validity;
  refresh_token_threshold = desired.refresh_token_threshold;
  include_claims_in_id_token = desired.include_claims_in_id_token;
  signing_key = default_signing_key desired.signing_key defaults.signing_key;
  encryption_key = desired.encryption_key;
  redirect_uris = some (get_or desired.redirect_uris []);
  logout_uri = desired.logout_uri;
  logout_method = desired.logout_method;
  sub_mode = desired.sub_mode;
  issuer_mode = desired.issuer_mode;
}
