-- ===== src/Patch/OAuth2Provider.antt =====
-- `DiffOAuth2Provider` of internal/authentik/patch.go. `none` is the result `nil, false`.
pub mod Spec
pub mod Laws
use authentik_operator.Prelude.{Bool, ◌||◌, Option, none, some, is_some, if◌then◌else◌}
use authentik_operator.Prelude.{string_eq, bool_eq}
use authentik_operator.Prelude.Int.{int_eq}
use authentik_operator.Models.{
  policy_engine_mode_eq, client_type_eq, grant_type_eq, sub_mode_eq, issuer_mode_eq,
  logout_method_eq, proxy_mode_eq,
}
use authentik_operator.Models.{OAuth2Provider, PatchedOAuth2ProviderRequest}
use authentik_operator.Patch.Fields.{diff_value, diff_pointer, diff_nullable, first_non_nil}
use authentik_operator.Patch.Sets.{diff_set}
use authentik_operator.Patch.RedirectUris.{diff_redirect_uris}

-- the struct literal
unfoldable pub oauth2_provider_patch :
    PatchedOAuth2ProviderRequest → OAuth2Provider → PatchedOAuth2ProviderRequest
oauth2_provider_patch desired observed = record {
  name = diff_value desired.name observed.name;
  authentication_flow = diff_nullable desired.authentication_flow observed.authentication_flow;
  authorization_flow = diff_value desired.authorization_flow observed.authorization_flow;
  invalidation_flow = diff_value desired.invalidation_flow observed.invalidation_flow;
  property_mappings = diff_set desired.property_mappings observed.property_mappings;
  client_type = diff_pointer desired.client_type observed.client_type;
  grant_types = diff_set desired.grant_types observed.grant_types;
  client_id = diff_pointer desired.client_id observed.client_id;
  client_secret = diff_pointer desired.client_secret observed.client_secret;
  access_code_validity = diff_pointer desired.access_code_validity observed.access_code_validity;
  access_token_validity = diff_pointer desired.access_token_validity observed.access_token_validity;
  refresh_token_validity =
      diff_pointer desired.refresh_token_validity observed.refresh_token_validity;
  refresh_token_threshold =
      diff_pointer desired.refresh_token_threshold observed.refresh_token_threshold;
  include_claims_in_id_token =
      diff_pointer desired.include_claims_in_id_token observed.include_claims_in_id_token;
  signing_key = diff_nullable desired.signing_key observed.signing_key;
  encryption_key = diff_nullable desired.encryption_key observed.encryption_key;
  redirect_uris = diff_redirect_uris desired.redirect_uris observed.redirect_uris;
  logout_uri = diff_pointer desired.logout_uri observed.logout_uri;
  logout_method = diff_pointer desired.logout_method observed.logout_method;
  sub_mode = diff_pointer desired.sub_mode observed.sub_mode;
  issuer_mode = diff_pointer desired.issuer_mode observed.issuer_mode;
}

unfoldable pub oauth2_provider_changed : PatchedOAuth2ProviderRequest → Bool
oauth2_provider_changed patch =
    is_some patch.name
    || is_some patch.authentication_flow
    || is_some patch.authorization_flow
    || is_some patch.invalidation_flow
    || is_some patch.property_mappings
    || is_some patch.client_type
    || is_some patch.grant_types
    || is_some patch.client_id
    || is_some patch.client_secret
    || is_some patch.access_code_validity
    || is_some patch.access_token_validity
    || is_some patch.refresh_token_validity
    || is_some patch.refresh_token_threshold
    || is_some patch.include_claims_in_id_token
    || is_some patch.signing_key
    || is_some patch.encryption_key
    || is_some patch.redirect_uris
    || is_some patch.logout_uri
    || is_some patch.logout_method
    || is_some patch.sub_mode
    || is_some patch.issuer_mode

unfoldable pub diff_oauth2_provider :
    PatchedOAuth2ProviderRequest → OAuth2Provider → Option PatchedOAuth2ProviderRequest
unfolding oauth2_provider_patch oauth2_provider_changed
diff_oauth2_provider desired observed =
    let patch = oauth2_provider_patch desired observed in
    if oauth2_provider_changed patch then some patch else none
