-- ===== src/Desired/OAuth2/Stable.antt =====
-- An OAuth2 Provider that was created from the spec matches the spec: the next reconcile does not patch it.
use authentik_operator.Prelude.{
  arith, ◌≡◌, ◌∙◌, String, Option, none, some, some-inj, get_or-some, or_else-some, ap, [],
}
use authentik_operator.Prelude.{string_eq, bool_eq}
use authentik_operator.Prelude.Int.{int_eq}
use authentik_operator.Models.{
  policy_engine_mode_eq, client_type_eq, grant_type_eq, sub_mode_eq, issuer_mode_eq,
  logout_method_eq, proxy_mode_eq,
}
use authentik_operator.Api.{ProviderSpec, OAuth2ProviderSpec}
use authentik_operator.Reference.{Flows, OAuth2References, CreationDefaults}
use authentik_operator.Models.{OAuth2Provider, OAuth2ProviderRequest}
use authentik_operator.Patch.Fields.Laws.{AgreesPointer, AgreesNullable}
use authentik_operator.Patch.Sets.Laws.{AgreesSet}
use authentik_operator.Patch.RedirectUris.Laws.{AgreesRedirectUris}
use authentik_operator.Patch.OAuth2Provider.{diff_oauth2_provider}
use authentik_operator.Patch.OAuth2Provider.Laws.{diff_oauth2_provider_complete}
use authentik_operator.Desired.Application.{provider_name}
use authentik_operator.Desired.Proxy.{nullable_string}
use authentik_operator.Desired.OAuth2.{
  map_slice, redirect_uri_request, default_signing_key, desired_oauth2_provider,
  create_oauth2_provider_request,
}

-- What a POST with the body `r` does: the object has the fields that were sent.
pub record StoresOAuth2Provider (r : OAuth2ProviderRequest) (n : OAuth2Provider) : Type 0 where
  pub name : n.name ≡ r.name
  pub authentication_flow : AgreesNullable r.authentication_flow n.authentication_flow
  pub authorization_flow : n.authorization_flow ≡ r.authorization_flow
  pub invalidation_flow : n.invalidation_flow ≡ r.invalidation_flow
  pub property_mappings : AgreesSet r.property_mappings n.property_mappings
  pub client_type : AgreesPointer r.client_type n.client_type
  pub grant_types : AgreesSet r.grant_types n.grant_types
  pub client_id : AgreesPointer r.client_id n.client_id
  pub client_secret : AgreesPointer r.client_secret n.client_secret
  pub access_code_validity : AgreesPointer r.access_code_validity n.access_code_validity
  pub access_token_validity : AgreesPointer r.access_token_validity n.access_token_validity
  pub refresh_token_validity : AgreesPointer r.refresh_token_validity n.refresh_token_validity
  pub refresh_token_threshold : AgreesPointer r.refresh_token_threshold n.refresh_token_threshold
  pub include_claims_in_id_token :
      AgreesPointer r.include_claims_in_id_token n.include_claims_in_id_token
  pub signing_key : AgreesNullable r.signing_key n.signing_key
  pub encryption_key : AgreesNullable r.encryption_key n.encryption_key
  pub redirect_uris : AgreesRedirectUris r.redirect_uris n.redirect_uris
  pub logout_uri : AgreesPointer r.logout_uri n.logout_uri
  pub logout_method : AgreesPointer r.logout_method n.logout_method
  pub sub_mode : AgreesPointer r.sub_mode n.sub_mode
  pub issuer_mode : AgreesPointer r.issuer_mode n.issuer_mode

kept_key :
    (key default : Option String) (v : Option String)
    → nullable_string key ≡ some v
    → default_signing_key (nullable_string key) default ≡ some v
unfolding nullable_string default_signing_key
kept_key key default v p = ground arith

module _ (slug : String) (provider : ProviderSpec) (oauth2 : OAuth2ProviderSpec) (flows : Flows)
    (refs : OAuth2References) (defaults : CreationDefaults) (n : OAuth2Provider) where
  -- An OAuth2 Provider that holds what the create request sent, with the defaults of the creation,
  -- has nothing to patch.
  pub diff_oauth2_provider-create :
      StoresOAuth2Provider
        (create_oauth2_provider_request
          (provider_name slug provider)
          (desired_oauth2_provider provider oauth2 flows refs)
          defaults)
        n
      → diff_oauth2_provider (desired_oauth2_provider provider oauth2 flows refs) n ≡ none
  unfolding create_oauth2_provider_request provider_name desired_oauth2_provider
  diff_oauth2_provider-create h =
      diff_oauth2_provider_complete (desired_oauth2_provider provider oauth2 flows refs) n (record {
        name = λ v p. h.name ∙ get_or-some provider.name slug v p;
        authentication_flow = h.authentication_flow;
        authorization_flow = λ v p. h.authorization_flow ∙ some-inj p;
        invalidation_flow = λ v p. h.invalidation_flow ∙ some-inj p;
        property_mappings =
            λ v p. h.property_mappings v (or_else-some refs.scopes defaults.scopes v p);
        client_type = h.client_type;
        grant_types = h.grant_types;
        client_id = h.client_id;
        client_secret = h.client_secret;
        access_code_validity = h.access_code_validity;
        access_token_validity = h.access_token_validity;
        refresh_token_validity = h.refresh_token_validity;
        refresh_token_threshold = h.refresh_token_threshold;
        include_claims_in_id_token = h.include_claims_in_id_token;
        signing_key = λ v p. h.signing_key v (kept_key refs.signing_key defaults.signing_key v p);
        encryption_key = h.encryption_key;
        redirect_uris = λ v p.
            h.redirect_uris v
              (ap some (get_or-some (map_slice redirect_uri_request oauth2.redirect_uris) [] v p));
        logout_uri = h.logout_uri;
        logout_method = h.logout_method;
        sub_mode = h.sub_mode;
        issuer_mode = h.issuer_mode;
      })
