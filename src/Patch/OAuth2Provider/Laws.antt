-- ===== src/Patch/OAuth2Provider/Laws.antt =====
-- The diff of an OAuth2 Provider is empty exactly on a match, and what one partial update reaches.
use authentik_operator.Prelude.{arith, ◌≡◌, ◌↔◌, false, none, some, if_some, if_none}
use authentik_operator.Prelude.{string_eq, bool_eq}
use authentik_operator.Prelude.Int.{int_eq}
use authentik_operator.Models.{
  policy_engine_mode_eq, client_type_eq, grant_type_eq, sub_mode_eq, issuer_mode_eq,
  logout_method_eq, proxy_mode_eq,
}
use authentik_operator.Models.{OAuth2Provider, PatchedOAuth2ProviderRequest}
use authentik_operator.Patch.Fields.Laws.{
  diff_value_iff, diff_pointer_iff, diff_nullable_iff, AgreesValue-patched, AgreesPointer-patched,
  AgreesNullable-patched,
}
use authentik_operator.Patch.Sets.Laws.{diff_set_iff, AgreesSet, AgreesSet-patched}
use authentik_operator.Patch.RedirectUris.Laws.{diff_redirect_uris_iff, AgreesRedirectUris-patched}
use authentik_operator.Patch.OAuth2Provider.{
  oauth2_provider_patch, oauth2_provider_changed, diff_oauth2_provider,
}
use authentik_operator.Patch.OAuth2Provider.Spec.{MatchesOAuth2Provider, PatchesOAuth2Provider}

unchanged :
    (p : PatchedOAuth2ProviderRequest)
    → oauth2_provider_changed p ≡ false
    → (p.name ≡ none)
      × (p.authentication_flow ≡ none)
      × (p.authorization_flow ≡ none)
      × (p.invalidation_flow ≡ none)
      × (p.property_mappings ≡ none)
      × (p.client_type ≡ none)
      × (p.grant_types ≡ none)
      × (p.client_id ≡ none)
      × (p.client_secret ≡ none)
      × (p.access_code_validity ≡ none)
      × (p.access_token_validity ≡ none)
      × (p.refresh_token_validity ≡ none)
      × (p.refresh_token_threshold ≡ none)
      × (p.include_claims_in_id_token ≡ none)
      × (p.signing_key ≡ none)
      × (p.encryption_key ≡ none)
      × (p.redirect_uris ≡ none)
      × (p.logout_uri ≡ none)
      × (p.logout_method ≡ none)
      × (p.sub_mode ≡ none)
      × (p.issuer_mode ≡ none)
unfolding oauth2_provider_changed
unchanged p h = ground arith

still :
    (d : PatchedOAuth2ProviderRequest) (o : OAuth2Provider)
    → diff_oauth2_provider d o ≡ none
    → oauth2_provider_changed (oauth2_provider_patch d o) ≡ false
unfolding diff_oauth2_provider
still d o h = if_none (oauth2_provider_changed (oauth2_provider_patch d o)) _ h

diff_oauth2_provider_sound :
    (d : PatchedOAuth2ProviderRequest) (o : OAuth2Provider)
    → diff_oauth2_provider d o ≡ none
    → MatchesOAuth2Provider d o
unfolding oauth2_provider_patch
diff_oauth2_provider_sound d o h =
    let u = unchanged (oauth2_provider_patch d o) (still d o h) in
    record {
      name = (diff_value_iff d.name o.name).0 u.0;
      authentication_flow = (diff_nullable_iff d.authentication_flow o.authentication_flow).0 u.1;
      authorization_flow = (diff_value_iff d.authorization_flow o.authorization_flow).0 u.2;
      invalidation_flow = (diff_value_iff d.invalidation_flow o.invalidation_flow).0 u.3;
      property_mappings = (diff_set_iff d.property_mappings o.property_mappings).0 u.4;
      client_type = (diff_pointer_iff d.client_type o.client_type).0 u.5;
      grant_types = (diff_set_iff d.grant_types o.grant_types).0 u.6;
      client_id = (diff_pointer_iff d.client_id o.client_id).0 u.7;
      client_secret = (diff_pointer_iff d.client_secret o.client_secret).0 u.8;
      access_code_validity = (diff_pointer_iff d.access_code_validity o.access_code_validity).0 u.9;
      access_token_validity =
          (diff_pointer_iff d.access_token_validity o.access_token_validity).0 u.10;
      refresh_token_validity =
          (diff_pointer_iff d.refresh_token_validity o.refresh_token_validity).0 u.11;
      refresh_token_threshold =
          (diff_pointer_iff d.refresh_token_threshold o.refresh_token_threshold).0 u.12;
      include_claims_in_id_token =
          (diff_pointer_iff d.include_claims_in_id_token o.include_claims_in_id_token).0 u.13;
      signing_key = (diff_nullable_iff d.signing_key o.signing_key).0 u.14;
      encryption_key = (diff_nullable_iff d.encryption_key o.encryption_key).0 u.15;
      redirect_uris = (diff_redirect_uris_iff d.redirect_uris o.redirect_uris).0 u.16;
      logout_uri = (diff_pointer_iff d.logout_uri o.logout_uri).0 u.17;
      logout_method = (diff_pointer_iff d.logout_method o.logout_method).0 u.18;
      sub_mode = (diff_pointer_iff d.sub_mode o.sub_mode).0 u.19;
      issuer_mode = (diff_pointer_iff d.issuer_mode o.issuer_mode).0 u.20;
    }

pub diff_oauth2_provider_complete :
    (d : PatchedOAuth2ProviderRequest) (o : OAuth2Provider)
    → MatchesOAuth2Provider d o
    → diff_oauth2_provider d o ≡ none
unfolding diff_oauth2_provider
diff_oauth2_provider_complete d o m = ground (
  arith,
  (diff_value_iff d.name o.name).1 m.name,
  (diff_nullable_iff d.authentication_flow o.authentication_flow).1 m.authentication_flow,
  (diff_value_iff d.authorization_flow o.authorization_flow).1 m.authorization_flow,
  (diff_value_iff d.invalidation_flow o.invalidation_flow).1 m.invalidation_flow,
  (diff_set_iff d.property_mappings o.property_mappings).1 m.property_mappings,
  (diff_pointer_iff d.client_type o.client_type).1 m.client_type,
  (diff_set_iff d.grant_types o.grant_types).1 m.grant_types,
  (diff_pointer_iff d.client_id o.client_id).1 m.client_id,
  (diff_pointer_iff d.client_secret o.client_secret).1 m.client_secret,
  (diff_pointer_iff d.access_code_validity o.access_code_validity).1 m.access_code_validity,
  (diff_pointer_iff d.access_token_validity o.access_token_validity).1 m.access_token_validity,
  (diff_pointer_iff d.refresh_token_validity o.refresh_token_validity).1 m.refresh_token_validity,
  (diff_pointer_iff d.refresh_token_threshold o.refresh_token_threshold).1
      m.refresh_token_threshold,
  (diff_pointer_iff d.include_claims_in_id_token o.include_claims_in_id_token).1
      m.include_claims_in_id_token,
  (diff_nullable_iff d.signing_key o.signing_key).1 m.signing_key,
  (diff_nullable_iff d.encryption_key o.encryption_key).1 m.encryption_key,
  (diff_redirect_uris_iff d.redirect_uris o.redirect_uris).1 m.redirect_uris,
  (diff_pointer_iff d.logout_uri o.logout_uri).1 m.logout_uri,
  (diff_pointer_iff d.logout_method o.logout_method).1 m.logout_method,
  (diff_pointer_iff d.sub_mode o.sub_mode).1 m.sub_mode,
  (diff_pointer_iff d.issuer_mode o.issuer_mode).1 m.issuer_mode,
)

-- The diff of an OAuth2 Provider is empty exactly when every managed field has the desired value.
pub diff_oauth2_provider_iff :
    (d : PatchedOAuth2ProviderRequest) (o : OAuth2Provider)
    → (diff_oauth2_provider d o ≡ none) ↔ MatchesOAuth2Provider d o
diff_oauth2_provider_iff d o = (diff_oauth2_provider_sound d o, diff_oauth2_provider_complete d o)

sent :
    (d p : PatchedOAuth2ProviderRequest) (o : OAuth2Provider)
    → diff_oauth2_provider d o ≡ some p
    → oauth2_provider_patch d o ≡ p
unfolding diff_oauth2_provider
sent d p o h = if_some (oauth2_provider_changed (oauth2_provider_patch d o)) h

patched :
    (d : PatchedOAuth2ProviderRequest) (o n : OAuth2Provider)
    → PatchesOAuth2Provider (oauth2_provider_patch d o) o n
    → AgreesSet d.property_mappings n.property_mappings
    → MatchesOAuth2Provider d n
unfolding oauth2_provider_patch
patched d o n u mappings = record {
  name = AgreesValue-patched d.name o.name n.name u.name;
  authentication_flow =
      AgreesNullable-patched d.authentication_flow o.authentication_flow n.authentication_flow
        u.authentication_flow;
  authorization_flow =
      AgreesValue-patched d.authorization_flow o.authorization_flow n.authorization_flow
        u.authorization_flow;
  invalidation_flow =
      AgreesValue-patched d.invalidation_flow o.invalidation_flow n.invalidation_flow
        u.invalidation_flow;
  property_mappings = mappings;
  client_type = AgreesPointer-patched d.client_type o.client_type n.client_type u.client_type;
  grant_types = AgreesSet-patched d.grant_types o.grant_types n.grant_types u.grant_types;
  client_id = AgreesPointer-patched d.client_id o.client_id n.client_id u.client_id;
  client_secret =
      AgreesPointer-patched d.client_secret o.client_secret n.client_secret u.client_secret;
  access_code_validity =
      AgreesPointer-patched d.access_code_validity o.access_code_validity n.access_code_validity
        u.access_code_validity;
  access_token_validity =
      AgreesPointer-patched d.access_token_validity o.access_token_validity n.access_token_validity
        u.access_token_validity;
  refresh_token_validity =
      AgreesPointer-patched d.refresh_token_validity o.refresh_token_validity
        n.refresh_token_validity u.refresh_token_validity;
  refresh_token_threshold =
      AgreesPointer-patched d.refresh_token_threshold o.refresh_token_threshold
        n.refresh_token_threshold u.refresh_token_threshold;
  include_claims_in_id_token =
      AgreesPointer-patched d.include_claims_in_id_token o.include_claims_in_id_token
        n.include_claims_in_id_token u.include_claims_in_id_token;
  signing_key = AgreesNullable-patched d.signing_key o.signing_key n.signing_key u.signing_key;
  encryption_key =
      AgreesNullable-patched d.encryption_key o.encryption_key n.encryption_key u.encryption_key;
  redirect_uris =
      AgreesRedirectUris-patched d.redirect_uris o.redirect_uris n.redirect_uris u.redirect_uris;
  logout_uri = AgreesPointer-patched d.logout_uri o.logout_uri n.logout_uri u.logout_uri;
  logout_method =
      AgreesPointer-patched d.logout_method o.logout_method n.logout_method u.logout_method;
  sub_mode = AgreesPointer-patched d.sub_mode o.sub_mode n.sub_mode u.sub_mode;
  issuer_mode = AgreesPointer-patched d.issuer_mode o.issuer_mode n.issuer_mode u.issuer_mode;
}

-- After one partial update of an OAuth2 Provider with the body of its diff, by a server that may
-- choose the property mappings itself, the next diff is empty exactly when the property mappings
-- are the desired ones, as sets, or none are desired.
pub diff_oauth2_provider-converges :
    (d p : PatchedOAuth2ProviderRequest) (o n : OAuth2Provider)
    → diff_oauth2_provider d o ≡ some p
    → PatchesOAuth2Provider p o n
    → (diff_oauth2_provider d n ≡ none) ↔ AgreesSet d.property_mappings n.property_mappings
diff_oauth2_provider-converges d p o n h u = (
  λ e. (diff_oauth2_provider_sound d n e).property_mappings,
  λ mappings. diff_oauth2_provider_complete d n (patched d o n (rw (sent d p o h) u) mappings),
)
