-- ===== src/Patch/OAuth2Provider/Spec.antt =====
-- What the diff of an OAuth2 Provider is held against: a match of the managed fields, and a partial update.
use authentik_operator.Prelude.{◌≡◌, get_or, or_else, SameElements}
use authentik_operator.Prelude.{string_eq, bool_eq}
use authentik_operator.Prelude.Int.{int_eq}
use authentik_operator.Models.{
  policy_engine_mode_eq, client_type_eq, grant_type_eq, sub_mode_eq, issuer_mode_eq,
  logout_method_eq, proxy_mode_eq,
}
use authentik_operator.Models.{OAuth2Provider, PatchedOAuth2ProviderRequest, get}
use authentik_operator.Patch.Fields.Laws.{AgreesValue, AgreesPointer, AgreesNullable}
use authentik_operator.Patch.Sets.Laws.{AgreesSet}
use authentik_operator.Patch.RedirectUris.Laws.{AgreesRedirectUris, PatchesRedirectUris}

-- Every managed field has the desired value.
pub record MatchesOAuth2Provider (d : PatchedOAuth2ProviderRequest) (o : OAuth2Provider)
    : Type 0 where
  pub name : AgreesValue d.name o.name
  pub authentication_flow : AgreesNullable d.authentication_flow o.authentication_flow
  pub authorization_flow : AgreesValue d.authorization_flow o.authorization_flow
  pub invalidation_flow : AgreesValue d.invalidation_flow o.invalidation_flow
  pub property_mappings : AgreesSet d.property_mappings o.property_mappings
  pub client_type : AgreesPointer d.client_type o.client_type
  pub grant_types : AgreesSet d.grant_types o.grant_types
  pub client_id : AgreesPointer d.client_id o.client_id
  pub client_secret : AgreesPointer d.client_secret o.client_secret
  pub access_code_validity : AgreesPointer d.access_code_validity o.access_code_validity
  pub access_token_validity : AgreesPointer d.access_token_validity o.access_token_validity
  pub refresh_token_validity : AgreesPointer d.refresh_token_validity o.refresh_token_validity
  pub refresh_token_threshold : AgreesPointer d.refresh_token_threshold o.refresh_token_threshold
  pub include_claims_in_id_token :
      AgreesPointer d.include_claims_in_id_token o.include_claims_in_id_token
  pub signing_key : AgreesNullable d.signing_key o.signing_key
  pub encryption_key : AgreesNullable d.encryption_key o.encryption_key
  pub redirect_uris : AgreesRedirectUris d.redirect_uris o.redirect_uris
  pub logout_uri : AgreesPointer d.logout_uri o.logout_uri
  pub logout_method : AgreesPointer d.logout_method o.logout_method
  pub sub_mode : AgreesPointer d.sub_mode o.sub_mode
  pub issuer_mode : AgreesPointer d.issuer_mode o.issuer_mode

-- What a PATCH with the body `p` does: the fields that are sent are set, the others are kept.
-- Nothing is said of the property mappings, since authentik appends default mappings to those sent.
pub record PatchesOAuth2Provider (p : PatchedOAuth2ProviderRequest) (o n : OAuth2Provider)
    : Type 0 where
  pub name : n.name ≡ get_or p.name o.name
  pub authentication_flow :
      get n.authentication_flow ≡ get_or p.authentication_flow (get o.authentication_flow)
  pub authorization_flow : n.authorization_flow ≡ get_or p.authorization_flow o.authorization_flow
  pub invalidation_flow : n.invalidation_flow ≡ get_or p.invalidation_flow o.invalidation_flow
  pub client_type : n.client_type ≡ or_else p.client_type o.client_type
  pub grant_types : SameElements n.grant_types (get_or p.grant_types o.grant_types)
  pub client_id : n.client_id ≡ or_else p.client_id o.client_id
  pub client_secret : n.client_secret ≡ or_else p.client_secret o.client_secret
  pub access_code_validity :
      n.access_code_validity ≡ or_else p.access_code_validity o.access_code_validity
  pub access_token_validity :
      n.access_token_validity ≡ or_else p.access_token_validity o.access_token_validity
  pub refresh_token_validity :
      n.refresh_token_validity ≡ or_else p.refresh_token_validity o.refresh_token_validity
  pub refresh_token_threshold :
      n.refresh_token_threshold ≡ or_else p.refresh_token_threshold o.refresh_token_threshold
  pub include_claims_in_id_token :
      n.include_claims_in_id_token
      ≡ or_else p.include_claims_in_id_token o.include_claims_in_id_token
  pub signing_key : get n.signing_key ≡ get_or p.signing_key (get o.signing_key)
  pub encryption_key : get n.encryption_key ≡ get_or p.encryption_key (get o.encryption_key)
  pub redirect_uris : PatchesRedirectUris p.redirect_uris o.redirect_uris n.redirect_uris
  pub logout_uri : n.logout_uri ≡ or_else p.logout_uri o.logout_uri
  pub logout_method : n.logout_method ≡ or_else p.logout_method o.logout_method
  pub sub_mode : n.sub_mode ≡ or_else p.sub_mode o.sub_mode
  pub issuer_mode : n.issuer_mode ≡ or_else p.issuer_mode o.issuer_mode
