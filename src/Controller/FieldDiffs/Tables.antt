-- ===== src/Controller/FieldDiffs/Tables.antt =====
-- From the fields of the API to the paths of the spec: internal/controller/adoption.go, with the
-- confidential fields of internal/authentik/errors.go.
use authentik_operator.Api.{
  ProxyProviderSpec, ProxyModeSpec, ForwardAuthSingleSpec, ForwardAuthDomainSpec,
}
use authentik_operator.Prelude.{none, Option, String, List, ◌∷◌, ◌++◌, [], some}

-- `authentik.Redacted`
abbrev pub redacted : String
redacted = "(redacted)"

-- `authentik.ConfidentialFields`
abbrev pub confidential_fields : List String
confidential_fields = "client_secret" ∷ "password" ∷ "token" ∷ []

abbrev pub application_field_paths : List (String × String)
application_field_paths =
    ("name", "name")
    ∷ ("meta_launch_url", "launchURL")
    ∷ ("meta_icon", "icon")
    ∷ ("meta_description", "description")
    ∷ ("meta_publisher", "publisher")
    ∷ ("group", "group")
    ∷ ("open_in_new_tab", "openInNewTab")
    ∷ ("meta_hide", "hideFromApplicationDashboard")
    ∷ ("policy_engine_mode", "access.mode")
    ∷ []

abbrev pub provider_field_paths : List (String × String)
provider_field_paths =
    ("name", "provider.name")
    ∷ ("authorization_flow", "provider.flows.authorization")
    ∷ ("invalidation_flow", "provider.flows.invalidation")
    ∷ ("authentication_flow", "provider.flows.authentication")
    ∷ []

abbrev pub proxy_field_paths : List (String × String)
proxy_field_paths =
    ("mode", "provider.proxy")
    ∷ ("internal_host", "provider.proxy.proxy.internalHost")
    ∷ ("internal_host_ssl_validation", "provider.proxy.proxy.internalHostSSLValidation")
    ∷ ("cookie_domain", "provider.proxy.forwardAuthDomain.cookieDomain")
    ∷ ("skip_path_regex", "provider.proxy.unauthenticatedPaths")
    ∷ ("basic_auth_enabled", "provider.proxy.basicAuth")
    ∷ ("basic_auth_user_attribute", "provider.proxy.basicAuth.userAttribute")
    ∷ ("basic_auth_password_attribute", "provider.proxy.basicAuth.passwordAttribute")
    ∷ ("intercept_header_auth", "provider.proxy.interceptHeaderAuth")
    ∷ ("access_token_validity", "provider.proxy.accessTokenValidity")
    ∷ ("refresh_token_validity", "provider.proxy.refreshTokenValidity")
    ∷ ("certificate", "provider.proxy.certificate")
    ∷ []

abbrev pub oauth2_field_paths : List (String × String)
oauth2_field_paths =
    ("property_mappings", "provider.oauth2.scopes")
    ∷ ("client_type", "provider.oauth2.clientType")
    ∷ ("grant_types", "provider.oauth2.grantTypes")
    ∷ ("client_id", "provider.oauth2.credentials.clientID")
    ∷ ("client_secret", "provider.oauth2.credentials.secretRef.clientSecretKey")
    ∷ ("access_code_validity", "provider.oauth2.accessCodeValidity")
    ∷ ("access_token_validity", "provider.oauth2.accessTokenValidity")
    ∷ ("refresh_token_validity", "provider.oauth2.refreshTokenValidity")
    ∷ ("refresh_token_threshold", "provider.oauth2.refreshTokenThreshold")
    ∷ ("include_claims_in_id_token", "provider.oauth2.includeClaimsInIDToken")
    ∷ ("signing_key", "provider.oauth2.signingKey")
    ∷ ("encryption_key", "provider.oauth2.encryptionKey")
    ∷ ("redirect_uris", "provider.oauth2.redirectURIs")
    ∷ ("logout_uri", "provider.oauth2.logoutURI")
    ∷ ("logout_method", "provider.oauth2.logoutMethod")
    ∷ ("sub_mode", "provider.oauth2.subjectMode")
    ∷ ("issuer_mode", "provider.oauth2.issuerMode")
    ∷ []

-- the entry for `external_host`, which depends on the mode
unfoldable pub external_host_path :
    Option ProxyModeSpec
    → Option ForwardAuthSingleSpec
    → Option ForwardAuthDomainSpec
    → List (String × String)
external_host_path (some proxy) single domain =
    ("external_host", "provider.proxy.proxy.externalHost") ∷ []
external_host_path none (some single) domain =
    ("external_host", "provider.proxy.forwardAuthSingle.externalHost") ∷ []
external_host_path none none (some domain) =
    ("external_host", "provider.proxy.forwardAuthDomain.authenticationURL") ∷ []
external_host_path none none none = []

unfoldable pub proxy_field_paths_for : ProxyProviderSpec → List (String × String)
unfolding external_host_path
proxy_field_paths_for proxy =
    external_host_path proxy.proxy proxy.forward_auth_single proxy.forward_auth_domain
    ++ (proxy_field_paths ++ provider_field_paths)

abbrev pub oauth2_field_paths_for : List (String × String)
oauth2_field_paths_for = oauth2_field_paths ++ provider_field_paths
