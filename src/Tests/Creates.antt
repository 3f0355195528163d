-- ===== src/Tests/Creates.antt =====
-- The create requests of internal/controller/desired.go at concrete specs.
use authentik_operator.Prelude.{false, ◌≡◌, refl, none, some, [], ◌≢◌}
use authentik_operator.Prelude.Int.{pos}
use authentik_operator.Models.{Application, ProxyProvider, OAuth2Provider, PolicyBinding}
use authentik_operator.Patch.ProxyProvider.{diff_proxy_provider}
use authentik_operator.Patch.OAuth2Provider.{diff_oauth2_provider}
use authentik_operator.Desired.Application.{
  desired_application, create_application_request, provider_name, map_enum,
}
use authentik_operator.Desired.Proxy.{desired_proxy_provider, create_proxy_provider_request}
use authentik_operator.Desired.OAuth2.{desired_oauth2_provider, create_oauth2_provider_request}
use authentik_operator.Desired.Binding.{desired_binding, create_binding_request}
use authentik_operator.Desired.Application.Stable.{StoresApplication}
use authentik_operator.Desired.Proxy.Stable.{StoresProxyProvider, diff_proxy_provider-create}
use authentik_operator.Desired.OAuth2.Stable.{StoresOAuth2Provider, diff_oauth2_provider-create}
use authentik_operator.Desired.Binding.Stable.{StoresPolicyBinding}
use authentik_operator.Tests.Data.{
  wiki_spec, plain_provider, plain_proxy, plain_oauth2, flow_ids, proxy_refs, oauth2_refs,
  no_defaults, admins_rule,
}

abbrev created_app : Application
created_app = record {
  pk = "";
  pbm_uuid = "";
  name = "Wiki";
  slug = "wiki";
  provider = none;
  open_in_new_tab = none;
  meta_launch_url = none;
  meta_icon = none;
  meta_description = none;
  meta_publisher = none;
  policy_engine_mode = none;
  group = none;
  meta_hide = none;
}

abbrev created_proxy : ProxyProvider
created_proxy = record {
  pk = pos 0;
  name = "wiki";
  authentication_flow = none;
  authorization_flow = "f1";
  invalidation_flow = "f2";
  property_mappings = [];
  assigned_application_slug = none;
  internal_host = none;
  external_host = "";
  internal_host_ssl_validation = none;
  certificate = none;
  skip_path_regex = none;
  basic_auth_enabled = none;
  basic_auth_password_attribute = none;
  basic_auth_user_attribute = none;
  mode = none;
  intercept_header_auth = none;
  cookie_domain = none;
  access_token_validity = none;
  refresh_token_validity = none;
}

abbrev created_oauth2 : OAuth2Provider
created_oauth2 = record {
  pk = pos 0;
  name = "wiki";
  authentication_flow = none;
  authorization_flow = "f1";
  invalidation_flow = "f2";
  property_mappings = [];
  assigned_application_slug = none;
  client_type = none;
  grant_types = [];
  client_id = none;
  client_secret = none;
  access_code_validity = none;
  access_token_validity = none;
  refresh_token_validity = none;
  refresh_token_threshold = none;
  include_claims_in_id_token = none;
  signing_key = none;
  encryption_key = none;
  redirect_uris = [];
  logout_uri = none;
  logout_method = none;
  sub_mode = none;
  issuer_mode = none;
}

abbrev created_binding : PolicyBinding
created_binding = record {
  pk = "";
  policy = none;
  group = some (some "admins");
  user = none;
  target = "t";
  negate = some false;
  enabled = none;
  order = pos 10;
  timeout = none;
  failure_result = none;
}

app_stored :
    StoresApplication
      (create_application_request "wiki" (desired_application wiki_spec none))
      created_app
unfolding create_application_request desired_application map_enum
app_stored = record {
  name = refl;
  slug = refl;
  provider = λ v p. cc;
  open_in_new_tab = λ v p. cc;
  meta_launch_url = λ v p. cc;
  meta_icon = λ v p. cc;
  meta_description = λ v p. cc;
  meta_publisher = λ v p. cc;
  policy_engine_mode = λ v p. cc;
  group = λ v p. cc;
  meta_hide = λ v p. cc;
}

proxy_stored :
    StoresProxyProvider
      (create_proxy_provider_request
        (provider_name "wiki" plain_provider)
        (desired_proxy_provider plain_provider plain_proxy flow_ids proxy_refs))
      created_proxy
unfolding create_proxy_provider_request desired_proxy_provider provider_name
proxy_stored = record {
  name = refl;
  authentication_flow = λ v p. cc;
  authorization_flow = refl;
  invalidation_flow = refl;
  internal_host = λ v p. cc;
  external_host = refl;
  internal_host_ssl_validation = λ v p. cc;
  certificate = λ v p. cc;
  skip_path_regex = λ v p. cc;
  basic_auth_enabled = λ v p. cc;
  basic_auth_password_attribute = λ v p. cc;
  basic_auth_user_attribute = λ v p. cc;
  mode = λ v p. cc;
  intercept_header_auth = λ v p. cc;
  cookie_domain = λ v p. cc;
  access_token_validity = λ v p. cc;
  refresh_token_validity = λ v p. cc;
}

diff_proxy_provider-create_example :
    diff_proxy_provider
      (desired_proxy_provider plain_provider plain_proxy flow_ids proxy_refs)
      created_proxy
    ≡ none
diff_proxy_provider-create_example =
    diff_proxy_provider-create "wiki" plain_provider plain_proxy flow_ids proxy_refs created_proxy
      proxy_stored

oauth2_stored :
    StoresOAuth2Provider
      (create_oauth2_provider_request
        (provider_name "wiki" plain_provider)
        (desired_oauth2_provider plain_provider plain_oauth2 flow_ids oauth2_refs)
        no_defaults)
      created_oauth2
unfolding create_oauth2_provider_request desired_oauth2_provider provider_name
oauth2_stored = record {
  name = refl;
  authentication_flow = λ v p. cc;
  authorization_flow = refl;
  invalidation_flow = refl;
  property_mappings = λ v p. cc;
  client_type = λ v p. cc;
  grant_types = λ v p. cc;
  client_id = λ v p. cc;
  client_secret = λ v p. cc;
  access_code_validity = λ v p. cc;
  access_token_validity = λ v p. cc;
  refresh_token_validity = λ v p. cc;
  refresh_token_threshold = λ v p. cc;
  include_claims_in_id_token = λ v p. cc;
  signing_key = λ v p. cc;
  encryption_key = λ v p. cc;
  redirect_uris = λ v p. cc;
  logout_uri = λ v p. cc;
  logout_method = λ v p. cc;
  sub_mode = λ v p. cc;
  issuer_mode = λ v p. cc;
}

diff_oauth2_provider-create_example :
    diff_oauth2_provider
      (desired_oauth2_provider plain_provider plain_oauth2 flow_ids oauth2_refs)
      created_oauth2
    ≡ none
diff_oauth2_provider-create_example =
    diff_oauth2_provider-create "wiki" plain_provider plain_oauth2 flow_ids oauth2_refs no_defaults
      created_oauth2 oauth2_stored

binding_stored :
    StoresPolicyBinding
      (create_binding_request (desired_binding "t" admins_rule) (pos 10))
      created_binding
unfolding create_binding_request desired_binding
binding_stored = record {
  policy = refl;
  group = refl;
  user = refl;
  target = refl;
  negate = λ v p. p;
  order = refl;
}

named_group : admins_rule.group ≢ some ""
named_group e = cc
