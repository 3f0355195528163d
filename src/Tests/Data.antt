-- ===== src/Tests/Data.antt =====
-- Concrete objects, requests and resources for the tests.
use authentik_operator.Prelude.{true, false, none, some, [], ◌∷◌}
use authentik_operator.Prelude.Int.{pos}
use authentik_operator.Api.{
  AccessSpec, FlowReference, ProviderFlows, AuthentikApplicationSpec, AuthentikApplicationStatus,
  AuthentikApplication, ProviderSpec, ProxyProviderSpec, OAuth2ProviderSpec,
}
use authentik_operator.Models.{
  PatchedApplicationRequest, Application, PatchedProxyProviderRequest, ProxyProvider,
  PatchedOAuth2ProviderRequest, OAuth2Provider, PatchedPolicyBindingRequest, PolicyBinding,
  ProxyMode,
}
use authentik_operator.Reference.{Flows, ProxyReferences, OAuth2References, CreationDefaults, Rule}

abbrev pub open_access : AccessSpec
open_access = record { mode = none; rules = []; public = none; prune = none }

abbrev pub no_flow : FlowReference
no_flow = record { slug = some "f"; uuid = none }

abbrev pub no_flows : ProviderFlows
no_flows = record { authorization = no_flow; invalidation = no_flow; authentication = none }

abbrev pub wiki_spec : AuthentikApplicationSpec
wiki_spec = record {
  slug = "wiki";
  name = "Wiki";
  launch_url = none;
  icon = none;
  description = none;
  publisher = none;
  group = none;
  open_in_new_tab = none;
  hide_from_application_dashboard = none;
  deletion_policy = none;
  adopt = none;
  provider = none;
  access = open_access;
}

abbrev pub new_status : AuthentikApplicationStatus
new_status = record {
  observed_generation = 0;
  application_slug = "";
  application_pk = "";
  provider_pk = none;
  outpost_uuid = "";
  binding_uuids = [];
  last_applied_hash = "";
  adoption_diffs = [];
  unmanaged_bindings = [];
  conditions = [];
}

abbrev pub app_desired : PatchedApplicationRequest
app_desired = record {
  name = some "Grafana";
  slug = none;
  provider = none;
  open_in_new_tab = none;
  meta_launch_url = none;
  meta_icon = none;
  meta_description = none;
  meta_publisher = none;
  policy_engine_mode = none;
  group = none;
  meta_hide = none;
}

abbrev pub app_observed : Application
app_observed = record {
  pk = "a1";
  pbm_uuid = "";
  name = "Old";
  slug = "grafana";
  provider = none;
  open_in_new_tab = none;
  meta_launch_url = none;
  meta_icon = some "old.png";
  meta_description = none;
  meta_publisher = none;
  policy_engine_mode = none;
  group = none;
  meta_hide = none;
}

abbrev pub app_patched : Application
app_patched = record {
  pk = "a1";
  pbm_uuid = "";
  name = "Grafana";
  slug = "grafana";
  provider = none;
  open_in_new_tab = none;
  meta_launch_url = none;
  meta_icon = some "old.png";
  meta_description = none;
  meta_publisher = none;
  policy_engine_mode = none;
  group = none;
  meta_hide = none;
}

abbrev pub proxy_desired : PatchedProxyProviderRequest
proxy_desired = record {
  name = some "grafana";
  authentication_flow = none;
  authorization_flow = none;
  invalidation_flow = none;
  property_mappings = none;
  internal_host = none;
  external_host = none;
  internal_host_ssl_validation = none;
  certificate = none;
  skip_path_regex = none;
  basic_auth_enabled = none;
  basic_auth_password_attribute = none;
  basic_auth_user_attribute = none;
  mode = none;
  intercept_header_auth = none;
  cookie_domain = none;
  access_token_validity = none;
  refresh_token_validity = none;
}

abbrev pub proxy_patch : PatchedProxyProviderRequest
proxy_patch = record {
  name = some "grafana";
  authentication_flow = none;
  authorization_flow = none;
  invalidation_flow = none;
  property_mappings = none;
  internal_host = none;
  external_host = none;
  internal_host_ssl_validation = none;
  certificate = none;
  skip_path_regex = none;
  basic_auth_enabled = none;
  basic_auth_password_attribute = none;
  basic_auth_user_attribute = none;
  mode = some ProxyMode.forward_single;
  intercept_header_auth = none;
  cookie_domain = none;
  access_token_validity = none;
  refresh_token_validity = none;
}

abbrev pub proxy_observed : ProxyProvider
proxy_observed = record {
  pk = pos 0;
  name = "old";
  authentication_flow = none;
  authorization_flow = "";
  invalidation_flow = "";
  property_mappings = [];
  assigned_application_slug = none;
  internal_host = none;
  external_host = "";
  internal_host_ssl_validation = none;
  certificate = none;
  skip_path_regex = none;
  basic_auth_enabled = none;
  basic_auth_password_attribute = none;
  basic_auth_user_attribute = none;
  mode = some ProxyMode.forward_single;
  intercept_header_auth = none;
  cookie_domain = none;
  access_token_validity = none;
  refresh_token_validity = none;
}

abbrev pub proxy_patched : ProxyProvider
proxy_patched = record {
  pk = pos 0;
  name = "grafana";
  authentication_flow = none;
  authorization_flow = "";
  invalidation_flow = "";
  property_mappings = [];
  assigned_application_slug = none;
  internal_host = none;
  external_host = "";
  internal_host_ssl_validation = none;
  certificate = none;
  skip_path_regex = none;
  basic_auth_enabled = none;
  basic_auth_password_attribute = none;
  basic_auth_user_attribute = none;
  mode = some ProxyMode.forward_single;
  intercept_header_auth = none;
  cookie_domain = none;
  access_token_validity = none;
  refresh_token_validity = none;
}

abbrev pub oauth2_desired : PatchedOAuth2ProviderRequest
oauth2_desired = record {
  name = some "wiki";
  authentication_flow = none;
  authorization_flow = none;
  invalidation_flow = none;
  property_mappings = none;
  client_type = none;
  grant_types = none;
  client_id = none;
  client_secret = none;
  access_code_validity = none;
  access_token_validity = none;
  refresh_token_validity = none;
  refresh_token_threshold = none;
  include_claims_in_id_token = none;
  signing_key = none;
  encryption_key = none;
  redirect_uris = none;
  logout_uri = none;
  logout_method = none;
  sub_mode = none;
  issuer_mode = none;
}

abbrev pub oauth2_observed : OAuth2Provider
oauth2_observed = record {
  pk = pos 0;
  name = "old";
  authentication_flow = none;
  authorization_flow = "";
  invalidation_flow = "";
  property_mappings = "openid" ∷ [];
  assigned_application_slug = none;
  client_type = none;
  grant_types = [];
  client_id = none;
  client_secret = none;
  access_code_validity = none;
  access_token_validity = none;
  refresh_token_validity = none;
  refresh_token_threshold = none;
  include_claims_in_id_token = none;
  signing_key = none;
  encryption_key = none;
  redirect_uris = [];
  logout_uri = none;
  logout_method = none;
  sub_mode = none;
  issuer_mode = none;
}

abbrev pub oauth2_patched : OAuth2Provider
oauth2_patched = record {
  pk = pos 0;
  name = "wiki";
  authentication_flow = none;
  authorization_flow = "";
  invalidation_flow = "";
  property_mappings = "openid" ∷ [];
  assigned_application_slug = none;
  client_type = none;
  grant_types = [];
  client_id = none;
  client_secret = none;
  access_code_validity = none;
  access_token_validity = none;
  refresh_token_validity = none;
  refresh_token_threshold = none;
  include_claims_in_id_token = none;
  signing_key = none;
  encryption_key = none;
  redirect_uris = [];
  logout_uri = none;
  logout_method = none;
  sub_mode = none;
  issuer_mode = none;
}

abbrev pub binding_desired : PatchedPolicyBindingRequest
binding_desired = record {
  policy = none;
  group = some (some "admins");
  user = none;
  target = some "t";
  negate = some false;
  enabled = none;
  order = none;
  timeout = none;
  failure_result = none;
}

abbrev pub binding_patch : PatchedPolicyBindingRequest
binding_patch = record {
  policy = some none;
  group = some (some "admins");
  user = some none;
  target = some "t";
  negate = some false;
  enabled = none;
  order = none;
  timeout = none;
  failure_result = none;
}

abbrev pub binding_observed : PolicyBinding
binding_observed = record {
  pk = "b1";
  policy = none;
  group = some (some "admins");
  user = none;
  target = "t";
  negate = some true;
  enabled = none;
  order = pos 0;
  timeout = none;
  failure_result = none;
}

abbrev pub binding_patched : PolicyBinding
binding_patched = record {
  pk = "b1";
  policy = none;
  group = some (some "admins");
  user = none;
  target = "t";
  negate = some false;
  enabled = none;
  order = pos 0;
  timeout = none;
  failure_result = none;
}

abbrev pub older : AuthentikApplication
older = record {
  namespace = "a";
  name = "wiki";
  uid = "u1";
  generation = 0;
  creation_timestamp = 1;
  deletion_timestamp = none;
  finalizers = [];
  spec = wiki_spec;
  status = new_status;
}

abbrev pub newer : AuthentikApplication
newer = record {
  namespace = "b";
  name = "wiki";
  uid = "u2";
  generation = 0;
  creation_timestamp = 2;
  deletion_timestamp = none;
  finalizers = [];
  spec = wiki_spec;
  status = new_status;
}

abbrev pub plain_provider : ProviderSpec
plain_provider = record { name = none; flows = no_flows; proxy = none; oauth2 = none }

abbrev pub plain_proxy : ProxyProviderSpec
plain_proxy = record {
  proxy = none;
  forward_auth_single = none;
  forward_auth_domain = none;
  unauthenticated_paths = none;
  basic_auth = none;
  intercept_header_auth = none;
  access_token_validity = none;
  refresh_token_validity = none;
  certificate = none;
  outpost = none;
}

abbrev pub plain_oauth2 : OAuth2ProviderSpec
plain_oauth2 = record {
  client_type = none;
  redirect_uris = none;
  scopes = none;
  signing_key = none;
  encryption_key = none;
  grant_types = none;
  subject_mode = none;
  issuer_mode = none;
  include_claims_in_id_token = none;
  access_code_validity = none;
  access_token_validity = none;
  refresh_token_validity = none;
  refresh_token_threshold = none;
  logout_uri = none;
  logout_method = none;
  credentials = none;
}

abbrev pub flow_ids : Flows
flow_ids = record { authorization = "f1"; invalidation = "f2"; authentication = none }

abbrev pub proxy_refs : ProxyReferences
proxy_refs = record { certificate = none; outpost = "o1" }

abbrev pub oauth2_refs : OAuth2References
oauth2_refs = record {
  scopes = none;
  signing_key = none;
  encryption_key = none;
  credentials = none;
}

abbrev pub no_defaults : CreationDefaults
no_defaults = record { scopes = none; signing_key = none }

abbrev pub admins_rule : Rule
admins_rule = record { group = some "admins"; user = none; policy = none; negate = false }
