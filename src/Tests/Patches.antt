-- ===== src/Tests/Patches.antt =====
-- The diffs of internal/authentik/patch.go at concrete objects.
use authentik_operator.Patch.Sets.Laws.{AgreesSet}
use authentik_operator.Prelude.{
  ◌≡◌, refl, ◌↔◌, none, some, String_discrete, Bool_discrete, string_eq, bool_eq,
}
use authentik_operator.Prelude.Int.{int_eq}
use authentik_operator.Models.{
  get, policy_engine_mode_eq, client_type_eq, grant_type_eq, sub_mode_eq, issuer_mode_eq,
  logout_method_eq, proxy_mode_eq,
}
use authentik_operator.Patch.Fields.{diff_value, diff_pointer, diff_nullable, first_non_nil}
use authentik_operator.Patch.Sets.{diff_set}
use authentik_operator.Patch.RedirectUris.{diff_redirect_uris}
use authentik_operator.Patch.Application.{diff_application}
use authentik_operator.Patch.Application.Laws.{PatchesApplication}
use authentik_operator.Patch.ProxyProvider.{diff_proxy_provider}
use authentik_operator.Patch.ProxyProvider.Laws.{diff_proxy_provider_iff}
use authentik_operator.Patch.ProxyProvider.Spec.{MatchesProxyProvider, PatchesProxyProvider}
use authentik_operator.Patch.OAuth2Provider.{diff_oauth2_provider}
use authentik_operator.Patch.OAuth2Provider.Laws.{
  diff_oauth2_provider_iff, diff_oauth2_provider-converges,
}
use authentik_operator.Patch.OAuth2Provider.Spec.{MatchesOAuth2Provider, PatchesOAuth2Provider}
use authentik_operator.Patch.PolicyBinding.{diff_policy_binding, with_subject}
use authentik_operator.Patch.PolicyBinding.Laws.{
  diff_policy_binding_iff, subject-diff_policy_binding,
}
use authentik_operator.Patch.PolicyBinding.Spec.{MatchesPolicyBinding, PatchesPolicyBinding}
use authentik_operator.Tests.Data.{
  app_desired, app_observed, app_patched, proxy_desired, proxy_patch, proxy_observed, proxy_patched,
  oauth2_desired, oauth2_observed, oauth2_patched, binding_desired, binding_patch, binding_observed,
  binding_patched,
}

app_sends : diff_application app_desired app_observed ≡ some app_desired
unfolding diff_application diff_value String_discrete diff_nullable diff_pointer
app_sends = refl

app_updates : PatchesApplication app_desired app_observed app_patched
app_updates = record {
  name = refl;
  slug = refl;
  provider = refl;
  open_in_new_tab = refl;
  meta_launch_url = refl;
  meta_icon = refl;
  meta_description = refl;
  meta_publisher = refl;
  policy_engine_mode = refl;
  group = refl;
  meta_hide = refl;
}

diff_proxy_provider_iff_example :
    (diff_proxy_provider proxy_desired proxy_observed ≡ none)
    ↔ MatchesProxyProvider proxy_desired proxy_observed
diff_proxy_provider_iff_example = diff_proxy_provider_iff proxy_desired proxy_observed

proxy_sends : diff_proxy_provider proxy_desired proxy_observed ≡ some proxy_patch
unfolding diff_proxy_provider diff_value String_discrete diff_nullable diff_set diff_pointer
    first_non_nil
proxy_sends = refl

proxy_updates : PatchesProxyProvider proxy_patch proxy_observed proxy_patched
proxy_updates = record {
  name = refl;
  authentication_flow = refl;
  authorization_flow = refl;
  invalidation_flow = refl;
  property_mappings = λ z. refl;
  internal_host = refl;
  external_host = refl;
  internal_host_ssl_validation = refl;
  certificate = refl;
  skip_path_regex = refl;
  basic_auth_enabled = refl;
  basic_auth_password_attribute = refl;
  basic_auth_user_attribute = refl;
  mode = refl;
  intercept_header_auth = refl;
  cookie_domain = refl;
  access_token_validity = refl;
  refresh_token_validity = refl;
}

diff_oauth2_provider_iff_example :
    (diff_oauth2_provider oauth2_desired oauth2_observed ≡ none)
    ↔ MatchesOAuth2Provider oauth2_desired oauth2_observed
diff_oauth2_provider_iff_example = diff_oauth2_provider_iff oauth2_desired oauth2_observed

oauth2_sends : diff_oauth2_provider oauth2_desired oauth2_observed ≡ some oauth2_desired
unfolding diff_oauth2_provider diff_value String_discrete diff_nullable diff_set diff_pointer
    diff_redirect_uris
oauth2_sends = refl

oauth2_updates : PatchesOAuth2Provider oauth2_desired oauth2_observed oauth2_patched
oauth2_updates = record {
  name = refl;
  authentication_flow = refl;
  authorization_flow = refl;
  invalidation_flow = refl;
  client_type = refl;
  grant_types = λ z. refl;
  client_id = refl;
  client_secret = refl;
  access_code_validity = refl;
  access_token_validity = refl;
  refresh_token_validity = refl;
  refresh_token_threshold = refl;
  include_claims_in_id_token = refl;
  signing_key = refl;
  encryption_key = refl;
  redirect_uris = λ z. refl;
  logout_uri = refl;
  logout_method = refl;
  sub_mode = refl;
  issuer_mode = refl;
}

diff_oauth2_provider-converges_example :
    (diff_oauth2_provider oauth2_desired oauth2_patched ≡ none)
    ↔ AgreesSet oauth2_desired.property_mappings oauth2_patched.property_mappings
diff_oauth2_provider-converges_example =
    diff_oauth2_provider-converges oauth2_desired oauth2_desired oauth2_observed oauth2_patched
      oauth2_sends oauth2_updates

diff_policy_binding_iff_example :
    (diff_policy_binding binding_desired binding_observed ≡ none)
    ↔ MatchesPolicyBinding binding_desired binding_observed
diff_policy_binding_iff_example = diff_policy_binding_iff binding_desired binding_observed

binding_sends : diff_policy_binding binding_desired binding_observed ≡ some binding_patch
unfolding diff_policy_binding diff_value String_discrete diff_nullable diff_pointer first_non_nil
    with_subject Bool_discrete
binding_sends = refl

binding_updates : PatchesPolicyBinding binding_patch binding_observed binding_patched
binding_updates = record {
  policy = refl;
  group = refl;
  user = refl;
  target = refl;
  negate = refl;
  enabled = refl;
  order = refl;
  timeout = refl;
  failure_result = refl;
}

subject_example :
    (get binding_patched.policy ≡ get binding_desired.policy)
    × (get binding_patched.group ≡ get binding_desired.group)
    × (get binding_patched.user ≡ get binding_desired.user)
subject_example =
    subject-diff_policy_binding binding_desired binding_patch binding_observed binding_patched
      binding_sends refl binding_updates
