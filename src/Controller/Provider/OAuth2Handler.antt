-- ===== src/Controller/Provider/OAuth2Handler.antt =====
-- `oauth2ProviderHandler` of internal/controller/provider.go.
use authentik_operator.Models.Json.{patched_oauth2_provider, oauth2_provider}
use authentik_operator.Controller.FieldDiffs.Tables.{oauth2_field_paths_for}
use authentik_operator.Controller.FieldDiffs.{field_diffs}
use authentik_operator.Desired.OAuth2.{create_oauth2_provider_request}
use authentik_operator.Ownership.{model_oauth2_provider}
use authentik_operator.Patch.OAuth2Provider.{diff_oauth2_provider}
use authentik_operator.Effect.{
  Action, ◌>>=◌, call, get_proxy_provider, create_oauth2_provider, get_oauth2_provider, pure,
  find_oauth2_providers_by_name, patch_oauth2_provider,
}
use authentik_operator.Prelude.{String, List, none, some, [], map, Option}
use authentik_operator.Api.{AuthentikApplication, FieldDiff}
use authentik_operator.Prelude.Int.{ℤ}
use authentik_operator.Resolver.Defaults.{resolve_creation_defaults}
use authentik_operator.Controller.Provider.Observed.{
  get_nullable, exists, ObservedProvider, ProviderHandler,
}
use authentik_operator.Models.{PatchedOAuth2ProviderRequest, OAuth2Provider}

-- the patch, when a field differs
unfoldable pub send_patch : ℤ → Option PatchedOAuth2ProviderRequest → Action Unit
send_patch pk none = pure tt
send_patch pk (some patch) = do updated ← call (patch_oauth2_provider pk patch); pure tt

unfoldable pub sync : PatchedOAuth2ProviderRequest → OAuth2Provider → Action Unit
unfolding send_patch
sync desired provider = send_patch provider.pk (diff_oauth2_provider desired provider)

unfoldable pub patch_diffs :
    OAuth2Provider → Option PatchedOAuth2ProviderRequest → Action (List FieldDiff)
patch_diffs provider none = pure []
patch_diffs provider (some patch) =
    field_diffs oauth2_field_paths_for (patched_oauth2_provider patch) (oauth2_provider provider)

unfoldable pub diffs : PatchedOAuth2ProviderRequest → OAuth2Provider → Action (List FieldDiff)
unfolding patch_diffs
diffs desired provider = patch_diffs provider (diff_oauth2_provider desired provider)

unfoldable pub observe : PatchedOAuth2ProviderRequest → OAuth2Provider → ObservedProvider
unfolding sync diffs get_nullable
observe desired provider = record {
  pk = provider.pk;
  assigned_application = get_nullable provider.assigned_application_slug;
  sync = sync desired provider;
  diffs = diffs desired provider;
}

unfoldable pub get : PatchedOAuth2ProviderRequest → ℤ → Action ObservedProvider
unfolding observe
get desired pk = do provider ← call (get_oauth2_provider pk); pure (observe desired provider)

unfoldable pub find_by_name : PatchedOAuth2ProviderRequest → String → Action (List ObservedProvider)
unfolding observe
find_by_name desired name = do
  providers ← call (find_oauth2_providers_by_name name)
  pure (map (observe desired) providers)

unfoldable pub create : AuthentikApplication → PatchedOAuth2ProviderRequest → String → Action ℤ
unfolding resolve_creation_defaults
create app desired name = do
  defaults ← resolve_creation_defaults app
  provider ← call (create_oauth2_provider (create_oauth2_provider_request name desired defaults))
  pure provider.pk

unfoldable pub oauth2_provider_handler :
    AuthentikApplication → PatchedOAuth2ProviderRequest → ProviderHandler
unfolding get find_by_name create exists
oauth2_provider_handler app desired = record {
  kind = "OAuth2";
  model = model_oauth2_provider;
  get = get desired;
  find_by_name = find_by_name desired;
  create = create app desired;
  exists_as_other_type = λ pk. exists (call (get_proxy_provider pk));
}
