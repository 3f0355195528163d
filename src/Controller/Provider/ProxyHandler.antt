-- ===== src/Controller/Provider/ProxyHandler.antt =====
-- `proxyProviderHandler` of internal/controller/provider.go.
use authentik_operator.Models.Json.{patched_proxy_provider, proxy_provider}
use authentik_operator.Controller.FieldDiffs.{field_diffs}
use authentik_operator.Desired.Proxy.{create_proxy_provider_request}
use authentik_operator.Patch.ProxyProvider.{diff_proxy_provider}
use authentik_operator.Ownership.{model_proxy_provider}
use authentik_operator.Effect.{
  Action, call, ◌>>=◌, get_oauth2_provider, find_proxy_providers_by_name, create_proxy_provider,
  get_proxy_provider, pure, patch_proxy_provider,
}
use authentik_operator.Prelude.{String, List, none, some, map, [], Option}
use authentik_operator.Prelude.Int.{ℤ}
use authentik_operator.Models.{PatchedProxyProviderRequest, ProxyProvider}
use authentik_operator.Api.{ProxyProviderSpec, FieldDiff}
use authentik_operator.Controller.Provider.Observed.{
  exists, get_nullable, ProviderHandler, ObservedProvider,
}
use authentik_operator.Controller.FieldDiffs.Tables.{proxy_field_paths_for}

-- the patch, when a field differs
unfoldable pub send_patch : ℤ → Option PatchedProxyProviderRequest → Action Unit
send_patch pk none = pure tt
send_patch pk (some patch) = do updated ← call (patch_proxy_provider pk patch); pure tt

unfoldable pub sync : PatchedProxyProviderRequest → ProxyProvider → Action Unit
unfolding send_patch
sync desired provider = send_patch provider.pk (diff_proxy_provider desired provider)

unfoldable pub patch_diffs :
    ProxyProviderSpec → ProxyProvider → Option PatchedProxyProviderRequest → Action (List FieldDiff)
unfolding proxy_field_paths_for
patch_diffs spec provider none = pure []
patch_diffs spec provider (some patch) =
    field_diffs (proxy_field_paths_for spec) (patched_proxy_provider patch)
      (proxy_provider provider)

unfoldable pub diffs :
    ProxyProviderSpec → PatchedProxyProviderRequest → ProxyProvider → Action (List FieldDiff)
unfolding patch_diffs
diffs spec desired provider = patch_diffs spec provider (diff_proxy_provider desired provider)

unfoldable pub observe :
    ProxyProviderSpec → PatchedProxyProviderRequest → ProxyProvider → ObservedProvider
unfolding sync diffs get_nullable
observe spec desired provider = record {
  pk = provider.pk;
  assigned_application = get_nullable provider.assigned_application_slug;
  sync = sync desired provider;
  diffs = diffs spec desired provider;
}

unfoldable pub get : ProxyProviderSpec → PatchedProxyProviderRequest → ℤ → Action ObservedProvider
unfolding observe
get spec desired pk = do
  provider ← call (get_proxy_provider pk)
  pure (observe spec desired provider)

unfoldable pub find_by_name :
    ProxyProviderSpec → PatchedProxyProviderRequest → String → Action (List ObservedProvider)
unfolding observe
find_by_name spec desired name = do
  providers ← call (find_proxy_providers_by_name name)
  pure (map (observe spec desired) providers)

unfoldable pub create : PatchedProxyProviderRequest → String → Action ℤ
create desired name = do
  provider ← call (create_proxy_provider (create_proxy_provider_request name desired))
  pure provider.pk

unfoldable pub proxy_provider_handler :
    ProxyProviderSpec → PatchedProxyProviderRequest → ProviderHandler
unfolding get find_by_name create exists
proxy_provider_handler spec desired = record {
  kind = "Proxy";
  model = model_proxy_provider;
  get = get spec desired;
  find_by_name = find_by_name spec desired;
  create = create desired;
  exists_as_other_type = λ pk. exists (call (get_oauth2_provider pk));
}
