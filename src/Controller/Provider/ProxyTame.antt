-- ===== src/Controller/Provider/ProxyTame.antt =====
-- Both handlers leave the objects of authentik in place: internal/controller/provider.go.
use authentik_operator.Patch.ProxyProvider.{diff_proxy_provider}
use authentik_operator.Effect.{
  find_proxy_providers_by_name, get_oauth2_provider, call, get_proxy_provider, pure,
}
use authentik_operator.Effect.Gives.{Gives-bind, Gives-Emits, Gives-pure}
use authentik_operator.Controller.Unmanaged.Laws.{IsDeleteFree}
use authentik_operator.Controller.Provider.Tame.{
  TameHandler, Tame, All-mapped, Emits-exists, Emits-field_diffs,
}
use authentik_operator.Effect.Emits.{Emits, emits_rules, Emits-call}
use authentik_operator.Api.{ProxyProviderSpec}
use authentik_operator.Models.{PatchedProxyProviderRequest, ProxyProvider}
use authentik_operator.Prelude.{Option, none, some, map}
use authentik_operator.Prelude.Int.{ℤ}
use authentik_operator.Controller.Provider.ProxyHandler.{
  proxy_provider_handler, observe, sync, get, diffs, find_by_name, create, patch_diffs, send_patch,
}

Emits-send_patch :
    (pk : ℤ) (patch : Option PatchedProxyProviderRequest) → Emits IsDeleteFree (send_patch pk patch)
unfolding send_patch
Emits-send_patch pk none = search emits_rules
Emits-send_patch pk (some patch) = search emits_rules

Emits-patch_diffs :
    (spec : ProxyProviderSpec) (provider : ProxyProvider)
    (patch : Option PatchedProxyProviderRequest)
    → Emits IsDeleteFree (patch_diffs spec provider patch)
unfolding patch_diffs
Emits-patch_diffs spec provider none = search emits_rules
Emits-patch_diffs spec provider (some patch) = Emits-field_diffs _ _ _

observe-Tame :
    (spec : ProxyProviderSpec) (desired : PatchedProxyProviderRequest) (provider : ProxyProvider)
    → Tame IsDeleteFree (observe spec desired provider)
unfolding observe sync diffs
observe-Tame spec desired provider = (
  Emits-send_patch provider.pk (diff_proxy_provider desired provider),
  Emits-patch_diffs spec provider (diff_proxy_provider desired provider),
)

pub proxy_provider_handler-Tame :
    (spec : ProxyProviderSpec) (desired : PatchedProxyProviderRequest)
    → TameHandler IsDeleteFree (proxy_provider_handler spec desired)
unfolding proxy_provider_handler get find_by_name create
proxy_provider_handler-Tame spec desired = record {
  gets_one = λ pk.
      Gives-bind (call (get_proxy_provider pk)) (λ p. pure (observe spec desired p))
        (Gives-Emits _ (Emits-call {P = IsDeleteFree} (get_proxy_provider pk) tt))
        (λ p u. Gives-pure (observe spec desired p) (observe-Tame spec desired p));
  finds_all = λ name.
      Gives-bind (call (find_proxy_providers_by_name name))
        (λ ps. pure (map (observe spec desired) ps))
        (Gives-Emits _ (Emits-call {P = IsDeleteFree} (find_proxy_providers_by_name name) tt))
        (λ ps u.
          Gives-pure (map (observe spec desired) ps)
            (All-mapped (Tame IsDeleteFree) (observe spec desired) ps (observe-Tame spec desired)));
  creates = λ name. search emits_rules;
  exists_other = λ pk. Emits-exists _ (Emits-call {P = IsDeleteFree} (get_oauth2_provider pk) tt);
}
