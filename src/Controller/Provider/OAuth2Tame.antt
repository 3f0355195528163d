-- ===== src/Controller/Provider/OAuth2Tame.antt =====
-- Both handlers leave the objects of authentik in place: internal/controller/provider.go.

use authentik_operator.Effect.{
  find_oauth2_providers_by_name, get_proxy_provider, call, get_oauth2_provider, pure,
}
use authentik_operator.Resolver.Defaults.Quiet.{resolve_creation_defaults-IsRead}
use authentik_operator.Patch.OAuth2Provider.{diff_oauth2_provider}
use authentik_operator.Resolver.Defaults.{resolve_creation_defaults}
use authentik_operator.Effect.Gives.{Gives-bind, Gives-Emits, Gives-pure}
use authentik_operator.Controller.Unmanaged.Laws.{IsDeleteFree}
use authentik_operator.Effect.Emits.{Emits, emits_rules, Emits-weaken, Emits-call}
use authentik_operator.Prelude.{Option, some, none, map}
use authentik_operator.Controller.Provider.Tame.{
  Tame, TameHandler, IsDeleteFree-IsRead, Emits-field_diffs, All-mapped, Emits-exists,
}
use authentik_operator.Api.{AuthentikApplication}
use authentik_operator.Prelude.Int.{ℤ}
use authentik_operator.Models.{PatchedOAuth2ProviderRequest, OAuth2Provider}
use authentik_operator.Controller.Provider.OAuth2Handler.{
  send_patch, patch_diffs, observe, sync, diffs, get, find_by_name, create, oauth2_provider_handler,
}

Emits-send_patch :
    (pk : ℤ) (patch : Option PatchedOAuth2ProviderRequest)
    → Emits IsDeleteFree (send_patch pk patch)
unfolding send_patch
Emits-send_patch pk none = search emits_rules
Emits-send_patch pk (some patch) = search emits_rules

Emits-patch_diffs :
    (provider : OAuth2Provider) (patch : Option PatchedOAuth2ProviderRequest)
    → Emits IsDeleteFree (patch_diffs provider patch)
unfolding patch_diffs
Emits-patch_diffs provider none = search emits_rules
Emits-patch_diffs provider (some patch) = Emits-field_diffs _ _ _

observe-Tame :
    (desired : PatchedOAuth2ProviderRequest) (provider : OAuth2Provider)
    → Tame IsDeleteFree (observe desired provider)
unfolding observe sync diffs
observe-Tame desired provider = (
  Emits-send_patch provider.pk (diff_oauth2_provider desired provider),
  Emits-patch_diffs provider (diff_oauth2_provider desired provider),
)

defaults_read : (app : AuthentikApplication) → Emits IsDeleteFree (resolve_creation_defaults app)
defaults_read app = Emits-weaken _ IsDeleteFree-IsRead (resolve_creation_defaults-IsRead app)

pub oauth2_provider_handler-Tame :
    (app : AuthentikApplication) (desired : PatchedOAuth2ProviderRequest)
    → TameHandler IsDeleteFree (oauth2_provider_handler app desired)
unfolding oauth2_provider_handler get find_by_name create
oauth2_provider_handler-Tame app desired = record {
  gets_one = λ pk.
      Gives-bind (call (get_oauth2_provider pk)) (λ p. pure (observe desired p))
        (Gives-Emits _ (Emits-call {P = IsDeleteFree} (get_oauth2_provider pk) tt))
        (λ p u. Gives-pure (observe desired p) (observe-Tame desired p));
  finds_all = λ name.
      Gives-bind (call (find_oauth2_providers_by_name name)) (λ ps. pure (map (observe desired) ps))
        (Gives-Emits _ (Emits-call {P = IsDeleteFree} (find_oauth2_providers_by_name name) tt))
        (λ ps u.
          Gives-pure (map (observe desired) ps)
            (All-mapped (Tame IsDeleteFree) (observe desired) ps (observe-Tame desired)));
  creates = λ name. search (emits_rules, defaults_read);
  exists_other = λ pk. Emits-exists _ (Emits-call {P = IsDeleteFree} (get_proxy_provider pk) tt);
}
