-- ===== src/Controller/Provider/Choice.antt =====
-- Which handler a resource has: `providerHandler` of internal/controller/provider.go.
use authentik_operator.Desired.OAuth2.{desired_oauth2_provider}
use authentik_operator.Desired.Proxy.{desired_proxy_provider}
use authentik_operator.Controller.Provider.Observed.{ProviderHandler}
use authentik_operator.Prelude.{some, none, Option}
use authentik_operator.Reference.{Resolved, Flows, ProxyReferences, OAuth2References}
use authentik_operator.Controller.Provider.OAuth2Handler.{oauth2_provider_handler}
use authentik_operator.Effect.{Action, pure, raise, nil_dereference}
use authentik_operator.Controller.Provider.ProxyHandler.{proxy_provider_handler}
use authentik_operator.Api.{
  AuthentikApplication, ProviderSpec, ProxyProviderSpec, OAuth2ProviderSpec,
}

-- The source dereferences the parts of `s.resolved` that the type of the Provider needs.
unfoldable pub handler_of :
    AuthentikApplication
    → ProviderSpec
    → Option ProxyProviderSpec
    → Option OAuth2ProviderSpec
    → Option Flows
    → Option ProxyReferences
    → Option OAuth2References
    → Action ProviderHandler
unfolding proxy_provider_handler oauth2_provider_handler
handler_of app provider (some proxy) oauth2 (some flows) (some refs) oauth2_refs =
    pure (proxy_provider_handler proxy (desired_proxy_provider provider proxy flows refs))
handler_of app provider none (some oauth2) (some flows) proxy_refs (some refs) =
    pure (oauth2_provider_handler app (desired_oauth2_provider provider oauth2 flows refs))
handler_of app provider _ _ _ _ _ = raise nil_dereference

-- `providerHandler`
unfoldable pub provider_handler :
    AuthentikApplication → ProviderSpec → Resolved → Action ProviderHandler
unfolding handler_of
provider_handler app provider resolved =
    handler_of app provider provider.proxy provider.oauth2 resolved.flows resolved.proxy
      resolved.oauth2
