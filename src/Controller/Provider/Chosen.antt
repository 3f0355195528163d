-- ===== src/Controller/Provider/Chosen.antt =====
-- The references that a handler needs are resolved when `Resolve` succeeds:
-- internal/controller/provider.go and internal/reference/resolver.go.
use authentik_operator.Controller.Provider.OAuth2Tame.{oauth2_provider_handler-Tame}
use authentik_operator.Controller.Unmanaged.Laws.{IsDeleteFree}
use authentik_operator.Controller.Provider.ProxyTame.{proxy_provider_handler-Tame}
use authentik_operator.Controller.Provider.Tame.{TameHandler}
use authentik_operator.Effect.Yields.{ok-inj}
use authentik_operator.Resolver.Subjects.{nothing_collected}
use mathlib.Core.Path.{subst}
use authentik_operator.Effect.Inversion.{>>=-eq-ok}
use authentik_operator.Controller.Provider.Observed.{ProviderHandler}
use authentik_operator.Reference.{Resolved, Flows, Rule, ProxyReferences, OAuth2References}
use authentik_operator.Prelude.{
  String, Option, is_some, ◌||◌, ◌≡◌, List, some, true, none, refl, sym,
}
use authentik_operator.Resolver.Resolve.{
  resolve_given_oauth2, resolve_provider, resolve_given_proxy, resolve, start_collector,
}
use authentik_operator.Effect.{Action, pure, Env, State, ok}
use authentik_operator.Api.{
  ProviderSpec, ProxyProviderSpec, AuthentikApplication, OAuth2ProviderSpec,
}
use authentik_operator.Controller.Provider.Choice.{handler_of, provider_handler}

-- The spec of a Provider has one of its two types, as the schema of the resource asks.
abbrev pub HasType : ProviderSpec → Type 0
HasType provider = (is_some provider.proxy || is_some provider.oauth2) ≡ true

given_proxy :
    (proxy : ProxyProviderSpec) (env : Env) (s : State) (refs : Option ProxyReferences)
    → (resolve_given_proxy (some proxy) env s).0 ≡ ok refs
    → is_some refs ≡ true
unfolding resolve_given_proxy pure
given_proxy proxy env s refs h =
    let (r, p, h1, t1) = >>=-eq-ok _ _ env s refs h in
    subst (λ o. is_some o ≡ true) (ok-inj h1) refl

given_oauth2 :
    (namespace : String) (oauth2 : OAuth2ProviderSpec) (env : Env) (s : State)
    (refs : Option OAuth2References)
    → (resolve_given_oauth2 namespace (some oauth2) env s).0 ≡ ok refs
    → is_some refs ≡ true
unfolding resolve_given_oauth2 pure
given_oauth2 namespace oauth2 env s refs h =
    let (r, p, h1, t1) = >>=-eq-ok _ _ env s refs h in
    subst (λ o. is_some o ≡ true) (ok-inj h1) refl

-- A handler is chosen, and not a nil pointer dereferenced; and its operations delete nothing, which
-- is what the reconcile relies on.
abbrev pub Chosen : Action ProviderHandler → Type 0
Chosen m = (handler : ProviderHandler) × (m ≡ pure handler) × TameHandler IsDeleteFree handler

chosen :
    (app : AuthentikApplication) (provider : ProviderSpec) (proxy : Option ProxyProviderSpec)
    (oauth2 : Option OAuth2ProviderSpec) (flows : Flows) (refs : Option ProxyReferences)
    (oauth2_refs : Option OAuth2References)
    → (is_some proxy || is_some oauth2) ≡ true
    → (is_some proxy ≡ true → is_some refs ≡ true)
    → (is_some oauth2 ≡ true → is_some oauth2_refs ≡ true)
    → Chosen (handler_of app provider proxy oauth2 (some flows) refs oauth2_refs)
unfolding handler_of
chosen app provider (some proxy) oauth2 flows (some refs) oauth2_refs h f g =
    (_, refl, proxy_provider_handler-Tame proxy _)
chosen app provider (some proxy) oauth2 flows none oauth2_refs h f g = absurd (let n = f refl in cc)
chosen app provider none (some oauth2) flows refs (some oauth2_refs) h f g =
    (_, refl, oauth2_provider_handler-Tame app _)
chosen app provider none (some oauth2) flows refs none h f g = absurd (let n = g refl in cc)
chosen app provider none none flows refs oauth2_refs h f g = absurd cc

-- what `Resolve` gives for a Provider
record Provided (provider : ProviderSpec) (resolved : Resolved) : Type 0 where
  flows_of : Flows
  has_flows : resolved.flows ≡ some flows_of
  has_proxy : is_some provider.proxy ≡ true → is_some resolved.proxy ≡ true
  has_oauth2 : is_some provider.oauth2 ≡ true → is_some resolved.oauth2 ≡ true

proxy_provided :
    (proxy : Option ProxyProviderSpec) (env : Env) (s : State) (refs : Option ProxyReferences)
    → (resolve_given_proxy proxy env s).0 ≡ ok refs
    → is_some proxy ≡ true
    → is_some refs ≡ true
proxy_provided none env s refs h e = absurd cc
proxy_provided (some proxy) env s refs h e = given_proxy proxy env s refs h

oauth2_provided :
    (namespace : String) (oauth2 : Option OAuth2ProviderSpec) (env : Env) (s : State)
    (refs : Option OAuth2References)
    → (resolve_given_oauth2 namespace oauth2 env s).0 ≡ ok refs
    → is_some oauth2 ≡ true
    → is_some refs ≡ true
oauth2_provided namespace none env s refs h e = absurd cc
oauth2_provided namespace (some oauth2) env s refs h e = given_oauth2 namespace oauth2 env s refs h

provided :
    (namespace : String) (provider : ProviderSpec) (env : Env) (s : State) (resolved : Resolved)
    → (resolve_provider namespace (some provider) env s).0 ≡ ok resolved
    → Provided provider resolved
unfolding resolve_provider pure
provided namespace provider env s resolved h =
    let (flows, p0, h1, t1) = >>=-eq-ok _ _ env s resolved h in
    let (proxy, p1, h2, t2) = >>=-eq-ok _ _ env _ resolved h1 in
    let (oauth2, p2, h3, t3) = >>=-eq-ok _ _ env _ resolved h2 in
    subst (Provided provider) (ok-inj h3) (record {
      flows_of = flows;
      has_flows = refl;
      has_proxy = proxy_provided provider.proxy env _ proxy p1;
      has_oauth2 = oauth2_provided namespace provider.oauth2 env _ oauth2 p2;
    })

-- the rules are added to what is provided
Provided-rules :
    (provider : ProviderSpec) (resolved : Resolved) (rules : List Rule)
    → Provided provider resolved
    → Provided provider (record resolved { rules = rules })
Provided-rules provider resolved rules p = record {
  flows_of = p.flows_of;
  has_flows = p.has_flows;
  has_proxy = p.has_proxy;
  has_oauth2 = p.has_oauth2;
}

-- When the spec has a Provider with one of the two types and Resolve has succeeded, the handler of
-- the Provider is chosen without a nil dereference of what was resolved, and it implements the
-- interface that the reconcile relies on: its operations, and the repair and the comparison of
-- every Provider that it returns, delete nothing in authentik.
pub provider_handler-Chosen :
    (app : AuthentikApplication) (provider : ProviderSpec) (env : Env) (s : State)
    (resolved : Resolved)
    → app.spec.provider ≡ some provider
    → HasType provider
    → (resolve app env s).0 ≡ ok resolved
    → Chosen (provider_handler app provider resolved)
unfolding provider_handler resolve
provider_handler-Chosen app provider env s resolved spec type h =
    let (u, p0, h1, t1) = >>=-eq-ok _ _ env s resolved h in
    let (found, p1, h2, t2) = >>=-eq-ok _ _ env _ resolved h1 in
    let (rules, p2, h3, t3) = >>=-eq-ok _ _ env _ resolved h2 in
    let (failures, p3, h4, t4) = >>=-eq-ok _ _ env _ resolved h3 in
    let p = provided app.namespace provider env _ found (
      subst (λ o. (resolve_provider app.namespace o env (start_collector env s).1).0 ≡ ok found)
        spec p1) in
    let q =
      subst (Provided provider) (nothing_collected _ resolved failures env _ h4).1
        (Provided-rules provider found rules p) in
    subst
      (λ o.
        Chosen
          (handler_of app provider provider.proxy provider.oauth2 o resolved.proxy resolved.oauth2))
      (sym q.has_flows)
      (chosen app provider provider.proxy provider.oauth2 q.flows_of resolved.proxy resolved.oauth2
        type q.has_proxy q.has_oauth2)
