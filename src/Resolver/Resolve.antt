-- ===== src/Resolver/Resolve.antt =====
-- `Resolve` of internal/reference/resolver.go, with resolveFlows, resolveProxy and resolveOAuth2.
use authentik_operator.Prelude.Int.{pos}
use authentik_operator.Prelude.Text.{concat_text, itoa}
use authentik_operator.Controller.Outpost.{embedded_outpost_name}
use authentik_operator.Reference.{Flows, ProxyReferences, Credentials, OAuth2References, Resolved}
use authentik_operator.Api.{
  ProviderFlows, OAuth2ProviderSpec, NamedReference, ProxyProviderSpec, AuthentikApplication,
  ProviderSpec, FlowReference, OAuth2CredentialsSpec, ScopeMappingReference,
}
use authentik_operator.Effect.{Action, modify, ◌>>=◌, pure, gets, ◌>>◌, raise, references}
use authentik_operator.Resolver.Rules.{resolve_rules}
use authentik_operator.Resolver.Credentials.{resolve_credentials}
use authentik_operator.Resolver.Lookup.{
  resolve_named, resolve_by_string, outpost_lookup, flow_lookup, key_pair_lookup,
  scope_mapping_lookup,
}
use authentik_operator.Prelude.{String, Option, ℕ, List, [], ◌∷◌, some, none, suc}
use authentik_operator.Reference.Failures.{collected, Failure}

unfoldable pub resolve_flow : String → FlowReference → Action String
unfolding resolve_by_string
resolve_flow path reference = resolve_by_string path flow_lookup reference.uuid reference.slug

unfoldable pub resolve_authentication : Option FlowReference → Action (Option String)
unfolding resolve_flow
resolve_authentication none = pure none
resolve_authentication (some reference) = do
  pk ← resolve_flow "provider.flows.authentication" reference
  pure (some pk)

unfoldable pub resolve_flows : ProviderFlows → Action Flows
unfolding resolve_authentication
resolve_flows flows = do
  authorization ← resolve_flow "provider.flows.authorization" flows.authorization
  invalidation ← resolve_flow "provider.flows.invalidation" flows.invalidation
  authentication ← resolve_authentication flows.authentication
  pure (record {
    authorization = authorization;
    invalidation = invalidation;
    authentication = authentication;
  })

-- the embedded Outpost when `outpost` is omitted
unfoldable pub resolve_outpost : Option NamedReference → Action String
unfolding resolve_by_string
resolve_outpost none =
    resolve_by_string "provider.proxy.outpost" outpost_lookup none (some embedded_outpost_name)
resolve_outpost (some reference) =
    resolve_by_string "provider.proxy.outpost" outpost_lookup reference.uuid reference.name

unfoldable pub resolve_proxy : ProxyProviderSpec → Action ProxyReferences
unfolding resolve_outpost resolve_named
resolve_proxy proxy = do
  certificate ← resolve_named "provider.proxy.certificate" key_pair_lookup proxy.certificate
  outpost ← resolve_outpost proxy.outpost
  pure (record { certificate = certificate; outpost = outpost })

-- the loop over `oauth2.scopes` from the index `i`
unfoldable pub resolve_scopes : ℕ → List ScopeMappingReference → Action (List String)
unfolding resolve_by_string
resolve_scopes i [] = pure []
resolve_scopes i (reference ∷ rest) = do
  pk ←
      resolve_by_string (concat_text ("provider.oauth2.scopes[" ∷ itoa (pos i) ∷ "]" ∷ []))
        scope_mapping_lookup reference.uuid reference.scope_name
  others ← resolve_scopes (suc i) rest
  pure (pk ∷ others)

unfoldable pub resolve_listed_scopes :
    Option (List ScopeMappingReference) → Action (Option (List String))
unfolding resolve_scopes
resolve_listed_scopes none = pure none
resolve_listed_scopes (some refs) = do scopes ← resolve_scopes 0 refs; pure (some scopes)

unfoldable pub resolve_given_credentials :
    String → Option OAuth2CredentialsSpec → Action (Option Credentials)
unfolding resolve_credentials
resolve_given_credentials namespace none = pure none
resolve_given_credentials namespace (some spec) = do
  credentials ← resolve_credentials namespace spec
  pure (some credentials)

unfoldable pub resolve_oauth2 : String → OAuth2ProviderSpec → Action OAuth2References
unfolding resolve_listed_scopes resolve_named resolve_given_credentials
resolve_oauth2 namespace oauth2 = do
  scopes ← resolve_listed_scopes oauth2.scopes
  signing_key ← resolve_named "provider.oauth2.signingKey" key_pair_lookup oauth2.signing_key
  encryption_key ←
      resolve_named "provider.oauth2.encryptionKey" key_pair_lookup oauth2.encryption_key
  credentials ← resolve_given_credentials namespace oauth2.credentials
  pure (record {
    scopes = scopes;
    signing_key = signing_key;
    encryption_key = encryption_key;
    credentials = credentials;
  })

unfoldable pub resolve_given_proxy : Option ProxyProviderSpec → Action (Option ProxyReferences)
unfolding resolve_proxy
resolve_given_proxy none = pure none
resolve_given_proxy (some proxy) = do refs ← resolve_proxy proxy; pure (some refs)

unfoldable pub resolve_given_oauth2 :
    String → Option OAuth2ProviderSpec → Action (Option OAuth2References)
unfolding resolve_oauth2
resolve_given_oauth2 namespace none = pure none
resolve_given_oauth2 namespace (some oauth2) = do
  refs ← resolve_oauth2 namespace oauth2
  pure (some refs)

-- the part on the provider; without one nothing is resolved
unfoldable pub resolve_provider : String → Option ProviderSpec → Action Resolved
unfolding resolve_flows resolve_given_proxy resolve_given_oauth2
resolve_provider namespace none =
    pure (record { flows = none; proxy = none; oauth2 = none; rules = [] })
resolve_provider namespace (some provider) = do
  flows ← resolve_flows provider.flows
  proxy ← resolve_given_proxy provider.proxy
  oauth2 ← resolve_given_oauth2 namespace provider.oauth2
  pure (record { flows = some flows; proxy = proxy; oauth2 = oauth2; rules = [] })

-- `c := new(collector)`
unfoldable pub start_collector : Action Unit
start_collector = modify (λ s. record s { failures = [] })

-- the return: the value, or the error with every failure
unfoldable pub collected_or : {A : Type 0} → A → Option (List Failure) → Action A
collected_or value none = pure value
collected_or value (some failures) = raise (references failures)

unfoldable pub finish_collector : {A : Type 0} → A → Action A
unfolding collected_or collected
finish_collector value = do
  failures ← gets (λ s. s.failures)
  collected_or value (collected failures)

unfoldable pub resolve : AuthentikApplication → Action Resolved
unfolding start_collector resolve_provider resolve_rules finish_collector
resolve app = do
  start_collector
  resolved ← resolve_provider app.namespace app.spec.provider
  rules ← resolve_rules 0 app.spec.access.rules
  finish_collector (record resolved { rules = rules })
