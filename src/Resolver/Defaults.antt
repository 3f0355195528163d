-- ===== src/Resolver/Defaults.antt =====
-- `ResolveCreationDefaults` and `resolveDefaultScopeMapping` of internal/reference/resolver.go.
pub mod Quiet
use authentik_operator.Prelude.Text.{concat_text, quote}
use authentik_operator.Effect.{
  Action, pure, ◌>>=◌, ◌>>◌, wrap, call, find_scope_mappings_by_scope_name,
}
use authentik_operator.Models.{ScopeMapping, get}
use authentik_operator.Reference.{CreationDefaults}
use authentik_operator.Resolver.Resolve.{start_collector, finish_collector}
use authentik_operator.Api.{
  AuthentikApplication, NamedReference, OAuth2ProviderSpec, ScopeMappingReference, ProviderSpec,
}
use authentik_operator.Prelude.{
  String, Option, List, none, Bool, ◌∷◌, [], if◌then◌else◌, some, false, ◌==◌, length, string_eq,
  ◌+◌,
}
use authentik_operator.Resolver.Lookup.{add_failure, resolve_by_string, key_pair_lookup}

abbrev pub default_signing_key_name : String
default_signing_key_name = "authentik Self-signed Certificate"

abbrev pub default_scope_names : List String
default_scope_names = "openid" ∷ "email" ∷ "profile" ∷ []

-- `managedScopeMappingPrefix` and the scope name
unfoldable pub managed_scope : String → String
managed_scope scope_name = concat_text ("goauthentik.io/providers/oauth2/scope-" ∷ scope_name ∷ [])

-- `value != nil && *value == managed`
unfoldable pub is_value : String → Option String → Bool
is_value managed none = false
is_value managed (some value) = value == managed

-- the loop that keeps the mappings that authentik ships
unfoldable pub managed_mappings : String → List ScopeMapping → List ScopeMapping
unfolding is_value
managed_mappings managed [] = []
managed_mappings managed (mapping ∷ rest) =
    let others = managed_mappings managed rest in
    if is_value managed (get mapping.managed) then mapping ∷ others else others

unfoldable pub only_mapping : String → List ScopeMapping → Action String
unfolding add_failure
only_mapping managed (mapping ∷ []) = pure mapping.pk
only_mapping managed [] = do
  add_failure "provider.oauth2.scopes" (concat_text ("ScopeMapping managed " ∷ quote managed ∷ []))
      0
  pure ""
only_mapping managed (first ∷ second ∷ rest) = do
  add_failure "provider.oauth2.scopes" (concat_text ("ScopeMapping managed " ∷ quote managed ∷ []))
      (length rest + 2)
  pure ""

unfoldable pub resolve_default_scope_mapping : String → Action String
unfolding only_mapping managed_mappings managed_scope
resolve_default_scope_mapping scope_name = do
  mappings ←
      wrap "failed to resolve provider.oauth2.scopes"
        (call (find_scope_mappings_by_scope_name scope_name))
  only_mapping (managed_scope scope_name) (managed_mappings (managed_scope scope_name) mappings)

unfoldable pub resolve_scope_names : List String → Action (List String)
unfolding resolve_default_scope_mapping
resolve_scope_names [] = pure []
resolve_scope_names (name ∷ names) = do
  pk ← resolve_default_scope_mapping name
  pks ← resolve_scope_names names
  pure (pk ∷ pks)

unfoldable pub default_scopes : Option (List ScopeMappingReference) → Action (Option (List String))
unfolding resolve_scope_names
default_scopes (some given) = pure none
default_scopes none = do pks ← resolve_scope_names default_scope_names; pure (some pks)

unfoldable pub default_key : Option NamedReference → Action (Option String)
unfolding resolve_by_string
default_key (some reference) = pure none
default_key none = do
  pk ←
      resolve_by_string "provider.oauth2.signingKey" key_pair_lookup none
        (some default_signing_key_name)
  pure (some pk)

unfoldable pub resolve_oauth2_defaults : OAuth2ProviderSpec → Action CreationDefaults
unfolding start_collector default_scopes default_key finish_collector
resolve_oauth2_defaults oauth2 = do
  start_collector
  scopes ← default_scopes oauth2.scopes
  signing_key ← default_key oauth2.signing_key
  finish_collector (record { scopes = scopes; signing_key = signing_key })

abbrev pub no_creation_defaults : CreationDefaults
no_creation_defaults = record { scopes = none; signing_key = none }

unfoldable pub defaults_for : Option OAuth2ProviderSpec → Action CreationDefaults
unfolding resolve_oauth2_defaults
defaults_for none = pure no_creation_defaults
defaults_for (some oauth2) = resolve_oauth2_defaults oauth2

unfoldable pub defaults_of : Option ProviderSpec → Action CreationDefaults
unfolding defaults_for
defaults_of none = pure no_creation_defaults
defaults_of (some provider) = defaults_for provider.oauth2

unfoldable pub resolve_creation_defaults : AuthentikApplication → Action CreationDefaults
unfolding defaults_of
resolve_creation_defaults app = defaults_of app.spec.provider
