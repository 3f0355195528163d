-- ===== src/Resolver/Defaults/Quiet.antt =====
-- `ResolveCreationDefaults` of internal/reference/resolver.go only reads.
use authentik_operator.Resolver.Quiet.{Emits-finish_collector}
use authentik_operator.Resolver.Reads.{
  IsRead, Emits-add_failure, Emits-resolve_by_string, key_pairs_read,
}
use authentik_operator.Models.{ScopeMapping}
use authentik_operator.Effect.Emits.{Emits, emits_rules, Emits-bind, Emits-pure}
use authentik_operator.Api.{
  AuthentikApplication, OAuth2ProviderSpec, ProviderSpec, NamedReference, ScopeMappingReference,
}
use authentik_operator.Resolver.Resolve.{start_collector}
use authentik_operator.Prelude.{Option, String, List, some, ◌∷◌, none, []}
use authentik_operator.Resolver.Defaults.{
  resolve_scope_names, resolve_oauth2_defaults, defaults_for, default_key,
  resolve_creation_defaults, defaults_of, only_mapping, default_scopes,
  resolve_default_scope_mapping,
}

Emits-only_mapping :
    (managed : String) (mappings : List ScopeMapping) → Emits IsRead (only_mapping managed mappings)
unfolding only_mapping
Emits-only_mapping managed (mapping ∷ []) = search emits_rules
Emits-only_mapping managed [] = search (emits_rules, Emits-add_failure)
Emits-only_mapping managed (first ∷ second ∷ rest) = search (emits_rules, Emits-add_failure)

Emits-resolve_scope_names : (names : List String) → Emits IsRead (resolve_scope_names names)
unfolding resolve_scope_names resolve_default_scope_mapping
Emits-resolve_scope_names [] = search emits_rules
Emits-resolve_scope_names (name ∷ names) =
    Emits-bind _ _ (search (emits_rules, Emits-only_mapping))
      (λ pk. Emits-bind _ _ (Emits-resolve_scope_names names) (λ pks. Emits-pure _))

Emits-default_scopes :
    (scopes : Option (List ScopeMappingReference)) → Emits IsRead (default_scopes scopes)
unfolding default_scopes
Emits-default_scopes (some given) = search emits_rules
Emits-default_scopes none = search (emits_rules, Emits-resolve_scope_names)

Emits-default_key : (reference : Option NamedReference) → Emits IsRead (default_key reference)
unfolding default_key
Emits-default_key (some reference) = search emits_rules
Emits-default_key none = search (emits_rules, Emits-resolve_by_string, key_pairs_read)

Emits-resolve_oauth2_defaults :
    (oauth2 : OAuth2ProviderSpec) → Emits IsRead (resolve_oauth2_defaults oauth2)
unfolding resolve_oauth2_defaults start_collector
Emits-resolve_oauth2_defaults oauth2 =
    search (emits_rules, Emits-default_scopes, Emits-default_key, Emits-finish_collector) depth 14

Emits-defaults_for : (oauth2 : Option OAuth2ProviderSpec) → Emits IsRead (defaults_for oauth2)
unfolding defaults_for
Emits-defaults_for none = search emits_rules
Emits-defaults_for (some oauth2) = Emits-resolve_oauth2_defaults oauth2

Emits-defaults_of : (provider : Option ProviderSpec) → Emits IsRead (defaults_of provider)
unfolding defaults_of
Emits-defaults_of none = search emits_rules
Emits-defaults_of (some provider) = Emits-defaults_for provider.oauth2

-- The default references of a new OAuth2 Provider are resolved by reads alone.
pub resolve_creation_defaults-IsRead :
    (app : AuthentikApplication) → Emits IsRead (resolve_creation_defaults app)
unfolding resolve_creation_defaults
resolve_creation_defaults-IsRead app = Emits-defaults_of app.spec.provider
