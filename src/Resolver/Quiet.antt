-- ===== src/Resolver/Quiet.antt =====
-- `Resolve` and `ResolveCreationDefaults` of internal/reference/resolver.go only read.
use authentik_operator.Reference.Failures.{Failure}
use authentik_operator.Resolver.Reads.{
  IsRead, Emits-resolve_by_string, Emits-resolve_named, outposts_read, flows_read,
  Emits-add_failure, scope_mappings_read, key_pairs_read, groups_read, policies_read, Emits-get_one,
  Emits-find_one,
}
use authentik_operator.Effect.{Secret, Result, err, ok, get_user, find_users_by_username}
use authentik_operator.Effect.Emits.{
  Emits, emits_rules, Emits-modify, Emits-bind, Emits-pure, Emits-call,
}
use authentik_operator.Prelude.{
  Option, ℕ, String, List, Bool, some, none, ◌∷◌, ◌||◌, refl, Bool-cases, suc, ◌^◌, ◌-◌, ◌≡◌, inl,
  [], inr, false, arith, get_or,
}
use authentik_operator.Api.{
  ProviderFlows, OAuth2CredentialsSpec, AuthentikApplication, ProviderSpec, ProxyProviderSpec,
  FlowReference, NamedReference, OAuth2ProviderSpec, ScopeMappingReference, UserReference,
  AccessRule,
}
use authentik_operator.Prelude.Int.{wrap32, ℤ, ltb_ℤ, pos, negsuc}
use authentik_operator.Resolver.Credentials.{
  read_credentials, read_client_id, read_key, read_value, resolve_credentials,
}
use authentik_operator.Resolver.Resolve.{
  resolve_flows, resolve_given_oauth2, resolve_authentication, resolve_listed_scopes,
  resolve_given_credentials, resolve_scopes, collected_or, resolve_given_proxy, resolve_outpost,
  resolve, resolve_provider, finish_collector, start_collector, resolve_flow, resolve_proxy,
  resolve_oauth2,
}
use authentik_operator.Resolver.Rules.{
  resolve_user_by, resolve_rules, resolve_subject, resolve_user, resolve_rule,
}

Emits-read_value :
    (path secret key : String) (value : Option String)
    → Emits IsRead (read_value path secret key value)
unfolding read_value
Emits-read_value path secret key (some v) = search emits_rules
Emits-read_value path secret key none = search (emits_rules, Emits-add_failure)

Emits-read_key :
    (path name key : String) (secret : Secret) → Emits IsRead (read_key path name key secret)
unfolding read_key
Emits-read_key path name key secret = Emits-read_value path name key _

Emits-read_client_id :
    (spec : OAuth2CredentialsSpec) (id : Option String) (secret : Secret)
    → Emits IsRead (read_client_id spec id secret)
unfolding read_client_id
Emits-read_client_id spec (some id) secret = search emits_rules
Emits-read_client_id spec none secret = Emits-read_key _ _ _ secret

Emits-read_credentials :
    (namespace : String) (spec : OAuth2CredentialsSpec) (answer : Result Secret)
    → Emits IsRead (read_credentials namespace spec answer)
unfolding read_credentials
Emits-read_credentials namespace spec (err e) = search emits_rules
Emits-read_credentials namespace spec (ok secret) =
    search (emits_rules, Emits-read_client_id, Emits-read_key) depth 12

Emits-resolve_given_credentials :
    (namespace : String) (spec : Option OAuth2CredentialsSpec)
    → Emits IsRead (resolve_given_credentials namespace spec)
unfolding resolve_given_credentials resolve_credentials
Emits-resolve_given_credentials namespace none = search emits_rules
Emits-resolve_given_credentials namespace (some spec) =
    search (emits_rules, Emits-read_credentials) depth 12

in_range :
    (pk : ℤ)
    → (ltb_ℤ pk (pos 1) || ltb_ℤ (pos (2 ^ 31 - 1)) pk) ≡ false
    → IsRead (get_user (wrap32 pk))
unfolding wrap32
in_range (pos n) h = (ground arith, ground arith)
in_range (negsuc n) h = (ground arith, ground arith)

Emits-resolve_user_by :
    (path : String) (pk : Option ℤ) (username : Option String)
    → Emits IsRead (resolve_user_by path pk username)
unfolding resolve_user_by
Emits-resolve_user_by path (some pk) username =
    elim (Bool-cases (ltb_ℤ pk (pos 1) || ltb_ℤ (pos (2 ^ 31 - 1)) pk)) [
      | inl out ↦ rw out (Emits-bind _ _ (Emits-add_failure _ _ _) (λ _. Emits-pure none))
      | inr fits ↦ rw fits (
          Emits-bind _ _
            (Emits-get_one _ _ _
              (Emits-call {P = IsRead} (get_user (wrap32 pk)) (in_range pk fits)))
            (λ user. Emits-pure _))
    ]
Emits-resolve_user_by path none username =
    Emits-bind _ _
      (Emits-find_one _ _ _
        (Emits-call {P = IsRead} (find_users_by_username (get_or username "")) tt))
      (λ user. Emits-pure _)

Emits-resolve_subject :
    (path : String) (negate : Bool) (group : Option NamedReference) (user : Option UserReference)
    (policy : Option NamedReference)
    → Emits IsRead (resolve_subject path negate group user policy)
unfolding resolve_subject resolve_user
Emits-resolve_subject path negate (some group) user policy =
    search (emits_rules, Emits-resolve_named, groups_read)
Emits-resolve_subject path negate none (some user) policy =
    search (emits_rules, Emits-resolve_user_by)
Emits-resolve_subject path negate none none (some policy) =
    search (emits_rules, Emits-resolve_named, policies_read)
Emits-resolve_subject path negate none none none = search emits_rules

Emits-resolve_rules : (i : ℕ) (rules : List AccessRule) → Emits IsRead (resolve_rules i rules)
unfolding resolve_rules resolve_rule
Emits-resolve_rules i [] = search emits_rules
Emits-resolve_rules i (rule ∷ rules) =
    Emits-bind _ _
      (Emits-resolve_subject _ (get_or rule.negate false) rule.group rule.user rule.policy)
      (λ r. Emits-bind _ _ (Emits-resolve_rules (suc i) rules) (λ rs. Emits-pure _))

Emits-resolve_flow :
    (path : String) (reference : FlowReference) → Emits IsRead (resolve_flow path reference)
unfolding resolve_flow
Emits-resolve_flow path reference = search (Emits-resolve_by_string, flows_read)

Emits-resolve_authentication :
    (reference : Option FlowReference) → Emits IsRead (resolve_authentication reference)
unfolding resolve_authentication
Emits-resolve_authentication none = search emits_rules
Emits-resolve_authentication (some reference) = search (emits_rules, Emits-resolve_flow)

Emits-resolve_flows : (flows : ProviderFlows) → Emits IsRead (resolve_flows flows)
unfolding resolve_flows
Emits-resolve_flows flows =
    search (emits_rules, Emits-resolve_flow, Emits-resolve_authentication) depth 12

Emits-resolve_outpost :
    (reference : Option NamedReference) → Emits IsRead (resolve_outpost reference)
unfolding resolve_outpost
Emits-resolve_outpost none = search (Emits-resolve_by_string, outposts_read)
Emits-resolve_outpost (some reference) = search (Emits-resolve_by_string, outposts_read)

Emits-resolve_given_proxy :
    (proxy : Option ProxyProviderSpec) → Emits IsRead (resolve_given_proxy proxy)
unfolding resolve_given_proxy resolve_proxy
Emits-resolve_given_proxy none = search emits_rules
Emits-resolve_given_proxy (some proxy) =
    search (emits_rules, Emits-resolve_named, key_pairs_read, Emits-resolve_outpost) depth 12

Emits-resolve_scopes :
    (i : ℕ) (scopes : List ScopeMappingReference) → Emits IsRead (resolve_scopes i scopes)
unfolding resolve_scopes
Emits-resolve_scopes i [] = search emits_rules
Emits-resolve_scopes i (scope ∷ scopes) =
    Emits-bind _ _ (search (Emits-resolve_by_string, scope_mappings_read))
      (λ pk. Emits-bind _ _ (Emits-resolve_scopes (suc i) scopes) (λ pks. Emits-pure _))

Emits-resolve_listed_scopes :
    (scopes : Option (List ScopeMappingReference)) → Emits IsRead (resolve_listed_scopes scopes)
unfolding resolve_listed_scopes
Emits-resolve_listed_scopes none = search emits_rules
Emits-resolve_listed_scopes (some scopes) = search (emits_rules, Emits-resolve_scopes)

Emits-resolve_given_oauth2 :
    (namespace : String) (oauth2 : Option OAuth2ProviderSpec)
    → Emits IsRead (resolve_given_oauth2 namespace oauth2)
unfolding resolve_given_oauth2 resolve_oauth2
Emits-resolve_given_oauth2 namespace none = search emits_rules
Emits-resolve_given_oauth2 namespace (some oauth2) =
    search
      (
        emits_rules, Emits-resolve_listed_scopes, Emits-resolve_named, key_pairs_read,
        Emits-resolve_given_credentials,
      )
      depth 14

Emits-resolve_provider :
    (namespace : String) (provider : Option ProviderSpec)
    → Emits IsRead (resolve_provider namespace provider)
unfolding resolve_provider
Emits-resolve_provider namespace none = search emits_rules
Emits-resolve_provider namespace (some provider) =
    search (emits_rules, Emits-resolve_flows, Emits-resolve_given_proxy, Emits-resolve_given_oauth2)
      depth 12

Emits-start_collector : Emits IsRead start_collector
unfolding start_collector
Emits-start_collector = Emits-modify _ (λ s. refl)

module _ {A : Type 0} where
  Emits-collected_or :
      (a : A) (failures : Option (List Failure)) → Emits IsRead (collected_or a failures)
  unfolding collected_or
  Emits-collected_or a none = search emits_rules
  Emits-collected_or a (some failures) = search emits_rules

  pub Emits-finish_collector : (a : A) → Emits IsRead (finish_collector a)
  unfolding finish_collector
  Emits-finish_collector a = search (emits_rules, Emits-collected_or)

-- Resolve, however the services answer, makes only reads of referenced objects, and it asks for a
-- User only by a pk from 1 to 2 ^ 31 - 1.
pub resolve-IsRead : (app : AuthentikApplication) → Emits IsRead (resolve app)
unfolding resolve
resolve-IsRead app =
    search
      (
        emits_rules, Emits-start_collector, Emits-resolve_provider, Emits-resolve_rules,
        Emits-finish_collector,
      )
      depth 12
