-- ===== src/Resolver/Lookup.antt =====
-- How one reference is resolved: `stringLookup`, `getOne`, `findOne`, `resolveByString` and
-- `resolveNamed` of internal/reference/resolver.go.
use authentik_operator.Api.{NamedReference}
use authentik_operator.Prelude.Text.{concat_text, quote}
use authentik_operator.Effect.{
  Action, Result, call, modify, get_certificate_key_pair, get_scope_mapping, get_policy, get_flow,
  pure, get_outpost, get_group, ok, find_outposts_by_name, find_policies_by_name, err,
  find_groups_by_name, find_scope_mappings_by_scope_name, find_certificate_key_pairs_by_name,
  find_flows_by_slug, is_not_found, ◌>>◌, ◌>>=◌, raise, gets, attempt, wrap, wrapped,
  nil_dereference,
}
use authentik_operator.Models.{Named, Outpost, ScopeMapping}
use authentik_operator.Prelude.{
  String, Option, some, List, ℕ, none, ◌∷◌, [], if◌then◌else◌, length, ltb, ◌+◌,
}
use authentik_operator.Reference.Failures.{add}

-- `stringLookup`, without the context
pub record StringLookup (T : Type 0) : Type 0 where
  pub kind : String
  pub key_name : String
  pub get : String → Action T
  pub find : String → Action (List T)
  pub pk : T → String

-- `c.add`
unfoldable pub add_failure : String → String → ℕ → Action Unit
unfolding add
add_failure path target matches =
    modify (λ s. record s { failures = add s.failures path target matches })

unfoldable pub unresolved : String → String
unresolved path = concat_text ("failed to resolve " ∷ path ∷ [])

module _ {T : Type 0} where
  -- what is done with the result of the fetch
  unfoldable pub got_one : String → String → Result T → Action (Option T)
  unfolding add_failure unresolved
  got_one path target (ok object) = pure (some object)
  got_one path target (err e) =
      if is_not_found e
      then (do add_failure path target 0; pure none)
      else raise (wrapped (unresolved path) e)

  unfoldable pub get_one : String → String → Action T → Action (Option T)
  unfolding got_one
  get_one path target fetch = do answer ← attempt fetch; got_one path target answer

  -- what is done with the objects that were found
  unfoldable pub found_one : String → String → List T → Action (Option T)
  unfolding add_failure
  found_one path target [] = do add_failure path target 0; pure none
  found_one path target (object ∷ []) = pure (some object)
  found_one path target (first ∷ second ∷ rest) = do
    add_failure path target (length rest + 2)
    pure none

  unfoldable pub find_one : String → String → Action (List T) → Action (Option T)
  unfolding found_one unresolved
  find_one path target search_objects = do
    objects ← wrap (unresolved path) search_objects
    found_one path target objects

  -- the identifier, or the empty string for a reference that was not resolved
  unfoldable pub pk_or_empty : StringLookup T → Option T → String
  pk_or_empty lookup none = ""
  pk_or_empty lookup (some object) = lookup.pk object

  -- A reference without a UUID has its key dereferenced.
  unfoldable pub resolve_by_string :
      String → StringLookup T → Option String → Option String → Action String
  unfolding get_one find_one pk_or_empty
  resolve_by_string path lookup (some uuid) key = do
    object ← get_one path (concat_text (lookup.kind ∷ " uuid " ∷ quote uuid ∷ [])) (lookup.get uuid)
    pure (pk_or_empty lookup object)
  resolve_by_string path lookup none none = raise nil_dereference
  resolve_by_string path lookup none (some key) = do
    object ←
        find_one path (concat_text (lookup.kind ∷ " " ∷ lookup.key_name ∷ " " ∷ quote key ∷ []))
          (lookup.find key)
    pure (pk_or_empty lookup object)

  unfoldable pub resolve_named :
      String → StringLookup T → Option NamedReference → Action (Option String)
  unfolding resolve_by_string
  resolve_named path lookup none = pure none
  resolve_named path lookup (some reference) = do
    before ← gets (λ s. length s.failures)
    pk ← resolve_by_string path lookup reference.uuid reference.name
    after ← gets (λ s. length s.failures)
    pure (if ltb before after then none else some pk)

abbrev pub name_key : String
name_key = "name"

unfoldable pub named_pk : Named → String
named_pk object = object.pk

abbrev pub flow_lookup : StringLookup Named
flow_lookup = record {
  kind = "Flow";
  key_name = "slug";
  get = λ uuid. call (get_flow uuid);
  find = λ slug. call (find_flows_by_slug slug);
  pk = named_pk;
}

abbrev pub key_pair_lookup : StringLookup Named
key_pair_lookup = record {
  kind = "CertificateKeyPair";
  key_name = name_key;
  get = λ uuid. call (get_certificate_key_pair uuid);
  find = λ name. call (find_certificate_key_pairs_by_name name);
  pk = named_pk;
}

abbrev pub outpost_lookup : StringLookup Outpost
outpost_lookup = record {
  kind = "Outpost";
  key_name = name_key;
  get = λ uuid. call (get_outpost uuid);
  find = λ name. call (find_outposts_by_name name);
  pk = λ outpost. outpost.pk;
}

abbrev pub scope_mapping_lookup : StringLookup ScopeMapping
scope_mapping_lookup = record {
  kind = "ScopeMapping";
  key_name = "scopeName";
  get = λ uuid. call (get_scope_mapping uuid);
  find = λ name. call (find_scope_mappings_by_scope_name name);
  pk = λ mapping. mapping.pk;
}

abbrev pub group_lookup : StringLookup Named
group_lookup = record {
  kind = "Group";
  key_name = name_key;
  get = λ uuid. call (get_group uuid);
  find = λ name. call (find_groups_by_name name);
  pk = named_pk;
}

abbrev pub policy_lookup : StringLookup Named
policy_lookup = record {
  kind = "Policy";
  key_name = name_key;
  get = λ uuid. call (get_policy uuid);
  find = λ name. call (find_policies_by_name name);
  pk = named_pk;
}
