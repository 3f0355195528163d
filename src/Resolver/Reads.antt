-- ===== src/Resolver/Reads.antt =====
-- What resolving may call: internal/reference/resolver.go writes nothing.
use authentik_operator.Api.{NamedReference}
use authentik_operator.Prelude.Int.{pos, ◌≤ℤ◌}
use authentik_operator.Prelude.{String, Option, ℕ, List, some, ◌^◌, none, refl, ◌∷◌, ◌-◌, []}
use authentik_operator.Effect.Emits.{
  Emits-call, Emits, Emits-modify, emits_rules, Emits-bind, Emits-pure, Emits-attempt, Emits-wrap,
  Emits-raise,
}
use authentik_operator.Effect.{
  Call, get_user, get_certificate_key_pair, get_flow, get_group, Result, get_scope_mapping, Action,
  get_outpost, get_policy, find_flows_by_slug, find_outposts_by_name, find_policies_by_name,
  find_groups_by_name, find_scope_mappings_by_scope_name, ok, find_certificate_key_pairs_by_name,
  err, find_users_by_username, get_secret,
}
use authentik_operator.Resolver.Lookup.{
  add_failure, get_one, group_lookup, policy_lookup, outpost_lookup, find_one, got_one, found_one,
  flow_lookup, scope_mapping_lookup, key_pair_lookup, StringLookup, resolve_named,
  resolve_by_string,
}

-- A read that resolving makes; a User is read by a pk in the range of authentik's int32.
abbrev pub IsRead : Call → Type 0
IsRead (get_user pk) = (pos 1 ≤ℤ pk) × (pk ≤ℤ pos (2 ^ 31 - 1))
IsRead (get_flow _) = Unit
IsRead (find_flows_by_slug _) = Unit
IsRead (get_certificate_key_pair _) = Unit
IsRead (find_certificate_key_pairs_by_name _) = Unit
IsRead (get_scope_mapping _) = Unit
IsRead (find_scope_mappings_by_scope_name _) = Unit
IsRead (get_group _) = Unit
IsRead (find_groups_by_name _) = Unit
IsRead (get_policy _) = Unit
IsRead (find_policies_by_name _) = Unit
IsRead (get_outpost _) = Unit
IsRead (find_outposts_by_name _) = Unit
IsRead (find_users_by_username _) = Unit
IsRead (get_secret _ _) = Unit
IsRead _ = ⊥

pub Emits-add_failure :
    (path target : String) (matches : ℕ) → Emits IsRead (add_failure path target matches)
unfolding add_failure
Emits-add_failure path target matches = Emits-modify _ (λ s. refl)

module _ {T : Type 0} where
  pub Emits-got_one : (path target : String) (r : Result T) → Emits IsRead (got_one path target r)
  unfolding got_one
  Emits-got_one path target (ok o) = search emits_rules
  Emits-got_one path target (err e) = search (emits_rules, Emits-add_failure)

  pub Emits-get_one :
      (path target : String) (m : Action T) → Emits IsRead m → Emits IsRead (get_one path target m)
  unfolding get_one
  Emits-get_one path target m h =
      Emits-bind _ _ (Emits-attempt _ h) (λ r. Emits-got_one path target r)

  pub Emits-found_one :
      (path target : String) (os : List T) → Emits IsRead (found_one path target os)
  unfolding found_one
  Emits-found_one path target [] = search (emits_rules, Emits-add_failure)
  Emits-found_one path target (o ∷ []) = search emits_rules
  Emits-found_one path target (o ∷ p ∷ os) = search (emits_rules, Emits-add_failure)

  pub Emits-find_one :
      (path target : String) (m : Action (List T))
      → Emits IsRead m
      → Emits IsRead (find_one path target m)
  unfolding find_one
  Emits-find_one path target m h =
      Emits-bind _ _ (Emits-wrap _ _ h) (λ os. Emits-found_one path target os)

-- The two calls of a lookup are reads.
pub record ReadsOnly {T : Type 0} (lookup : StringLookup T) : Type 0 where
  pub gets_one : (uuid : String) → Emits IsRead (lookup.get uuid)
  pub finds_all : (key : String) → Emits IsRead (lookup.find key)

pub flows_read : ReadsOnly flow_lookup
flows_read = record {
  gets_one = λ uuid. Emits-call {P = IsRead} (get_flow uuid) tt;
  finds_all = λ key. Emits-call {P = IsRead} (find_flows_by_slug key) tt;
}

pub key_pairs_read : ReadsOnly key_pair_lookup
key_pairs_read = record {
  gets_one = λ uuid. Emits-call {P = IsRead} (get_certificate_key_pair uuid) tt;
  finds_all = λ key. Emits-call {P = IsRead} (find_certificate_key_pairs_by_name key) tt;
}

pub outposts_read : ReadsOnly outpost_lookup
outposts_read = record {
  gets_one = λ uuid. Emits-call {P = IsRead} (get_outpost uuid) tt;
  finds_all = λ key. Emits-call {P = IsRead} (find_outposts_by_name key) tt;
}

pub scope_mappings_read : ReadsOnly scope_mapping_lookup
scope_mappings_read = record {
  gets_one = λ uuid. Emits-call {P = IsRead} (get_scope_mapping uuid) tt;
  finds_all = λ key. Emits-call {P = IsRead} (find_scope_mappings_by_scope_name key) tt;
}

pub groups_read : ReadsOnly group_lookup
groups_read = record {
  gets_one = λ uuid. Emits-call {P = IsRead} (get_group uuid) tt;
  finds_all = λ key. Emits-call {P = IsRead} (find_groups_by_name key) tt;
}

pub policies_read : ReadsOnly policy_lookup
policies_read = record {
  gets_one = λ uuid. Emits-call {P = IsRead} (get_policy uuid) tt;
  finds_all = λ key. Emits-call {P = IsRead} (find_policies_by_name key) tt;
}

module _ {T : Type 0} (lookup : StringLookup T) (reads : ReadsOnly lookup) where
  pub Emits-resolve_by_string :
      (path : String) (uuid key : Option String)
      → Emits IsRead (resolve_by_string path lookup uuid key)
  unfolding resolve_by_string
  Emits-resolve_by_string path (some uuid) key =
      Emits-bind _ _ (Emits-get_one path _ _ (reads.gets_one uuid)) (λ o. Emits-pure _)
  Emits-resolve_by_string path none none = Emits-raise _
  Emits-resolve_by_string path none (some key) =
      Emits-bind _ _ (Emits-find_one path _ _ (reads.finds_all _)) (λ o. Emits-pure _)

  pub Emits-resolve_named :
      (path : String) (reference : Option NamedReference)
      → Emits IsRead (resolve_named path lookup reference)
  unfolding resolve_named
  Emits-resolve_named path none = search emits_rules
  Emits-resolve_named path (some reference) = search (emits_rules, Emits-resolve_by_string) depth 12
