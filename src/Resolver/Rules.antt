-- ===== src/Resolver/Rules.antt =====
-- `resolveRule` and `resolveUser` of internal/reference/resolver.go.
use authentik_operator.Prelude.Text.{concat_text, itoa, quote}
use authentik_operator.Prelude.Int.{ℤ, ltb_ℤ, pos, wrap32}
use authentik_operator.Effect.{Action, pure, ◌>>=◌, ◌>>◌, call, get_user, find_users_by_username}
use authentik_operator.Reference.{Rule}
use authentik_operator.Api.{NamedReference, AccessRule, UserReference}
use authentik_operator.Models.{User}
use authentik_operator.Prelude.{
  Bool, String, Option, ℕ, List, none, some, get_or, if◌then◌else◌, false, ◌||◌, ◌-◌, ◌^◌, ◌∷◌, [],
  suc,
}
use authentik_operator.Resolver.Lookup.{
  resolve_named, get_one, find_one, add_failure, group_lookup, policy_lookup,
}

-- the pk of the user, if one was found
unfoldable pub user_pk : Option User → Option ℤ
user_pk none = none
user_pk (some user) = some user.pk

-- A pk outside the range of authentik's int32 is recorded without a call. A reference without a pk
-- has a username, which the source dereferences.
unfoldable pub resolve_user_by : String → Option ℤ → Option String → Action (Option ℤ)
unfolding get_one find_one user_pk add_failure
resolve_user_by path (some pk) username =
    if ltb_ℤ pk (pos 1) || ltb_ℤ (pos (2 ^ 31 - 1)) pk
    then (do add_failure path (concat_text ("User pk " ∷ itoa pk ∷ [])) 0; pure none)
    else do
      user ← get_one path (concat_text ("User pk " ∷ itoa pk ∷ [])) (call (get_user (wrap32 pk)))
      pure (user_pk user)
resolve_user_by path none username = do
  user ←
      find_one path (concat_text ("User username " ∷ quote (get_or username "") ∷ []))
        (call (find_users_by_username (get_or username "")))
  pure (user_pk user)

unfoldable pub resolve_user : String → UserReference → Action (Option ℤ)
unfolding resolve_user_by
resolve_user path reference = resolve_user_by path reference.pk reference.username

abbrev pub bare_rule : Bool → Rule
bare_rule negate = record { group = none; user = none; policy = none; negate = negate }

-- the switch on the subject of the rule
unfoldable pub resolve_subject :
    String
    → Bool
    → Option NamedReference
    → Option UserReference
    → Option NamedReference
    → Action Rule
unfolding resolve_named resolve_user
resolve_subject path negate (some group) user policy = do
  pk ← resolve_named (concat_text (path ∷ ".group" ∷ [])) group_lookup (some group)
  pure (record (bare_rule negate) { group = pk })
resolve_subject path negate none (some user) policy = do
  pk ← resolve_user (concat_text (path ∷ ".user" ∷ [])) user
  pure (record (bare_rule negate) { user = pk })
resolve_subject path negate none none (some policy) = do
  pk ← resolve_named (concat_text (path ∷ ".policy" ∷ [])) policy_lookup (some policy)
  pure (record (bare_rule negate) { policy = pk })
resolve_subject path negate none none none = pure (bare_rule negate)

unfoldable pub resolve_rule : String → AccessRule → Action Rule
unfolding resolve_subject
resolve_rule path rule =
    resolve_subject path (get_or rule.negate false) rule.group rule.user rule.policy

-- the loop over `access.rules` from the index `i`
unfoldable pub resolve_rules : ℕ → List AccessRule → Action (List Rule)
unfolding resolve_rule
resolve_rules i [] = pure []
resolve_rules i (rule ∷ rest) = do
  resolved ← resolve_rule (concat_text ("access.rules[" ∷ itoa (pos i) ∷ "]" ∷ [])) rule
  others ← resolve_rules (suc i) rest
  pure (resolved ∷ others)
