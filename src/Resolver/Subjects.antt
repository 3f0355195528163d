-- ===== src/Resolver/Subjects.antt =====
-- The rules that `Resolve` returns have a subject: internal/reference/resolver.go.
use mathlib.Core.Path.{subst}
use authentik_operator.Effect.Yields.{ok-inj}
use authentik_operator.Models.{User}
use authentik_operator.Prelude.Int.{ℤ, ltb_ℤ, pos, wrap32}
use authentik_operator.Reference.Failures.{collected, Failure}
use authentik_operator.Resolver.Resolve.{resolve, collected_or, finish_collector}
use authentik_operator.Effect.Inversion.{>>=-eq-ok}
use authentik_operator.Resolver.Rules.{
  resolve_user_by, resolve_rules, user_pk, resolve_subject, resolve_rule, resolve_user,
}
use authentik_operator.Effect.Keeps.{Keeps, Keeps-wrap, Keeps-attempt}
use authentik_operator.Effect.{
  get_group, ◌>>=◌, get_policy, Action, Result, find_groups_by_name, gets, ok,
  find_policies_by_name, pure, err, is_not_found, raise, State, Env, get_user,
  find_users_by_username,
}
use authentik_operator.Resolver.Grows.{
  Keeps-failures-call, Resolves, Resolves-bind, Resolves-add_failure, Resolves-Keeps, Resolves-pure,
  weaken, Resolves-if, Resolves-raise,
}
use authentik_operator.Reference.{Rule, Resolved}
use authentik_operator.Prelude.{
  Option, ◌≡◌, String, ℕ, ◌<◌, some, List, ◌+◌, none, ◌∷◌, get_or, length, [], refl, All, ap, Bool,
  false, suc, arith, ◌||◌, ◌^◌, ◌-◌,
}
use authentik_operator.Resolver.Lookup.{
  group_lookup, policy_lookup, get_one, find_one, found_one, StringLookup, got_one,
  resolve_by_string, resolve_named,
}
use authentik_operator.Api.{AccessRule, NamedReference, AuthentikApplication, UserReference}

abbrev pub count_some : {A : Type 0} → Option A → ℕ
count_some none = 0
count_some (some a) = 1

-- how many of the three subjects of a resolved rule are set
abbrev pub subjects : Rule → ℕ
subjects rule = count_some rule.group + count_some rule.user + count_some rule.policy

-- A rule of the spec refers to a group, a user or a policy, as the schema of the resource asks.
abbrev pub HasReference : AccessRule → Type 0
HasReference rule = 0 < count_some rule.group + count_some rule.user + count_some rule.policy

abbrev IsSome : {A : Type 0} → Option A → Type 0
IsSome o = count_some o ≡ 1

module _ {T : Type 0} where
  Resolves-got_one : (path target : String) (r : Result T) → Resolves IsSome (got_one path target r)
  unfolding got_one
  Resolves-got_one path target (ok o) = Resolves-pure (some o) refl
  Resolves-got_one path target (err e) =
      Resolves-if (is_not_found e) _ _
        (Resolves-bind _ _ (Resolves-add_failure path target 0)
          (λ _. Resolves-pure none (λ h. absurd h)))
        (Resolves-raise _)

  Resolves-get_one :
      (path target : String) (m : Action T)
      → Keeps (λ s. s.failures) m
      → Resolves IsSome (get_one path target m)
  unfolding get_one
  Resolves-get_one path target m k =
      Resolves-bind _ _ (Resolves-Keeps _ (Keeps-attempt m k))
        (λ r. weaken _ (λ a g _. g) (Resolves-got_one path target r))

  Resolves-found_one :
      (path target : String) (os : List T) → Resolves IsSome (found_one path target os)
  unfolding found_one
  Resolves-found_one path target [] =
      Resolves-bind _ _ (Resolves-add_failure path target 0)
        (λ _. Resolves-pure none (λ h. absurd h))
  Resolves-found_one path target (o ∷ []) = Resolves-pure (some o) refl
  Resolves-found_one path target (o ∷ p ∷ os) =
      Resolves-bind _ _ (Resolves-add_failure path target (length os + 2))
        (λ _. Resolves-pure none (λ h. absurd h))

  Resolves-find_one :
      (path target : String) (m : Action (List T))
      → Keeps (λ s. s.failures) m
      → Resolves IsSome (find_one path target m)
  unfolding find_one
  Resolves-find_one path target m k =
      Resolves-bind _ _ (Resolves-Keeps _ (Keeps-wrap _ m k))
        (λ os. weaken _ (λ a g _. g) (Resolves-found_one path target os))

-- The two calls of a lookup keep the collector.
record KeepsCollector {T : Type 0} (lookup : StringLookup T) : Type 0 where
  gets_one : (uuid : String) → Keeps (λ s. s.failures) (lookup.get uuid)
  finds_all : (key : String) → Keeps (λ s. s.failures) (lookup.find key)

groups_keep : KeepsCollector group_lookup
groups_keep = record {
  gets_one = λ uuid. Keeps-failures-call (get_group uuid);
  finds_all = λ key. Keeps-failures-call (find_groups_by_name key);
}

policies_keep : KeepsCollector policy_lookup
policies_keep = record {
  gets_one = λ uuid. Keeps-failures-call (get_policy uuid);
  finds_all = λ key. Keeps-failures-call (find_policies_by_name key);
}

module _ {T : Type 0} (lookup : StringLookup T) (keeps : KeepsCollector lookup) where
  Resolves-resolve_by_string :
      (path : String) (uuid key : Option String)
      → Resolves (λ _. Unit) (resolve_by_string path lookup uuid key)
  unfolding resolve_by_string
  Resolves-resolve_by_string path (some uuid) key =
      Resolves-bind _ _ (Resolves-get_one _ _ _ (keeps.gets_one uuid))
        (λ o. Resolves-pure _ (λ _. tt))
  Resolves-resolve_by_string path none none = Resolves-raise _
  Resolves-resolve_by_string path none (some key) =
      Resolves-bind _ _ (Resolves-find_one _ _ _ (keeps.finds_all key))
        (λ o. Resolves-pure _ (λ _. tt))

  Resolves-resolve_named :
      (path : String) (reference : NamedReference)
      → Resolves IsSome (resolve_named path lookup (some reference))
  unfolding resolve_named ◌>>=◌ gets pure
  Resolves-resolve_named path reference = record {
    at = λ env s a e.
        let (pk, p, q, t) =
          >>=-eq-ok (resolve_by_string path lookup reference.uuid reference.name) _ env s a e in
        let x = (Resolves-resolve_by_string path reference.uuid reference.name).at env s pk p in
        let l = ap (λ (u : State). length u.failures) t in
        (omega (arith, x.0, l), λ h. ground (arith, q, l, h, x.0));
  }

-- The pk of a User that was found.
Resolves-user_pk :
    (user : Option User) → Resolves (λ pk. IsSome user → IsSome pk) (pure (user_pk user))
unfolding user_pk
Resolves-user_pk none = Resolves-pure none (λ h. h)
Resolves-user_pk (some user) = Resolves-pure (some user.pk) (λ h. refl)

Resolves-resolve_user_by :
    (path : String) (pk : Option ℤ) (username : Option String)
    → Resolves IsSome (resolve_user_by path pk username)
unfolding resolve_user_by
Resolves-resolve_user_by path (some pk) username =
    Resolves-if (ltb_ℤ pk (pos 1) || ltb_ℤ (pos (2 ^ 31 - 1)) pk) _ _
      (Resolves-bind _ _ (Resolves-add_failure path _ 0) (λ _. Resolves-pure none (λ h. absurd h)))
      (Resolves-bind _ _ (Resolves-get_one path _ _ (Keeps-failures-call (get_user (wrap32 pk))))
        Resolves-user_pk)
Resolves-resolve_user_by path none username =
    Resolves-bind _ _
      (Resolves-find_one path _ _
        (Keeps-failures-call (find_users_by_username (get_or username ""))))
      Resolves-user_pk

-- The rule has exactly one subject.
abbrev pub HasSubject : Rule → Type 0
HasSubject rule = subjects rule ≡ 1

Resolves-resolve_subject :
    (path : String) (negate : Bool) (group : Option NamedReference) (user : Option UserReference)
    (policy : Option NamedReference)
    → 0 < count_some group + count_some user + count_some policy
    → Resolves HasSubject (resolve_subject path negate group user policy)
unfolding resolve_subject resolve_user
Resolves-resolve_subject path negate (some group) user policy h =
    Resolves-bind _ _ (Resolves-resolve_named group_lookup groups_keep _ group)
      (λ pk. Resolves-pure _ (λ one. omega arith))
Resolves-resolve_subject path negate none (some user) policy h =
    Resolves-bind _ _ (Resolves-resolve_user_by _ user.pk user.username)
      (λ pk. Resolves-pure _ (λ one. omega arith))
Resolves-resolve_subject path negate none none (some policy) h =
    Resolves-bind _ _ (Resolves-resolve_named policy_lookup policies_keep _ policy)
      (λ pk. Resolves-pure _ (λ one. omega arith))
Resolves-resolve_subject path negate none none none h = absurd (omega (arith, h))

-- As many rules as in the spec, each with a subject.
abbrev pub AllResolved : List AccessRule → List Rule → Type 0
AllResolved rules resolved = (length resolved ≡ length rules) × All HasSubject resolved

Resolves-resolve_rules :
    (i : ℕ) (rules : List AccessRule)
    → All HasReference rules
    → Resolves (AllResolved rules) (resolve_rules i rules)
unfolding resolve_rules resolve_rule
Resolves-resolve_rules i [] h = Resolves-pure [] (refl, tt)
Resolves-resolve_rules i (rule ∷ rules) h =
    Resolves-bind _ _
      (Resolves-resolve_subject _ (get_or rule.negate false) rule.group rule.user rule.policy h.0)
      (λ r.
        Resolves-bind _ _ (Resolves-resolve_rules (suc i) rules h.1)
          (λ rs. Resolves-pure _ (λ g one. (omega (arith, g.0), (one, g.1)))))

pub nothing_collected :
    {A : Type 0} (value a : A) (failures : List Failure) (env : Env) (s : State)
    → (collected_or value (collected failures) env s).0 ≡ ok a
    → (length failures ≡ 0) × (value ≡ a)
unfolding collected collected_or pure raise
nothing_collected value a [] env s h = (refl, ok-inj h)
nothing_collected value a (f ∷ failures) env s h = absurd cc

-- When Resolve succeeds and every rule of the spec refers to a group, a user or a policy, there
-- are as many resolved rules as rules, and each has exactly one subject.
pub resolve-AllResolved :
    (app : AuthentikApplication) (env : Env) (s : State) (resolved : Resolved)
    → All HasReference app.spec.access.rules
    → (resolve app env s).0 ≡ ok resolved
    → AllResolved app.spec.access.rules resolved.rules
unfolding resolve finish_collector gets
resolve-AllResolved app env s resolved given h =
    let (u, p0, h1, t1) = >>=-eq-ok _ _ env s resolved h in
    let (provider, p1, h2, t2) = >>=-eq-ok _ _ env _ resolved h1 in
    let (rules, p2, h3, t3) = >>=-eq-ok _ _ env _ resolved h2 in
    let (failures, p4, h4, t4) = >>=-eq-ok _ _ env _ resolved h3 in
    let n = nothing_collected _ resolved failures env _ h4 in
    let x = (Resolves-resolve_rules 0 app.spec.access.rules given).at env _ rules p2 in
    subst (λ (r : Resolved). AllResolved app.spec.access.rules r.rules) n.1
      (x.1 (omega (arith, x.0, n.0, ap length (ok-inj p4))))
