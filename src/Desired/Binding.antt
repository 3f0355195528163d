-- ===== src/Desired/Binding.antt =====
-- The subject of a Binding, and the desired Binding of a rule: internal/controller/desired.go.
pub mod Stable
use authentik_operator.Prelude.{
  String, Option, none, some, Eq, string_eq, String_discrete, ◌==◌, get_or, if◌then◌else◌,
}
use authentik_operator.Prelude.Int.{ℤ, pos, ℤ_discrete}
use authentik_operator.Models.{
  get, PolicyBinding, PatchedPolicyBindingRequest, PolicyBindingRequest,
}
use authentik_operator.Reference.{Rule}

-- `bindingSubject`; a zero field is the Go zero value
pub record BindingSubject : Type 0 where
  pub group : String
  pub user : ℤ
  pub policy : String

pub BindingSubject_discrete : Discrete BindingSubject
BindingSubject_discrete = hlevel (String_discrete, ℤ_discrete)

instance abbrev pub binding_subject_eq : Eq BindingSubject
binding_subject_eq = record { dec = BindingSubject_discrete }

abbrev pub group_subject : String → BindingSubject
group_subject id = record { group = id; user = pos 0; policy = "" }

abbrev pub user_subject : ℤ → BindingSubject
user_subject pk = record { group = ""; user = pk; policy = "" }

abbrev pub policy_subject : String → BindingSubject
policy_subject id = record { group = ""; user = pos 0; policy = id }

-- A resolved rule has one subject, so the source's last case dereferences a policy that is set.
unfoldable pub subject_of : Option String → Option ℤ → Option String → BindingSubject
subject_of (some group) user policy = group_subject group
subject_of none (some user) policy = user_subject user
subject_of none none policy = policy_subject (get_or policy "")

unfoldable pub rule_subject : Rule → BindingSubject
unfolding subject_of
rule_subject rule = subject_of rule.group rule.user rule.policy

-- the group is skipped when it is the empty string
unfoldable pub non_empty : Option String → Option String
non_empty none = none
non_empty (some s) = if s == "" then none else some s

-- with no subject at all the result is the zero value
unfoldable pub observed_subject : PolicyBinding → BindingSubject
unfolding subject_of non_empty
observed_subject binding =
    subject_of (non_empty (get binding.group)) (get binding.user) (get binding.policy)

unfoldable pub desired_binding : String → Rule → PatchedPolicyBindingRequest
desired_binding target rule = record {
  policy = elim rule.group [
    | some g ↦ none
    | none ↦ elim rule.user [ some u ↦ none | none ↦ some rule.policy ]
  ];
  group = elim rule.group [ some g ↦ some (some g) | none ↦ none ];
  user = elim rule.group [
    | some g ↦ none
    | none ↦ elim rule.user [ some u ↦ some (some u) | none ↦ none ]
  ];
  target = some target;
  negate = some rule.negate;
  enabled = none;
  order = none;
  timeout = none;
  failure_result = none;
}

-- `desiredBinding` sets the target that the source dereferences.
unfoldable pub create_binding_request : PatchedPolicyBindingRequest → ℤ → PolicyBindingRequest
create_binding_request desired order = record {
  policy = desired.policy;
  group = desired.group;
  user = desired.user;
  target = get_or desired.target "";
  negate = desired.negate;
  order = order;
}
