-- ===== src/Controller/Unmanaged.antt =====
-- The Bindings that the operator does not manage: `handleUnmanagedBindings`, `describeSubject` and
-- `unmanagedBindingsMessage` of internal/controller/bindings.go.
pub mod Laws
use Prim.Native.Char.{Char, code}
use Prim.Native.String
use authentik_operator.Prelude.{
  ℕ, String, Bool, true, false, not, Option, none, some, List, [], ◌∷◌, ◌++◌, map, get_or, length,
  string_eq, nat_eq, ◌==◌, if◌then◌else◌,
}
use authentik_operator.Prelude.Int.{ℤ, pos}
use authentik_operator.Prelude.Text.{itoa, join, concat_text}
use authentik_operator.Api.{AccessSpec, UnmanagedBinding, ConditionType, Reason}
use authentik_operator.Models.{Named, User, PolicyBinding}
use authentik_operator.Desired.Binding.{BindingSubject, observed_subject}
use authentik_operator.Effect.{
  Error, Result, ok, err, stop, is_not_found, Call, delete_policy_binding, get_group, get_policy,
  get_user, State, Action, pure, raise, gets, asks, attempt, modify, call, ignore_not_found, ◌>>=◌,
  ◌>>◌,
}
use authentik_operator.Controller.Status.{set_condition, set_conditions}

-- the end of `describeSubject`: the name, or the identifier of a subject that no longer exists
unfoldable pub described : String → String → Result String → Action String
described kind id (ok name) = pure (concat_text (kind ∷ "/" ∷ name ∷ []))
described kind id (err e) =
    if is_not_found e then pure (concat_text (kind ∷ "/" ∷ id ∷ [])) else raise e

unfoldable pub name_of : Named → String
name_of object = object.name

unfoldable pub describe_subject_of : BindingSubject → Action String
unfolding described name_of
describe_subject_of subject =
    if not (subject.group == "")
    then (do
      name ← attempt (do group ← call (get_group subject.group); pure (name_of group))
      described "group" subject.group name)
    else if not (subject.policy == "")
    then (do
      name ← attempt (do policy ← call (get_policy subject.policy); pure (name_of policy))
      described "policy" subject.policy name)
    else do
      name ← attempt (do user ← call (get_user subject.user); pure user.username)
      described "user" (itoa subject.user) name

unfoldable pub describe_subject : PolicyBinding → Action String
unfolding describe_subject_of
describe_subject binding = describe_subject_of (observed_subject binding)

-- `strings.Replace(target, "/", "=", 1)`
unfoldable pub equals_for_slash : String → String
equals_for_slash String.[] = ""
equals_for_slash (String.◌∷◌ c s) =
    let rest = equals_for_slash s in
    if code c == b'/' then concat_text ("=" ∷ s ∷ []) else String.◌∷◌ c rest

unfoldable pub unmanaged_bindings_message : List UnmanagedBinding → String
unfolding equals_for_slash
unmanaged_bindings_message bindings = concat_text (
    itoa (pos (length bindings))
    ∷ " "
    ∷ (if length bindings == 1 then "binding" else "bindings")
    ∷ " ("
    ∷ join ", " (map (λ binding. equals_for_slash binding.target) bindings)
    ∷ ")"
    ∷ [])

-- the loop that prunes
unfoldable pub prune_all : List PolicyBinding → Action Unit
prune_all [] = pure tt
prune_all (binding ∷ rest) = do
  ignore_not_found (call (delete_policy_binding binding.pk))
  prune_all rest

-- the Bindings that are left to report
unfoldable pub prune_bindings : Bool → List PolicyBinding → Action (List PolicyBinding)
unfolding prune_all
prune_bindings true unmanaged = do prune_all unmanaged; pure []
prune_bindings false unmanaged = pure unmanaged

unfoldable pub report_all : List PolicyBinding → Action (List UnmanagedBinding)
report_all [] = pure []
report_all (binding ∷ rest) = do
  target ← describe_subject binding
  reported ← report_all rest
  pure (record { uuid = binding.pk; target = target } ∷ reported)

unfoldable pub set_unmanaged : List UnmanagedBinding → State → State
set_unmanaged reported s = record s {
  app = record s.app { status = record s.app.status { unmanaged_bindings = reported } };
}

-- `meta.RemoveStatusCondition` of the condition on unmanaged Bindings
unfoldable pub drop_unmanaged_condition : Action Unit
drop_unmanaged_condition = do
  conditions ← gets (λ s. s.app.status.conditions)
  drop ← asks (λ env. env.drop_condition)
  modify (set_conditions (drop conditions ConditionType.unmanaged_bindings_present))

-- the switch on the reported Bindings
unfoldable pub report_condition : Bool → List UnmanagedBinding → Action Unit
unfolding drop_unmanaged_condition unmanaged_bindings_message
report_condition is_public [] = drop_unmanaged_condition
report_condition is_public (first ∷ rest) =
    if is_public
    then (do
      drop_unmanaged_condition
      raise (
          stop Reason.unmanaged_bindings (
            concat_text (
              unmanaged_bindings_message (first ∷ rest)
              ∷ " keep the Application from being public; set access.prune or delete them"
              ∷ []))))
    else set_condition ConditionType.unmanaged_bindings_present true Reason.unmanaged_bindings
        (unmanaged_bindings_message (first ∷ rest))

unfoldable pub handle_unmanaged_bindings : AccessSpec → List PolicyBinding → Action Unit
unfolding prune_bindings report_all set_unmanaged report_condition
handle_unmanaged_bindings access unmanaged = do
  left ← prune_bindings (get_or access.prune false) unmanaged
  reported ← report_all left
  modify (set_unmanaged reported)
  report_condition (get_or access.public false) reported
