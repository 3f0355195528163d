-- ===== src/Controller/Unmanaged/Laws.antt =====
-- Without pruning, no Binding that the operator does not manage is deleted:
-- `handleUnmanagedBindings` of internal/controller/bindings.go.
use authentik_operator.Prelude.{◌≡◌, String, Bool, true, false, List, [], ◌∷◌, get_or}
use authentik_operator.Api.{AccessSpec, UnmanagedBinding, ConditionType, Reason}
use authentik_operator.Models.{PolicyBinding}
use authentik_operator.Effect.{
  Result, ok, err, Call, delete_policy_binding, delete_application, delete_proxy_provider,
  delete_oauth2_provider,
}
use authentik_operator.Effect.Emits.{Emits, emits_rules, Emits-bind, Emits-pure}
use authentik_operator.Controller.Status.{set_condition, set_conditions, patch_status}
use authentik_operator.Controller.Unmanaged.{
  described, describe_subject_of, describe_subject, prune_bindings, report_all, set_unmanaged,
  drop_unmanaged_condition, report_condition, handle_unmanaged_bindings,
}

-- A call that deletes no object in authentik.
abbrev pub IsDeleteFree : Call → Type 0
IsDeleteFree (delete_policy_binding _) = ⊥
IsDeleteFree (delete_application _) = ⊥
IsDeleteFree (delete_proxy_provider _) = ⊥
IsDeleteFree (delete_oauth2_provider _) = ⊥
IsDeleteFree _ = Unit

pub Emits-set_condition :
    (type : ConditionType) (status : Bool) (reason : Reason) (message : String)
    → Emits IsDeleteFree (set_condition type status reason message)
unfolding set_condition set_conditions
Emits-set_condition type status reason message = search emits_rules depth 14

pub Emits-patch_status : Emits IsDeleteFree patch_status
unfolding patch_status
Emits-patch_status = search emits_rules depth 14

Emits-described : (kind id : String) (r : Result String) → Emits IsDeleteFree (described kind id r)
unfolding described
Emits-described kind id (ok name) = search emits_rules
Emits-described kind id (err e) = search emits_rules

Emits-describe_subject : (binding : PolicyBinding) → Emits IsDeleteFree (describe_subject binding)
unfolding describe_subject describe_subject_of
Emits-describe_subject binding = search (emits_rules, Emits-described) depth 14

pub Emits-report_all : (bindings : List PolicyBinding) → Emits IsDeleteFree (report_all bindings)
unfolding report_all
Emits-report_all [] = search emits_rules
Emits-report_all (b ∷ bindings) =
    Emits-bind _ _ (Emits-describe_subject b)
      (λ target. Emits-bind _ _ (Emits-report_all bindings) (λ reported. Emits-pure _))

Emits-drop_unmanaged_condition : Emits IsDeleteFree drop_unmanaged_condition
unfolding drop_unmanaged_condition set_conditions
Emits-drop_unmanaged_condition = search emits_rules depth 14

pub Emits-report_condition :
    (is_public : Bool) (reported : List UnmanagedBinding)
    → Emits IsDeleteFree (report_condition is_public reported)
unfolding report_condition
Emits-report_condition is_public [] = Emits-drop_unmanaged_condition
Emits-report_condition is_public (b ∷ rest) =
    search (emits_rules, Emits-drop_unmanaged_condition, Emits-set_condition)

kept_bindings :
    (prune : Bool) (bindings : List PolicyBinding)
    → prune ≡ false
    → Emits IsDeleteFree (prune_bindings prune bindings)
unfolding prune_bindings
kept_bindings true bindings h = absurd cc
kept_bindings false bindings h = search emits_rules

-- When pruning is not asked for, the handling of the Bindings that the operator does not manage
-- deletes nothing in authentik.
pub handle_unmanaged_bindings-IsDeleteFree :
    (access : AccessSpec) (unmanaged : List PolicyBinding)
    → get_or access.prune false ≡ false
    → Emits IsDeleteFree (handle_unmanaged_bindings access unmanaged)
unfolding handle_unmanaged_bindings set_unmanaged
handle_unmanaged_bindings-IsDeleteFree access unmanaged h =
    search (emits_rules, kept_bindings, h, Emits-report_all, Emits-report_condition) depth 14
