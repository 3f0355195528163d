-- ===== src/Patch/PolicyBinding/Spec.antt =====
-- What the diff of a PolicyBinding is held against: a match of the managed fields, and a partial update.
use authentik_operator.Prelude.{◌≡◌, get_or, or_else}
use authentik_operator.Prelude.{string_eq, bool_eq}
use authentik_operator.Prelude.Int.{int_eq}
use authentik_operator.Models.{
  policy_engine_mode_eq, client_type_eq, grant_type_eq, sub_mode_eq, issuer_mode_eq,
  logout_method_eq, proxy_mode_eq,
}
use authentik_operator.Models.{PolicyBinding, PatchedPolicyBindingRequest, get}
use authentik_operator.Patch.Fields.Laws.{AgreesValue, AgreesPointer, AgreesNullable}

-- Every managed field has the desired value.
pub record MatchesPolicyBinding (d : PatchedPolicyBindingRequest) (o : PolicyBinding) : Type 0 where
  pub policy : AgreesNullable d.policy o.policy
  pub group : AgreesNullable d.group o.group
  pub user : AgreesNullable d.user o.user
  pub target : AgreesValue d.target o.target
  pub negate : AgreesPointer d.negate o.negate
  pub enabled : AgreesPointer d.enabled o.enabled
  pub order : AgreesValue d.order o.order
  pub timeout : AgreesPointer d.timeout o.timeout
  pub failure_result : AgreesPointer d.failure_result o.failure_result

-- What a PATCH with the body `p` does: the fields that are sent are set, the others are kept.
pub record PatchesPolicyBinding (p : PatchedPolicyBindingRequest) (o n : PolicyBinding)
    : Type 0 where
  pub policy : get n.policy ≡ get_or p.policy (get o.policy)
  pub group : get n.group ≡ get_or p.group (get o.group)
  pub user : get n.user ≡ get_or p.user (get o.user)
  pub target : n.target ≡ get_or p.target o.target
  pub negate : n.negate ≡ or_else p.negate o.negate
  pub enabled : n.enabled ≡ or_else p.enabled o.enabled
  pub order : n.order ≡ get_or p.order o.order
  pub timeout : n.timeout ≡ or_else p.timeout o.timeout
  pub failure_result : n.failure_result ≡ or_else p.failure_result o.failure_result
