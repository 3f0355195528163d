-- ===== src/Desired/Binding/Stable.antt =====
-- A Binding that was created for a rule is matched to the rule again and not patched.
use authentik_operator.Prelude.{
  arith, ◌≡◌, ◌≢◌, ◌∙◌, String, none, some, some-inj, string_eq, bool_eq,
}
use authentik_operator.Prelude.Int.{ℤ, int_eq}
use authentik_operator.Reference.{Rule}
use authentik_operator.Models.{get, PolicyBinding, PolicyBindingRequest}
use authentik_operator.Patch.Fields.Laws.{AgreesPointer}
use authentik_operator.Patch.PolicyBinding.{diff_policy_binding}
use authentik_operator.Patch.PolicyBinding.Laws.{diff_policy_binding_complete}
use authentik_operator.Desired.Binding.{
  rule_subject, observed_subject, desired_binding, create_binding_request,
}

-- What a POST with the body `r` does; a subject that is not sent is null.
pub record StoresPolicyBinding (r : PolicyBindingRequest) (n : PolicyBinding) : Type 0 where
  pub policy : get n.policy ≡ get r.policy
  pub group : get n.group ≡ get r.group
  pub user : get n.user ≡ get r.user
  pub target : n.target ≡ r.target
  pub negate : AgreesPointer r.negate n.negate
  pub order : n.order ≡ r.order

module _ (target : String) (rule : Rule) (order : ℤ) (n : PolicyBinding)
    (stored : StoresPolicyBinding
      (create_binding_request (desired_binding target rule) order)
      n) where
  held :
      (get n.group ≡ rule.group)
      × (rule.group ≡ none → get n.user ≡ rule.user)
      × (rule.group ≡ none → rule.user ≡ none → get n.policy ≡ rule.policy)
  unfolding create_binding_request desired_binding
  held = (ground arith, λ h. ground arith, λ h k. ground arith)

  -- A Binding that holds what the create request of a rule sent has the subject of the rule, if a
  -- group of the rule has an identifier.
  pub observed_subject-create : rule.group ≢ some "" → observed_subject n ≡ rule_subject rule
  unfolding observed_subject rule_subject
  observed_subject-create named = ground (arith, held)

  -- A Binding that holds what the create request of a rule sent has nothing to patch.
  pub diff_policy_binding-create : diff_policy_binding (desired_binding target rule) n ≡ none
  unfolding create_binding_request desired_binding
  diff_policy_binding-create =
      diff_policy_binding_complete (desired_binding target rule) n (record {
        policy = λ v p. ground (arith, held);
        group = λ v p. ground (arith, held);
        user = λ v p. ground (arith, held);
        target = λ v p. stored.target ∙ some-inj p;
        negate = λ v p. stored.negate v p;
        enabled = λ v p. cc;
        order = λ v p. cc;
        timeout = λ v p. cc;
        failure_result = λ v p. cc;
      })
