-- ===== src/Patch/PolicyBinding/Laws.antt =====
-- The diff of a PolicyBinding is empty exactly on a match, and one partial update reaches a match.
use authentik_operator.Prelude.{
  arith, ◌≡◌, ◌↔◌, Bool, true, false, Option, none, some, is_some, get_or, ◌||◌, if_some, if_none,
  String, ap, ◌∙◌,
}
use authentik_operator.Prelude.{string_eq, bool_eq}
use authentik_operator.Prelude.Int.{int_eq}
use authentik_operator.Models.{
  policy_engine_mode_eq, client_type_eq, grant_type_eq, sub_mode_eq, issuer_mode_eq,
  logout_method_eq, proxy_mode_eq,
}
use authentik_operator.Models.{PolicyBinding, PatchedPolicyBindingRequest, get, Nullable}
use authentik_operator.Prelude.Int.{ℤ}
use authentik_operator.Patch.Fields.{first_non_nil}
use authentik_operator.Patch.Fields.Laws.{
  diff_value_iff, diff_pointer_iff, diff_nullable_iff, AgreesValue-patched, AgreesPointer-patched,
  AgreesNullable, AgreesValue-first,
}
use authentik_operator.Patch.PolicyBinding.{
  policy_binding_patch, policy_binding_changed, diff_policy_binding, with_subject,
}
use authentik_operator.Patch.PolicyBinding.Spec.{MatchesPolicyBinding, PatchesPolicyBinding}

unchanged :
    (p : PatchedPolicyBindingRequest)
    → policy_binding_changed p ≡ false
    → (p.policy ≡ none)
      × (p.group ≡ none)
      × (p.user ≡ none)
      × (p.target ≡ none)
      × (p.negate ≡ none)
      × (p.enabled ≡ none)
      × (p.order ≡ none)
      × (p.timeout ≡ none)
      × (p.failure_result ≡ none)
unfolding policy_binding_changed
unchanged p h = ground arith

still :
    (d : PatchedPolicyBindingRequest) (o : PolicyBinding)
    → diff_policy_binding d o ≡ none
    → policy_binding_changed (policy_binding_patch d o) ≡ false
unfolding diff_policy_binding
still d o h = if_none (policy_binding_changed (policy_binding_patch d o)) _ h

diff_policy_binding_sound :
    (d : PatchedPolicyBindingRequest) (o : PolicyBinding)
    → diff_policy_binding d o ≡ none
    → MatchesPolicyBinding d o
unfolding policy_binding_patch
diff_policy_binding_sound d o h =
    let u = unchanged (policy_binding_patch d o) (still d o h) in
    record {
      policy = (diff_nullable_iff d.policy o.policy).0 u.0;
      group = (diff_nullable_iff d.group o.group).0 u.1;
      user = (diff_nullable_iff d.user o.user).0 u.2;
      target = (diff_value_iff d.target o.target).0 u.3;
      negate = (diff_pointer_iff d.negate o.negate).0 u.4;
      enabled = (diff_pointer_iff d.enabled o.enabled).0 u.5;
      order = (diff_value_iff d.order o.order).0 u.6;
      timeout = (diff_pointer_iff d.timeout o.timeout).0 u.7;
      failure_result = (diff_pointer_iff d.failure_result o.failure_result).0 u.8;
    }

pub diff_policy_binding_complete :
    (d : PatchedPolicyBindingRequest) (o : PolicyBinding)
    → MatchesPolicyBinding d o
    → diff_policy_binding d o ≡ none
unfolding diff_policy_binding
diff_policy_binding_complete d o m = ground (
  arith,
  (diff_nullable_iff d.policy o.policy).1 m.policy,
  (diff_nullable_iff d.group o.group).1 m.group,
  (diff_nullable_iff d.user o.user).1 m.user,
  (diff_value_iff d.target o.target).1 m.target,
  (diff_pointer_iff d.negate o.negate).1 m.negate,
  (diff_pointer_iff d.enabled o.enabled).1 m.enabled,
  (diff_value_iff d.order o.order).1 m.order,
  (diff_pointer_iff d.timeout o.timeout).1 m.timeout,
  (diff_pointer_iff d.failure_result o.failure_result).1 m.failure_result,
)

-- The diff of a PolicyBinding is empty exactly when every managed field has the desired value.
pub diff_policy_binding_iff :
    (d : PatchedPolicyBindingRequest) (o : PolicyBinding)
    → (diff_policy_binding d o ≡ none) ↔ MatchesPolicyBinding d o
diff_policy_binding_iff d o = (diff_policy_binding_sound d o, diff_policy_binding_complete d o)

abbrev full : PatchedPolicyBindingRequest → PolicyBinding → PatchedPolicyBindingRequest
full d o =
    with_subject d o
      (record (policy_binding_patch d o) { target = first_non_nil d.target (some o.target) })

module _ (d : PatchedPolicyBindingRequest) (o : PolicyBinding) where
  policy_sent : (v : Option String) → d.policy ≡ some v → (full d o).policy ≡ some v
  unfolding with_subject
  policy_sent v p = ground arith

  group_sent : (v : Option String) → d.group ≡ some v → (full d o).group ≡ some v
  unfolding with_subject
  group_sent v p = ground arith

  user_sent : (v : Option ℤ) → d.user ≡ some v → (full d o).user ≡ some v
  unfolding with_subject
  user_sent v p = ground arith

held :
    {A : Type 0} (d o n : Nullable A) {f : Nullable A}
    → get n ≡ get_or f (get o)
    → ((v : Option A) → d ≡ some v → f ≡ some v)
    → AgreesNullable d n
held d o n u k v p = ground (arith, k v p)

sent :
    (d p : PatchedPolicyBindingRequest) (o : PolicyBinding)
    → diff_policy_binding d o ≡ some p
    → full d o ≡ p
unfolding diff_policy_binding
sent d p o h = if_some (policy_binding_changed (policy_binding_patch d o)) h

patched :
    (d : PatchedPolicyBindingRequest) (o n : PolicyBinding)
    → PatchesPolicyBinding (full d o) o n
    → MatchesPolicyBinding d n
unfolding policy_binding_patch with_subject
patched d o n u = record {
  policy = held d.policy o.policy n.policy u.policy (λ v. policy_sent d o v);
  group = held d.group o.group n.group u.group (λ v. group_sent d o v);
  user = held d.user o.user n.user u.user (λ v. user_sent d o v);
  target = AgreesValue-first d.target o.target n.target u.target;
  negate = AgreesPointer-patched d.negate o.negate n.negate u.negate;
  enabled = AgreesPointer-patched d.enabled o.enabled n.enabled u.enabled;
  order = AgreesValue-patched d.order o.order n.order u.order;
  timeout = AgreesPointer-patched d.timeout o.timeout n.timeout u.timeout;
  failure_result =
      AgreesPointer-patched d.failure_result o.failure_result n.failure_result u.failure_result;
}

-- One partial update of a PolicyBinding with the body of its diff leaves nothing to send.
pub diff_policy_binding-converges :
    (d p : PatchedPolicyBindingRequest) (o n : PolicyBinding)
    → diff_policy_binding d o ≡ some p
    → PatchesPolicyBinding p o n
    → diff_policy_binding d n ≡ none
diff_policy_binding-converges d p o n h u =
    diff_policy_binding_complete d n (patched d o n (rw (sent d p o h) u))

-- The patch names a subject.
abbrev pub has_subject : PatchedPolicyBindingRequest → Bool
has_subject d = is_some d.policy || is_some d.group || is_some d.user

module _ (d p : PatchedPolicyBindingRequest) (o n : PolicyBinding) where
  -- A patch of a Binding that is sent carries a target, and where the desired Binding has a
  -- subject it carries all three subject fields.
  pub carries-diff_policy_binding :
      diff_policy_binding d o ≡ some p
      → has_subject d ≡ true
      → (p.target ≡ some (get_or d.target o.target))
        × (p.policy ≡ some (get d.policy))
        × (p.group ≡ some (get d.group))
        × (p.user ≡ some (get d.user))
  unfolding with_subject first_non_nil
  carries-diff_policy_binding h s = rw (← sent d p o h) (ground arith)

  -- When a patch of a Binding is sent and the desired Binding has a subject, the Binding has the
  -- desired policy, group and user after the partial update, and no other subject.
  pub subject-diff_policy_binding :
      diff_policy_binding d o ≡ some p
      → has_subject d ≡ true
      → PatchesPolicyBinding p o n
      → (get n.policy ≡ get d.policy) × (get n.group ≡ get d.group) × (get n.user ≡ get d.user)
  subject-diff_policy_binding h s u =
      let c = carries-diff_policy_binding h s in
      (
        u.policy ∙ ap (λ f. get_or f (get o.policy)) c.1,
        u.group ∙ ap (λ f. get_or f (get o.group)) c.2,
        u.user ∙ ap (λ f. get_or f (get o.user)) c.3,
      )
