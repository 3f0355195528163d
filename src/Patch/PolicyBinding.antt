-- ===== src/Patch/PolicyBinding.antt =====
-- `DiffPolicyBinding` of internal/authentik/patch.go. `none` is the result `nil, false`.
pub mod Spec
pub mod Laws
use authentik_operator.Prelude.{Bool, ◌||◌, Option, none, some, is_some, or_else, if◌then◌else◌}
use authentik_operator.Prelude.{string_eq, bool_eq}
use authentik_operator.Prelude.Int.{int_eq}
use authentik_operator.Models.{
  policy_engine_mode_eq, client_type_eq, grant_type_eq, sub_mode_eq, issuer_mode_eq,
  logout_method_eq, proxy_mode_eq,
}
use authentik_operator.Models.{PolicyBinding, PatchedPolicyBindingRequest}
use authentik_operator.Patch.Fields.{diff_value, diff_pointer, diff_nullable, first_non_nil}
use authentik_operator.Patch.Sets.{diff_set}
use authentik_operator.Patch.RedirectUris.{diff_redirect_uris}

-- the struct literal
unfoldable pub policy_binding_patch :
    PatchedPolicyBindingRequest → PolicyBinding → PatchedPolicyBindingRequest
policy_binding_patch desired observed = record {
  policy = diff_nullable desired.policy observed.policy;
  group = diff_nullable desired.group observed.group;
  user = diff_nullable desired.user observed.user;
  target = diff_value desired.target observed.target;
  negate = diff_pointer desired.negate observed.negate;
  enabled = diff_pointer desired.enabled observed.enabled;
  order = diff_value desired.order observed.order;
  timeout = diff_pointer desired.timeout observed.timeout;
  failure_result = diff_pointer desired.failure_result observed.failure_result;
}

unfoldable pub policy_binding_changed : PatchedPolicyBindingRequest → Bool
policy_binding_changed patch =
    is_some patch.policy
    || is_some patch.group
    || is_some patch.user
    || is_some patch.target
    || is_some patch.negate
    || is_some patch.enabled
    || is_some patch.order
    || is_some patch.timeout
    || is_some patch.failure_result

-- The other subjects are sent as explicit nulls beside a desired one; without a desired subject the
-- observed one is sent.
unfoldable pub with_subject :
    PatchedPolicyBindingRequest
    → PolicyBinding
    → PatchedPolicyBindingRequest
    → PatchedPolicyBindingRequest
with_subject desired observed patch =
    let named = is_some desired.policy || is_some desired.group || is_some desired.user in
    record patch {
      policy = if named then or_else desired.policy (some none) else observed.policy;
      group = if named then or_else desired.group (some none) else observed.group;
      user = if named then or_else desired.user (some none) else observed.user;
    }

unfoldable pub diff_policy_binding :
    PatchedPolicyBindingRequest → PolicyBinding → Option PatchedPolicyBindingRequest
unfolding policy_binding_patch policy_binding_changed with_subject
diff_policy_binding desired observed =
    let patch = policy_binding_patch desired observed in
    if policy_binding_changed patch
    then some (
        with_subject desired observed
          (record patch { target = first_non_nil desired.target (some observed.target) }))
    else none
