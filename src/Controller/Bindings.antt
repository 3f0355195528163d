-- ===== src/Controller/Bindings.antt =====
-- The reconcile of the policy Bindings of an Application: internal/controller/bindings.go.
pub mod Laws
pub mod Order
use Prim.Native.Char.{Char, code}
use Prim.Native.String
use authentik_operator.Prelude.{
  ℕ, String, Bool, true, false, not, ◌&&◌, Option, none, some, List, [], ◌∷◌, ◌++◌, map, get_or,
  contains, length, string_eq, nat_eq, ◌==◌, if◌then◌else◌,
}
use authentik_operator.Prelude.Int.{ℤ, pos, ◌+ℤ◌, max_ℤ, wrap32}
use authentik_operator.Prelude.Text.{itoa, join, concat_text}
use authentik_operator.Api.{AccessSpec, UnmanagedBinding, ConditionType, Reason}
use authentik_operator.Models.{Named, User, PolicyBinding, PatchedPolicyBindingRequest}
use authentik_operator.Patch.PolicyBinding.{diff_policy_binding}
use authentik_operator.Reference.{Rule}
use authentik_operator.Desired.Binding.{
  BindingSubject, observed_subject, desired_binding, create_binding_request,
}
use authentik_operator.Bindings.Match.{Slot, match_slots, match_bindings}
use authentik_operator.Effect.{
  Error, Result, ok, err, stop, is_not_found, Call, list_policy_bindings, create_policy_binding,
  patch_policy_binding, delete_policy_binding, get_group, get_policy, get_user, Object, State,
  Action, pure, raise, gets, asks, attempt, modify, call, ignore_not_found, ◌>>=◌, ◌>>◌,
}
use authentik_operator.Ownership.Cache.{ensure, remove, contains_marker}
use authentik_operator.Controller.Status.{set_condition, set_conditions, patch_status}
use authentik_operator.Controller.Unmanaged.{handle_unmanaged_bindings}
use authentik_operator.Controller.Deletion.{binding_object}

-- `orderStep`
abbrev pub order_step : ℤ
order_step = pos 10

pub record Split : Type 0 where
  pub managed : List PolicyBinding
  pub unmanaged : List PolicyBinding
  pub max_order : ℤ

-- a Binding is managed when its UUID is recorded, and is then marked again, or when it is marked
unfoldable pub is_managed_binding : PolicyBinding → Action Bool
is_managed_binding binding = do
  uuids ← gets (λ s. s.app.status.binding_uuids)
  if contains uuids binding.pk
      then (do ensure (binding_object binding.pk); pure true)
      else contains_marker (binding_object binding.pk)

unfoldable pub add_binding : Split → PolicyBinding → Bool → Split
add_binding split binding true = record split {
  managed = split.managed ++ binding ∷ [];
  max_order = max_ℤ split.max_order binding.order;
}
add_binding split binding false = record split {
  unmanaged = split.unmanaged ++ binding ∷ [];
  max_order = max_ℤ split.max_order binding.order;
}

-- the loop of `managedBindings`
unfoldable pub split_from : Split → List PolicyBinding → Action Split
unfolding is_managed_binding add_binding
split_from split [] = pure split
split_from split (binding ∷ rest) = do
  managed ← is_managed_binding binding
  split_from (add_binding split binding managed) rest

unfoldable pub managed_bindings : List PolicyBinding → Action Split
unfolding split_from
managed_bindings existing =
    split_from (record { managed = []; unmanaged = []; max_order = pos 0 }) existing

-- the adoption of an existing Binding for a rule that has none
unfoldable pub adopt_slot : Slot → Option PolicyBinding → Option PolicyBinding → Action Slot
adopt_slot slot (some matched) candidate = pure slot
adopt_slot slot none none = pure slot
adopt_slot slot none (some binding) = do
  ensure (binding_object binding.pk)
  pure (record slot { binding = some binding })

-- The two lists have the length of the rules.
unfoldable pub adopt_slots : List Slot → List (Option PolicyBinding) → Action (List Slot)
unfolding adopt_slot
adopt_slots [] candidates = pure []
adopt_slots (slot ∷ slots) [] = pure (slot ∷ slots)
adopt_slots (slot ∷ slots) (candidate ∷ candidates) = do
  adopted ← adopt_slot slot slot.binding candidate
  rest ← adopt_slots slots candidates
  pure (adopted ∷ rest)

-- `syncBinding`, with the result of the diff
unfoldable pub send_patch : String → Option PatchedPolicyBindingRequest → Action Unit
send_patch uuid none = pure tt
send_patch uuid (some patch) = do updated ← call (patch_policy_binding uuid patch); pure tt

unfoldable pub sync_binding : PatchedPolicyBindingRequest → PolicyBinding → Action Unit
unfolding send_patch
sync_binding desired binding = send_patch binding.pk (diff_policy_binding desired binding)

unfoldable pub set_binding_uuids : List String → State → State
set_binding_uuids uuids s = record s {
  app = record s.app { status = record s.app.status { binding_uuids = uuids } };
}

-- `union(s.app.Status.BindingUUIDs, uuid)`
unfoldable pub union : List String → String → List String
union uuids uuid = if contains uuids uuid then uuids else uuids ++ uuid ∷ []

-- the write for one rule: the largest order afterwards, an int32, and the UUID that is kept
unfoldable pub write_slot : String → ℤ → Rule → Option PolicyBinding → Action (ℤ × String)
unfolding sync_binding set_binding_uuids union
write_slot target max_order rule (some binding) = do
  sync_binding (desired_binding target rule) binding
  pure (max_order, binding.pk)
write_slot target max_order rule none = do
  created ← call (
      create_policy_binding
        (create_binding_request (desired_binding target rule) (wrap32 (max_order +ℤ order_step))))
  modify (λ s. set_binding_uuids (union s.app.status.binding_uuids created.pk) s)
  patch_status
  ensure (binding_object created.pk)
  pure (wrap32 (max_order +ℤ order_step), created.pk)

unfoldable pub write_slots : String → List Slot → ℤ → List String → Action (List String)
unfolding write_slot
write_slots target [] max_order kept = pure kept
write_slots target (slot ∷ slots) max_order kept = do
  written ← write_slot target max_order slot.rule slot.binding
  write_slots target slots written.0 (kept ++ written.1 ∷ [])

unfoldable pub delete_binding : String → Action Unit
delete_binding uuid = do
  ignore_not_found (call (delete_policy_binding uuid))
  remove (binding_object uuid)

-- the loop over the managed Bindings
unfoldable pub delete_unkept : List String → List PolicyBinding → Action Unit
unfolding delete_binding
delete_unkept kept [] = pure tt
delete_unkept kept (binding ∷ rest) = do
  if contains kept binding.pk then pure tt else delete_binding binding.pk
  delete_unkept kept rest

-- `slices.DeleteFunc` of the kept Bindings
unfoldable pub drop_kept : List String → List PolicyBinding → List PolicyBinding
drop_kept kept [] = []
drop_kept kept (binding ∷ rest) =
    let others = drop_kept kept rest in
    if contains kept binding.pk then others else binding ∷ others

-- `reconcileBindings` up to its deletions: the Bindings by kind, and the UUIDs that are kept
unfoldable pub write_bindings : String → List Rule → Action (Split × List String)
unfolding managed_bindings adopt_slots write_slots
write_bindings target rules = do
  existing ← call (list_policy_bindings target)
  split ← managed_bindings existing
  slots ←
      adopt_slots (match_slots rules split.managed false)
        (match_bindings rules split.unmanaged true)
  kept ← write_slots target slots split.max_order []
  pure (split, kept)

-- the rest of `reconcileBindings`
unfoldable pub finish_bindings : Split × List String → Action Unit
unfolding delete_unkept drop_kept
finish_bindings (split, kept) = do
  delete_unkept kept split.managed
  modify (set_binding_uuids kept)
  patch_status
  app ← gets (λ s. s.app)
  handle_unmanaged_bindings app.spec.access (drop_kept kept split.unmanaged)

-- `target` is the UUID of the Application as a target of Bindings
unfoldable pub reconcile_bindings : String → List Rule → Action Unit
unfolding write_bindings finish_bindings
reconcile_bindings target rules = do written ← write_bindings target rules; finish_bindings written
