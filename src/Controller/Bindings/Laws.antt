-- ===== src/Controller/Bindings/Laws.antt =====
-- Writes come before deletions, and only managed Bindings are deleted: `reconcileBindings` of
-- internal/controller/bindings.go.
use authentik_operator.Prelude.{
  ◌≡◌, refl, String, Bool, true, false, Option, none, some, List, [], ◌∷◌, ◌++◌, In, inl, inr,
  contains, string_eq, if◌then◌else◌,
}
use authentik_operator.Prelude.Int.{ℤ}
use authentik_operator.Models.{PolicyBinding, PatchedPolicyBindingRequest}
use authentik_operator.Reference.{Rule}
use authentik_operator.Bindings.Match.{Slot}
use authentik_operator.Effect.{
  Error, Result, ok, err, Call, delete_policy_binding, delete_application, delete_proxy_provider,
  delete_oauth2_provider, Env, State, pure, ◌>>=◌, continue,
}
use authentik_operator.Effect.Emits.{
  Emits, emits_rules, Emits-bind, Emits-pure, Emits-weaken, Emits-call, Emits-ignore_not_found,
  Between, Between-refl, Between-trans,
}
use authentik_operator.Ownership.Cache.Quiet.{
  IsMarkerCall, Emits-ensure, Emits-remove, Emits-contains_marker,
}
use authentik_operator.Ownership.Cache.{ensure, contains_marker}
use authentik_operator.Effect.{Object}
use authentik_operator.Controller.Unmanaged.Laws.{IsDeleteFree, Emits-patch_status}
use authentik_operator.Controller.Bindings.{
  Split, is_managed_binding, add_binding, split_from, managed_bindings, adopt_slot, adopt_slots,
  send_patch, sync_binding, set_binding_uuids, write_slot, write_slots, delete_binding,
  delete_unkept, write_bindings, finish_bindings, reconcile_bindings,
}

pub IsDeleteFree-IsMarkerCall : (c : Call) → IsMarkerCall c → IsDeleteFree c
IsDeleteFree-IsMarkerCall (delete_policy_binding uuid) h = h
IsDeleteFree-IsMarkerCall (delete_application slug) h = h
IsDeleteFree-IsMarkerCall (delete_proxy_provider pk) h = h
IsDeleteFree-IsMarkerCall (delete_oauth2_provider pk) h = h
IsDeleteFree-IsMarkerCall _ h = tt

pub ensures : (o : Object) → Emits IsDeleteFree (ensure o)
ensures o = Emits-weaken _ IsDeleteFree-IsMarkerCall (Emits-ensure o)

looks_up : (o : Object) → Emits IsDeleteFree (contains_marker o)
looks_up o = Emits-weaken _ IsDeleteFree-IsMarkerCall (Emits-contains_marker o)

Emits-is_managed_binding : (b : PolicyBinding) → Emits IsDeleteFree (is_managed_binding b)
unfolding is_managed_binding
Emits-is_managed_binding b = search (emits_rules, ensures, looks_up) depth 12

Emits-split_from :
    (split : Split) (bs : List PolicyBinding) → Emits IsDeleteFree (split_from split bs)
unfolding split_from
Emits-split_from split [] = search emits_rules
Emits-split_from split (b ∷ bs) =
    Emits-bind _ _ (Emits-is_managed_binding b) (λ m. Emits-split_from (add_binding split b m) bs)

Emits-managed_bindings : (bs : List PolicyBinding) → Emits IsDeleteFree (managed_bindings bs)
unfolding managed_bindings
Emits-managed_bindings bs = Emits-split_from _ bs

Emits-adopt_slot :
    (slot : Slot) (matched candidate : Option PolicyBinding)
    → Emits IsDeleteFree (adopt_slot slot matched candidate)
unfolding adopt_slot
Emits-adopt_slot slot (some b) candidate = search emits_rules
Emits-adopt_slot slot none none = search emits_rules
Emits-adopt_slot slot none (some b) = search (emits_rules, ensures)

Emits-adopt_slots :
    (slots : List Slot) (candidates : List (Option PolicyBinding))
    → Emits IsDeleteFree (adopt_slots slots candidates)
unfolding adopt_slots
Emits-adopt_slots [] candidates = search emits_rules
Emits-adopt_slots (slot ∷ slots) [] = search emits_rules
Emits-adopt_slots (slot ∷ slots) (c ∷ candidates) =
    Emits-bind _ _ (Emits-adopt_slot slot slot.binding c)
      (λ adopted. Emits-bind _ _ (Emits-adopt_slots slots candidates) (λ rest. Emits-pure _))

Emits-send_patch :
    (uuid : String) (patch : Option PatchedPolicyBindingRequest)
    → Emits IsDeleteFree (send_patch uuid patch)
unfolding send_patch
Emits-send_patch uuid none = search emits_rules
Emits-send_patch uuid (some patch) = search emits_rules

Emits-write_slot :
    (target : String) (order : ℤ) (rule : Rule) (binding : Option PolicyBinding)
    → Emits IsDeleteFree (write_slot target order rule binding)
unfolding write_slot sync_binding set_binding_uuids
Emits-write_slot target order rule (some b) = search (emits_rules, Emits-send_patch)
Emits-write_slot target order rule none = search (emits_rules, ensures, Emits-patch_status) depth 14

Emits-write_slots :
    (target : String) (slots : List Slot) (order : ℤ) (kept : List String)
    → Emits IsDeleteFree (write_slots target slots order kept)
unfolding write_slots
Emits-write_slots target [] order kept = search emits_rules
Emits-write_slots target (slot ∷ slots) order kept =
    Emits-bind _ _ (Emits-write_slot target order slot.rule slot.binding)
      (λ w. Emits-write_slots target slots w.0 (kept ++ w.1 ∷ []))

pub Emits-write_bindings :
    (target : String) (rules : List Rule) → Emits IsDeleteFree (write_bindings target rules)
unfolding write_bindings
Emits-write_bindings target rules =
    search (emits_rules, Emits-managed_bindings, Emits-adopt_slots, Emits-write_slots) depth 14

failed_write :
    (r : Result (Split × List String)) (e : Error) (env : Env) (s : State)
    → r ≡ err e
    → Between IsDeleteFree s (continue r finish_bindings env s).1
failed_write (ok w) e env s h = absurd cc
failed_write (err x) e env s h = Between-refl s

-- When the reconcile of the Bindings fails before its deletions, whether at reading, adopting,
-- marking or writing, then however the services answer it has deleted nothing in authentik.
pub reconcile_bindings-IsDeleteFree :
    (target : String) (rules : List Rule) (env : Env) (s : State) (e : Error)
    → (write_bindings target rules env s).0 ≡ err e
    → Between IsDeleteFree s (reconcile_bindings target rules env s).1
unfolding reconcile_bindings ◌>>=◌
reconcile_bindings-IsDeleteFree target rules env s e h =
    Between-trans ((Emits-write_bindings target rules).at env s) (
      failed_write (write_bindings target rules env s).0 e env (write_bindings target rules env s).1
        h)

-- The calls of the deletion of managed Bindings that are not kept.
pub data DeletesUnkept (kept : List String) (managed : List PolicyBinding) : Call → Type 0 where
  on_markers : (c : Call) → IsMarkerCall c → DeletesUnkept kept managed c
  deletes :
      (b : PolicyBinding)
      → In b managed
      → contains kept b.pk ≡ false
      → DeletesUnkept kept managed (delete_policy_binding b.pk)

module _ (kept : List String) (managed : List PolicyBinding) where
  one_deleted :
      (b : PolicyBinding) (is_kept : Bool)
      → In b managed
      → contains kept b.pk ≡ is_kept
      → Emits (DeletesUnkept kept managed) (if is_kept then pure tt else delete_binding b.pk)
  unfolding delete_binding
  one_deleted b true i h = search emits_rules
  one_deleted b false i h =
      Emits-bind _ _
        (Emits-ignore_not_found _ (
          Emits-call {P = DeletesUnkept kept managed} (delete_policy_binding b.pk) (deletes b i h)))
        (λ _. Emits-weaken _ on_markers (Emits-remove _))

  unkept_from :
      (bs : List PolicyBinding)
      → ((b : PolicyBinding) → In b bs → In b managed)
      → Emits (DeletesUnkept kept managed) (delete_unkept kept bs)
  unfolding delete_unkept
  unkept_from [] f = search emits_rules
  unkept_from (b ∷ bs) f =
      Emits-bind _ _ (one_deleted b (contains kept b.pk) (f b (inl refl)) refl)
        (λ _. unkept_from bs (λ c i. f c (inr i)))

  -- The loop of deletions makes only calls on markers and deletions of Bindings among the managed
  -- ones whose UUIDs are not kept.
  pub delete_unkept-DeletesUnkept : Emits (DeletesUnkept kept managed) (delete_unkept kept managed)
  delete_unkept-DeletesUnkept = unkept_from managed (λ b i. i)
