-- ===== src/Ownership/Cache/Quiet.antt =====
-- internal/ownership/marker.go and internal/controller/markers.go: the calls that the operations on
-- markers make.
use authentik_operator.Ownership.Cache.Marking
use authentik_operator.Ownership.Cache.Marking.{IsMarking}
use authentik_operator.Prelude.{refl, String}
use authentik_operator.Effect.{
  Call, find_roles_by_name, create_role, list_role_object_permissions, assign_object_permission,
  unassign_object_permission, list_object_permission_roles, list_resources, now, Object, modify,
  call,
}
use authentik_operator.Effect.Emits.{Emits, emits_rules, Emits-modify, Emits-call, Emits-weaken}
use authentik_operator.Ownership.{role, unmark}
use authentik_operator.Ownership.Cache.{
  contains_marker, is_managed_cached, ensure, remove, cache_delete,
}

-- A call on the ownership role or its permissions, the list of the resources, or the clock.
abbrev pub IsMarkerCall : Call → Type 0
IsMarkerCall (find_roles_by_name _) = Unit
IsMarkerCall (create_role _) = Unit
IsMarkerCall (list_role_object_permissions _) = Unit
IsMarkerCall (assign_object_permission _ _ _ _) = Unit
IsMarkerCall (unassign_object_permission _ _ _ _) = Unit
IsMarkerCall (list_object_permission_roles _ _) = Unit
IsMarkerCall list_resources = Unit
IsMarkerCall now = Unit
IsMarkerCall _ = ⊥

IsMarkerCall-IsMarking : (c : Call) → IsMarking c → IsMarkerCall c
IsMarkerCall-IsMarking (find_roles_by_name _) h = tt
IsMarkerCall-IsMarking (create_role _) h = tt
IsMarkerCall-IsMarking (list_role_object_permissions _) h = tt
IsMarkerCall-IsMarking (assign_object_permission _ _ _ _) h = tt
IsMarkerCall-IsMarking (unassign_object_permission _ _ _ _) h = tt
IsMarkerCall-IsMarking (list_object_permission_roles _ _) h = tt
IsMarkerCall-IsMarking list_resources h = tt
IsMarkerCall-IsMarking now h = tt
IsMarkerCall-IsMarking _ h = absurd h

pub Emits-contains_marker : (o : Object) → Emits IsMarkerCall (contains_marker o)
Emits-contains_marker o = Emits-weaken _ IsMarkerCall-IsMarking (Marking.Emits-contains_marker o)

pub Emits-is_managed_cached : (o : Object) → Emits IsMarkerCall (is_managed_cached o)
Emits-is_managed_cached o =
    Emits-weaken _ IsMarkerCall-IsMarking (Marking.Emits-is_managed_cached o)

pub Emits-ensure : (o : Object) → Emits IsMarkerCall (ensure o)
Emits-ensure o = Emits-weaken _ IsMarkerCall-IsMarking (Marking.Emits-ensure o)

Emits-role : Emits IsMarkerCall role
Emits-role = Emits-weaken _ IsMarkerCall-IsMarking Marking.Emits-role

Emits-unassign : (u m p v : String) → Emits IsMarkerCall (call (unassign_object_permission u m p v))
Emits-unassign u m p v = Emits-call {P = IsMarkerCall} (unassign_object_permission u m p v) tt

Emits-unmark : (o : Object) → Emits IsMarkerCall (unmark o)
unfolding unmark
Emits-unmark o = search (emits_rules, Emits-role, Emits-unassign)

Emits-cache_delete : (o : Object) → Emits IsMarkerCall (modify (cache_delete o))
unfolding cache_delete
Emits-cache_delete o = Emits-modify _ (λ s. refl)

pub Emits-remove : (o : Object) → Emits IsMarkerCall (remove o)
unfolding remove
Emits-remove o = search (emits_rules, Emits-unmark, Emits-cache_delete)
