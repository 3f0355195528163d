-- ===== src/Ownership/Cache/Marking.antt =====
-- internal/ownership/marker.go and internal/controller/markers.go: the calls that the operations on
-- markers make which remove none.
use authentik_operator.Prelude.{refl, String, Bool, Option, none, some, List, [], ◌∷◌}
use authentik_operator.Models.{Named}
use authentik_operator.Effect.{
  Error, Result, ok, err, Call, find_roles_by_name, create_role, list_role_object_permissions,
  assign_object_permission, list_object_permission_roles, list_resources, now, Object, modify, call,
}
use authentik_operator.Effect.Emits.{Emits, emits_rules, Emits-modify, Emits-call}
use authentik_operator.Ownership.{
  one_role, find_role, found_or, created_or_found, or_create, find_or_create_role, ensure_role,
  remembered_or_ensured, role, mark, exists_after, mark_if_exists, is_managed, list_managed,
}
use authentik_operator.Ownership.Cache.{
  is_fresh, when_recreated, read_markers, refresh, contains_marker, add_if_managed,
  is_managed_cached, ensure, cache_put,
}

-- A call on the ownership role or its permissions that removes no marker, the list of the
-- resources, or the clock.
abbrev pub IsMarking : Call → Type 0
IsMarking (find_roles_by_name _) = Unit
IsMarking (create_role _) = Unit
IsMarking (list_role_object_permissions _) = Unit
IsMarking (assign_object_permission _ _ _ _) = Unit
IsMarking (list_object_permission_roles _ _) = Unit
IsMarking list_resources = Unit
IsMarking now = Unit
IsMarking _ = ⊥

Emits-assign : (u m p v : String) → Emits IsMarking (call (assign_object_permission u m p v))
Emits-assign u m p v = Emits-call {P = IsMarking} (assign_object_permission u m p v) tt

Emits-one_role : (name : String) (roles : List Named) → Emits IsMarking (one_role name roles)
unfolding one_role
Emits-one_role name [] = search emits_rules
Emits-one_role name (r ∷ []) = search emits_rules
Emits-one_role name (r ∷ s ∷ rest) = search emits_rules

Emits-find_role : Emits IsMarking find_role
unfolding find_role
Emits-find_role = search (emits_rules, Emits-one_role)

Emits-found_or :
    (name : String) (e : Error) (found : Option String) → Emits IsMarking (found_or name e found)
unfolding found_or
Emits-found_or name e none = search emits_rules
Emits-found_or name e (some uuid) = search emits_rules

Emits-created_or_found :
    (name : String) (created : Result Named) → Emits IsMarking (created_or_found name created)
unfolding created_or_found
Emits-created_or_found name (ok r) = search emits_rules
Emits-created_or_found name (err e) = search (emits_rules, Emits-find_role, Emits-found_or)

Emits-or_create : (found : Option String) → Emits IsMarking (or_create found)
unfolding or_create
Emits-or_create (some uuid) = search emits_rules
Emits-or_create none = search (emits_rules, Emits-created_or_found)

Emits-ensure_role : Emits IsMarking ensure_role
unfolding ensure_role find_or_create_role
Emits-ensure_role = search (emits_rules, Emits-find_role, Emits-or_create)

pub Emits-role : Emits IsMarking role
unfolding role remembered_or_ensured
Emits-role = search (emits_rules, Emits-ensure_role)

Emits-mark : (o : Object) → Emits IsMarking (mark o)
unfolding mark
Emits-mark o = search (emits_rules, Emits-role, Emits-assign)

Emits-is_managed : (o : Object) → Emits IsMarking (is_managed o)
unfolding is_managed
Emits-is_managed o = search (emits_rules, Emits-role)

Emits-list_managed : Emits IsMarking list_managed
unfolding list_managed
Emits-list_managed = search (emits_rules, Emits-role) depth 12

Emits-exists_after :
    (object : Object) (r : Result (Unit {0})) → Emits IsMarking (exists_after object r)
unfolding exists_after
Emits-exists_after object (ok u) = search emits_rules
Emits-exists_after object (err e) = search emits_rules

pub Emits-mark_if_exists : (o : Object) → Emits IsMarking (mark_if_exists o)
unfolding mark_if_exists
Emits-mark_if_exists o = search (emits_rules, Emits-role, Emits-assign, Emits-exists_after)

Emits-is_fresh : (objects : Option (List Object)) → Emits IsMarking (is_fresh objects)
unfolding is_fresh
Emits-is_fresh none = search emits_rules
Emits-is_fresh (some objects) = search emits_rules

Emits-when_recreated : (uuids : String × String) → Emits IsMarking (when_recreated uuids)
unfolding when_recreated
Emits-when_recreated uuids = search emits_rules

Emits-read_markers : Emits IsMarking read_markers
unfolding read_markers
Emits-read_markers =
    search (emits_rules, Emits-ensure_role, Emits-when_recreated, Emits-list_managed) depth 12

pub Emits-refresh : Emits IsMarking refresh
unfolding refresh
Emits-refresh = search (emits_rules, Emits-is_fresh, Emits-read_markers)

Emits-cache_put : (o : Object) → Emits IsMarking (modify (cache_put o))
unfolding cache_put
Emits-cache_put o = Emits-modify _ (λ s. refl)

pub Emits-contains_marker : (o : Object) → Emits IsMarking (contains_marker o)
unfolding contains_marker
Emits-contains_marker o = search (emits_rules, Emits-refresh)

Emits-add_if_managed : (o : Object) (managed : Bool) → Emits IsMarking (add_if_managed o managed)
unfolding add_if_managed
Emits-add_if_managed o managed = search (emits_rules, Emits-cache_put)

pub Emits-is_managed_cached : (o : Object) → Emits IsMarking (is_managed_cached o)
unfolding is_managed_cached
Emits-is_managed_cached o =
    search (emits_rules, Emits-refresh, Emits-is_managed, Emits-add_if_managed)

pub Emits-ensure : (o : Object) → Emits IsMarking (ensure o)
unfolding ensure
Emits-ensure o = search (emits_rules, Emits-refresh, Emits-mark, Emits-cache_put)
