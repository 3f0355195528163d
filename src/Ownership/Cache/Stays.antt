-- ===== src/Ownership/Cache/Stays.antt =====
-- The operations on markers keep the resource: internal/ownership/marker.go and
-- internal/controller/markers.go.
use authentik_operator.Models.{Named}
use authentik_operator.Prelude.{List, String, Option, some, Bool, ◌∷◌, none, [], refl}
use authentik_operator.Effect.{
  Object, Error, Result, modify, ok, err, call, unassign_object_permission,
  assign_object_permission,
}
use authentik_operator.Effect.Keeps.{Keeps, keeps_rules, Keeps-modify, Keeps-call}
use authentik_operator.Ownership.Cache.{
  ensure, when_recreated, add_if_managed, contains_marker, refresh, is_fresh, cache_delete,
  cache_put, remove, read_markers, is_managed_cached,
}
use authentik_operator.Ownership.{
  is_managed, list_managed, created_or_found, mark, found_or, ensure_role, find_role, or_create,
  role, exists_after, mark_if_exists, one_role, unmark, remembered_or_ensured, find_or_create_role,
}

Keeps-assign : (u m p v : String) → Keeps (λ s. s.app) (call (assign_object_permission u m p v))
Keeps-assign u m p v = Keeps-call (assign_object_permission u m p v)

Keeps-unassign : (u m p v : String) → Keeps (λ s. s.app) (call (unassign_object_permission u m p v))
Keeps-unassign u m p v = Keeps-call (unassign_object_permission u m p v)

Keeps-one_role : (name : String) (roles : List Named) → Keeps (λ s. s.app) (one_role name roles)
unfolding one_role
Keeps-one_role name [] = search keeps_rules
Keeps-one_role name (r ∷ []) = search keeps_rules
Keeps-one_role name (r ∷ s ∷ rest) = search keeps_rules

Keeps-find_role : Keeps (λ s. s.app) find_role
unfolding find_role
Keeps-find_role = search (keeps_rules, Keeps-one_role)

Keeps-found_or :
    (name : String) (e : Error) (found : Option String) → Keeps (λ s. s.app) (found_or name e found)
unfolding found_or
Keeps-found_or name e none = search keeps_rules
Keeps-found_or name e (some uuid) = search keeps_rules

Keeps-created_or_found :
    (name : String) (created : Result Named) → Keeps (λ s. s.app) (created_or_found name created)
unfolding created_or_found
Keeps-created_or_found name (ok r) = search keeps_rules
Keeps-created_or_found name (err e) = search (keeps_rules, Keeps-find_role, Keeps-found_or)

Keeps-or_create : (found : Option String) → Keeps (λ s. s.app) (or_create found)
unfolding or_create
Keeps-or_create (some uuid) = search keeps_rules
Keeps-or_create none = search (keeps_rules, Keeps-created_or_found)

Keeps-ensure_role : Keeps (λ s. s.app) ensure_role
unfolding ensure_role find_or_create_role
Keeps-ensure_role = search (keeps_rules, Keeps-find_role, Keeps-or_create)

Keeps-role : Keeps (λ s. s.app) role
unfolding role remembered_or_ensured
Keeps-role = search (keeps_rules, Keeps-ensure_role)

Keeps-mark : (o : Object) → Keeps (λ s. s.app) (mark o)
unfolding mark
Keeps-mark o = search (keeps_rules, Keeps-role, Keeps-assign)

Keeps-unmark : (o : Object) → Keeps (λ s. s.app) (unmark o)
unfolding unmark
Keeps-unmark o = search (keeps_rules, Keeps-role, Keeps-unassign)

Keeps-is_managed : (o : Object) → Keeps (λ s. s.app) (is_managed o)
unfolding is_managed
Keeps-is_managed o = search (keeps_rules, Keeps-role)

Keeps-list_managed : Keeps (λ s. s.app) list_managed
unfolding list_managed
Keeps-list_managed = search (keeps_rules, Keeps-role)

Keeps-exists_after :
    (object : Object) (r : Result (Unit {0})) → Keeps (λ s. s.app) (exists_after object r)
unfolding exists_after
Keeps-exists_after object (ok u) = search keeps_rules
Keeps-exists_after object (err e) = search keeps_rules

Keeps-mark_if_exists : (o : Object) → Keeps (λ s. s.app) (mark_if_exists o)
unfolding mark_if_exists
Keeps-mark_if_exists o = search (keeps_rules, Keeps-role, Keeps-exists_after)

Keeps-is_fresh : (objects : Option (List Object)) → Keeps (λ s. s.app) (is_fresh objects)
unfolding is_fresh
Keeps-is_fresh none = search keeps_rules
Keeps-is_fresh (some objects) = search keeps_rules

Keeps-when_recreated : (uuids : String × String) → Keeps (λ s. s.app) (when_recreated uuids)
unfolding when_recreated
Keeps-when_recreated uuids = search keeps_rules

Keeps-read_markers : Keeps (λ s. s.app) read_markers
unfolding read_markers
Keeps-read_markers =
    search (keeps_rules, Keeps-ensure_role, Keeps-when_recreated, Keeps-list_managed) depth 12

Keeps-refresh : Keeps (λ s. s.app) refresh
unfolding refresh
Keeps-refresh = search (keeps_rules, Keeps-is_fresh, Keeps-read_markers)

Keeps-cache_put : (o : Object) → Keeps (λ s. s.app) (modify (cache_put o))
unfolding cache_put
Keeps-cache_put o = Keeps-modify _ (λ s. refl)

Keeps-cache_delete : (o : Object) → Keeps (λ s. s.app) (modify (cache_delete o))
unfolding cache_delete
Keeps-cache_delete o = Keeps-modify _ (λ s. refl)

pub Keeps-contains_marker : (o : Object) → Keeps (λ s. s.app) (contains_marker o)
unfolding contains_marker
Keeps-contains_marker o = search (keeps_rules, Keeps-refresh)

Keeps-add_if_managed : (o : Object) (managed : Bool) → Keeps (λ s. s.app) (add_if_managed o managed)
unfolding add_if_managed
Keeps-add_if_managed o managed = search (keeps_rules, Keeps-cache_put)

pub Keeps-is_managed_cached : (o : Object) → Keeps (λ s. s.app) (is_managed_cached o)
unfolding is_managed_cached
Keeps-is_managed_cached o =
    search (keeps_rules, Keeps-refresh, Keeps-is_managed, Keeps-add_if_managed)

pub Keeps-ensure : (o : Object) → Keeps (λ s. s.app) (ensure o)
unfolding ensure
Keeps-ensure o = search (keeps_rules, Keeps-refresh, Keeps-mark, Keeps-cache_put)

pub Keeps-remove : (o : Object) → Keeps (λ s. s.app) (remove o)
unfolding remove
Keeps-remove o = search (keeps_rules, Keeps-unmark, Keeps-cache_delete)
