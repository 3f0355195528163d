-- ===== src/Ownership/Cache.antt =====
-- internal/controller/markers.go: the cached marker list. The lock is held over each operation, so
-- an operation is one action. `requeueAll` (gc.go) lists the resources; the events that it sends in
-- the background start further reconciles, and are not part of this one.
pub mod Laws
pub mod Marking
pub mod Quiet
pub mod Orphans
pub mod Stays
use authentik_operator.Prelude.{
  ℕ, ◌+◌, String, Bool, true, false, not, ◌&&◌, Option, none, some, List, [], ◌∷◌, ltb, contains,
  delete, string_eq, ◌==◌, if◌then◌else◌,
}
use authentik_operator.Patch.Sets.{put}
use authentik_operator.Effect.{
  Result, Object, Action, State, Env, list_resources, pure, gets, asks, attempt, of_result, modify,
  call, clock, ◌>>=◌, ◌>>◌,
}
use authentik_operator.Ownership.{
  object_eq, ensure_role, list_managed, mark, mark_if_exists, unmark, is_managed,
}

unfoldable pub objects_of : Option (List Object) → List Object
objects_of none = []
objects_of (some objects) = objects

-- `_, ok := c.objects[object]`
unfoldable pub cached : State → Object → Bool
unfolding objects_of
cached s object = contains (objects_of s.objects) object

-- `c.objects[object] = struct{}{}`
unfoldable pub cache_put : Object → State → State
unfolding objects_of
cache_put object s = record s { objects = some (put (objects_of s.objects) object) }

-- `delete(c.objects, object)`, which does nothing to a nil map
unfoldable pub cache_delete : Object → State → State
cache_delete object s = record s {
  objects = elim s.objects [ none ↦ none | some objects ↦ some (delete objects object) ];
}

unfoldable pub is_fresh : Option (List Object) → Action Bool
is_fresh none = pure false
is_fresh (some objects) = do
  time ← clock
  fetched ← gets (λ s. s.fetched)
  ttl ← asks (λ env. env.resync_interval)
  pure (ltb time (fetched + ttl))

-- `onRoleRecreated`, when the role was remembered with another UUID
unfoldable pub when_recreated : String × String → Action Unit
when_recreated (current, previous) =
    if not (previous == "") && not (previous == current)
    then (do answer ← attempt (call list_resources); pure tt)
    else pure tt

unfoldable pub read_markers : Action Unit
unfolding when_recreated
read_markers = do
  uuids ← ensure_role
  when_recreated uuids
  objects ← list_managed
  modify (λ s. record s { objects = some objects })
  time ← clock
  modify (λ s. record s { fetched = time })

unfoldable pub refresh : Action Unit
unfolding is_fresh read_markers
refresh = do
  objects ← gets (λ s. s.objects)
  fresh ← is_fresh objects
  if fresh then pure tt else read_markers

unfoldable pub contains_marker : Object → Action Bool
unfolding refresh
contains_marker object = do refresh; gets (λ s. cached s object)

unfoldable pub add_if_managed : Object → Bool → Action Bool
add_if_managed object managed =
    if not managed then pure false else do modify (cache_put object); pure true

unfoldable pub is_managed_cached : Object → Action Bool
unfolding refresh add_if_managed
is_managed_cached object = do
  refresh
  known ← gets (λ s. cached s object)
  if known then pure true else do managed ← is_managed object; add_if_managed object managed

unfoldable pub ensure : Object → Action Unit
unfolding refresh
ensure object = do
  refresh
  known ← gets (λ s. cached s object)
  if known then pure tt else do mark object; modify (cache_put object)

unfoldable pub remove : Object → Action Unit
remove object = do unmark object; modify (cache_delete object)

unfoldable pub remove_missing : Object → Bool → Action Bool
remove_missing object exists =
    if exists then pure false else do unmark object; modify (cache_delete object); pure true

unfoldable pub remove_if_orphaned : Object → Action Bool
unfolding remove_missing
remove_if_orphaned object = do
  known ← gets (λ s. cached s object)
  if not known then pure false else do exists ← mark_if_exists object; remove_missing object exists

-- the loop of `collect`, which counts the markers that were removed; an error comes without the
-- count, which the only caller (gc.go) does not look at then
unfoldable pub collect_from : ℕ → List Object → Action ℕ
unfolding remove_if_orphaned
collect_from removed [] = pure removed
collect_from removed (object ∷ rest) = do
  orphaned ← remove_if_orphaned object
  collect_from (if orphaned then removed + 1 else removed) rest

unfoldable pub collect : Action ℕ
unfolding collect_from refresh
collect = do
  modify (λ s. record s { objects = none })
  refreshed ← attempt refresh
  objects ← gets (λ s. objects_of s.objects)
  of_result refreshed
  collect_from 0 objects
