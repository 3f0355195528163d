-- ===== src/Ownership.antt =====
-- internal/ownership/marker.go: the markers, which are object permissions of the ownership role.
-- The mutex around the remembered UUID is not modelled: the reconciles are serialized.
pub mod Cache
pub mod Lookup
use authentik_operator.Prelude.Int.{pos}
use authentik_operator.Prelude.Text.{concat_text, itoa, quote}
use Prim.Native.Char.{Char, code}
use Prim.Native.String
use Prim.Native.String.{◌++◌}
use text.Mathlib.Text.{find?}
use authentik_operator.Prelude.{
  ℕ, String, Bool, true, false, ◌&&◌, not, Option, none, some, List, [], ◌∷◌, is_some, nat_eq,
  string_eq, ◌==◌, if◌then◌else◌, ◌||◌, Eq, String_discrete, length,
}
use authentik_operator.Models.{Named, ObjectPermission, RoleAssignment}
use authentik_operator.Patch.Sets.{put}
use authentik_operator.Effect.{
  Error, Result, ok, err, other, wrapped, as_api, Call, find_roles_by_name, create_role,
  assign_object_permission, unassign_object_permission, list_object_permission_roles,
  list_role_object_permissions, Object, Action, State, Env, pure, raise, gets, asks, attempt,
  modify, call, wrap, of_result, ◌>>=◌, ◌>>◌,
}

abbrev pub model_application : String
model_application = "authentik_core.application"

abbrev pub model_proxy_provider : String
model_proxy_provider = "authentik_providers_proxy.proxyprovider"

abbrev pub model_oauth2_provider : String
model_oauth2_provider = "authentik_providers_oauth2.oauth2provider"

abbrev pub model_policy_binding : String
model_policy_binding = "authentik_policies.policybinding"

unfoldable pub Object_discrete : Discrete Object
Object_discrete = hlevel String_discrete

instance abbrev pub object_eq : Eq Object
object_eq = record { dec = Object_discrete }

-- `RoleName`
unfoldable pub role_name : String → String → Result String
role_name cluster_name owner_role =
    if not (owner_role == "")
    then ok owner_role
    else if cluster_name == ""
    then err (other "either --cluster-name or --owner-role must be specified")
    else ok ("authentik-operator-" ++ cluster_name)

-- `strings.Cut(s, ".")`: the text before the first dot and the text after it
unfoldable pub cut_dot : String → String × String
cut_dot String.[] = ("", "")
cut_dot (String.◌∷◌ c s) =
    let (before, after) = cut_dot s in
    if code c == b'.' then ("", s) else (String.◌∷◌ c before, after)

unfoldable pub view_permission : String → String
unfolding cut_dot
view_permission model = let (app_label, name) = cut_dot model in app_label ++ (".view_" ++ name)

unfoldable pub model_of : String → String → String
model_of app_label model = app_label ++ ("." ++ model)

-- the switch of `findRole` on the number of roles
unfoldable pub one_role : String → List Named → Action (Option String)
one_role name [] = pure none
one_role name (role ∷ []) = pure (some role.pk)
one_role name (role ∷ second ∷ rest) =
    let count = itoa (pos (length (role ∷ second ∷ rest))) in
    raise (other (concat_text ("found " ∷ count ∷ " roles named " ∷ quote name ∷ [])))

unfoldable pub find_role : Action (Option String)
unfolding one_role
find_role = do
  name ← asks (λ env. env.role_name)
  roles ←
      wrap (concat_text ("failed to find role " ∷ quote name ∷ [])) (call (find_roles_by_name name))
  one_role name roles

-- after `CreateRole` failed: another replica may have created the role
unfoldable pub found_or : String → Error → Option String → Action String
found_or name create_error (some uuid) = pure uuid
found_or name create_error none =
    raise (wrapped (concat_text ("failed to create role " ∷ quote name ∷ [])) create_error)

unfoldable pub created_or_found : String → Result Named → Action String
unfolding found_or
created_or_found name (ok role) = pure role.pk
created_or_found name (err create_error) = do found ← find_role; found_or name create_error found

unfoldable pub or_create : Option String → Action String
unfolding created_or_found
or_create (some uuid) = pure uuid
or_create none = do
  name ← asks (λ env. env.role_name)
  created ← attempt (call (create_role name))
  created_or_found name created

unfoldable pub find_or_create_role : Action String
unfolding or_create
find_or_create_role = do found ← find_role; or_create found

-- `EnsureRole`: the UUID of the role, and the one that was remembered before
unfoldable pub ensure_role : Action (String × String)
ensure_role = do
  uuid ← find_or_create_role
  previous ← gets (λ s. s.role_uuid)
  modify (λ s. record s { role_uuid = uuid })
  pure (uuid, previous)

unfoldable pub remembered_or_ensured : String → Action String
remembered_or_ensured uuid =
    if not (uuid == "") then pure uuid else do current ← ensure_role; pure current.0

unfoldable pub role : Action String
unfolding remembered_or_ensured
role = do uuid ← gets (λ s. s.role_uuid); remembered_or_ensured uuid

unfoldable pub message_on : String → Object → String
message_on action object = concat_text (action ∷ " " ∷ object.model ∷ " " ∷ object.pk ∷ [])

unfoldable pub mark : Object → Action Unit
mark object = do
  uuid ← role
  wrap (message_on "failed to mark" object)
      (call (assign_object_permission uuid object.model object.pk (view_permission object.model)))

-- A 400 response whose body names the field object_pk says that the object does not exist.
unfoldable pub says_missing : Option (ℕ × String) → Bool
says_missing none = false
says_missing (some (status, body)) = status == 400 && is_some (find? body "object_pk")

unfoldable pub exists_after : Object → Result (Unit {0}) → Action Bool
unfolding says_missing
exists_after object (ok _) = pure true
exists_after object (err e) =
    if says_missing (as_api e)
    then pure false
    else raise (wrapped (message_on "failed to mark" object) e)

unfoldable pub mark_if_exists : Object → Action Bool
unfolding exists_after
mark_if_exists object = do
  uuid ← role
  answer ←
      attempt
        (call (assign_object_permission uuid object.model object.pk (view_permission object.model)))
  exists_after object answer

unfoldable pub unmark : Object → Action Unit
unmark object = do
  uuid ← role
  wrap (message_on "failed to unmark" object)
      (call (unassign_object_permission uuid object.model object.pk (view_permission object.model)))

-- the inner loop of `IsManaged`
unfoldable pub has_permission : Object → List ObjectPermission → Bool
has_permission object [] = false
has_permission object (permission ∷ rest) =
    (model_of permission.app_label permission.model == object.model
      && permission.object_pk == object.pk)
    || has_permission object rest

-- the outer loop of `IsManaged`
unfoldable pub has_marker : String → Object → List RoleAssignment → Bool
unfolding has_permission
has_marker uuid object [] = false
has_marker uuid object (assignment ∷ rest) =
    (assignment.role_pk == uuid && has_permission object assignment.object_permissions)
    || has_marker uuid object rest

unfoldable pub is_managed : Object → Action Bool
is_managed object = do
  uuid ← role
  assignments ←
      wrap (message_on "failed to look up the owner of" object)
        (call (list_object_permission_roles object.model object.pk))
  pure (has_marker uuid object assignments)

-- the loop of `ListManaged`, which fills a set
unfoldable pub marked_objects : List Object → List ObjectPermission → List Object
marked_objects objects [] = objects
marked_objects objects (permission ∷ rest) =
    marked_objects
      (put objects (record {
        model = model_of permission.app_label permission.model;
        pk = permission.object_pk;
      }))
      rest

unfoldable pub list_managed : Action (List Object)
unfolding marked_objects
list_managed = do
  uuid ← role
  name ← asks (λ env. env.role_name)
  permissions ←
      wrap (concat_text ("failed to list the markers of role " ∷ quote name ∷ []))
        (call (list_role_object_permissions uuid))
  pure (marked_objects [] permissions)
