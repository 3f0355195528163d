-- ===== src/Tests/Effects.antt =====
-- Markers, the deletion and the Outpost at concrete services, which answer the markers' writes and
-- fail on every other call.
use authentik_operator.Prelude.Text.{concat_text, quote}
use authentik_operator.Patch.Sets.{put}
use authentik_operator.Ownership.Cache.Orphans.{Justified, collect-Justified}
use authentik_operator.Prelude.{
  ◌≡◌, refl, ap, true, false, none, some, List, [], ◌∷◌, contains, String_discrete, arith, ==_refl,
  ℕ_discrete,
}
use authentik_operator.Prelude.Int.{pos}
use authentik_operator.Api.{AuthentikApplication}
use authentik_operator.Effect.{
  clock, ◌>>=◌, gets, pure, wrap, wrap_result, call, modify, asks, attempt, Error, wrapped, other,
  Result, ok, err, Call, unassign_object_permission, Answer, Env, State, Object,
  list_policy_bindings, list_role_object_permissions, assign_object_permission,
  create_policy_binding, api, find_roles_by_name, of_result, raise, as_api,
}
use authentik_operator.Prelude.{◌↔◌, In}
use authentik_operator.Models.{RoleAssignment}
use authentik_operator.Ownership.{
  has_marker, Object_discrete, list_managed, model_of, mark_if_exists,
}
use authentik_operator.Ownership.Lookup.{Grants, has_marker_iff}
use authentik_operator.Controller.Unmanaged.{handle_unmanaged_bindings}
use authentik_operator.Controller.Unmanaged.Laws.{
  IsDeleteFree, handle_unmanaged_bindings-IsDeleteFree,
}
use authentik_operator.Controller.Bindings.{delete_unkept, write_bindings, reconcile_bindings}
use authentik_operator.Controller.Bindings.Laws.{
  DeletesUnkept, delete_unkept-DeletesUnkept, reconcile_bindings-IsDeleteFree,
}
use authentik_operator.Controller.Bindings.Order.{CreatesAbove, write_bindings-CreatesAbove}
use authentik_operator.Effect.Emits.{Emits, Between}
use authentik_operator.Ownership.{
  unmark, role, ensure_role, find_or_create_role, find_role, object_eq,
}
use authentik_operator.Ownership.Cache.{cached, ensure, remove, collect, objects_of}
use authentik_operator.Ownership.Cache.Laws.{IsFresh, ensure-fresh, ensure-cached}
use authentik_operator.Controller.Outpost.{reconcile_outpost}
use authentik_operator.Controller.Outpost.Laws.{reconcile_outpost-Records}
use authentik_operator.Controller.Deletion.{is_delete, release_application, release_app, finalize}
use authentik_operator.Controller.Deletion.Laws.{Releases, release_app-Releases}
use authentik_operator.Controller.Deletion.Finalizer.{LeavesFinalizers, finalize-LeavesFinalizers}
use authentik_operator.Tests.Data.{older, new_status, open_access, binding_observed, admins_rule}

abbrev answers : List Call → (c : Call) → Result (Answer c)
answers t (unassign_object_permission _ _ _ _) = ok tt
answers t _ = err (other "unavailable")

abbrev env : Env
env = record {
  answer = answers;
  clock = λ t. 5;
  spec_hash = λ spec. "";
  role_name = "authentik-operator-home";
  resync_interval = 10;
  find_condition = λ conditions type. none;
  put_condition = λ conditions c. c ∷ conditions;
  drop_condition = λ conditions type. conditions;
  same_status = λ a b. false;
  contains_finalizer = λ names name. true;
  add_finalizer = λ names name. (names, false);
  remove_finalizer = λ names name. [];
  json_fields = λ m. none;
  json_text = λ j. "";
  set_owner = λ app name. ok tt;
}

abbrev wiki : Object
wiki = record { model = "authentik_core.application"; pk = "a1" }

abbrev deleted_app : AuthentikApplication
deleted_app = record older { status = record new_status { application_pk = "a1" } }

abbrev start : State
start = record {
  trace = [];
  role_uuid = "";
  objects = some (wiki ∷ []);
  fetched = 0;
  app = deleted_app;
  base = new_status;
  failures = [];
}

abbrev known : State
known = record start { role_uuid = "r1" }

fresh : IsFresh env known (wiki ∷ [])
fresh = record { read = refl; recent = refl }

held : contains (wiki ∷ []) wiki ≡ true
unfolding contains
held = ground (arith, ==_refl wiki)

ensure-cached_example : cached (ensure wiki env known).1 wiki ≡ true
ensure-cached_example =
    ensure-cached wiki env known
      (ap (λ r. r.0) (ensure-fresh wiki env known (wiki ∷ []) fresh held))

removed : (remove wiki env known).0 ≡ ok tt
unfolding remove ◌>>=◌ unmark role gets String_discrete pure wrap wrap_result call modify
removed = refl

release_app-Releases_example :
    Emits (Releases (is_delete older.spec.deletion_policy) older) (release_app older)
release_app-Releases_example = release_app-Releases older

abbrev failure : Error
failure = wrapped "failed to find role \"authentik-operator-home\"" (other "unavailable")

release_fails : (release_app start.app env start).0 ≡ err failure
unfolding release_app release_application ◌>>=◌ remove unmark role ensure_role find_or_create_role
    find_role gets asks String_discrete pure wrap wrap_result call modify attempt concat_text quote
    ℕ_discrete
release_fails = refl

finalize_example : Between LeavesFinalizers start (finalize env start).1
finalize_example = finalize-LeavesFinalizers env start failure release_fails

reconcile_outpost_example :
    ((e : Error)
      → (reconcile_outpost "o1" (pos 1) env start).0 ≡ err e
      → (reconcile_outpost "o1" (pos 1) env start).1.app ≡ start.app)
    × ((reconcile_outpost "o1" (pos 1) env start).0 ≡ ok tt
        → (reconcile_outpost "o1" (pos 1) env start).1.app.status.outpost_uuid ≡ "o1")
reconcile_outpost_example = reconcile_outpost-Records "o1" (pos 1) env start

marked : List RoleAssignment
marked =
    record {
      role_pk = "r1";
      object_permissions =
          record { app_label = "authentik_core"; model = "application"; object_pk = "a1" } ∷ [];
    }
    ∷ []

has_marker_iff_example :
    (has_marker "r1" wiki marked ≡ true) ↔ ((a : RoleAssignment) × In a marked × Grants "r1" wiki a)
has_marker_iff_example = has_marker_iff "r1" wiki marked

handle_unmanaged_bindings_example :
    Emits IsDeleteFree (handle_unmanaged_bindings open_access (binding_observed ∷ []))
handle_unmanaged_bindings_example =
    handle_unmanaged_bindings-IsDeleteFree open_access (binding_observed ∷ []) refl

delete_unkept_example :
    Emits
      (DeletesUnkept ("b2" ∷ []) (binding_observed ∷ []))
      (delete_unkept ("b2" ∷ []) (binding_observed ∷ []))
delete_unkept_example = delete_unkept-DeletesUnkept ("b2" ∷ []) (binding_observed ∷ [])

write_fails : (write_bindings "t" (admins_rule ∷ []) env start).0 ≡ err (other "unavailable")
unfolding write_bindings ◌>>=◌ call
write_fails = refl

reconcile_bindings_example :
    Between IsDeleteFree start (reconcile_bindings "t" (admins_rule ∷ []) env start).1
reconcile_bindings_example =
    reconcile_bindings-IsDeleteFree "t" (admins_rule ∷ []) env start (other "unavailable")
      write_fails

-- services that list a Binding and create another one
abbrev creating : List Call → (c : Call) → Result (Answer c)
creating t (list_policy_bindings target) = ok (binding_observed ∷ [])
creating t (create_policy_binding request) = ok (record binding_observed { pk = "b9" })
creating t _ = err (other "unavailable")

abbrev creating_env : Env
creating_env = record env { answer = creating }

write_bindings-CreatesAbove_example :
    Between
      (CreatesAbove (binding_observed ∷ []))
      known
      (write_bindings "t" (admins_rule ∷ []) creating_env known).1
write_bindings-CreatesAbove_example =
    write_bindings-CreatesAbove "t" (admins_rule ∷ []) creating_env known (binding_observed ∷ [])
      100 refl (omega arith, tt) (omega arith)

-- services that name a marked object which does not exist
abbrev orphaned : List Call → (c : Call) → Result (Answer c)
orphaned t (list_role_object_permissions uuid) =
    ok (record { app_label = "authentik_core"; model = "application"; object_pk = "a1" } ∷ [])
orphaned t (assign_object_permission _ _ _ _) =
    err (api "AssignPermission" 400 "{\"object_pk\":[\"not found\"]}")
orphaned t (find_roles_by_name name) = ok (record { pk = "r1"; name = name } ∷ [])
orphaned t (unassign_object_permission _ _ _ _) = ok tt
orphaned t _ = err (other "unavailable")

abbrev orphaned_env : Env
orphaned_env = record env { answer = orphaned }

collect-Justified_example : Justified orphaned_env (collect orphaned_env start).1.trace
collect-Justified_example = collect-Justified orphaned_env start tt

-- the collector removes the marker of the object
collects : (collect orphaned_env start).0 ≡ ok 1
unfolding collect ◌>>=◌ modify attempt gets of_result pure ensure_role find_or_create_role find_role
    asks wrap wrap_result call String_discrete list_managed role clock Object_discrete raise
    objects_of put contains cached model_of mark_if_exists as_api ℕ_discrete unmark
collects = refl
