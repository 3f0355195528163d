-- ===== src/Controller/Deletion.antt =====
-- The finalizer and the release of the objects: internal/controller/deletion.go.
pub mod Laws
pub mod Finalizer
use authentik_operator.Prelude.{
  ℕ, String, Bool, true, false, not, ◌&&◌, Option, none, some, List, [], ◌∷◌, ◌++◌, map, get_or,
  string_eq, ◌==◌, if◌then◌else◌, is_some,
}
use authentik_operator.Prelude.Int.{ℤ, wrap32}
use authentik_operator.Prelude.Text.{itoa, concat_text}
use authentik_operator.Api.{
  AuthentikApplication, DeletionPolicy, retain, delete, ProviderSpec, ProxyProviderSpec, Reason,
}
use authentik_operator.Models.{Application}
use authentik_operator.Effect.{
  Error, Result, ok, err, joined, wrapped, error_text, is_not_found, is_kube_not_found, Call,
  get_application, delete_application, delete_policy_binding, delete_proxy_provider,
  delete_oauth2_provider, patch_finalizers, record_event, deleted, Object, State, Action, pure,
  raise, gets, asks, attempt, of_result, modify, call, note, wrap, ignore_not_found, ◌>>=◌, ◌>>◌,
}
use authentik_operator.Ownership.{
  model_application, model_proxy_provider, model_oauth2_provider, model_policy_binding,
}
use authentik_operator.Ownership.Cache.{remove}
use authentik_operator.Controller.Outpost.{leave_outpost}
use authentik_operator.Controller.Status.{set_ready, patch_status}

abbrev pub finalizer : String
finalizer = "authentik.starry.blue/finalizer"

abbrev pub binding_object : String → Object
binding_object uuid = record { model = model_policy_binding; pk = uuid }

unfoldable pub set_finalizers : List String → State → State
set_finalizers names s = record s { app = record s.app { finalizers = names } }

unfoldable pub ensure_finalizer : Action Unit
unfolding set_finalizers
ensure_finalizer = do
  app ← gets (λ s. s.app)
  add ← asks (λ env. env.add_finalizer)
  let (names, added) = add app.finalizers finalizer
  if not added then pure tt else do
    modify (set_finalizers names)
    wrap "failed to add the finalizer" (call (patch_finalizers names))

-- `deletionPolicy` is Delete
unfoldable pub is_delete : Option DeletionPolicy → Bool
is_delete none = false
is_delete (some retain) = false
is_delete (some delete) = true

-- the loop over the recorded Bindings; the markers to remove
unfoldable pub release_bindings : Bool → List String → Action (List Object)
release_bindings removes [] = pure []
release_bindings removes (uuid ∷ uuids) = do
  if removes then ignore_not_found (call (delete_policy_binding uuid)) else pure tt
  rest ← release_bindings removes uuids
  pure (binding_object uuid ∷ rest)

-- `cmp.Or(app.Status.ApplicationSlug, app.Spec.Slug)`
unfoldable pub released_slug : AuthentikApplication → String
released_slug app =
    if not (app.status.application_slug == "") then app.status.application_slug else app.spec.slug

-- what is done with the answer of `GetApplication`
unfoldable pub delete_if_recorded : AuthentikApplication → String → Result Application → Action Unit
delete_if_recorded app slug (ok observed) =
    if not (observed.pk == app.status.application_pk)
    then pure tt
    else ignore_not_found (call (delete_application slug))
delete_if_recorded app slug (err e) = if is_not_found e then pure tt else raise e

-- `deleteApplication`
unfoldable pub delete_application_of : AuthentikApplication → Action Unit
unfolding delete_if_recorded released_slug
delete_application_of app = do
  answer ← attempt (call (get_application (released_slug app)))
  delete_if_recorded app (released_slug app) answer

unfoldable pub release_application : Bool → AuthentikApplication → Action (List Object)
unfolding delete_application_of
release_application removes app =
    if not (app.status.application_pk == "")
    then (do
      if removes then delete_application_of app else pure tt
      pure (record { model = model_application; pk = app.status.application_pk } ∷ []))
    else pure []

-- `deleteProvider`, by `app.Spec.Provider.Proxy`
unfoldable pub delete_provider : Option ProxyProviderSpec → ℤ → Action Unit
delete_provider (some proxy) pk = do
  leave_outpost proxy.outpost pk
  ignore_not_found (call (delete_proxy_provider pk))
delete_provider none pk = ignore_not_found (call (delete_oauth2_provider pk))

unfoldable pub provider_model : ProviderSpec → String
provider_model provider =
    if is_some provider.proxy then model_proxy_provider else model_oauth2_provider

-- `pk` is the recorded key as an int32
unfoldable pub release_known_provider : Bool → ProviderSpec → ℤ → Action (List Object)
unfolding delete_provider provider_model
release_known_provider removes provider pk = do
  if removes then delete_provider provider.proxy pk else pure tt
  pure (record { model = provider_model provider; pk = itoa pk } ∷ [])

unfoldable pub release_provider : Bool → Option ℤ → Option ProviderSpec → Action (List Object)
unfolding release_known_provider
release_provider removes (some pk) (some provider) =
    release_known_provider removes provider (wrap32 pk)
release_provider removes (some pk) none = pure []
release_provider removes none provider = pure []

unfoldable pub remove_markers : List Object → Action Unit
remove_markers [] = pure tt
remove_markers (object ∷ rest) = do remove object; remove_markers rest

unfoldable pub release_app : AuthentikApplication → Action Unit
unfolding is_delete release_bindings release_application release_provider remove_markers
release_app app = do
  bindings ← release_bindings (is_delete app.spec.deletion_policy) app.status.binding_uuids
  application ← release_application (is_delete app.spec.deletion_policy) app
  provider ←
      release_provider (is_delete app.spec.deletion_policy) app.status.provider_pk app.spec.provider
  remove_markers (bindings ++ (application ++ provider))
  if is_delete app.spec.deletion_policy then note (record_event deleted) else pure tt

unfoldable pub observe_generation : State → State
observe_generation s = record s {
  app = record s.app { status = record s.app.status { observed_generation = s.app.generation } };
}

-- `client.IgnoreNotFound` on the error of the finalizer patch
unfoldable pub finalizer_removed : Result (Unit {0}) → Action (Option ℕ)
finalizer_removed (ok _) = pure none
finalizer_removed (err e) =
    if is_kube_not_found e then pure none else raise (wrapped "failed to remove the finalizer" e)

-- `errors.Join(err, r.patchStatus(ctx, s))`; joined with nil, an error keeps its text and its chain
unfoldable pub join_errors : Error → Result (Unit {0}) → Error
join_errors e (ok _) = e
join_errors e (err f) = joined e f

unfoldable pub finish_release : Result (Unit {0}) → Action (Option ℕ)
unfolding finalizer_removed join_errors observe_generation set_finalizers
finish_release (err e) = do
  modify (λ s. record s { base = s.app.status })
  modify observe_generation
  set_ready false Reason.api_failure
      (concat_text ("Failed to release the objects in authentik: " ∷ error_text e ∷ []))
  patched ← attempt patch_status
  raise (join_errors e patched)
finish_release (ok _) = do
  app ← gets (λ s. s.app)
  drop ← asks (λ env. env.remove_finalizer)
  modify (set_finalizers (drop app.finalizers finalizer))
  patched ← attempt (call (patch_finalizers (drop app.finalizers finalizer)))
  finalizer_removed patched

-- a resource whose finalizer is gone is left alone; the result is `RequeueAfter`, when it is set
unfoldable pub finalize_app : AuthentikApplication → Bool → Action (Option ℕ)
unfolding release_app finish_release
finalize_app app has_finalizer =
    if not has_finalizer
    then pure none
    else do released ← attempt (release_app app); finish_release released

unfoldable pub finalize : Action (Option ℕ)
unfolding finalize_app
finalize = do
  app ← gets (λ s. s.app)
  contains ← asks (λ env. env.contains_finalizer)
  finalize_app app (contains app.finalizers finalizer)
