-- ===== src/Controller/Reconcile.antt =====
-- `Reconcile`, `reconcile` and `finish` of internal/controller/authentikapplication_controller.go,
-- and `checkConflict` of internal/controller/conflict.go.
pub mod Conflict
pub mod Calls
pub mod Live
pub mod Outcome
use authentik_operator.Controller.Outpost.{reconcile_outpost}
use authentik_operator.Controller.Bindings.{reconcile_bindings}
use authentik_operator.Controller.Credentials.{export_credentials}
use authentik_operator.Controller.Adoption.{set_adoption_diffs}
use authentik_operator.Controller.Status.{set_ready, reason_eq, patch_status}
use authentik_operator.Controller.Deletion.{observe_generation, finalize, ensure_finalizer}
use authentik_operator.Resolver.Resolve.{resolve}
use authentik_operator.Controller.Application.{observe_application, reconcile_application}
use authentik_operator.Prelude.Text.{concat_text, quote}
use authentik_operator.Controller.Provider.{reconcile_provider}
use authentik_operator.Reference.Failures.{Failure, failures_reason, failures_text}
use authentik_operator.Prelude.Int.{ℤ}
use authentik_operator.Models.{Application}
use authentik_operator.Prelude.{
  String, Option, List, ℕ, some, Bool, none, false, ◌∷◌, if◌then◌else◌, true, not, is_some, ◌==◌,
  [],
}
use authentik_operator.Api.{
  AuthentikApplicationSpec, AuthentikApplication, ProviderSpec, Reason, api_failure, adoption_diff,
  ProxyProviderSpec,
}
use authentik_operator.Conflict.{passes, winner}
use authentik_operator.Effect.{
  Result, Error, Action, ok, State, ◌>>=◌, stop, ◌>>◌, modify, asks, gets, err, attempt, pure,
  raise, wrap, joined, as_references, call, as_stop, get_resource, is_kube_not_found,
  list_resources_with_slug, error_text, nil_dereference,
}
use authentik_operator.Reference.{Resolved, OAuth2References, ProxyReferences}

unfoldable pub conflict_stop : AuthentikApplication → AuthentikApplication → Error
conflict_stop app other = stop Reason.conflict (
    concat_text
      ("slug " ∷ quote app.spec.slug ∷ " is managed by " ∷ other.namespace ∷ "/" ∷ other.name ∷ []))

unfoldable pub check_conflict : Action Unit
unfolding passes conflict_stop
check_conflict = do
  app ← gets (λ s. s.app)
  items ←
      wrap (concat_text ("failed to list resources with slug " ∷ quote app.spec.slug ∷ []))
        (call (list_resources_with_slug app.spec.slug))
  if passes app items then pure tt else raise (conflict_stop app (winner app items))

-- the Outpost of a Proxy Provider
unfoldable pub outpost_step : Option ProxyProviderSpec → Option ProxyReferences → ℤ → Action Unit
outpost_step none refs pk = pure tt
outpost_step (some proxy) none pk = raise nil_dereference
outpost_step (some proxy) (some refs) pk = reconcile_outpost refs.outpost pk

-- whether the credentials are resolved and their Secret does not exist
unfoldable pub lacks_secret : Option OAuth2References → Bool
lacks_secret none = false
lacks_secret (some refs) = elim refs.credentials [
  | none ↦ false
  | some credentials ↦ not credentials.secret_exists
]

unfoldable pub provider_steps : ProviderSpec → Resolved → Option Application → Action (Option ℤ)
unfolding outpost_step lacks_secret
provider_steps provider resolved observed = do
  pk ← reconcile_provider resolved provider observed
  outpost_step provider.proxy resolved.proxy pk
  if lacks_secret resolved.oauth2 then export_credentials pk else pure tt
  pure (some pk)

unfoldable pub maybe_provider_steps :
    Option ProviderSpec → Resolved → Option Application → Action (Option ℤ)
unfolding provider_steps
maybe_provider_steps none resolved observed = pure none
maybe_provider_steps (some provider) resolved observed = provider_steps provider resolved observed

-- what follows once the references are resolved
unfoldable pub apply_resolved : Resolved → Action Unit
unfolding maybe_provider_steps
apply_resolved resolved = do
  app ← gets (λ s. s.app)
  observed ← observe_application resolved
  pk ← maybe_provider_steps app.spec.provider resolved observed
  application ← reconcile_application observed pk
  reconcile_bindings application.pbm_uuid resolved.rules

unfoldable pub reconcile_app : Action Unit
unfolding check_conflict apply_resolved
reconcile_app = do
  check_conflict
  app ← gets (λ s. s.app)
  resolved ← resolve app
  apply_resolved resolved

-- the status and the reason of the Ready condition, with its message
unfoldable pub outcome_of_references : Error → Option (List Failure) → Reason × String
outcome_of_references e (some failures) = (failures_reason failures, failures_text failures)
outcome_of_references e none = (api_failure, error_text e)

unfoldable pub outcome_of_error : Error → Option (Reason × String) → Reason × String
unfolding outcome_of_references
outcome_of_error e (some stopped) = stopped
outcome_of_error e none = outcome_of_references e (as_references e)

-- `stop.reason` is AdoptionDiff
unfoldable pub is_adoption_diff : Option (Reason × String) → Bool
is_adoption_diff none = false
is_adoption_diff (some (reason, message)) = reason == adoption_diff

unfoldable pub set_applied_hash : (AuthentikApplicationSpec → String) → State → State
set_applied_hash hash s = record s {
  app = record s.app { status = record s.app.status { last_applied_hash = hash s.app.spec } };
}

abbrev pub success_message : String
success_message = "The Application, the Provider, and the Bindings match the spec"

-- the switch of `finish`
unfoldable pub report_outcome : Result (Unit {0}) → Action Unit
unfolding set_applied_hash outcome_of_error
report_outcome (ok _) = do
  hash ← asks (λ env. env.spec_hash)
  modify (set_applied_hash hash)
  set_ready true Reason.reconciled success_message
report_outcome (err e) =
    let (reason, message) = outcome_of_error e (as_stop e) in set_ready false reason message

unfoldable pub stop_of : Result (Unit {0}) → Option (Reason × String)
stop_of (ok _) = none
stop_of (err e) = as_stop e

-- `errors.Join(err, patchErr)`; joined with nil, an error keeps its text and its chain
unfoldable pub join_patch : Result (Unit {0}) → Error → Error
join_patch (ok _) patch_error = patch_error
join_patch (err e) patch_error = joined e patch_error

-- the requeue, after the status was written or was not
unfoldable pub requeue : Result (Unit {0}) → Result (Unit {0}) → Action (Option ℕ)
unfolding join_patch
requeue result (err patch_error) = raise (join_patch result patch_error)
requeue (ok _) (ok _) = asks (λ env. some env.resync_interval)
requeue (err e) (ok _) =
    if is_some (as_stop e) then asks (λ env. some env.resync_interval) else raise e

unfoldable pub finish : Result (Unit {0}) → Action (Option ℕ)
unfolding report_outcome stop_of requeue is_adoption_diff
finish result = do
  modify observe_generation
  if is_adoption_diff (stop_of result) then pure tt else modify (set_adoption_diffs [])
  report_outcome result
  patched ← attempt patch_status
  requeue result patched

-- a resource that was read
unfoldable pub reconcile_found : AuthentikApplication → Action (Option ℕ)
unfolding reconcile_app finish
reconcile_found app = do
  modify (λ s. record s { app = app })
  if is_some app.deletion_timestamp then finalize else do
    ensure_finalizer
    modify (λ s. record s { base = s.app.status })
    result ← attempt reconcile_app
    finish result

unfoldable pub read_resource : Result AuthentikApplication → Action (Option ℕ)
unfolding reconcile_found
read_resource (ok app) = reconcile_found app
read_resource (err e) = if is_kube_not_found e then pure none else raise e

-- `Reconcile` of the resource of a namespace and a name; the result is `RequeueAfter`, when set
unfoldable pub reconcile : String → String → Action (Option ℕ)
unfolding read_resource
reconcile namespace name = do
  answer ← attempt (call (get_resource namespace name))
  read_resource answer
