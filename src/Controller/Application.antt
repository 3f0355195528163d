-- ===== src/Controller/Application.antt =====
-- The Application: internal/controller/application.go. The log lines are not modelled.
pub mod Calls
pub mod Consent
use authentik_operator.Controller.Status.{patch_status}
use authentik_operator.Desired.Application.{desired_application, create_application_request}
use authentik_operator.Ownership.{model_application}
use authentik_operator.Ownership.Cache.{is_managed_cached, ensure}
use authentik_operator.Patch.Application.{diff_application}
use authentik_operator.Prelude.Int.{ℤ}
use authentik_operator.Models.{PatchedApplicationRequest, Application}
use authentik_operator.Reference.{Resolved}
use authentik_operator.Api.{AuthentikApplicationSpec}
use authentik_operator.Controller.Adoption.{adopt_application}
use authentik_operator.Effect.{
  Action, Result, ◌>>=◌, State, Object, ◌>>◌, gets, call, modify, err, attempt, pure,
  create_application, get_application, patch_application, is_not_found, note, record_event, raise,
  recreated, created, ok,
}
use authentik_operator.Prelude.{String, Option, none, if◌then◌else◌, not, ◌==◌, some, string_eq}

abbrev pub application_object : Application → Object
application_object application = record { model = model_application; pk = application.pk }

unfoldable pub set_application : String → String → State → State
set_application slug pk s = record s {
  app = record s.app {
    status = record s.app.status { application_slug = slug; application_pk = pk };
  };
}

-- an Application that is gone is created again, and the record of it is dropped
unfoldable pub forget_application : Action Unit
unfolding set_application
forget_application = do
  app ← gets (λ s. s.app)
  if app.status.application_pk == ""
      then pure tt
      else do note (record_event recreated); modify (set_application "" "")

-- The pk is recorded before the marker is attached.
unfoldable pub take_over : Application → Action Unit
unfolding set_application
take_over application = do
  modify (set_application application.slug application.pk)
  patch_status
  ensure (application_object application)

-- an Application that the status does not record is managed by its marker, or adopted
unfoldable pub take_over_unrecorded : Resolved → Application → Action Unit
unfolding adopt_application take_over
take_over_unrecorded resolved observed = do
  managed ← is_managed_cached (application_object observed)
  if managed then pure tt else adopt_application resolved observed
  take_over observed

unfoldable pub observed_answer : Resolved → Result Application → Action (Option Application)
unfolding forget_application take_over_unrecorded
observed_answer resolved (err e) =
    if not (is_not_found e) then raise e else do forget_application; pure none
observed_answer resolved (ok observed) = do
  app ← gets (λ s. s.app)
  if app.status.application_pk == observed.pk
      then ensure (application_object observed)
      else take_over_unrecorded resolved observed
  pure (some observed)

unfoldable pub observe_application : Resolved → Action (Option Application)
unfolding observed_answer
observe_application resolved = do
  app ← gets (λ s. s.app)
  answer ← attempt (call (get_application app.spec.slug))
  observed_answer resolved answer

-- the patch of the fields that differ
unfoldable pub send_patch : Application → Option PatchedApplicationRequest → Action Application
send_patch observed none = pure observed
send_patch observed (some patch) = call (patch_application observed.slug patch)

unfoldable pub repair_application : PatchedApplicationRequest → Application → Action Application
unfolding send_patch
repair_application desired observed = send_patch observed (diff_application desired observed)

unfoldable pub create_or_repair :
    AuthentikApplicationSpec → PatchedApplicationRequest → Option Application → Action Application
unfolding take_over repair_application
create_or_repair spec desired none = do
  application ← call (create_application (create_application_request spec.slug desired))
  take_over application
  note (record_event created)
  pure application
create_or_repair spec desired (some observed) = repair_application desired observed

unfoldable pub reconcile_application : Option Application → Option ℤ → Action Application
unfolding create_or_repair
reconcile_application observed provider_pk = do
  app ← gets (λ s. s.app)
  create_or_repair app.spec (desired_application app.spec provider_pk) observed
