-- ===== src/Controller/Provider.antt =====
-- The reconcile of the Provider: internal/controller/provider.go, with `providerTypeMismatch` of
-- internal/controller/adoption.go. The log lines are not modelled.
pub mod Observed
pub mod ProxyHandler
pub mod OAuth2Handler
pub mod Choice
pub mod Records
pub mod Candidates
pub mod Chosen
pub mod Tame
pub mod ProxyTame
pub mod OAuth2Tame
pub mod Calls
use authentik_operator.Controller.Status.{patch_status}
use authentik_operator.Ownership.Cache.{ensure}
use authentik_operator.Prelude.Text.{concat_text, quote, itoa}
use authentik_operator.Desired.Application.{provider_name}
use authentik_operator.Api.{AuthentikApplicationSpec, ProviderSpec, Reason}
use authentik_operator.Models.{Application, Nullable}
use authentik_operator.Reference.{Resolved}
use authentik_operator.Controller.Provider.Choice.{provider_handler}
use authentik_operator.Prelude.Int.{ℤ, int_eq, wrap32}
use authentik_operator.Controller.Provider.Observed.{ProviderHandler, ObservedProvider}
use authentik_operator.Prelude.{
  Option, String, List, Bool, none, false, true, some, ◌∷◌, ◌==◌, if◌then◌else◌, not, [], string_eq,
}
use authentik_operator.Effect.{
  Result, Action, State, Error, pure, ◌>>=◌, stop, ok, attempt, gets, err, ◌>>◌, modify, raise,
  note, record_event, is_not_found, recreated, created,
}

unfoldable pub set_provider_pk : Option ℤ → State → State
set_provider_pk pk s = record s {
  app = record s.app { status = record s.app.status { provider_pk = pk } };
}

unfoldable pub provider_type_mismatch : String → ℤ → String → Error
provider_type_mismatch slug pk kind = stop Reason.provider_type_mismatch (
    concat_text (
      "Application "
      ∷ quote slug
      ∷ " has a Provider "
      ∷ itoa pk
      ∷ " that is not a "
      ∷ kind
      ∷ " Provider"
      ∷ []))

-- a Provider of the other type under the pk stops the reconcile
unfoldable pub refuse_other_type : ProviderHandler → String → ℤ → Action Unit
unfolding provider_type_mismatch
refuse_other_type handler slug pk = do
  other_type ← handler.exists_as_other_type pk
  if other_type then raise (provider_type_mismatch slug pk handler.kind) else pure tt

-- the answer of `get` for the recorded pk: `none` to try the next way
unfoldable pub recorded_answer : Result ObservedProvider → Action (Option ObservedProvider)
unfolding set_provider_pk
recorded_answer (ok provider) = pure (some provider)
recorded_answer (err e) =
    if not (is_not_found e)
    then raise e
    else do note (record_event recreated); modify (set_provider_pk none); pure none

-- the Provider that the status records
unfoldable pub find_recorded : ProviderHandler → Option ℤ → Action (Option ObservedProvider)
unfolding recorded_answer
find_recorded handler none = pure none
find_recorded handler (some pk) = do
  answer ← attempt (handler.get (wrap32 pk))
  recorded_answer answer

-- the answer of `get` for the pk of the attached Provider
unfoldable pub attached_answer :
    ProviderHandler → String → ℤ → Result ObservedProvider → Action (Option ObservedProvider)
unfolding refuse_other_type
attached_answer handler slug pk (ok provider) = pure (some provider)
attached_answer handler slug pk (err e) =
    if not (is_not_found e) then raise e else do refuse_other_type handler slug pk; pure none

-- the Provider attached to the Application
unfoldable pub find_attached :
    ProviderHandler → String → Nullable ℤ → Action (Option ObservedProvider)
unfolding attached_answer
find_attached handler slug (some (some pk)) = do
  answer ← attempt (handler.get pk)
  attached_answer handler slug pk answer
find_attached handler slug (some none) = pure none
find_attached handler slug none = pure none

unfoldable pub find_attached_to :
    ProviderHandler → Option Application → Action (Option ObservedProvider)
unfolding find_attached
find_attached_to handler none = pure none
find_attached_to handler (some application) =
    find_attached handler application.slug application.provider

-- no Application uses the Provider, or the one with the slug
unfoldable pub is_candidate : String → Option String → Bool
is_candidate slug none = true
is_candidate slug (some assigned) = assigned == slug

-- the loop over the Providers with the name
unfoldable pub first_candidate : String → List ObservedProvider → Option ObservedProvider
unfolding is_candidate
first_candidate slug [] = none
first_candidate slug (candidate ∷ rest) =
    let next = first_candidate slug rest in
    if is_candidate slug candidate.assigned_application then some candidate else next

unfoldable pub find_named : ProviderHandler → String → String → Action (Option ObservedProvider)
unfolding first_candidate
find_named handler slug name = do
  candidates ← handler.find_by_name name
  pure (first_candidate slug candidates)

-- what was found, or else what the next way finds
unfoldable pub or_find :
    Option ObservedProvider → Action (Option ObservedProvider) → Action (Option ObservedProvider)
or_find (some provider) next = pure (some provider)
or_find none next = next

unfoldable pub find_provider :
    ProviderHandler
    → AuthentikApplicationSpec
    → ProviderSpec
    → Option Application
    → Action (Option ObservedProvider)
unfolding find_recorded find_attached_to find_named or_find
find_provider handler spec provider application = do
  pk ← gets (λ s. s.app.status.provider_pk)
  recorded ← find_recorded handler pk
  or_find recorded (do
    attached ← find_attached_to handler application
    or_find attached (find_named handler spec.slug (provider_name spec.slug provider)))

-- the pk of the found Provider, or of a new one
unfoldable pub found_or_created : ProviderHandler → String → Option ObservedProvider → Action ℤ
found_or_created handler name (some provider) = pure provider.pk
found_or_created handler name none = do
  pk ← handler.create name
  note (record_event created)
  pure pk

-- the pk is written to the status unless it is recorded already
unfoldable pub is_recorded_pk : Option ℤ → ℤ → Bool
is_recorded_pk none pk = false
is_recorded_pk (some recorded) pk = recorded == pk

unfoldable pub record_provider_pk : ℤ → Action Unit
unfolding set_provider_pk is_recorded_pk
record_provider_pk pk = do
  recorded ← gets (λ s. s.app.status.provider_pk)
  if is_recorded_pk recorded pk
      then pure tt
      else do modify (set_provider_pk (some pk)); patch_status

-- a Provider that existed is repaired
unfoldable pub sync_found : Option ObservedProvider → Action Unit
sync_found none = pure tt
sync_found (some provider) = provider.sync

unfoldable pub reconcile_provider_with :
    ProviderHandler → AuthentikApplicationSpec → ProviderSpec → Option Application → Action ℤ
unfolding find_provider found_or_created record_provider_pk sync_found
reconcile_provider_with handler spec provider application = do
  found ← find_provider handler spec provider application
  pk ← found_or_created handler (provider_name spec.slug provider) found
  record_provider_pk pk
  ensure (record { model = handler.model; pk = itoa pk })
  sync_found found
  pure pk

unfoldable pub reconcile_provider : Resolved → ProviderSpec → Option Application → Action ℤ
unfolding reconcile_provider_with provider_handler
reconcile_provider resolved provider application = do
  app ← gets (λ s. s.app)
  handler ← provider_handler app provider resolved
  reconcile_provider_with handler app.spec provider application
