-- ===== src/Controller/Adoption.antt =====
-- The adoption of an unmanaged Application: `adoptApplication` and `attachedProvider` of
-- internal/controller/adoption.go.
pub mod Match
use authentik_operator.Models.Json.{patched_application, application}
use authentik_operator.Controller.FieldDiffs.Tables.{application_field_paths}
use authentik_operator.Controller.FieldDiffs.{field_diffs}
use authentik_operator.Desired.Application.{desired_application}
use authentik_operator.Patch.Application.{diff_application}
use authentik_operator.Prelude.Int.{ℤ, pos}
use authentik_operator.Effect.{
  Action, State, pure, raise, ◌>>=◌, stop, ◌>>◌, gets, modify, note, record_event, adopted,
}
use authentik_operator.Controller.Provider.{find_attached}
use authentik_operator.Prelude.Text.{concat_text, quote, itoa}
use authentik_operator.Models.{Application, PatchedApplicationRequest}
use authentik_operator.Controller.Provider.Choice.{provider_handler}
use authentik_operator.Api.{
  AuthentikApplicationSpec, AdoptionPolicy, FieldDiff, AuthentikApplication, ProviderSpec, Reason,
  never, if_match, force,
}
use authentik_operator.Prelude.{List, Option, String, ◌∷◌, none, [], some, ◌++◌, get_or, length}
use authentik_operator.Controller.Provider.Observed.{get_nullable, ObservedProvider}
use authentik_operator.Reference.{Resolved}

unfoldable pub set_adoption_diffs : List FieldDiff → State → State
set_adoption_diffs diffs s = record s {
  app = record s.app { status = record s.app.status { adoption_diffs = diffs } };
}

-- the handler of the resource, when the Application has a Provider
unfoldable pub attached_with :
    AuthentikApplication
    → Resolved
    → ProviderSpec
    → Application
    → Option ℤ
    → Action (Option ObservedProvider)
unfolding provider_handler find_attached
attached_with app resolved provider observed none = pure none
attached_with app resolved provider observed (some pk) = do
  handler ← provider_handler app provider resolved
  find_attached handler observed.slug (some (some pk))

unfoldable pub attached_by :
    AuthentikApplication
    → Resolved
    → Option ProviderSpec
    → Application
    → Action (Option ObservedProvider)
unfolding attached_with get_nullable
attached_by app resolved none observed = pure none
attached_by app resolved (some provider) observed =
    attached_with app resolved provider observed (get_nullable observed.provider)

unfoldable pub attached_provider :
    AuthentikApplication → Resolved → Application → Action (Option ObservedProvider)
unfolding attached_by
attached_provider app resolved observed = attached_by app resolved app.spec.provider observed

unfoldable pub patch_diffs :
    Application → Option PatchedApplicationRequest → Action (List FieldDiff)
patch_diffs observed none = pure []
patch_diffs observed (some patch) =
    field_diffs application_field_paths (patched_application patch) (application observed)

unfoldable pub application_diffs : AuthentikApplicationSpec → Application → Action (List FieldDiff)
unfolding patch_diffs
application_diffs spec observed =
    patch_diffs observed (diff_application (desired_application spec none) observed)

unfoldable pub provider_diffs : Option ObservedProvider → Action (List FieldDiff)
provider_diffs none = pure []
provider_diffs (some provider) = provider.diffs

-- any difference is recorded and stops the reconcile
unfoldable pub refuse_diffs : List FieldDiff → Action Unit
unfolding set_adoption_diffs
refuse_diffs [] = pure tt
refuse_diffs (diff ∷ diffs) = do
  modify (set_adoption_diffs (diff ∷ diffs))
  raise (
      stop Reason.adoption_diff
        (concat_text (itoa (pos (length (diff ∷ diffs))) ∷ " fields differ" ∷ [])))

unfoldable pub require_match :
    AuthentikApplicationSpec → Application → Option ObservedProvider → Action Unit
unfolding application_diffs provider_diffs refuse_diffs
require_match spec observed provider = do
  ours ← application_diffs spec observed
  theirs ← provider_diffs provider
  refuse_diffs (ours ++ theirs)

unfoldable pub unmanaged_message : String → String
unmanaged_message slug = concat_text (
    "Application "
    ∷ quote slug
    ∷ " exists in authentik and is not managed by the operator; set spec.adopt to adopt it"
    ∷ [])

unfoldable pub adopt_by :
    AdoptionPolicy → AuthentikApplication → Resolved → Application → Action Unit
unfolding unmanaged_message attached_provider require_match
adopt_by never app resolved observed =
    raise (stop Reason.unmanaged (unmanaged_message observed.slug))
adopt_by if_match app resolved observed = do
  provider ← attached_provider app resolved observed
  require_match app.spec observed provider
  note (record_event adopted)
adopt_by force app resolved observed = do
  provider ← attached_provider app resolved observed
  note (record_event adopted)

unfoldable pub adopt_application : Resolved → Application → Action Unit
unfolding adopt_by
adopt_application resolved observed = do
  app ← gets (λ s. s.app)
  adopt_by (get_or app.spec.adopt never) app resolved observed
