-- ===== src/Controller/Application/Calls.antt =====
-- The adoption and the reconcile of the Application delete nothing: internal/controller.
use authentik_operator.Controller.Provider.Tame.{Emits-field_diffs}
use authentik_operator.Ownership.Cache.Quiet.{Emits-is_managed_cached}
use authentik_operator.Controller.Bindings.Laws.{IsDeleteFree-IsMarkerCall, ensures}
use authentik_operator.Desired.Application.{desired_application}
use authentik_operator.Controller.Provider.Calls.{
  Found, Gives-provider_handler, Gives-find_attached,
}
use authentik_operator.Ownership.Cache.{is_managed_cached}
use authentik_operator.Patch.Application.{diff_application}
use authentik_operator.Prelude.Int.{ℤ}
use authentik_operator.Controller.Provider.Observed.{ObservedProvider}
use authentik_operator.Effect.Gives.{Gives, Emits-Gives, Gives-pure, Gives-bind, Gives-Emits}
use authentik_operator.Controller.Unmanaged.Laws.{IsDeleteFree, Emits-patch_status}
use authentik_operator.Prelude.{Option, List, none, some, ◌∷◌, [], ◌++◌}
use authentik_operator.Reference.{Resolved}
use authentik_operator.Effect.Emits.{Emits, emits_rules, Emits-weaken, Emits-bind, Emits-call}
use authentik_operator.Effect.{Object, Result, err, ok, patch_application}
use authentik_operator.Models.{Application, PatchedApplicationRequest}
use authentik_operator.Api.{
  AuthentikApplication, AuthentikApplicationSpec, AdoptionPolicy, ProviderSpec, FieldDiff, never,
  if_match, force,
}
use authentik_operator.Controller.Application.{
  take_over, observed_answer, forget_application, create_or_repair, observe_application,
  reconcile_application, take_over_unrecorded, set_application, repair_application, send_patch,
}
use authentik_operator.Controller.Adoption.{
  provider_diffs, attached_with, application_diffs, adopt_application, adopt_by, refuse_diffs,
  attached_provider, require_match, set_adoption_diffs, attached_by, patch_diffs,
}

Gives-attached_with :
    (app : AuthentikApplication) (resolved : Resolved) (provider : ProviderSpec)
    (observed : Application) (pk : Option ℤ)
    → Gives IsDeleteFree Found (attached_with app resolved provider observed pk)
unfolding attached_with
Gives-attached_with app resolved provider observed none = Gives-pure none tt
Gives-attached_with app resolved provider observed (some pk) =
    Gives-bind _ _ (Gives-provider_handler app provider resolved)
      (λ handler tame. Gives-find_attached handler tame observed.slug (some (some pk)))

Gives-attached_by :
    (app : AuthentikApplication) (resolved : Resolved) (spec : Option ProviderSpec)
    (observed : Application)
    → Gives IsDeleteFree Found (attached_by app resolved spec observed)
unfolding attached_by
Gives-attached_by app resolved none observed = Gives-pure none tt
Gives-attached_by app resolved (some provider) observed =
    Gives-attached_with app resolved provider observed _

Gives-attached_provider :
    (app : AuthentikApplication) (resolved : Resolved) (observed : Application)
    → Gives IsDeleteFree Found (attached_provider app resolved observed)
unfolding attached_provider
Gives-attached_provider app resolved observed =
    Gives-attached_by app resolved app.spec.provider observed

Emits-provider_diffs :
    (found : Option ObservedProvider) → Found found → Emits IsDeleteFree (provider_diffs found)
unfolding provider_diffs
Emits-provider_diffs none f = search emits_rules
Emits-provider_diffs (some provider) f = f.1

Emits-refuse_diffs : (diffs : List FieldDiff) → Emits IsDeleteFree (refuse_diffs diffs)
unfolding refuse_diffs set_adoption_diffs
Emits-refuse_diffs [] = search emits_rules
Emits-refuse_diffs (diff ∷ diffs) = search emits_rules depth 12

Emits-patch_diffs :
    (observed : Application) (patch : Option PatchedApplicationRequest)
    → Emits IsDeleteFree (patch_diffs observed patch)
unfolding patch_diffs
Emits-patch_diffs observed none = search emits_rules
Emits-patch_diffs observed (some p) = Emits-field_diffs _ _ _

Emits-application_diffs :
    (spec : AuthentikApplicationSpec) (observed : Application)
    → Emits IsDeleteFree (application_diffs spec observed)
unfolding application_diffs
Emits-application_diffs spec observed =
    Emits-patch_diffs observed (diff_application (desired_application spec none) observed)

Emits-adopt_by :
    (policy : AdoptionPolicy) (app : AuthentikApplication) (resolved : Resolved)
    (observed : Application)
    → Emits IsDeleteFree (adopt_by policy app resolved observed)
unfolding adopt_by require_match
Emits-adopt_by never app resolved observed = search emits_rules
Emits-adopt_by if_match app resolved observed = Emits-Gives {G = λ _. Unit} _ (
    Gives-bind _ _ (Gives-attached_provider app resolved observed) (λ found f. Gives-Emits _ (
      Emits-bind _ _
        (Emits-bind _ _ (Emits-application_diffs app.spec observed) (λ ours.
          Emits-bind _ _ (Emits-provider_diffs found f)
            (λ theirs. Emits-refuse_diffs (ours ++ theirs))))
        (λ u. search emits_rules))))
Emits-adopt_by force app resolved observed =
    Emits-bind _ _ (Emits-Gives _ (Gives-attached_provider app resolved observed))
      (λ found. search emits_rules)

Emits-adopt_application :
    (resolved : Resolved) (observed : Application)
    → Emits IsDeleteFree (adopt_application resolved observed)
unfolding adopt_application
Emits-adopt_application resolved observed = search (emits_rules, Emits-adopt_by)

Emits-take_over : (observed : Application) → Emits IsDeleteFree (take_over observed)
unfolding take_over set_application
Emits-take_over observed = search (emits_rules, Emits-patch_status, ensures) depth 12

checks_marker : (o : Object) → Emits IsDeleteFree (is_managed_cached o)
checks_marker o = Emits-weaken _ IsDeleteFree-IsMarkerCall (Emits-is_managed_cached o)

Emits-take_over_unrecorded :
    (resolved : Resolved) (observed : Application)
    → Emits IsDeleteFree (take_over_unrecorded resolved observed)
unfolding take_over_unrecorded
Emits-take_over_unrecorded resolved observed =
    search (emits_rules, checks_marker, Emits-adopt_application, Emits-take_over) depth 12

Emits-forget_application : Emits IsDeleteFree forget_application
unfolding forget_application set_application
Emits-forget_application = search emits_rules depth 12

Emits-observed_answer :
    (resolved : Resolved) (r : Result Application) → Emits IsDeleteFree (observed_answer resolved r)
unfolding observed_answer
Emits-observed_answer resolved (err e) = search (emits_rules, Emits-forget_application)
Emits-observed_answer resolved (ok observed) =
    search (emits_rules, ensures, Emits-take_over_unrecorded) depth 12

pub Emits-observe_application :
    (resolved : Resolved) → Emits IsDeleteFree (observe_application resolved)
unfolding observe_application
Emits-observe_application resolved = search (emits_rules, Emits-observed_answer)

Emits-send_patch :
    (observed : Application) (patch : Option PatchedApplicationRequest)
    → Emits IsDeleteFree (send_patch observed patch)
unfolding send_patch
Emits-send_patch observed none = search emits_rules
Emits-send_patch observed (some p) =
    Emits-call {P = IsDeleteFree} (patch_application observed.slug p) tt

Emits-create_or_repair :
    (spec : AuthentikApplicationSpec) (desired : PatchedApplicationRequest)
    (observed : Option Application)
    → Emits IsDeleteFree (create_or_repair spec desired observed)
unfolding create_or_repair repair_application
Emits-create_or_repair spec desired none = search (emits_rules, Emits-take_over) depth 12
Emits-create_or_repair spec desired (some observed) =
    Emits-send_patch observed (diff_application desired observed)

pub Emits-reconcile_application :
    (observed : Option Application) (pk : Option ℤ)
    → Emits IsDeleteFree (reconcile_application observed pk)
unfolding reconcile_application
Emits-reconcile_application observed pk = search (emits_rules, Emits-create_or_repair)
