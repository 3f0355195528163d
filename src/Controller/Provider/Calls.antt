-- ===== src/Controller/Provider/Calls.antt =====
-- The reconcile of the Provider deletes nothing: internal/controller/provider.go.
use authentik_operator.Controller.Provider.OAuth2Tame.{oauth2_provider_handler-Tame}
use authentik_operator.Controller.Bindings.Laws.{ensures}
use authentik_operator.Controller.Provider.ProxyTame.{proxy_provider_handler-Tame}
use authentik_operator.Prelude.Int.{ℤ, wrap32}
use authentik_operator.Effect.Emits.{Emits, emits_rules, Emits-bind, Emits-pure}
use authentik_operator.Effect.{Action, Result, ok, err, is_not_found}
use authentik_operator.Effect.Gives.{
  Gives, Gives-pure, Emits-Gives, Gives-bind, Good, Gives-attempt, Gives-Emits, Gives-if,
  Gives-raise,
}
use authentik_operator.Models.{Application, Nullable}
use authentik_operator.Controller.Unmanaged.Laws.{IsDeleteFree, Emits-patch_status}
use authentik_operator.Api.{
  AuthentikApplication, ProviderSpec, ProxyProviderSpec, AuthentikApplicationSpec,
  OAuth2ProviderSpec,
}
use authentik_operator.Controller.Provider.Tame.{TameHandler, Tame}
use authentik_operator.Reference.{Resolved, Flows, ProxyReferences, OAuth2References}
use authentik_operator.Controller.Provider.Observed.{ProviderHandler, ObservedProvider}
use authentik_operator.Controller.Provider.{
  reconcile_provider, find_attached, find_attached_to, find_recorded, sync_found, attached_answer,
  find_named, or_find, refuse_other_type, find_provider, record_provider_pk,
  reconcile_provider_with, recorded_answer, found_or_created, first_candidate, set_provider_pk,
  is_candidate,
}
use authentik_operator.Prelude.{
  Option, some, none, String, List, All, ◌∷◌, Bool-cases, inl, not, inr, [],
}
use authentik_operator.Controller.Provider.Choice.{provider_handler, handler_of}

-- what was found, when it was found
abbrev pub Found : Option ObservedProvider → Type 0
Found none = Unit
Found (some provider) = Tame IsDeleteFree provider

module _ (handler : ProviderHandler) (tame : TameHandler IsDeleteFree handler) where
  Gives-recorded_answer :
      (r : Result ObservedProvider)
      → Good (Tame IsDeleteFree) r
      → Gives IsDeleteFree Found (recorded_answer r)
  unfolding recorded_answer set_provider_pk
  Gives-recorded_answer (ok provider) g = Gives-pure _ g
  Gives-recorded_answer (err e) g = Gives-if (not (is_not_found e)) _ _ (Gives-raise e) (
      Gives-bind {G = λ _. Unit} _ _ (Gives-Emits _ (search emits_rules)) (λ u v.
        Gives-bind {G = λ _. Unit} _ _ (Gives-Emits _ (search emits_rules))
          (λ x y. Gives-pure none tt)))

  Gives-find_recorded : (pk : Option ℤ) → Gives IsDeleteFree Found (find_recorded handler pk)
  unfolding find_recorded
  Gives-find_recorded none = Gives-pure none tt
  Gives-find_recorded (some pk) =
      Gives-bind _ _ (Gives-attempt _ (tame.gets_one (wrap32 pk))) Gives-recorded_answer

  Emits-refuse_other_type :
      (slug : String) (pk : ℤ) → Emits IsDeleteFree (refuse_other_type handler slug pk)
  unfolding refuse_other_type
  Emits-refuse_other_type slug pk = search (emits_rules, tame.exists_other)

  Gives-attached_answer :
      (slug : String) (pk : ℤ) (r : Result ObservedProvider)
      → Good (Tame IsDeleteFree) r
      → Gives IsDeleteFree Found (attached_answer handler slug pk r)
  unfolding attached_answer
  Gives-attached_answer slug pk (ok provider) g = Gives-pure _ g
  Gives-attached_answer slug pk (err e) g =
      Gives-if (not (is_not_found e)) _ _ (Gives-raise e) (
        Gives-bind _ _ (Gives-Emits _ (Emits-refuse_other_type slug pk))
          (λ u v. Gives-pure none tt))

  pub Gives-find_attached :
      (slug : String) (pk : Nullable ℤ) → Gives IsDeleteFree Found (find_attached handler slug pk)
  unfolding find_attached
  Gives-find_attached slug (some (some pk)) =
      Gives-bind _ _ (Gives-attempt _ (tame.gets_one pk)) (Gives-attached_answer slug pk)
  Gives-find_attached slug (some none) = Gives-pure none tt
  Gives-find_attached slug none = Gives-pure none tt

  Gives-find_attached_to :
      (application : Option Application)
      → Gives IsDeleteFree Found (find_attached_to handler application)
  unfolding find_attached_to
  Gives-find_attached_to none = Gives-pure none tt
  Gives-find_attached_to (some application) =
      Gives-find_attached application.slug application.provider

  candidate-Found :
      (slug : String) (providers : List ObservedProvider)
      → All (Tame IsDeleteFree) providers
      → Found (first_candidate slug providers)
  unfolding first_candidate
  candidate-Found slug [] h = tt
  candidate-Found slug (p ∷ ps) h = elim (Bool-cases (is_candidate slug p.assigned_application)) [
    | inl free ↦ rw free h.0
    | inr taken ↦ rw taken (candidate-Found slug ps h.1)
  ]

  Gives-find_named : (slug name : String) → Gives IsDeleteFree Found (find_named handler slug name)
  unfolding find_named
  Gives-find_named slug name =
      Gives-bind _ _ (tame.finds_all name) (λ ps g. Gives-pure _ (candidate-Found slug ps g))

  Gives-or_find :
      (found : Option ObservedProvider) (next : Action (Option ObservedProvider))
      → Found found
      → Gives IsDeleteFree Found next
      → Gives IsDeleteFree Found (or_find found next)
  unfolding or_find
  Gives-or_find none next f g = g
  Gives-or_find (some provider) next f g = Gives-pure _ f

  Gives-find_provider :
      (spec : AuthentikApplicationSpec) (provider : ProviderSpec) (application : Option Application)
      → Gives IsDeleteFree Found (find_provider handler spec provider application)
  unfolding find_provider
  Gives-find_provider spec provider application =
      Gives-bind {G = λ _. Unit} _ _ (Gives-Emits _ (search emits_rules)) (λ pk u.
        Gives-bind _ _ (Gives-find_recorded pk) (λ recorded f. Gives-or_find recorded _ f (
          Gives-bind _ _ (Gives-find_attached_to application)
            (λ attached g. Gives-or_find attached _ g (Gives-find_named _ _)))))

  Emits-found_or_created :
      (name : String) (found : Option ObservedProvider)
      → Emits IsDeleteFree (found_or_created handler name found)
  unfolding found_or_created
  Emits-found_or_created name none = search (emits_rules, tame.creates)
  Emits-found_or_created name (some provider) = search emits_rules

  Emits-record_provider_pk : (pk : ℤ) → Emits IsDeleteFree (record_provider_pk pk)
  unfolding record_provider_pk set_provider_pk
  Emits-record_provider_pk pk = search (emits_rules, Emits-patch_status) depth 12

  Emits-sync_found :
      (found : Option ObservedProvider) → Found found → Emits IsDeleteFree (sync_found found)
  unfolding sync_found
  Emits-sync_found none f = search emits_rules
  Emits-sync_found (some provider) f = f.0

  pub Emits-reconcile_provider_with :
      (spec : AuthentikApplicationSpec) (provider : ProviderSpec) (application : Option Application)
      → Emits IsDeleteFree (reconcile_provider_with handler spec provider application)
  unfolding reconcile_provider_with
  Emits-reconcile_provider_with spec provider application = Emits-Gives {G = λ _. Unit} _ (
      Gives-bind _ _ (Gives-find_provider spec provider application) (λ found f. Gives-Emits _ (
        Emits-bind _ _ (Emits-found_or_created _ found) (λ pk.
          Emits-bind _ _ (Emits-record_provider_pk pk) (λ u.
            Emits-bind _ _ (ensures _)
              (λ v. Emits-bind _ _ (Emits-sync_found found f) (λ w. Emits-pure pk)))))))

chosen :
    (app : AuthentikApplication) (provider : ProviderSpec) (proxy : Option ProxyProviderSpec)
    (oauth2 : Option OAuth2ProviderSpec) (flows : Option Flows) (refs : Option ProxyReferences)
    (oauth2_refs : Option OAuth2References)
    → Gives IsDeleteFree
        (TameHandler IsDeleteFree)
        (handler_of app provider proxy oauth2 flows refs oauth2_refs)
unfolding handler_of
chosen app provider (some proxy) oauth2 (some flows) (some refs) oauth2_refs =
    Gives-pure _ (proxy_provider_handler-Tame proxy _)
chosen app provider none (some oauth2) (some flows) refs (some oauth2_refs) =
    Gives-pure _ (oauth2_provider_handler-Tame app _)
chosen app provider (some proxy) oauth2 none refs oauth2_refs = Gives-raise _
chosen app provider (some proxy) oauth2 (some flows) none oauth2_refs = Gives-raise _
chosen app provider none none flows refs oauth2_refs = Gives-raise _
chosen app provider none (some oauth2) none refs oauth2_refs = Gives-raise _
chosen app provider none (some oauth2) (some flows) refs none = Gives-raise _

-- the handlers that a resource may have are tame
pub Gives-provider_handler :
    (app : AuthentikApplication) (provider : ProviderSpec) (resolved : Resolved)
    → Gives IsDeleteFree (TameHandler IsDeleteFree) (provider_handler app provider resolved)
unfolding provider_handler
Gives-provider_handler app provider resolved =
    chosen app provider provider.proxy provider.oauth2 resolved.flows resolved.proxy resolved.oauth2

pub Emits-reconcile_provider :
    (resolved : Resolved) (provider : ProviderSpec) (application : Option Application)
    → Emits IsDeleteFree (reconcile_provider resolved provider application)
unfolding reconcile_provider
Emits-reconcile_provider resolved provider application = Emits-Gives {G = λ _. Unit} _ (
    Gives-bind {G = λ _. Unit} _ _ (Gives-Emits _ (search emits_rules)) (λ app u.
      Gives-bind _ _ (Gives-provider_handler app provider resolved) (λ handler tame.
        Gives-Emits _ (Emits-reconcile_provider_with handler tame app.spec provider application))))
