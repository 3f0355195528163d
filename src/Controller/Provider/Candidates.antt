-- ===== src/Controller/Provider/Candidates.antt =====
-- Which Provider is reused by its name: `findProvider` of internal/controller/provider.go.
use authentik_operator.Effect.Yields.{ok-inj}
use authentik_operator.Desired.Application.{provider_name}
use authentik_operator.Effect.Inversion.{>>=-eq-ok}
use mathlib.Core.Path.{subst}
use authentik_operator.Api.{AuthentikApplicationSpec, ProviderSpec}
use authentik_operator.Controller.Provider.Observed.{ObservedProvider, ProviderHandler}
use authentik_operator.Effect.{◌>>=◌, gets, pure, Env, State, ok}
use authentik_operator.Prelude.{
  String, Option, List, some, ◌≡◌, ◌∷◌, true, none, Bool-cases, ◌⊎◌, inl, inr, [], ap, ==_sound,
  refl, string_eq,
}
use authentik_operator.Controller.Provider.{
  first_candidate, find_provider, is_candidate, find_attached_to, or_find, find_recorded,
  find_named,
}

-- No Application uses the Provider, or the one with the slug.
abbrev pub IsFree : String → ObservedProvider → Type 0
IsFree slug provider =
    (provider.assigned_application ≡ none) ⊎ (provider.assigned_application ≡ some slug)

free :
    (slug : String) (assigned : Option String)
    → is_candidate slug assigned ≡ true
    → (assigned ≡ none) ⊎ (assigned ≡ some slug)
unfolding is_candidate
free slug none h = inl refl
free slug (some other) h = inr (ap some (==_sound other slug h))

-- what is found is free
abbrev FoundFree : String → Option ObservedProvider → Type 0
FoundFree slug none = Unit
FoundFree slug (some provider) = IsFree slug provider

first_candidate-free :
    (slug : String) (providers : List ObservedProvider)
    → FoundFree slug (first_candidate slug providers)
unfolding first_candidate
first_candidate-free slug [] = tt
first_candidate-free slug (p ∷ ps) = elim (Bool-cases (is_candidate slug p.assigned_application)) [
  | inl fits ↦ rw fits (free slug p.assigned_application fits)
  | inr taken ↦ rw taken (first_candidate-free slug ps)
]

named-IsFree :
    (handler : ProviderHandler) (slug name : String) (env : Env) (s : State)
    (found : ObservedProvider)
    → (find_named handler slug name env s).0 ≡ ok (some found)
    → IsFree slug found
unfolding find_named pure
named-IsFree handler slug name env s found h =
    let (candidates, p, h1, t1) = >>=-eq-ok _ _ env s (some found) h in
    subst (FoundFree slug) (ok-inj h1) (first_candidate-free slug candidates)

-- When the status records no Provider and there is no Application yet, a Provider that is found,
-- whatever its type and whatever the services answer, is used by no Application or by the one with
-- the slug of the spec.
pub find_provider-IsFree :
    (handler : ProviderHandler) (spec : AuthentikApplicationSpec) (provider : ProviderSpec)
    (env : Env) (s : State) (found : ObservedProvider)
    → s.app.status.provider_pk ≡ none
    → (find_provider handler spec provider none env s).0 ≡ ok (some found)
    → IsFree spec.slug found
unfolding find_provider ◌>>=◌ gets pure find_attached_to or_find find_recorded
find_provider-IsFree handler spec provider env s found unrecorded h =
    named-IsFree handler spec.slug _ env _ found (
      subst
        (λ pk.
          ((find_recorded handler pk >>= λ recorded. or_find recorded (
              find_attached_to handler none >>= λ attached.
              or_find attached (find_named handler spec.slug (provider_name spec.slug provider))))
            env s).0
          ≡ ok (some found))
        unrecorded h)
