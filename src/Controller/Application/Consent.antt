-- ===== src/Controller/Application/Consent.antt =====
-- Who may take an Application over: `observeApplication` of internal/controller/application.go and
-- `adoptApplication` of internal/controller/adoption.go.
use authentik_operator.Effect.Yields.{ok-inj}
use mathlib.Core.Path.{subst}
use authentik_operator.Ownership.Cache.Stays.{Keeps-is_managed_cached}
use authentik_operator.Effect.Inversion.{>>=-eq-ok}
use authentik_operator.Ownership.Cache.{ensure, is_managed_cached}
use authentik_operator.Api.{AdoptionPolicy, AuthentikApplication, never, if_match, force}
use authentik_operator.Models.{Application}
use authentik_operator.Reference.{Resolved}
use authentik_operator.Prelude.{
  Bool, if◌then◌else◌, ◌≡◌, ◌∷◌, ◌⊎◌, true, ◌≢◌, some, get_or, inl, inr, false, ◌∙◌, refl, ap, ◌==◌,
  not, none, ==_sound, string_eq,
}
use authentik_operator.Controller.Adoption.{adopt_application, adopt_by}
use authentik_operator.Controller.Application.{
  observe_application, take_over_unrecorded, observed_answer, application_object,
  forget_application,
}
use authentik_operator.Effect.{
  State, ◌>>=◌, Env, raise, Result, get_application, gets, ok, pure, attempt, call, err, Error,
  is_not_found, ◌>>◌,
}

-- The state after the call that fetches the Application.
abbrev pub fetched_application : State → State
fetched_application s = record s { trace = get_application s.app.spec.slug ∷ s.trace }

-- The status records the Application, or it is marked, or `adopt` is not Never.
abbrev pub Consented : Env → State → Application → Type 0
Consented env s observed =
    (s.app.status.application_pk ≡ observed.pk)
    ⊎ ((is_managed_cached (application_object observed) env (fetched_application s)).0 ≡ ok true)
    ⊎ (get_or s.app.spec.adopt never ≢ never)

refused :
    (policy : AdoptionPolicy) (app : AuthentikApplication) (resolved : Resolved)
    (observed : Application) (env : Env) (s : State)
    → (adopt_by policy app resolved observed env s).0 ≡ ok tt
    → policy ≢ never
unfolding adopt_by raise
refused never app resolved observed env s h = absurd cc
refused if_match app resolved observed env s h = λ e. absurd cc
refused force app resolved observed env s h = λ e. absurd cc

adopted_or_marked :
    (managed : Bool) (resolved : Resolved) (observed : Application) (env : Env) (s : State)
    → ((if managed then pure tt else adopt_application resolved observed) env s).0 ≡ ok tt
    → (managed ≡ true) ⊎ (get_or s.app.spec.adopt never ≢ never)
unfolding adopt_application ◌>>=◌ gets
adopted_or_marked true resolved observed env s h = inl refl
adopted_or_marked false resolved observed env s h = inr (refused _ _ _ _ env s h)

consented_unrecorded :
    (resolved : Resolved) (observed : Application) (env : Env) (s : State)
    → (take_over_unrecorded resolved observed env s).0 ≡ ok tt
    → ((is_managed_cached (application_object observed) env s).0 ≡ ok true)
      ⊎ (get_or s.app.spec.adopt never ≢ never)
unfolding take_over_unrecorded
consented_unrecorded resolved observed env s h =
    let (managed, p, h1, t1) = >>=-eq-ok _ _ env s tt h in
    let (u, q, h2, t2) = >>=-eq-ok _ _ env _ tt h1 in
    let same = (Keeps-is_managed_cached (application_object observed)).at env s in
    elim (adopted_or_marked managed resolved observed env _ q) [
      | inl m ↦ inl (p ∙ ap ok m)
      | inr a ↦ inr (subst (λ (x : AuthentikApplication). get_or x.spec.adopt never ≢ never) same a)
    ]

consented_if :
    (recorded : Bool) (resolved : Resolved) (observed : Application) (env : Env) (s : State)
    → ((if recorded
          then ensure (application_object observed)
          else take_over_unrecorded resolved observed)
        env s).0
      ≡ ok tt
    → (recorded ≡ true)
      ⊎ ((is_managed_cached (application_object observed) env s).0 ≡ ok true)
      ⊎ (get_or s.app.spec.adopt never ≢ never)
consented_if true resolved observed env s h = inl refl
consented_if false resolved observed env s h = inr (consented_unrecorded resolved observed env s h)

some_inj : {A : Type 0} {a b : A} → some a ≡ some b → a ≡ b
some_inj e = cc

-- what allows to take over `a`, at the state after it was fetched
abbrev Justified : Env → State → Application → Type 0
Justified env s a =
    (s.app.status.application_pk ≡ a.pk)
    ⊎ ((is_managed_cached (application_object a) env s).0 ≡ ok true)
    ⊎ (get_or s.app.spec.adopt never ≢ never)

nothing_found :
    (missing : Bool) (e : Error) (env : Env) (s : State) (a : Application)
    → ((if missing then raise e else (do forget_application; pure none)) env s).0 ≡ ok (some a)
    → ⊥
unfolding raise pure
nothing_found true e env s a h = cc
nothing_found false e env s a h = let (u, p, h1, t1) = >>=-eq-ok _ _ env s (some a) h in cc

consented_answer :
    (resolved : Resolved) (r : Result Application) (env : Env) (s : State) (a : Application)
    → (observed_answer resolved r env s).0 ≡ ok (some a)
    → (s.app.status.application_pk ≡ a.pk)
      ⊎ ((is_managed_cached (application_object a) env s).0 ≡ ok true)
      ⊎ (get_or s.app.spec.adopt never ≢ never)
unfolding observed_answer ◌>>=◌ gets pure
consented_answer resolved (ok observed) env s a h =
    let (u, p, h1, t1) =
      >>=-eq-ok
        (if s.app.status.application_pk == observed.pk
          then ensure (application_object observed)
          else take_over_unrecorded resolved observed)
        (λ _. pure (some observed)) env s (some a) h in
    let same = some_inj (ok-inj h1) in
    subst (Justified env s) same
      (elim (consented_if (s.app.status.application_pk == observed.pk) resolved observed env s p) [
        | inl e ↦ inl (==_sound _ _ e)
        | inr c ↦ inr c
      ])
consented_answer resolved (err e) env s a h =
    absurd (nothing_found (not (is_not_found e)) e env s a h)

-- When observeApplication succeeds and returns an existing Application, then the status recorded
-- its pk before, or it was found to be marked as managed right after it was fetched, or spec.adopt
-- is set to something other than Never.
pub observe_application-Consented :
    (resolved : Resolved) (env : Env) (s : State) (a : Application)
    → (observe_application resolved env s).0 ≡ ok (some a)
    → Consented env s a
unfolding observe_application ◌>>=◌ gets attempt call
observe_application-Consented resolved env s a h =
    consented_answer resolved (env.answer s.trace (get_application s.app.spec.slug)) env
      (fetched_application s) a h
