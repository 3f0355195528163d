-- ===== src/Controller/Provider/Records.antt =====
-- The pk of a new Provider is recorded before anything else is done with it: `reconcileProvider` of
-- internal/controller/provider.go.
use authentik_operator.Prelude.Text.{itoa}
use authentik_operator.Controller.Status.Reported.{provider-Reported, Keeps-patch_status}
use authentik_operator.Effect.Inversion.{>>=-ok}
use authentik_operator.Controller.Status.{patch_status}
use authentik_operator.Desired.Application.{provider_name}
use authentik_operator.Ownership.Cache.Stays.{Keeps-ensure}
use authentik_operator.Models.{Application}
use authentik_operator.Ownership.Cache.{ensure}
use authentik_operator.Api.{AuthentikApplicationSpec, ProviderSpec, AuthentikApplication}
use authentik_operator.Prelude.Int.{ℤ, int_eq}
use authentik_operator.Prelude.{
  Option, String, ap, ◌≡◌, some, Bool, true, ==_sound, if◌then◌else◌, none, refl, ◌∙◌, false,
}
use authentik_operator.Effect.Keeps.{Keeps, Keeps-tail, keeps_rules}
use authentik_operator.Controller.Provider.Observed.{ProviderHandler}
use authentik_operator.Effect.{
  State, pure, Object, ◌>>=◌, note, gets, modify, Env, ok, ◌>>◌, Result,
}
use authentik_operator.Controller.Provider.{
  reconcile_provider_with, record_provider_pk, found_or_created, is_recorded_pk, set_provider_pk,
  find_provider, sync_found,
}

abbrev pk_of : State → Option ℤ
pk_of s = s.app.status.provider_pk

is_recorded :
    (recorded : Option ℤ) (pk : ℤ) → is_recorded_pk recorded pk ≡ true → recorded ≡ some pk
unfolding is_recorded_pk
is_recorded none pk h = absurd cc
is_recorded (some other) pk h = ap some (==_sound other pk h)

recorded_if :
    (same : Bool) (pk : ℤ) (env : Env) (s : State)
    → (same ≡ true → pk_of s ≡ some pk)
    → pk_of
        ((if same then pure tt else (do modify (set_provider_pk (some pk)); patch_status)) env s).1
      ≡ some pk
unfolding pure ◌>>=◌ modify set_provider_pk
recorded_if true pk env s h = h refl
recorded_if false pk env s h =
    (Keeps-patch_status provider-Reported).at env (set_provider_pk (some pk) s)

recorded : (pk : ℤ) (env : Env) (s : State) → pk_of (record_provider_pk pk env s).1 ≡ some pk
unfolding record_provider_pk ◌>>=◌ gets
recorded pk env s = recorded_if (is_recorded_pk (pk_of s) pk) pk env s (is_recorded (pk_of s) pk)

Keeps-ensure_pk : (o : Object) → Keeps pk_of (ensure o)
Keeps-ensure_pk o = record {
  at = λ env s.
      ap (λ (app : AuthentikApplication). app.status.provider_pk) ((Keeps-ensure o).at env s);
}

new_pk :
    (handler : ProviderHandler) (name : String) (env : Env) (s : State) (pk : ℤ)
    → (handler.create name env s).0 ≡ ok pk
    → (found_or_created handler name none env s).0 ≡ ok pk
unfolding found_or_created note pure ◌>>=◌
new_pk handler name env s pk h = rw h refl

-- what follows the record, for a Provider that was created
Keeps-marked :
    (model : String) (pk : ℤ)
    → Keeps pk_of
        (ensure (record { model = model; pk = itoa pk }) >>= λ u. sync_found none >>= λ v. pure pk)
unfolding sync_found
Keeps-marked model pk = search (keeps_rules, Keeps-ensure_pk)

-- When no Provider is found and the creation of one succeeds, the status holds its pk after
-- reconcileProvider, also when the write of the status, the marker or anything else after the
-- creation fails.
pub reconcile_provider_with-Records :
    (handler : ProviderHandler) (spec : AuthentikApplicationSpec) (provider : ProviderSpec)
    (application : Option Application) (env : Env) (s : State) (pk : ℤ)
    → (find_provider handler spec provider application env s).0 ≡ ok none
    → (handler.create
        (provider_name spec.slug provider)
        env
        (find_provider handler spec provider application env s).1).0
      ≡ ok pk
    → (reconcile_provider_with handler spec provider application env s).1.app.status.provider_pk
      ≡ some pk
unfolding reconcile_provider_with
reconcile_provider_with-Records handler spec provider application env s pk missing created =
    let s1 = (find_provider handler spec provider application env s).1 in
    ap (λ (r : Result ℤ × State). pk_of r.1)
      (>>=-ok (find_provider handler spec provider application) _ env s none missing
        ∙ >>=-ok (found_or_created handler (provider_name spec.slug provider) none) _ env s1 pk
            (new_pk handler (provider_name spec.slug provider) env s1 pk created))
    ∙ Keeps-tail (record_provider_pk pk) _ (λ u. Keeps-marked handler.model pk) env _
    ∙ recorded pk env _
