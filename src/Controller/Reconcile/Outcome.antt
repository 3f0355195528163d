-- ===== src/Controller/Reconcile/Outcome.antt =====
-- What `finish` records and how it requeues: internal/controller.
use authentik_operator.Controller.Status.Reported.{
  generation-Reported, Reported, Keeps-patch_status, Keeps-set_ready, hash-Reported, diffs-Reported,
  application-Reported, provider-Reported,
}
use authentik_operator.Effect.Yields.{ok-inj}
use authentik_operator.Effect.Inversion.{>>=-eq-ok}
use authentik_operator.Controller.Adoption.{set_adoption_diffs}
use authentik_operator.Controller.Deletion.{observe_generation}
use authentik_operator.Controller.Reconcile.{
  report_outcome, finish, requeue, set_applied_hash, is_adoption_diff, stop_of,
}
use authentik_operator.Effect.Keeps.{Keeps, keeps_rules, Keeps-tail, Keeps-bind, Keeps-attempt}
use authentik_operator.Api.{AuthentikApplicationStatus, AuthentikApplication}
use authentik_operator.Prelude.{
  ◌≡◌, Bool, String, refl, if◌then◌else◌, ◌∙◌, [], Bool-cases, inl, inr, Option, ℕ, is_some, true,
  some, sym, false,
}
use authentik_operator.Effect.{
  State, Result, Env, ◌>>=◌, attempt, Error, err, ok, asks, modify, pure, as_stop, raise,
}
use authentik_operator.Controller.Status.{patch_status}

module _ {B : Type 0} {f : State → B} (k : Reported f) where
  Keeps-requeue : (result patched : Result (Unit {0})) → Keeps f (requeue result patched)
  unfolding requeue
  Keeps-requeue result (err e) = search keeps_rules
  Keeps-requeue (ok u) (ok v) = search keeps_rules
  Keeps-requeue (err e) (ok v) = search keeps_rules

  Keeps-rest :
      (result : Result (Unit {0}))
      → Keeps f (attempt patch_status >>= λ patched. requeue result patched)
  Keeps-rest result =
      Keeps-bind _ _ (Keeps-attempt _ (Keeps-patch_status k)) (λ p. Keeps-requeue result p)

  -- what `finish` leaves after a success, and after an error
  finished_ok :
      (env : Env) (s : State)
      → f
          ((report_outcome (ok tt) >>= λ _. attempt patch_status >>= λ p. requeue (ok tt) p) env
            s).1
        ≡ f (set_applied_hash env.spec_hash s)
  unfolding report_outcome ◌>>=◌ asks modify
  finished_ok env s =
      Keeps-tail (report_outcome (ok tt)) _ (λ _. Keeps-rest (ok tt)) env s
      ∙ (Keeps-set_ready k _ _ _).at env (set_applied_hash env.spec_hash s)

  finished_err :
      (e : Error) (env : Env) (s : State)
      → f
          ((report_outcome (err e) >>= λ _. attempt patch_status >>= λ p. requeue (err e) p) env
            s).1
        ≡ f s
  unfolding report_outcome
  finished_err e env s =
      Keeps-tail (report_outcome (err e)) _ (λ _. Keeps-rest (err e)) env s
      ∙ (Keeps-set_ready k _ _ _).at env s

-- the hash that is recorded after a result
abbrev pub applied_hash : Env → AuthentikApplication → Result (Unit {0}) → String
applied_hash env app (ok _) = env.spec_hash app.spec
applied_hash env app (err e) = app.status.last_applied_hash

-- What the status says after the reconcile of `app` with a result.
pub record Finishes (env : Env) (app : AuthentikApplication) (result : Result (Unit {0}))
    (status : AuthentikApplicationStatus) : Type 0 where
  pub generation : status.observed_generation ≡ app.generation
  pub hash : status.last_applied_hash ≡ applied_hash env app result
  pub diffs :
      status.adoption_diffs
      ≡ (if is_adoption_diff (stop_of result) then app.status.adoption_diffs else [])
  pub application : status.application_pk ≡ app.status.application_pk
  pub provider : status.provider_pk ≡ app.status.provider_pk

-- After finish the status has the generation of the resource; the hash of the spec after a success
-- and the previous hash after an error; the adoption diffs that were recorded if the error is a
-- stop with AdoptionDiff, and none otherwise; and the recorded pks of the Application and the
-- Provider as before.
pub finish-Finishes :
    (result : Result (Unit {0})) (env : Env) (s : State)
    → Finishes env s.app result (finish result env s).1.app.status
unfolding finish ◌>>=◌ modify observe_generation set_adoption_diffs set_applied_hash pure
finish-Finishes (ok u) env s = record {
  generation = finished_ok generation-Reported env _;
  hash = finished_ok hash-Reported env _;
  diffs = finished_ok diffs-Reported env _;
  application = finished_ok application-Reported env _;
  provider = finished_ok provider-Reported env _;
}
finish-Finishes (err e) env s = elim (Bool-cases (is_adoption_diff (as_stop e))) [
  | inl kept ↦ rw kept (record {
    generation = finished_err generation-Reported e env (observe_generation s);
    hash = finished_err hash-Reported e env (observe_generation s);
    diffs = rw kept (finished_err diffs-Reported e env (observe_generation s));
    application = finished_err application-Reported e env (observe_generation s);
    provider = finished_err provider-Reported e env (observe_generation s);
  })
  | inr cleared ↦ rw cleared (record {
    generation =
        finished_err generation-Reported e env (set_adoption_diffs [] (observe_generation s));
    hash = finished_err hash-Reported e env (set_adoption_diffs [] (observe_generation s));
    diffs =
        rw cleared
          (finished_err diffs-Reported e env (set_adoption_diffs [] (observe_generation s)));
    application =
        finished_err application-Reported e env (set_adoption_diffs [] (observe_generation s));
    provider = finished_err provider-Reported e env (set_adoption_diffs [] (observe_generation s));
  })
]

requeued_if :
    (b : Bool) (e : Error) (env : Env) (s : State) (after : Option ℕ)
    → ((if b then asks (λ v. some v.resync_interval) else raise e) env s).0 ≡ ok after
    → (b ≡ true) × (after ≡ some env.resync_interval)
unfolding raise asks
requeued_if true e env s after h = (refl, sym (ok-inj h))
requeued_if false e env s after h = absurd cc

requeued :
    (e : Error) (r : Result (Unit {0})) (env : Env) (s : State) (after : Option ℕ)
    → (requeue (err e) r env s).0 ≡ ok after
    → (is_some (as_stop e) ≡ true) × (after ≡ some env.resync_interval)
unfolding requeue raise
requeued e (ok u) env s after h = requeued_if (is_some (as_stop e)) e env s after h
requeued e (err x) env s after h = absurd cc

-- When finish returns no error after a failed reconcile, the failure was a stop and the resource
-- is requeued after the resync interval.
pub finish-requeues :
    (e : Error) (env : Env) (s : State) (after : Option ℕ)
    → (finish (err e) env s).0 ≡ ok after
    → (is_some (as_stop e) ≡ true) × (after ≡ some env.resync_interval)
unfolding finish attempt
finish-requeues e env s after h =
    let (u, p0, h1, t1) = >>=-eq-ok _ _ env s after h in
    let (v, p1, h2, t2) = >>=-eq-ok _ _ env _ after h1 in
    let (w, p2, h3, t3) = >>=-eq-ok _ _ env _ after h2 in
    let (r, p3, h4, t4) = >>=-eq-ok _ _ env _ after h3 in requeued e r env _ after h4
