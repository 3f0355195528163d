-- ===== src/Controller/Outpost/Laws.antt =====
-- The Outpost that the status records: internal/controller/outpost.go.
use authentik_operator.Prelude.{String, ◌≡◌, refl}
use authentik_operator.Prelude.Int.{ℤ}
use authentik_operator.Models.{Outpost}
use authentik_operator.Effect.{Error, Result, ok, err, State, Env}
use authentik_operator.Effect.Keeps.{Keeps, keeps_rules, Spares, Spares-bind, Spares-modify}
use authentik_operator.Effect.Yields.{Yields, Yields-any, Yields-bind, Yields-modify}
use authentik_operator.Controller.Outpost.{
  remove_provider_from_outpost, leave_found, leave_outpost_by_uuid, join_outpost, leave_previous,
  reconcile_outpost, set_outpost_uuid,
}

Keeps-leave_found : (answer : Result Outpost) (pk : ℤ) → Keeps (λ s. s.app) (leave_found answer pk)
unfolding leave_found remove_provider_from_outpost
Keeps-leave_found (ok outpost) pk = search keeps_rules
Keeps-leave_found (err e) pk = search keeps_rules

Keeps-join_outpost :
    (uuid : String) (outpost : Outpost) (pk : ℤ) → Keeps (λ s. s.app) (join_outpost uuid outpost pk)
unfolding join_outpost
Keeps-join_outpost uuid outpost pk = search keeps_rules

Keeps-leave_previous :
    (uuid previous : String) (pk : ℤ) → Keeps (λ s. s.app) (leave_previous uuid previous pk)
unfolding leave_previous leave_outpost_by_uuid
Keeps-leave_previous uuid previous pk = search (keeps_rules, Keeps-leave_found)

Spares-reconcile_outpost :
    (uuid : String) (pk : ℤ) → Spares (λ s. s.app) (reconcile_outpost uuid pk)
unfolding reconcile_outpost
Spares-reconcile_outpost uuid pk =
    search (keeps_rules, Keeps-join_outpost, Keeps-leave_previous, Spares-bind, Spares-modify) depth
      14

Yields-reconcile_outpost :
    (uuid : String) (pk : ℤ)
    → Yields (λ s. Unit) (reconcile_outpost uuid pk) (λ _ s. s.app.status.outpost_uuid ≡ uuid)
unfolding reconcile_outpost set_outpost_uuid
Yields-reconcile_outpost uuid pk = Yields-bind {R = λ _ s. Unit} _ _ (Yields-any _) (λ o.
    Yields-bind {R = λ _ s. Unit} _ _ (Yields-any _) (λ _.
      Yields-bind {R = λ _ s. Unit} _ _ (Yields-any _) (λ previous.
        Yields-bind {R = λ _ s. Unit} _ _ (Yields-any _) (λ _. Yields-modify _ (λ s _. refl)))))

-- When the reconcile of the Outpost fails, the resource and its recorded Outpost are as before, so
-- the next attempt still knows the previous Outpost; when it succeeds, the new Outpost is
-- recorded.
pub reconcile_outpost-Records :
    (uuid : String) (pk : ℤ) (env : Env) (s : State)
    → ((e : Error)
        → (reconcile_outpost uuid pk env s).0 ≡ err e
        → (reconcile_outpost uuid pk env s).1.app ≡ s.app)
      × ((reconcile_outpost uuid pk env s).0 ≡ ok tt
          → (reconcile_outpost uuid pk env s).1.app.status.outpost_uuid ≡ uuid)
reconcile_outpost-Records uuid pk env s = (
  λ e p. (Spares-reconcile_outpost uuid pk).at env s e p,
  λ p. (Yields-reconcile_outpost uuid pk).at env s tt tt p,
)
