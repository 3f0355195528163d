-- ===== src/Controller/Reconcile/Conflict.antt =====
-- A resource that loses a conflict: `checkConflict` in `reconcile`, internal/controller.
use authentik_operator.Conflict.Agreement.{Live}
use authentik_operator.Conflict.{passes}
use authentik_operator.Api.{AuthentikApplication}
use authentik_operator.Prelude.{List, ◌≡◌, ◌∷◌, In, true}
use authentik_operator.Effect.{Env, State, list_resources_with_slug, err}
use authentik_operator.Controller.Reconcile.{reconcile_app, conflict_stop}

-- The reconcile stops with the conflict that names a listed resource which is not being deleted and
-- passes the check, and the list is the only call that it makes and the only change of the state.
abbrev pub StepsBack : Env → List AuthentikApplication → State → Type 0
StepsBack env items s =
    (w : AuthentikApplication) × In w items
    × Live w
    × (passes w items ≡ true)
    × (reconcile_app env s ≡ (
      err (conflict_stop s.app w),
      record s { trace = list_resources_with_slug s.app.spec.slug ∷ s.trace },
    ))
