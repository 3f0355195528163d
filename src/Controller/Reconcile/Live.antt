-- ===== src/Controller/Reconcile/Live.antt =====
-- `Reconcile` of a resource that is not being deleted:
-- internal/controller/authentikapplication_controller.go.
use authentik_operator.Controller.Reconcile.Calls.{
  LeavesObjects, from_delete_free, reconcile_app-LeavesObjects,
}
use authentik_operator.Controller.Unmanaged.Laws.{
  IsDeleteFree, Emits-set_condition, Emits-patch_status,
}
use authentik_operator.Effect.Emits.{
  Emits, emits_rules, Emits-bind, Emits-attempt, Emits-if, Emits-wrap, Emits-call,
}
use authentik_operator.Controller.Adoption.{set_adoption_diffs}
use authentik_operator.Effect.{Result, err, ok, patch_finalizers}
use authentik_operator.Api.{AuthentikApplication, Reason}
use authentik_operator.Prelude.{Bool, is_some, ◌≡◌, String, false, not}
use authentik_operator.Controller.Status.{set_ready}
use authentik_operator.Controller.Deletion.{
  ensure_finalizer, set_finalizers, observe_generation, finalizer,
}
use authentik_operator.Controller.Reconcile.{
  requeue, reconcile_found, report_outcome, finish, set_applied_hash,
}

Emits-set_ready :
    (status : Bool) (reason : Reason) (message : String)
    → Emits IsDeleteFree (set_ready status reason message)
unfolding set_ready
Emits-set_ready status reason message = Emits-set_condition _ status reason message

Emits-report_outcome : (result : Result (Unit {0})) → Emits IsDeleteFree (report_outcome result)
unfolding report_outcome set_applied_hash
Emits-report_outcome (ok u) = search (emits_rules, Emits-set_ready) depth 12
Emits-report_outcome (err e) = Emits-set_ready _ _ _

Emits-requeue : (result patched : Result (Unit {0})) → Emits IsDeleteFree (requeue result patched)
unfolding requeue
Emits-requeue result (err e) = search emits_rules
Emits-requeue (ok u) (ok v) = search emits_rules
Emits-requeue (err e) (ok v) = search emits_rules

Emits-finish : (result : Result (Unit {0})) → Emits IsDeleteFree (finish result)
unfolding finish observe_generation set_adoption_diffs
Emits-finish result =
    search (emits_rules, Emits-report_outcome, Emits-patch_status, Emits-requeue) depth 14

Emits-ensure_finalizer : Emits IsDeleteFree ensure_finalizer
unfolding ensure_finalizer set_finalizers
Emits-ensure_finalizer = Emits-bind _ _ (search emits_rules) (λ app.
    Emits-bind _ _ (search emits_rules) (λ add.
      Emits-if (not (add app.finalizers finalizer).1) _ _ (search emits_rules) (
        Emits-bind _ _ (search emits_rules) (λ u.
          Emits-wrap _ _ (
            Emits-call {P = IsDeleteFree} (patch_finalizers (add app.finalizers finalizer).0)
              tt)))))

-- The reconcile of a resource that is not being deleted, from its finalizer to the write of its
-- status, deletes no Application and no Provider in authentik, however the services answer.
pub reconcile_found-LeavesObjects :
    (app : AuthentikApplication)
    → is_some app.deletion_timestamp ≡ false
    → Emits LeavesObjects (reconcile_found app)
unfolding reconcile_found
reconcile_found-LeavesObjects app alive = rw alive (
    Emits-bind _ _ (search emits_rules) (λ u.
      Emits-bind _ _ (from_delete_free _ Emits-ensure_finalizer) (λ v.
        Emits-bind _ _ (search emits_rules) (λ w.
          Emits-bind _ _ (Emits-attempt _ reconcile_app-LeavesObjects)
            (λ result. from_delete_free _ (Emits-finish result))))))
