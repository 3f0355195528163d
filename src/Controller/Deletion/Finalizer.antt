-- ===== src/Controller/Deletion/Finalizer.antt =====
-- When the finalizer goes: `finalize` of internal/controller/deletion.go.
use authentik_operator.Prelude.{String, ◌≡◌, Bool, true, false}
use authentik_operator.Api.{AuthentikApplication, Reason}
use authentik_operator.Effect.{
  Error, Result, ok, err, Call, patch_finalizers, Env, State, pure, gets, asks, attempt, ◌>>=◌,
}
use authentik_operator.Effect.Emits.{
  Emits, Between, Between-refl, Between-trans, Emits-weaken, emits_rules,
}
use authentik_operator.Ownership.Cache.Quiet.{IsMarkerCall}
use authentik_operator.Controller.Status.{set_condition, set_ready, patch_status, set_conditions}
use authentik_operator.Controller.Deletion.{
  release_app, observe_generation, finish_release, finalize_app, finalize,
}
use authentik_operator.Controller.Deletion.Laws.{Releases, on_markers, release_app-Releases}

-- A call other than the write of the finalizers.
abbrev pub LeavesFinalizers : Call → Type 0
LeavesFinalizers (patch_finalizers _) = ⊥
LeavesFinalizers _ = Unit

LeavesFinalizers-IsMarkerCall : (c : Call) → IsMarkerCall c → LeavesFinalizers c
LeavesFinalizers-IsMarkerCall (patch_finalizers names) h = h
LeavesFinalizers-IsMarkerCall _ h = tt

LeavesFinalizers-Releases :
    (removes : Bool) (app : AuthentikApplication) (c : Call)
    → Releases removes app c
    → LeavesFinalizers c
LeavesFinalizers-Releases removes app c (on_markers d h) = LeavesFinalizers-IsMarkerCall d h
LeavesFinalizers-Releases removes app c _ = tt

Emits-set_ready :
    (status : Bool) (reason : Reason) (message : String)
    → Emits LeavesFinalizers (set_ready status reason message)
unfolding set_ready set_condition set_conditions
Emits-set_ready status reason message = search emits_rules depth 14

Emits-patch_status : Emits LeavesFinalizers patch_status
unfolding patch_status
Emits-patch_status = search emits_rules depth 14

Emits-failed_release : (e : Error) → Emits LeavesFinalizers (finish_release (err e))
unfolding finish_release observe_generation
Emits-failed_release e = search (emits_rules, Emits-set_ready, Emits-patch_status) depth 14

failed_release :
    (r : Result (Unit {0})) (e : Error) (env : Env) (s : State)
    → r ≡ err e
    → Between LeavesFinalizers s (finish_release r env s).1
failed_release (ok _) e env s h = absurd cc
failed_release (err x) e env s h = (Emits-failed_release x).at env s

finalize_app-LeavesFinalizers :
    (app : AuthentikApplication) (has_finalizer : Bool) (env : Env) (s : State) (e : Error)
    → (release_app app env s).0 ≡ err e
    → Between LeavesFinalizers s (finalize_app app has_finalizer env s).1
unfolding finalize_app ◌>>=◌ pure attempt
finalize_app-LeavesFinalizers app true env s e h =
    Between-trans
      ((Emits-weaken _ (LeavesFinalizers-Releases _ app) (release_app-Releases app)).at env s)
      (failed_release (release_app app env s).0 e env (release_app app env s).1 h)
finalize_app-LeavesFinalizers app false env s e h = Between-refl s

-- While the release of the objects fails, however the services answer, the reconcile of a deleted
-- resource does not write its finalizers, so the resource stays for the next attempt.
pub finalize-LeavesFinalizers :
    (env : Env) (s : State) (e : Error)
    → (release_app s.app env s).0 ≡ err e
    → Between LeavesFinalizers s (finalize env s).1
unfolding finalize finalize_app ◌>>=◌ gets asks pure attempt
finalize-LeavesFinalizers env s e h = finalize_app-LeavesFinalizers s.app _ env s e h
