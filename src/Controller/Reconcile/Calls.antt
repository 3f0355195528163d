-- ===== src/Controller/Reconcile/Calls.antt =====
-- A reconcile of a resource that is not being deleted leaves the objects in authentik in place:
-- internal/controller/authentikapplication_controller.go.
use authentik_operator.Controller.Bindings.Laws.{on_markers, deletes}
use authentik_operator.Controller.Provider.Calls.{Emits-reconcile_provider}
use authentik_operator.Resolver.Quiet.{resolve-IsRead}
use authentik_operator.Controller.Provider.Tame.{IsDeleteFree-IsRead}
use authentik_operator.Controller.Application.Calls.{
  Emits-observe_application, Emits-reconcile_application,
}
use authentik_operator.Controller.Bindings.Laws.{
  DeletesUnkept, on_markers, delete_unkept-DeletesUnkept, Emits-write_bindings,
  IsDeleteFree-IsMarkerCall,
}
use authentik_operator.Prelude.Int.{ℤ}
use authentik_operator.Reference.{Resolved, Rule, ProxyReferences}
use authentik_operator.Models.{PolicyBinding, Outpost, Application}
use authentik_operator.Api.{
  AuthentikApplication, OAuth2CredentialsSpec, OAuth2ProviderSpec, AccessSpec, ProviderSpec,
  ProxyProviderSpec,
}
use authentik_operator.Controller.Unmanaged.Laws.{
  IsDeleteFree, Emits-report_all, Emits-report_condition, Emits-patch_status,
}
use authentik_operator.Effect.Emits.{
  Emits, Emits-weaken, Emits-bind, emits_rules, Emits-ignore_not_found, Emits-call,
}
use authentik_operator.Prelude.{List, Bool, Option, String, true, some, ◌∷◌, none, false, []}
use authentik_operator.Effect.{
  Call, Action, delete_application, Result, delete_proxy_provider, ok, delete_oauth2_provider, err,
  delete_policy_binding,
}
use authentik_operator.Controller.Bindings.{
  finish_bindings, reconcile_bindings, set_binding_uuids, Split,
}
use authentik_operator.Controller.Credentials.{
  export_by, export_for, export_with, export_to, export_credentials,
}
use authentik_operator.Controller.Reconcile.{
  apply_resolved, maybe_provider_steps, outpost_step, check_conflict, reconcile_app, provider_steps,
}
use authentik_operator.Controller.Outpost.{
  join_outpost, leave_previous, leave_found, reconcile_outpost, set_outpost_uuid,
  remove_provider_from_outpost, leave_outpost_by_uuid,
}
use authentik_operator.Controller.Unmanaged.{
  prune_bindings, handle_unmanaged_bindings, prune_all, set_unmanaged,
}

-- A call other than the deletion of an Application or a Provider.
abbrev pub LeavesObjects : Call → Type 0
LeavesObjects (delete_application _) = ⊥
LeavesObjects (delete_proxy_provider _) = ⊥
LeavesObjects (delete_oauth2_provider _) = ⊥
LeavesObjects _ = Unit

LeavesObjects-IsDeleteFree : (c : Call) → IsDeleteFree c → LeavesObjects c
LeavesObjects-IsDeleteFree (delete_application slug) h = h
LeavesObjects-IsDeleteFree (delete_proxy_provider pk) h = h
LeavesObjects-IsDeleteFree (delete_oauth2_provider pk) h = h
LeavesObjects-IsDeleteFree _ h = tt

pub from_delete_free : {A : Type 0} (m : Action A) → Emits IsDeleteFree m → Emits LeavesObjects m
from_delete_free m h = Emits-weaken m LeavesObjects-IsDeleteFree h

-- The Bindings

LeavesObjects-DeletesUnkept :
    (kept : List String) (managed : List PolicyBinding) (c : Call)
    → DeletesUnkept kept managed c
    → LeavesObjects c
LeavesObjects-DeletesUnkept kept managed c (on_markers d h) =
    LeavesObjects-IsDeleteFree d (IsDeleteFree-IsMarkerCall d h)
LeavesObjects-DeletesUnkept kept managed c (deletes b i h) = tt

Emits-prune_all : (bindings : List PolicyBinding) → Emits LeavesObjects (prune_all bindings)
unfolding prune_all
Emits-prune_all [] = search emits_rules
Emits-prune_all (b ∷ bindings) =
    Emits-bind _ _
      (Emits-ignore_not_found _ (Emits-call {P = LeavesObjects} (delete_policy_binding b.pk) tt))
      (λ u. Emits-prune_all bindings)

Emits-prune_bindings :
    (prune : Bool) (bindings : List PolicyBinding)
    → Emits LeavesObjects (prune_bindings prune bindings)
unfolding prune_bindings
Emits-prune_bindings true bindings = search (emits_rules, Emits-prune_all)
Emits-prune_bindings false bindings = search emits_rules

Emits-handle_unmanaged_bindings :
    (access : AccessSpec) (unmanaged : List PolicyBinding)
    → Emits LeavesObjects (handle_unmanaged_bindings access unmanaged)
unfolding handle_unmanaged_bindings set_unmanaged
Emits-handle_unmanaged_bindings access unmanaged =
    Emits-bind _ _ (Emits-prune_bindings _ unmanaged) (λ left.
      Emits-bind _ _ (from_delete_free _ (Emits-report_all left)) (λ reported.
        Emits-bind _ _ (search emits_rules)
          (λ u. from_delete_free _ (Emits-report_condition _ reported))))

Emits-finish_bindings :
    (written : Split × List String) → Emits LeavesObjects (finish_bindings written)
unfolding finish_bindings set_binding_uuids
Emits-finish_bindings (split, kept) =
    Emits-bind _ _
      (Emits-weaken _ (LeavesObjects-DeletesUnkept kept split.managed)
        (delete_unkept-DeletesUnkept kept split.managed))
      (λ u. Emits-bind _ _ (search emits_rules) (λ v.
        Emits-bind _ _ (from_delete_free _ Emits-patch_status) (λ w.
          Emits-bind _ _ (search emits_rules)
            (λ app. Emits-handle_unmanaged_bindings app.spec.access _))))

Emits-reconcile_bindings :
    (target : String) (rules : List Rule) → Emits LeavesObjects (reconcile_bindings target rules)
unfolding reconcile_bindings
Emits-reconcile_bindings target rules =
    Emits-bind _ _ (from_delete_free _ (Emits-write_bindings target rules)) Emits-finish_bindings

-- The Outpost and the Secret

Emits-join_outpost :
    (uuid : String) (outpost : Outpost) (pk : ℤ) → Emits IsDeleteFree (join_outpost uuid outpost pk)
unfolding join_outpost
Emits-join_outpost uuid outpost pk = search emits_rules

Emits-leave_found : (answer : Result Outpost) (pk : ℤ) → Emits IsDeleteFree (leave_found answer pk)
unfolding leave_found remove_provider_from_outpost
Emits-leave_found (ok outpost) pk = search emits_rules
Emits-leave_found (err e) pk = search emits_rules

Emits-leave_previous :
    (uuid previous : String) (pk : ℤ) → Emits IsDeleteFree (leave_previous uuid previous pk)
unfolding leave_previous leave_outpost_by_uuid
Emits-leave_previous uuid previous pk = search (emits_rules, Emits-leave_found)

Emits-reconcile_outpost : (uuid : String) (pk : ℤ) → Emits IsDeleteFree (reconcile_outpost uuid pk)
unfolding reconcile_outpost set_outpost_uuid
Emits-reconcile_outpost uuid pk =
    search (emits_rules, Emits-join_outpost, Emits-leave_previous) depth 14

Emits-export_to :
    (app : AuthentikApplication) (spec : OAuth2CredentialsSpec) (pk : ℤ)
    → Emits IsDeleteFree (export_to app spec pk)
unfolding export_to
Emits-export_to app spec pk = search emits_rules depth 14

exported_with :
    (app : AuthentikApplication) (credentials : Option OAuth2CredentialsSpec) (pk : ℤ)
    → Emits IsDeleteFree (export_with app credentials pk)
unfolding export_with
exported_with app none pk = search emits_rules
exported_with app (some credentials) pk = Emits-export_to app credentials pk

exported_by :
    (app : AuthentikApplication) (oauth2 : Option OAuth2ProviderSpec) (pk : ℤ)
    → Emits IsDeleteFree (export_by app oauth2 pk)
unfolding export_by export_with
exported_by app none pk = search emits_rules
exported_by app (some oauth2) pk = exported_with app oauth2.credentials pk

exported :
    (app : AuthentikApplication) (spec : Option ProviderSpec) (pk : ℤ)
    → Emits IsDeleteFree (export_for app spec pk)
unfolding export_for
exported app none pk = search emits_rules
exported app (some provider) pk = exported_by app provider.oauth2 pk

Emits-export_credentials : (pk : ℤ) → Emits IsDeleteFree (export_credentials pk)
unfolding export_credentials
Emits-export_credentials pk = search (emits_rules, exported)

-- The steps of `reconcile`

Emits-outpost_step :
    (proxy : Option ProxyProviderSpec) (refs : Option ProxyReferences) (pk : ℤ)
    → Emits IsDeleteFree (outpost_step proxy refs pk)
unfolding outpost_step
Emits-outpost_step none refs pk = search emits_rules
Emits-outpost_step (some proxy) none pk = search emits_rules
Emits-outpost_step (some proxy) (some refs) pk = Emits-reconcile_outpost refs.outpost pk

Emits-maybe_provider_steps :
    (provider : Option ProviderSpec) (resolved : Resolved) (observed : Option Application)
    → Emits IsDeleteFree (maybe_provider_steps provider resolved observed)
unfolding maybe_provider_steps provider_steps
Emits-maybe_provider_steps none resolved observed = search emits_rules
Emits-maybe_provider_steps (some provider) resolved observed =
    search (emits_rules, Emits-reconcile_provider, Emits-outpost_step, Emits-export_credentials)
      depth 14

Emits-check_conflict : Emits IsDeleteFree check_conflict
unfolding check_conflict
Emits-check_conflict = search emits_rules depth 12

Emits-apply_resolved : (resolved : Resolved) → Emits LeavesObjects (apply_resolved resolved)
unfolding apply_resolved
Emits-apply_resolved resolved = Emits-bind _ _ (search emits_rules) (λ app.
    Emits-bind _ _ (from_delete_free _ (Emits-observe_application resolved)) (λ observed.
      Emits-bind _ _
        (from_delete_free _ (Emits-maybe_provider_steps app.spec.provider resolved observed))
        (λ pk.
          Emits-bind _ _ (from_delete_free _ (Emits-reconcile_application observed pk))
            (λ application. Emits-reconcile_bindings application.pbm_uuid resolved.rules))))

-- The reconcile of a resource that is not being deleted, however the services answer, deletes no
-- Application and no Provider in authentik.
pub reconcile_app-LeavesObjects : Emits LeavesObjects reconcile_app
unfolding reconcile_app
reconcile_app-LeavesObjects = Emits-bind _ _ (from_delete_free _ Emits-check_conflict) (λ u.
    Emits-bind _ _ (search emits_rules) (λ app.
      Emits-bind _ _ (from_delete_free _ (Emits-weaken _ IsDeleteFree-IsRead (resolve-IsRead app)))
        Emits-apply_resolved))
