-- ===== src/Tests/Reconciles.antt =====
-- Reconciles at concrete inputs.
use authentik_operator.Tests.Conflicts.{both}
use authentik_operator.Tests.Written.{written_application}
use authentik_operator.Controller.Reconcile.Live.{reconcile_found-LeavesObjects}
use authentik_operator.Controller.Reconcile.Calls.{LeavesObjects}
use authentik_operator.Patch.Fields.{diff_value, diff_nullable, diff_pointer}
use authentik_operator.Patch.Application.{diff_application}
use authentik_operator.Resolver.Lookup.{got_one, found_one, named_pk}
use authentik_operator.Controller.Status.{set_ready, patch_status, Reason_discrete}
use authentik_operator.Ownership.{Object_discrete}
use authentik_operator.Ownership.Cache.{ensure, cached}
use authentik_operator.Resolver.Quiet.{resolve-IsRead}
use authentik_operator.Resolver.Reads.{IsRead}
use authentik_operator.Desired.Application.{desired_application, map_enum}
use authentik_operator.Controller.Provider.Choice.{provider_handler}
use authentik_operator.Tests.Data.{older, new_status, wiki_spec, open_access, newer}
use authentik_operator.Tests.Services.{fresh_state, services, wiki_application, proxied}
use authentik_operator.Resolver.Resolve.{resolve}
use authentik_operator.Controller.Provider.Chosen.{Chosen, provider_handler-Chosen}
use authentik_operator.Resolver.Subjects.{AllResolved, resolve-AllResolved}
use authentik_operator.Patch.Application.Laws.{MatchesApplication}
use authentik_operator.Controller.Reconcile.{finish, requeue, report_outcome, reconcile_found}
use authentik_operator.Controller.Application.{observe_application}
use authentik_operator.Controller.Reconcile.Outcome.{Finishes, finish-Finishes, finish-requeues}
use authentik_operator.Controller.Adoption.{adopt_by}
use authentik_operator.Reference.{Resolved}
use authentik_operator.Effect.Emits.{Emits}
use authentik_operator.Effect.{
  State, Error, pure, as_stop, ok, stop, ◌>>=◌, gets, note, err, asks, modify, attempt,
  list_resources_with_slug, call, wrap, wrap_result, clock, Env, Call, Result, Answer, other,
}
use authentik_operator.Controller.Application.Consent.{Consented, observe_application-Consented}
use authentik_operator.Prelude.{
  is_some, contains, String_discrete, ◌∷◌, [], some, none, false, ◌≡◌, refl, arith, true, string_eq,
  List,
}
use authentik_operator.Controller.Adoption.Match.{adopt_by-MatchesApplication}
use authentik_operator.Api.{AccessRule, AuthentikApplication, Reason, if_match}

resolve_example : Emits IsRead (resolve older)
resolve_example = resolve-IsRead older

-- a resource with a rule for a group and a Proxy Provider
abbrev group_rule : AccessRule
group_rule = record {
  group = some (record { name = none; uuid = some "g1" });
  user = none;
  policy = none;
  negate = none;
}

abbrev guarded : AuthentikApplication
guarded = record older {
  spec = record wiki_spec {
    provider = some proxied;
    access = record open_access { rules = group_rule ∷ [] };
  };
}

abbrev resolved : Resolved
resolved = record {
  flows = some (record { authorization = "f"; invalidation = "f"; authentication = none });
  proxy = some (record { certificate = none; outpost = "o1" });
  oauth2 = none;
  rules = record { group = some "g1"; user = none; policy = none; negate = false } ∷ [];
}

resolves : (resolve guarded services fresh_state).0 ≡ ok resolved
unfolding resolve ◌>>=◌ pure gets modify attempt call wrap wrap_result got_one found_one named_pk
resolves = refl

resolve-AllResolved_example : AllResolved (group_rule ∷ []) resolved.rules
resolve-AllResolved_example =
    resolve-AllResolved guarded services fresh_state resolved (ground arith, tt) resolves

provider_handler_example : Chosen (provider_handler guarded proxied resolved)
provider_handler_example =
    provider_handler-Chosen guarded proxied services fresh_state resolved refl refl resolves

-- two resources with the slug, and services that list them
abbrev listing : Env
listing = record services { answer = both_listed }
  where
    both_listed : List Call → (c : Call) → Result (Answer c)
    both_listed t (list_resources_with_slug slug) = ok both
    both_listed t _ = err (other "unavailable")

abbrev newer_state : State
newer_state = record fresh_state { app = newer }

abbrev conflicting : Error
conflicting = stop Reason.conflict "slug is managed"

finish-Finishes_example :
    Finishes services older
      (err conflicting)
      (finish (err conflicting) services fresh_state).1.app.status
finish-Finishes_example = finish-Finishes (err conflicting) services fresh_state

stops : (finish (err conflicting) services fresh_state).0 ≡ ok (some 10)
unfolding finish ◌>>=◌ pure gets asks modify attempt call wrap wrap_result note set_ready requeue
    report_outcome patch_status as_stop Reason_discrete
stops = refl

finish-requeues_example :
    (is_some (as_stop conflicting) ≡ true) × (some 10 ≡ some services.resync_interval)
finish-requeues_example = finish-requeues conflicting services fresh_state (some 10) stops

-- a resource that records the Application
abbrev recorded_state : State
recorded_state = record fresh_state {
  app = record older { status = record new_status { application_pk = "a1" } };
}

observes : (observe_application resolved services recorded_state).0 ≡ ok (some wiki_application)
unfolding observe_application ◌>>=◌ pure gets asks attempt call ensure String_discrete
    Object_discrete clock cached contains
observes = refl

observe_application_example : Consented services recorded_state wiki_application
observe_application_example =
    observe_application-Consented resolved services recorded_state wiki_application observes

adopts : (adopt_by if_match older resolved wiki_application services fresh_state).0 ≡ ok tt
unfolding adopt_by ◌>>=◌ pure note diff_application diff_value desired_application String_discrete
    diff_nullable diff_pointer map_enum
adopts = refl

adopt_by_example : MatchesApplication (desired_application older.spec none) wiki_application
adopt_by_example =
    adopt_by-MatchesApplication older resolved wiki_application services fresh_state
      written_application adopts

reconcile_found_example : Emits LeavesObjects (reconcile_found older)
reconcile_found_example = reconcile_found-LeavesObjects older refl
