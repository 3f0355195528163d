-- ===== src/Controller/Status/Reported.antt =====
-- The conditions and the write of the status leave the rest of the status as it is:
-- `setCondition` and `patchStatus` of internal/controller.
use authentik_operator.Effect.Keeps.{Keeps, keeps_rules}
use authentik_operator.Api.{Condition, AuthentikApplicationStatus, Reason}
use authentik_operator.Prelude.{List, ◌≡◌, Bool, String, refl}
use authentik_operator.Effect.{State, note, call, Call}
use authentik_operator.Controller.Status.{set_conditions, patch_status, set_ready, set_condition}

-- The parts of the state that the report of the outcome leaves alone.
pub record Reported {B : Type 0} (f : State → B) : Type 0 where
  conditions_keep :
      (conditions : List Condition) (s : State) → f (set_conditions conditions s) ≡ f s
  notes_keep : (c : Call) → Keeps f (note c)
  calls_keep : (c : Call) → Keeps f (call c)
  base_keeps : (s : State) → f (record s { base = s.app.status }) ≡ f s

pub Reported-of :
    {B : Type 0} (f : AuthentikApplicationStatus → B)
    → ((status : AuthentikApplicationStatus) (conditions : List Condition)
        → f (record status { conditions = conditions }) ≡ f status)
    → Reported (λ s. f s.app.status)
unfolding set_conditions note call
Reported-of f h = record {
  conditions_keep = λ conditions s. h s.app.status conditions;
  notes_keep = λ c. record { at = λ env s. refl };
  calls_keep = λ c. record { at = λ env s. refl };
  base_keeps = λ s. refl;
}

module _ {B : Type 0} {f : State → B} (k : Reported f) where
  pub Keeps-set_ready :
      (status : Bool) (reason : Reason) (message : String)
      → Keeps f (set_ready status reason message)
  unfolding set_ready set_condition
  Keeps-set_ready status reason message =
      search (keeps_rules, k.conditions_keep, k.notes_keep) depth 14

  pub Keeps-patch_status : Keeps f patch_status
  unfolding patch_status
  Keeps-patch_status = search (keeps_rules, k.calls_keep, k.base_keeps) depth 14

pub generation-Reported : Reported (λ s. s.app.status.observed_generation)
generation-Reported = Reported-of (λ t. t.observed_generation) (λ t c. refl)

pub hash-Reported : Reported (λ s. s.app.status.last_applied_hash)
hash-Reported = Reported-of (λ t. t.last_applied_hash) (λ t c. refl)

pub diffs-Reported : Reported (λ s. s.app.status.adoption_diffs)
diffs-Reported = Reported-of (λ t. t.adoption_diffs) (λ t c. refl)

pub application-Reported : Reported (λ s. s.app.status.application_pk)
application-Reported = Reported-of (λ t. t.application_pk) (λ t c. refl)

pub provider-Reported : Reported (λ s. s.app.status.provider_pk)
provider-Reported = Reported-of (λ t. t.provider_pk) (λ t c. refl)
