-- ===== src/Controller/Status.antt =====
-- The conditions and the status: `setCondition`, `setReady` and `patchStatus` of
-- internal/controller/authentikapplication_controller.go. The response of a status patch replaces
-- the resource in the source; here the resource stays as it was written.
pub mod Reported
use authentik_operator.Prelude.{
  String, Bool, true, not, ◌||◌, Option, none, some, bool_eq, ◌==◌, if◌then◌else◌, Eq, List,
}
use authentik_operator.Api.{Condition, ConditionType, ready, Reason}
use authentik_operator.Effect.{
  condition, record_event, write_status, State, Action, pure, gets, asks, modify, call, note, wrap,
  ◌>>=◌, ◌>>◌,
}

unfoldable pub Reason_discrete : Discrete Reason
Reason_discrete = hlevel

instance abbrev pub reason_eq : Eq Reason
reason_eq = record { dec = Reason_discrete }

unfoldable pub set_conditions : List Condition → State → State
set_conditions conditions s = record s {
  app = record s.app { status = record s.app.status { conditions = conditions } };
}

-- whether the status or the reason of the condition changes
unfoldable pub condition_changes : Option Condition → Bool → Reason → Bool
condition_changes none status reason = true
condition_changes (some previous) status reason =
    not (previous.status == status) || not (previous.reason == reason)

unfoldable pub set_condition : ConditionType → Bool → Reason → String → Action Unit
unfolding condition_changes
set_condition type status reason message = do
  app ← gets (λ s. s.app)
  find ← asks (λ env. env.find_condition)
  put ← asks (λ env. env.put_condition)
  modify (
      set_conditions (
        put app.status.conditions (record {
          type = type;
          status = status;
          reason = reason;
          message = message;
          observed_generation = app.generation;
        })))
  if not (condition_changes (find app.status.conditions type) status reason)
      then pure tt
      else note (record_event (condition reason))

unfoldable pub set_ready : Bool → Reason → String → Action Unit
unfolding set_condition
set_ready status reason message = set_condition ready status reason message

unfoldable pub patch_status : Action Unit
patch_status = do
  app ← gets (λ s. s.app)
  base ← gets (λ s. s.base)
  same ← asks (λ env. env.same_status)
  if same base app.status then pure tt else do
    wrap "failed to update the status" (call (write_status app.status))
    modify (λ s. record s { base = s.app.status })
