-- ===== src/Effect/Monad.antt =====
-- Actions: they read and change the state of the operator, make calls, and may return an error.
-- What was changed before an error stays changed, so the state comes back beside the error too.
use authentik_operator.Prelude.{ℕ, String, Bool, Option, List, ◌∷◌, if◌then◌else◌}
use authentik_operator.Models.Json.{Json, Fields, JsonModel}
use authentik_operator.Api.{
  AuthentikApplication, AuthentikApplicationStatus, AuthentikApplicationSpec, Condition,
  ConditionType,
}
use authentik_operator.Reference.Failures.{Failure}
use authentik_operator.Effect.Errors.{Error, wrapped, is_not_found, Result, ok, err}
use authentik_operator.Effect.Calls.{Call, Answer, now}

-- `ownership.Object`
pub record Object : Type 0 where
  pub model : String
  pub pk : String

-- The services answer a call in dependence on every call before it, so they may have any state, and
-- others may change it in between. `spec_hash` is the SHA-256 of the JSON of a spec. The
-- functions on conditions and finalizers, and the comparison of two statuses, are those of
-- k8s.io/apimachinery and sigs.k8s.io/controller-runtime. Those on JSON are of encoding/json and of
-- the models of client-go.
pub record Env : Type 0 where
  pub answer : List Call → (c : Call) → Result (Answer c)
  pub clock : List Call → ℕ
  pub spec_hash : AuthentikApplicationSpec → String
  pub role_name : String
  pub resync_interval : ℕ
  pub find_condition : List Condition → ConditionType → Option Condition
  pub put_condition : List Condition → Condition → List Condition
  pub drop_condition : List Condition → ConditionType → List Condition
  pub same_status : AuthentikApplicationStatus → AuthentikApplicationStatus → Bool
  pub contains_finalizer : List String → String → Bool
  pub add_finalizer : List String → String → List String × Bool
  pub remove_finalizer : List String → String → List String
  -- json.Marshal of a model and json.Unmarshal into a map, `none` when either fails
  pub json_fields : JsonModel → Option Fields
  -- json.Marshal of a value
  pub json_text : Json → String
  -- `controllerutil.SetControllerReference` on a Secret of the name
  pub set_owner : AuthentikApplication → String → Result (Unit {0})

-- The state of the operator: the calls made, the newest first; `Marker.roleUUID`, empty when no
-- role is remembered; `markerCache.objects` and `fetched`; `reconcileState.app` and `base`; and the
-- failures that the collector of the last `Resolve` holds.
pub record State : Type 0 where
  pub trace : List Call
  pub role_uuid : String
  pub objects : Option (List Object)
  pub fetched : ℕ
  pub app : AuthentikApplication
  pub base : AuthentikApplicationStatus
  pub failures : List Failure

abbrev pub Action : Type 0 → Type 0
Action A = Env → State → Result A × State

module _ {A : Type 0} where
  unfoldable pub pure : A → Action A
  pure a env s = (ok a, s)

  unfoldable pub raise : Error → Action A
  raise e env s = (err e, s)

  unfoldable pub gets : (State → A) → Action A
  gets f env s = (ok (f s), s)

  unfoldable pub asks : (Env → A) → Action A
  asks f env s = (ok (f env), s)

  -- the result of an action as a value, for code that looks at the error
  unfoldable pub attempt : Action A → Action (Result A)
  attempt m env s = let (r, s') = m env s in (ok r, s')

  unfoldable pub of_result : Result A → Action A
  of_result r env s = (r, s)

unfoldable pub modify : (State → State) → Action Unit
modify f env s = (ok tt, f s)

-- One call: it is noted in the trace, and answered in dependence on the calls before it.
unfoldable pub call : (c : Call) → Action (Answer c)
call c env s = (env.answer s.trace c, record s { trace = c ∷ s.trace })

-- What cannot fail: an event that is recorded, and the clock.
unfoldable pub note : Call → Action Unit
note c env s = (ok tt, record s { trace = c ∷ s.trace })

unfoldable pub clock : Action ℕ
clock env s = (ok (env.clock s.trace), record s { trace = now ∷ s.trace })

module _ {A B : Type 0} where
  abbrev pub continue : Result A → (A → Action B) → Action B
  continue (ok a) f env s = f a env s
  continue (err e) f env s = (err e, s)

  infixl 10 ◌>>=◌ ◌>>◌
  unfoldable pub ◌>>=◌ : Action A → (A → Action B) → Action B
  ◌>>=◌ m f env s = let (r, s') = m env s in continue r f env s'

  abbrev pub ◌>>◌ : Action A → Action B → Action B
  m >> n = m >>= λ _. n

-- `fmt.Errorf("...: %w", err)` on the error of an action
unfoldable pub wrap_result : {A : Type 0} → String → Result A → Result A
wrap_result message (ok a) = ok a
wrap_result message (err e) = err (wrapped message e)

unfoldable pub wrap : {A : Type 0} → String → Action A → Action A
wrap message m env s = let (r, s') = m env s in (wrap_result message r, s')

-- `ignoreNotFound`, and the same test written out: a not-found error counts as success
unfoldable pub ignore_result : {A : Type 0} → Result A → Result (Unit {0})
ignore_result (ok a) = ok tt
ignore_result (err e) = if is_not_found e then ok tt else err e

unfoldable pub ignore_not_found : {A : Type 0} → Action A → Action Unit
ignore_not_found m env s = let (r, s') = m env s in (ignore_result r, s')
