-- ===== src/Controller/Provider/Observed.antt =====
-- What depends on the type of the Provider: `observedProvider` and `providerHandler` of internal/controller/provider.go.
use authentik_operator.Api.{FieldDiff}
use authentik_operator.Models.{Nullable}
use authentik_operator.Prelude.Int.{ℤ}
use authentik_operator.Effect.{Action, Result, ok, ◌>>=◌, pure, attempt, err, is_not_found, raise}
use authentik_operator.Prelude.{String, Bool, List, Option, some, none, true, if◌then◌else◌, false}

-- `observedProvider`
pub record ObservedProvider : Type 0 where
  pub pk : ℤ
  pub assigned_application : Option String
  pub sync : Action Unit
  pub diffs : Action (List FieldDiff)

-- the interface `providerHandler`
pub record ProviderHandler : Type 0 where
  pub kind : String
  pub model : String
  pub get : ℤ → Action ObservedProvider
  pub find_by_name : String → Action (List ObservedProvider)
  pub create : String → Action ℤ
  pub exists_as_other_type : ℤ → Action Bool

-- `NullableString.Get`
unfoldable pub get_nullable : {A : Type 0} → Nullable A → Option A
get_nullable none = none
get_nullable (some value) = value

-- the result of a Get call as whether the object exists
unfoldable pub exists_answer : {A : Type 0} → Result A → Action Bool
exists_answer (ok a) = pure true
exists_answer (err e) = if is_not_found e then pure false else raise e

unfoldable pub exists : {A : Type 0} → Action A → Action Bool
unfolding exists_answer
exists get = do answer ← attempt get; exists_answer answer
