-- ===== src/Controller/Provider/Tame.antt =====
-- What the reconcile of a Provider relies on in the handler of its type: the interface
-- `providerHandler` of internal/controller/provider.go with its two implementations.
use authentik_operator.Models.Json.{JsonModel}
use authentik_operator.Effect.Gives.{Gives}
use authentik_operator.Prelude.Int.{ℤ}
use authentik_operator.Controller.Unmanaged.Laws.{IsDeleteFree}
use authentik_operator.Prelude.{List, All, String, map, ◌∷◌, []}
use authentik_operator.Effect.Emits.{Emits, Emits-bind, Emits-attempt, emits_rules}
use authentik_operator.Resolver.Reads.{IsRead}
use authentik_operator.Effect.{
  Call, Action, delete_policy_binding, delete_application, delete_proxy_provider,
  delete_oauth2_provider, Result, ok, err,
}
use authentik_operator.Controller.FieldDiffs.{field_diffs}
use authentik_operator.Controller.Provider.Observed.{
  ObservedProvider, exists, ProviderHandler, exists_answer,
}

-- A Provider whose repair and comparison make only calls with `P`.
abbrev pub Tame : (Call → Type 0) → ObservedProvider → Type 0
Tame P provider = Emits P provider.sync × Emits P provider.diffs

-- A handler whose operations make only calls with `P`.
pub record TameHandler (P : Call → Type 0) (handler : ProviderHandler) : Type 0 where
  pub gets_one : (pk : ℤ) → Gives P (Tame P) (handler.get pk)
  pub finds_all : (name : String) → Gives P (All (Tame P)) (handler.find_by_name name)
  pub creates : (name : String) → Emits P (handler.create name)
  pub exists_other : (pk : ℤ) → Emits P (handler.exists_as_other_type pk)

pub All-mapped :
    {A : Type 0} (G : ObservedProvider → Type 0) (f : A → ObservedProvider) (xs : List A)
    → ((a : A) → G (f a))
    → All G (map f xs)
All-mapped G f [] h = tt
All-mapped G f (x ∷ xs) h = (h x, All-mapped G f xs h)

pub Emits-field_diffs :
    (paths : List (String × String)) (patch observed : JsonModel)
    → Emits IsDeleteFree (field_diffs paths patch observed)
unfolding field_diffs
Emits-field_diffs paths patch observed = search emits_rules

pub IsDeleteFree-IsRead : (c : Call) → IsRead c → IsDeleteFree c
IsDeleteFree-IsRead (delete_policy_binding uuid) h = h
IsDeleteFree-IsRead (delete_application slug) h = h
IsDeleteFree-IsRead (delete_proxy_provider pk) h = h
IsDeleteFree-IsRead (delete_oauth2_provider pk) h = h
IsDeleteFree-IsRead _ h = tt

Emits-exists_answer : {A : Type 0} (r : Result A) → Emits IsDeleteFree (exists_answer r)
unfolding exists_answer
Emits-exists_answer (ok a) = search emits_rules
Emits-exists_answer (err e) = search emits_rules

pub Emits-exists :
    {A : Type 0} (get : Action A) → Emits IsDeleteFree get → Emits IsDeleteFree (exists get)
unfolding exists
Emits-exists get h = Emits-bind _ _ (Emits-attempt get h) (λ r. Emits-exists_answer r)
