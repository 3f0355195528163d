-- ===== src/Effect/Keeps.antt =====
-- Actions that keep a part of the state, whether they succeed or fail: a rule for each way to build
-- an action.
use authentik_operator.Effect.{note, clock}
use authentik_operator.Prelude.{String, ◌≡◌, refl, ◌∙◌, Bool, true, false, if◌then◌else◌}
use authentik_operator.Effect.Errors.{Error, Result, ok, err}
use authentik_operator.Effect.Calls.{Call}
use authentik_operator.Effect.Monad.{
  wrap, ignore_not_found, Env, State, Action, pure, raise, gets, asks, attempt, of_result, modify,
  call, ◌>>=◌, continue,
}

-- `m` leaves the part `f` of the state as it was.
pub record Keeps {A B : Type 0} (f : State → B) (m : Action A) : Type 0 where
  pub at : (env : Env) (s : State) → f (m env s).1 ≡ f s

module _ {A B : Type 0} {f : State → B} where
  pub Keeps-pure : (a : A) → Keeps f (pure a)
  unfolding pure
  Keeps-pure a = record { at = λ env s. refl }

  pub Keeps-raise : (e : Error) → Keeps f (raise {A = A} e)
  unfolding raise
  Keeps-raise e = record { at = λ env s. refl }

  pub Keeps-gets : (g : State → A) → Keeps f (gets g)
  unfolding gets
  Keeps-gets g = record { at = λ env s. refl }

  pub Keeps-asks : (g : Env → A) → Keeps f (asks g)
  unfolding asks
  Keeps-asks g = record { at = λ env s. refl }

  pub Keeps-of_result : (r : Result A) → Keeps f (of_result r)
  unfolding of_result
  Keeps-of_result r = record { at = λ env s. refl }

  pub Keeps-attempt : (m : Action A) → Keeps f m → Keeps f (attempt m)
  unfolding attempt
  Keeps-attempt m h = record { at = h.at }

  pub Keeps-wrap : (message : String) (m : Action A) → Keeps f m → Keeps f (wrap message m)
  unfolding wrap
  Keeps-wrap message m h = record { at = h.at }

  pub Keeps-ignore_not_found : (m : Action A) → Keeps f m → Keeps f (ignore_not_found m)
  unfolding ignore_not_found
  Keeps-ignore_not_found m h = record { at = h.at }

  pub Keeps-if : (b : Bool) (m n : Action A) → Keeps f m → Keeps f n → Keeps f (if b then m else n)
  Keeps-if true m n hm hn = hm
  Keeps-if false m n hm hn = hn

module _ {B : Type 0} {f : State → B} where
  pub Keeps-modify : (g : State → State) → ((s : State) → f (g s) ≡ f s) → Keeps f (modify g)
  unfolding modify
  Keeps-modify g h = record { at = λ env s. h s }

-- A call changes only the trace, so it keeps the resource.
pub Keeps-call : (c : Call) → Keeps (λ s. s.app) (call c)
unfolding call
Keeps-call c = record { at = λ env s. refl }

pub Keeps-note : (c : Call) → Keeps (λ s. s.app) (note c)
unfolding note
Keeps-note c = record { at = λ env s. refl }

pub Keeps-clock : Keeps (λ s. s.app) clock
unfolding clock
Keeps-clock = record { at = λ env s. refl }

module _ {A B C : Type 0} {f : State → C} where
  continued :
      (r : Result A) (g : A → Action B)
      → ((a : A) → Keeps f (g a))
      → (env : Env) (s : State) → f (continue r g env s).1 ≡ f s
  continued (ok a) g h env s = (h a).at env s
  continued (err e) g h env s = refl

  pub Keeps-bind :
      (m : Action A) (g : A → Action B) → Keeps f m → ((a : A) → Keeps f (g a)) → Keeps f (m >>= g)
  unfolding ◌>>=◌
  Keeps-bind m g hm hg = record {
    at = λ env s. continued (m env s).0 g hg env (m env s).1 ∙ hm.at env s;
  }

  -- What follows `m` keeps what `m` left.
  pub Keeps-tail :
      (m : Action A) (g : A → Action B)
      → ((a : A) → Keeps f (g a))
      → (env : Env) (s : State) → f ((m >>= g) env s).1 ≡ f (m env s).1
  unfolding ◌>>=◌
  Keeps-tail m g hg env s = continued (m env s).0 g hg env (m env s).1

pub ruleset keeps_rules = (
  Keeps-pure, Keeps-raise, Keeps-gets, Keeps-asks, Keeps-of_result, Keeps-attempt, Keeps-if,
  Keeps-call, Keeps-note, Keeps-clock, Keeps-wrap, Keeps-ignore_not_found, Keeps-modify, Keeps-bind,
)

-- When `m` fails, it leaves the part `f` of the state as it was.
pub record Spares {A B : Type 0} (f : State → B) (m : Action A) : Type 0 where
  pub at : (env : Env) (s : State) (e : Error) → (m env s).0 ≡ err e → f (m env s).1 ≡ f s

module _ {A B C : Type 0} {f : State → C} where
  spared :
      (r : Result A) (g : A → Action B)
      → ((a : A) → Spares f (g a))
      → (env : Env) (s : State) (e : Error) → (continue r g env s).0 ≡ err e
      → f (continue r g env s).1 ≡ f s
  spared (ok a) g h env s e p = (h a).at env s e p
  spared (err x) g h env s e p = refl

  pub Spares-bind :
      (m : Action A) (g : A → Action B)
      → Keeps f m
      → ((a : A) → Spares f (g a))
      → Spares f (m >>= g)
  unfolding ◌>>=◌
  Spares-bind m g hm hg = record {
    at = λ env s e p. spared (m env s).0 g hg env (m env s).1 e p ∙ hm.at env s;
  }

pub Spares-modify : {B : Type 0} {f : State → B} (g : State → State) → Spares f (modify g)
unfolding modify
Spares-modify g = record { at = λ env s e p. absurd cc }
