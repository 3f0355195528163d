-- ===== src/Effect/Inversion.antt =====
-- What the success of an action of several steps says of its steps.
use authentik_operator.Prelude.{◌≡◌, refl}
use authentik_operator.Effect.{◌>>=◌, Result, Action, Env, State, continue, ok, err}

module _ {A B : Type 0} where
  continued :
      (r : Result A) (f : A → Action B) (env : Env) (s : State) (b : B)
      → (continue r f env s).0 ≡ ok b
      → (a : A) × (r ≡ ok a) × ((f a env s).0 ≡ ok b) × ((continue r f env s).1 ≡ (f a env s).1)
  continued (ok a) f env s b h = (a, refl, h, refl)
  continued (err e) f env s b h = absurd cc

  -- When both steps of `m >>= f` succeed: the value between them, and the state after the second.
  pub >>=-eq-ok :
      (m : Action A) (f : A → Action B) (env : Env) (s : State) (b : B)
      → ((m >>= f) env s).0 ≡ ok b
      → (a : A) × ((m env s).0 ≡ ok a)
        × ((f a env (m env s).1).0 ≡ ok b)
        × (((m >>= f) env s).1 ≡ (f a env (m env s).1).1)
  unfolding ◌>>=◌
  >>=-eq-ok m f env s b h = continued (m env s).0 f env (m env s).1 b h

  -- After a step that succeeds comes the next one.
  pub >>=-ok :
      (m : Action A) (f : A → Action B) (env : Env) (s : State) (a : A)
      → (m env s).0 ≡ ok a
      → (m >>= f) env s ≡ f a env (m env s).1
  unfolding ◌>>=◌
  >>=-ok m f env s a h = rw h refl
