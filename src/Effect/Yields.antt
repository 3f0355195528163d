-- ===== src/Effect/Yields.antt =====
-- What holds after an action that succeeds, when `P` holds before it: a rule for each way to build
-- an action.
use mathlib.Core.Path.{subst}
use authentik_operator.Prelude.{◌≡◌, refl, Bool, true, false, if◌then◌else◌}
use authentik_operator.Effect.Errors.{Result, ok, err}
use authentik_operator.Effect.Monad.{Env, State, Action, pure, gets, modify, ◌>>=◌, continue}

pub record Yields {A : Type 0} (P : State → Type 0) (m : Action A) (Q : A → State → Type 0)
    : Type 0 where
  pub at : (env : Env) (s : State) (a : A) → P s → (m env s).0 ≡ ok a → Q a (m env s).1

pub ok-inj : {A : Type 0} {a b : A} → ok a ≡ ok b → a ≡ b
ok-inj e = cc

module _ {A : Type 0} {P : State → Type 0} {Q : A → State → Type 0} where
  pub Yields-pure : (a : A) → ((s : State) → P s → Q a s) → Yields P (pure a) Q
  unfolding pure
  Yields-pure a h = record { at = λ env s b p e. subst (λ x. Q x s) (ok-inj e) (h s p) }

  pub Yields-gets : (f : State → A) → ((s : State) → P s → Q (f s) s) → Yields P (gets f) Q
  unfolding gets
  Yields-gets f h = record { at = λ env s b p e. subst (λ x. Q x s) (ok-inj e) (h s p) }

  pub Yields-if :
      (b : Bool) (m n : Action A)
      → (b ≡ true → Yields P m Q)
      → (b ≡ false → Yields P n Q)
      → Yields P (if b then m else n) Q
  Yields-if true m n hm hn = hm refl
  Yields-if false m n hm hn = hn refl

module _ {P : State → Type 0} {Q : Unit → State → Type 0} where
  pub Yields-modify : (f : State → State) → ((s : State) → P s → Q tt (f s)) → Yields P (modify f) Q
  unfolding modify
  Yields-modify f h = record { at = λ env s b p e. subst (λ x. Q x (f s)) (ok-inj e) (h s p) }

module _ {A : Type 0} {P : State → Type 0} where
  pub Yields-any : (m : Action A) → Yields P m (λ _ _. Unit)
  Yields-any m = record { at = λ env s b p e. tt }

module _ {A B : Type 0} {R : A → State → Type 0} {Q : B → State → Type 0} where
  continued :
      (r : Result A) (f : A → Action B)
      → ((a : A) → Yields (R a) (f a) Q)
      → (env : Env) (s : State) → ((a : A) → r ≡ ok a → R a s)
      → (b : B) → (continue r f env s).0 ≡ ok b
      → Q b (continue r f env s).1
  continued (ok a) f h env s p b e = (h a).at env s b (p a refl) e
  continued (err x) f h env s p b e = cc

  pub Yields-bind :
      {P : State → Type 0} (m : Action A) (f : A → Action B)
      → Yields P m R
      → ((a : A) → Yields (R a) (f a) Q)
      → Yields P (m >>= f) Q
  unfolding ◌>>=◌
  Yields-bind m f hm hf = record {
    at = λ env s b p e. continued (m env s).0 f hf env (m env s).1 (λ a q. hm.at env s a p q) b e;
  }
