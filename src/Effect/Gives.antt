-- ===== src/Effect/Gives.antt =====
-- Which calls an action makes, and what holds of the value that it gives: a rule for each way to
-- build an action.
use authentik_operator.Effect.Yields.{ok-inj}
use mathlib.Core.Path.{subst}
use authentik_operator.Effect.Emits.{Between-trans, Between-refl, Emits, Between}
use authentik_operator.Prelude.{Bool, ◌≡◌, if◌then◌else◌, refl, true, false}
use authentik_operator.Effect.{
  Call, Result, raise, ◌>>=◌, ok, Action, pure, attempt, err, Env, Error, State, continue,
}

-- `m` makes only calls with `P`, and when it succeeds, its value has `G`.
pub record Gives {A : Type 0} (P : Call → Type 0) (G : A → Type 0) (m : Action A) : Type 0 where
  pub made : (env : Env) (s : State) → Between P s (m env s).1
  pub value : (env : Env) (s : State) (a : A) → (m env s).0 ≡ ok a → G a

-- a result whose value has `G`
abbrev pub Good : {A : Type 0} → (A → Type 0) → Result A → Type 0
Good G (ok a) = G a
Good G (err e) = Unit

result-Good : {A : Type 0} {G : A → Type 0} (r : Result A) → ((a : A) → r ≡ ok a → G a) → Good G r
result-Good (ok a) h = h a refl
result-Good (err e) h = tt

module _ {P : Call → Type 0} {A : Type 0} where
  pub Gives-Emits : (m : Action A) → Emits P m → Gives P (λ _. Unit) m
  Gives-Emits m h = record { made = h.at; value = λ env s a e. tt }

  pub Emits-Gives : {G : A → Type 0} (m : Action A) → Gives P G m → Emits P m
  Emits-Gives m h = record { at = h.made }

  pub Gives-weaken :
      {G H : A → Type 0} (m : Action A) → ((a : A) → G a → H a) → Gives P G m → Gives P H m
  Gives-weaken m f h = record { made = h.made; value = λ env s a e. f a (h.value env s a e) }

  pub Gives-pure : {G : A → Type 0} (a : A) → G a → Gives P G (pure a)
  unfolding pure
  Gives-pure {G} a g = record {
    made = λ env s. Between-refl s;
    value = λ env s b e. subst G (ok-inj e) g;
  }

  pub Gives-raise : {G : A → Type 0} (e : Error) → Gives P G (raise e)
  unfolding raise
  Gives-raise e = record { made = λ env s. Between-refl s; value = λ env s b h. absurd cc }

  pub Gives-if :
      {G : A → Type 0} (b : Bool) (m n : Action A)
      → Gives P G m
      → Gives P G n
      → Gives P G (if b then m else n)
  Gives-if true m n hm hn = hm
  Gives-if false m n hm hn = hn

  pub Gives-attempt : {G : A → Type 0} (m : Action A) → Gives P G m → Gives P (Good G) (attempt m)
  unfolding attempt
  Gives-attempt {G} m h = record {
    made = h.made;
    value = λ env s r e. subst (Good G) (ok-inj e) (result-Good (m env s).0 (h.value env s));
  }

module _ {P : Call → Type 0} {A B : Type 0} {G : A → Type 0} {H : B → Type 0} where
  given :
      (r : Result A) (f : A → Action B)
      → ((a : A) → G a → Gives P H (f a))
      → (env : Env) (s : State) → ((a : A) → r ≡ ok a → G a)
      → Between P s (continue r f env s).1 × ((b : B) → (continue r f env s).0 ≡ ok b → H b)
  given (ok a) f h env s g = ((h a (g a refl)).made env s, (h a (g a refl)).value env s)
  given (err e) f h env s g = (Between-refl s, λ b e. absurd cc)

  pub Gives-bind :
      (m : Action A) (f : A → Action B)
      → Gives P G m
      → ((a : A) → G a → Gives P H (f a))
      → Gives P H (m >>= f)
  unfolding ◌>>=◌
  Gives-bind m f hm hf = record {
    made = λ env s.
        Between-trans (hm.made env s) (given (m env s).0 f hf env (m env s).1 (hm.value env s)).0;
    value = λ env s. (given (m env s).0 f hf env (m env s).1 (hm.value env s)).1;
  }
