-- ===== src/Resolver/Grows.antt =====
-- The collector only grows, and a value is good when nothing was added to it:
-- internal/reference/resolver.go.
use authentik_operator.Effect.Yields.{ok-inj}
use authentik_operator.Effect.Inversion.{>>=-eq-ok}
use mathlib.Core.Path.{subst}
use authentik_operator.Reference.Failures.{add}
use authentik_operator.Effect.Keeps.{Keeps}
use authentik_operator.Resolver.Lookup.{add_failure}
use authentik_operator.Effect.{
  pure, call, raise, Action, Error, Env, Call, modify, ◌>>=◌, State, ok,
}
use authentik_operator.Prelude.{
  Bool, if◌then◌else◌, arith, refl, ap, String, ◌≡◌, length, ℕ, length-append, ◌≤◌, ◌∷◌, true, [],
  false,
}

-- When `m` succeeds, the collector has grown or stayed; if it stayed, the value has `G`.
pub record Resolves {A : Type 0} (G : A → Type 0) (m : Action A) : Type 0 where
  pub at :
      (env : Env) (s : State) (a : A)
      → (m env s).0 ≡ ok a
      → (length s.failures ≤ length (m env s).1.failures)
        × (length (m env s).1.failures ≡ length s.failures → G a)

module _ {A : Type 0} {G : A → Type 0} where
  pub Resolves-pure : (a : A) → G a → Resolves G (pure a)
  unfolding pure
  Resolves-pure a g = record { at = λ env s b e. (omega arith, λ h. subst G (ok-inj e) g) }

  pub Resolves-raise : (x : Error) → Resolves G (raise x)
  unfolding raise
  Resolves-raise x = record { at = λ env s b e. absurd cc }

  pub Resolves-if :
      (b : Bool) (m n : Action A) → Resolves G m → Resolves G n → Resolves G (if b then m else n)
  Resolves-if true m n hm hn = hm
  Resolves-if false m n hm hn = hn

  pub weaken : {H : A → Type 0} (m : Action A) → ((a : A) → G a → H a) → Resolves G m → Resolves H m
  weaken m f h = record { at = λ env s a e. let x = h.at env s a e in (x.0, λ p. f a (x.1 p)) }

-- An action that keeps the collector.
pub Resolves-Keeps :
    {A : Type 0} (m : Action A) → Keeps (λ s. s.failures) m → Resolves (λ _. Unit) m
Resolves-Keeps m k = record { at = λ env s a e. (omega (arith, ap length (k.at env s)), λ h. tt) }

-- After a failure was added, nothing is promised.
pub Resolves-add_failure :
    (path target : String) (matches : ℕ) → Resolves (λ _. ⊥) (add_failure path target matches)
unfolding add_failure modify add
Resolves-add_failure path target matches = record {
  at = λ env s a e.
      let n =
        length-append s.failures
          (record { path = path; target = target; matches = matches } ∷ []) in
      (omega arith, λ h. omega arith);
}

module _ {A B : Type 0} {G : A → Type 0} {H : B → Type 0} where
  pub Resolves-bind :
      (m : Action A) (f : A → Action B)
      → Resolves G m
      → ((a : A) → Resolves (λ b. G a → H b) (f a))
      → Resolves H (m >>= f)
  Resolves-bind m f hm hf = record {
    at = λ env s b e.
        let (a, p, q, t) = >>=-eq-ok m f env s b e in
        let x = hm.at env s a p in
        let y = (hf a).at env (m env s).1 b q in
        let l = ap (λ (u : State). length u.failures) t in
        (omega arith, λ h. y.1 (omega arith) (x.1 (omega arith)));
  }

-- `call` and the actions on its result keep the collector.
pub Keeps-failures-call : (c : Call) → Keeps (λ s. s.failures) (call c)
unfolding call
Keeps-failures-call c = record { at = λ env s. refl }
