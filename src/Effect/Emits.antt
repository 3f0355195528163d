-- ===== src/Effect/Emits.antt =====
-- Which calls an action makes, whatever the services answer: a rule for each way to build an action.
use authentik_operator.Prelude.{
  All-map, String, ◌≡◌, refl, ◌∙◌, sym, ap, Bool, true, false, List, [], ◌∷◌, ◌++◌, All, All-append,
  if◌then◌else◌,
}
use mathlib.Core.List.{append_assoc}
use authentik_operator.Effect.Errors.{Error, Result, ok, err}
use authentik_operator.Effect.Calls.{now, Call}
use authentik_operator.Effect.Monad.{
  note, clock, wrap, ignore_not_found, Env, State, Action, pure, raise, gets, asks, attempt,
  of_result, modify, call, ◌>>=◌, continue,
}

-- Between the states `s` and `t` the calls made all have `P`.
pub record Between (P : Call → Type 0) (s t : State) : Type 0 where
  pub made : List Call
  pub extends : t.trace ≡ made ++ s.trace
  pub holds : All P made

pub record Emits {A : Type 0} (P : Call → Type 0) (m : Action A) : Type 0 where
  pub at : (env : Env) (s : State) → Between P s (m env s).1

module _ {P : Call → Type 0} where
  pub Between-refl : (s : State) → Between P s s
  Between-refl s = record { made = []; extends = refl; holds = tt }

  pub Between-trans : {s t u : State} → Between P s t → Between P t u → Between P s u
  Between-trans {s} b c = record {
    made = c.made ++ b.made;
    extends =
        c.extends ∙ ap (λ l. c.made ++ l) b.extends ∙ sym (append_assoc c.made b.made s.trace);
    holds = All-append P c.made b.made c.holds b.holds;
  }

module _ {P : Call → Type 0} {A : Type 0} where
  pub Emits-pure : (a : A) → Emits P (pure a)
  unfolding pure
  Emits-pure a = record { at = λ env s. Between-refl s }

  pub Emits-raise : (e : Error) → Emits P (raise {A = A} e)
  unfolding raise
  Emits-raise e = record { at = λ env s. Between-refl s }

  pub Emits-gets : (f : State → A) → Emits P (gets f)
  unfolding gets
  Emits-gets f = record { at = λ env s. Between-refl s }

  pub Emits-asks : (f : Env → A) → Emits P (asks f)
  unfolding asks
  Emits-asks f = record { at = λ env s. Between-refl s }

  pub Emits-of_result : (r : Result A) → Emits P (of_result r)
  unfolding of_result
  Emits-of_result r = record { at = λ env s. Between-refl s }

  pub Emits-attempt : (m : Action A) → Emits P m → Emits P (attempt m)
  unfolding attempt
  Emits-attempt m h = record { at = h.at }

  pub Emits-wrap : (message : String) (m : Action A) → Emits P m → Emits P (wrap message m)
  unfolding wrap
  Emits-wrap message m h = record { at = h.at }

  pub Emits-ignore_not_found : (m : Action A) → Emits P m → Emits P (ignore_not_found m)
  unfolding ignore_not_found
  Emits-ignore_not_found m h = record { at = h.at }

  pub Emits-if : (b : Bool) (m n : Action A) → Emits P m → Emits P n → Emits P (if b then m else n)
  Emits-if true m n hm hn = hm
  Emits-if false m n hm hn = hn

module _ {P : Call → Type 0} where
  pub Emits-call : (c : Call) → P c → Emits P (call c)
  unfolding call
  Emits-call c h = record {
    at = λ env s. record { made = c ∷ []; extends = refl; holds = (h, tt) };
  }

  pub Emits-note : (c : Call) → P c → Emits P (note c)
  unfolding note
  Emits-note c h = record {
    at = λ env s. record { made = c ∷ []; extends = refl; holds = (h, tt) };
  }

  pub Emits-clock : P now → Emits P clock
  unfolding clock
  Emits-clock h = record {
    at = λ env s. record { made = now ∷ []; extends = refl; holds = (h, tt) };
  }

  pub Emits-modify :
      (f : State → State) → ((s : State) → (f s).trace ≡ s.trace) → Emits P (modify f)
  unfolding modify
  Emits-modify f h = record { at = λ env s. record { made = []; extends = h s; holds = tt } }

module _ {P : Call → Type 0} {A B : Type 0} where
  continued :
      (r : Result A) (f : A → Action B)
      → ((a : A) → Emits P (f a))
      → (env : Env) (s : State) → Between P s (continue r f env s).1
  continued (ok a) f h env s = (h a).at env s
  continued (err e) f h env s = Between-refl s

  pub Emits-bind :
      (m : Action A) (f : A → Action B) → Emits P m → ((a : A) → Emits P (f a)) → Emits P (m >>= f)
  unfolding ◌>>=◌
  Emits-bind m f hm hf = record {
    at = λ env s. Between-trans (hm.at env s) (continued (m env s).0 f hf env (m env s).1);
  }

  -- An action whose first step succeeds at the state `s` with the value `a`.
  pub Between-bind :
      (m : Action A) (f : A → Action B) (a : A) (env : Env) (s : State)
      → (m env s).0 ≡ ok a
      → Emits P m
      → Emits P (f a)
      → Between P s ((m >>= f) env s).1
  unfolding ◌>>=◌
  Between-bind m f a env s e hm hf = rw e (Between-trans (hm.at env s) (hf.at env (m env s).1))

pub ruleset emits_rules = (
  Emits-pure, Emits-raise, Emits-gets, Emits-asks, Emits-of_result, Emits-attempt, Emits-if,
  Emits-call, Emits-note, Emits-clock, Emits-wrap, Emits-ignore_not_found, Emits-modify, Emits-bind,
)

-- An action that makes only calls with `P` makes only calls with any weaker `Q`.
pub Emits-weaken :
    {P Q : Call → Type 0} {A : Type 0} (m : Action A)
    → ((c : Call) → P c → Q c)
    → Emits P m
    → Emits Q m
Emits-weaken m f h = record {
  at = λ env s.
      let b = h.at env s in
      record { made = b.made; extends = b.extends; holds = All-map f b.made b.holds };
}
