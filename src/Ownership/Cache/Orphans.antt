-- ===== src/Ownership/Cache/Orphans.antt =====
-- A marker is removed only for an object that does not exist: `collect` of
-- internal/controller/markers.go with `MarkIfExists` of internal/ownership/marker.go.
use authentik_operator.Ownership.Cache.{
  remove_missing, collect, collect_from, remove_if_orphaned, cached, cache_delete, refresh,
  objects_of,
}
use authentik_operator.Effect.Yields.{ok-inj}
use text.Mathlib.Text.{find?}
use authentik_operator.Effect.Inversion.{>>=-eq-ok}
use mathlib.Core.Path.{subst}
use authentik_operator.Prelude.{
  String, List, Option, ℕ, All, ◌∷◌, ◌++◌, sym, ◌≡◌, ◌⊎◌, inr, true, [], some, false, is_some, refl,
  Bool-cases, ◌∙◌, inl, ==_sound, arith, ap, none, nat_eq, Bool, if◌then◌else◌, ◌+◌, not,
}
use authentik_operator.Effect.Emits.{Between}
use authentik_operator.Effect.{
  Env, State, Result, attempt, ◌>>=◌, pure, Call, Action, call, raise, unassign_object_permission,
  Object, assign_object_permission, Error, ok, err, continue, as_api, gets, modify, wrap, of_result,
}
use authentik_operator.Ownership.{mark_if_exists, says_missing, exists_after, unmark, role}
use authentik_operator.Ownership.Cache.Marking
use authentik_operator.Ownership.Cache.Marking.{IsMarking}

-- The call `c`, answered after the calls `t`, tried to mark the object with the model `m` and the
-- key `p`, and the answer was a 400 response whose body names the field object_pk.
abbrev pub FoundMissing : Env → String → String → List Call → Call → Type 0
FoundMissing env m p t (assign_object_permission uuid model pk permission) =
    (model ≡ m)
    × (pk ≡ p)
    × ((e : Error) × (body : String) × (env.answer t
            (assign_object_permission uuid model pk permission)
          ≡ err e)
        × (as_api e ≡ some (400, body))
        × (is_some (find? body "object_pk") ≡ true))
FoundMissing env m p t _ = ⊥

-- One of the calls of a trace found that the object is missing.
abbrev pub KnownMissing : Env → String → String → List Call → Type 0
KnownMissing env m p [] = ⊥
KnownMissing env m p (c ∷ t) = FoundMissing env m p t c ⊎ KnownMissing env m p t

-- A call that removes a marker comes after one that found that the object is missing.
abbrev pub IsJustified : Env → List Call → Call → Type 0
IsJustified env t (unassign_object_permission uuid model pk permission) =
    KnownMissing env model pk t
IsJustified env t _ = Unit

abbrev pub Justified : Env → List Call → Type 0
Justified env [] = Unit
Justified env (c ∷ t) = IsJustified env t c × Justified env t

IsJustified-IsMarking : (env : Env) (t : List Call) (c : Call) → IsMarking c → IsJustified env t c
IsJustified-IsMarking env t (unassign_object_permission _ _ _ _) h = absurd h
IsJustified-IsMarking env t _ h = tt

KnownMissing-append :
    (env : Env) (m p : String) (made t : List Call)
    → KnownMissing env m p t
    → KnownMissing env m p (made ++ t)
KnownMissing-append env m p [] t h = h
KnownMissing-append env m p (c ∷ made) t h = inr (KnownMissing-append env m p made t h)

Justified-append :
    (env : Env) (made t : List Call)
    → All IsMarking made
    → Justified env t
    → Justified env (made ++ t)
Justified-append env [] t h j = j
Justified-append env (c ∷ made) t h j =
    (IsJustified-IsMarking env (made ++ t) c h.0, Justified-append env made t h.1 j)

module _ {s t : State} (env : Env) (b : Between IsMarking s t) where
  Between-Justified : Justified env s.trace → Justified env t.trace
  Between-Justified j =
      subst (Justified env) (sym b.extends) (Justified-append env b.made s.trace b.holds j)

  Between-KnownMissing :
      (m p : String) → KnownMissing env m p s.trace → KnownMissing env m p t.trace
  Between-KnownMissing m p h =
      subst (KnownMissing env m p) (sym b.extends) (KnownMissing-append env m p b.made s.trace h)

module _ {A B : Type 0} (env : Env) where
  continued :
      (r : Result A) (f : A → Action B) (s : State)
      → Justified env s.trace
      → ((a : A) → r ≡ ok a → Justified env (f a env s).1.trace)
      → Justified env (continue r f env s).1.trace
  continued (ok a) f s j h = h a refl
  continued (err e) f s j h = j

  Justified-bind :
      (m : Action A) (f : A → Action B) (s : State)
      → Justified env (m env s).1.trace
      → ((a : A) → (m env s).0 ≡ ok a → Justified env (f a env (m env s).1).1.trace)
      → Justified env ((m >>= f) env s).1.trace
  unfolding ◌>>=◌
  Justified-bind m f s j h = continued (m env s).0 f (m env s).1 j h

says_missing-api :
    (a : Option (ℕ × String))
    → says_missing a ≡ true
    → (body : String) × (a ≡ some (400, body)) × (is_some (find? body "object_pk") ≡ true)
unfolding says_missing
says_missing-api none h = absurd cc
says_missing-api (some (status, body)) h =
    let e : status ≡ 400 = ==_sound status 400 (ground arith) in
    (body, ap (λ n. some (n, body)) e, ground arith)

-- what a negative answer of `MarkIfExists` rests on
exists_after-missing :
    (o : Object) (r : Result (Unit {0})) (env : Env) (s : State)
    → (exists_after o r env s).0 ≡ ok false
    → ((e : Error) × (r ≡ err e) × (says_missing (as_api e) ≡ true))
      × ((exists_after o r env s).1 ≡ s)
unfolding exists_after pure raise
exists_after-missing o (ok u) env s h = absurd cc
exists_after-missing o (err e) env s h = elim (Bool-cases (says_missing (as_api e))) [
  | inl missing ↦ ((e, refl, missing), rw missing refl)
  | inr other ↦ absurd (let failed = rw other at h in cc)
]

mark_if_exists-KnownMissing :
    (o : Object) (env : Env) (s : State)
    → (mark_if_exists o env s).0 ≡ ok false
    → KnownMissing env o.model o.pk (mark_if_exists o env s).1.trace
unfolding mark_if_exists attempt call
mark_if_exists-KnownMissing o env s h =
    let (uuid, p, h1, t1) = >>=-eq-ok _ _ env s false h in
    let (r, q, h2, t2) = >>=-eq-ok _ _ env _ false h1 in
    let ((e, a, missing), same) = exists_after-missing o r env _ h2 in
    let (body, b, c) = says_missing-api (as_api e) missing in
    subst (λ (s' : State). KnownMissing env o.model o.pk s'.trace) (sym (t1 ∙ t2 ∙ same))
      (inl (refl, refl, (e, body, ok-inj q ∙ a, b, c)))

unmark-Justified :
    (o : Object) (env : Env) (s : State)
    → KnownMissing env o.model o.pk s.trace
    → Justified env s.trace
    → Justified env (unmark o env s).1.trace
unfolding unmark wrap call
unmark-Justified o env s known j =
    let b = Marking.Emits-role.at env s in
    Justified-bind env role _ s (Between-Justified env b j)
      (λ uuid e. (Between-KnownMissing env b o.model o.pk known, Between-Justified env b j))

remove_missing-Justified :
    (o : Object) (exists : Bool) (env : Env) (s : State)
    → (exists ≡ false → KnownMissing env o.model o.pk s.trace)
    → Justified env s.trace
    → Justified env (remove_missing o exists env s).1.trace
unfolding remove_missing pure modify ◌>>=◌ cache_delete
remove_missing-Justified o true env s known j = j
remove_missing-Justified o false env s known j =
    Justified-bind env (unmark o) _ s (unmark-Justified o env s (known refl) j)
      (λ u e. unmark-Justified o env s (known refl) j)

checked-Justified :
    (o : Object) (known : Bool) (env : Env) (s : State)
    → Justified env s.trace
    → Justified env
        ((if not known
            then pure false
            else (mark_if_exists o >>= λ exists. remove_missing o exists))
          env s).1.trace
unfolding pure
checked-Justified o false env s j = j
checked-Justified o true env s j =
    let after = Between-Justified env ((Marking.Emits-mark_if_exists o).at env s) j in
    Justified-bind env (mark_if_exists o) _ s after (λ exists e.
      remove_missing-Justified o exists env (mark_if_exists o env s).1
        (λ missing. mark_if_exists-KnownMissing o env s (e ∙ ap ok missing)) after)

remove_if_orphaned-Justified :
    (o : Object) (env : Env) (s : State)
    → Justified env s.trace
    → Justified env (remove_if_orphaned o env s).1.trace
unfolding remove_if_orphaned gets
remove_if_orphaned-Justified o env s j =
    Justified-bind env (gets (λ s. cached s o)) _ s j (λ known e. checked-Justified o known env s j)

collect_from-Justified :
    (removed : ℕ) (objects : List Object) (env : Env) (s : State)
    → Justified env s.trace
    → Justified env (collect_from removed objects env s).1.trace
unfolding collect_from pure
collect_from-Justified removed [] env s j = j
collect_from-Justified removed (o ∷ objects) env s j =
    let first = remove_if_orphaned-Justified o env s j in
    Justified-bind env (remove_if_orphaned o) _ s first (λ orphaned e.
      collect_from-Justified (if orphaned then removed + 1 else removed) objects env
        (remove_if_orphaned o env s).1 first)

-- When every removal of a marker in the trace comes after an attempt to mark the same object that
-- was answered with status 400 and a body naming object_pk, this holds after the collector too,
-- however the services answer: it unmarks only objects that were found to be missing.
pub collect-Justified :
    (env : Env) (s : State) → Justified env s.trace → Justified env (collect env s).1.trace
unfolding collect modify attempt gets of_result ◌>>=◌
collect-Justified env s j =
    let emptied : State = record s { objects = none } in
    let read = (refresh env emptied).1 in
    let after = Between-Justified env (Marking.Emits-refresh.at env emptied) j in
    continued env (refresh env emptied).0 _ read after
      (λ u e. collect_from-Justified 0 (objects_of read.objects) env read after)
