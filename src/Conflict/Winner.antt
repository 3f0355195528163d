-- ===== src/Conflict/Winner.antt =====
-- The winner is the least of the candidates by the order of the source.
use Prim.Native.Nat.{Ordering}
use mathlib.Core.Path.{subst}
use authentik_operator.Prelude.{
  In, All-In, [], ◌∷◌, List, arith, refl, inl, inr, Bool-cases, if◌then◌else◌, ◌≢◌, List, ◌∷◌, All,
  ◌≡◌, some, ◌⊎◌, some-inj, ◌∙◌,
}
use authentik_operator.Prelude.Ordering.{
  IsCompare, IsCompare-lex, IsCompare-on, IsCompare-ℕ, IsCompare-String,
}
use authentik_operator.Api.{AuthentikApplication}
use authentik_operator.Conflict.{
  recorded, compare_recorded, compare_resources, is_lt, min_func, conflict_winner,
}

IsCompare-recorded : IsCompare compare_recorded
unfolding compare_recorded
IsCompare-recorded = record {
  flips = λ x y. ground arith;
  eq_left = λ x y z h. ground arith;
  lt_trans = λ x y z h k. ground arith;
}

pub IsCompare-resources : IsCompare compare_resources
unfolding compare_resources
IsCompare-resources = IsCompare-lex (IsCompare-on recorded IsCompare-recorded) (
    IsCompare-lex (IsCompare-on (λ app. app.creation_timestamp) IsCompare-ℕ) (
      IsCompare-lex (IsCompare-on (λ app. app.namespace) IsCompare-String)
        (IsCompare-on (λ app. app.name) IsCompare-String)))

-- `a` is not after `b`
abbrev pub NotAfter : AuthentikApplication → AuthentikApplication → Type 0
NotAfter a b = compare_resources a b ≢ Ordering.gt

NotAfter-refl : (a : AuthentikApplication) → NotAfter a a
NotAfter-refl a h = ground (arith, IsCompare-resources.flips a a)

NotAfter-trans : (a b c : AuthentikApplication) → NotAfter a b → NotAfter b c → NotAfter a c
NotAfter-trans a b c h k e = ground (
  arith,
  IsCompare-resources.flips a b,
  IsCompare-resources.flips b c,
  IsCompare-resources.flips a c,
  IsCompare-resources.eq_left a b c,
  IsCompare-resources.eq_left c b a,
  IsCompare-resources.lt_trans a b c,
)

abbrev smaller : AuthentikApplication → AuthentikApplication → AuthentikApplication
smaller x m = if is_lt (compare_resources x m) then x else m

smaller-NotAfter :
    (x m : AuthentikApplication) → NotAfter (smaller x m) x × NotAfter (smaller x m) m
smaller-NotAfter x m = elim (Bool-cases (is_lt (compare_resources x m))) [
  | inl less ↦ rw less (NotAfter-refl x, λ e. ground arith)
  | inr more ↦ rw more (λ e. ground (arith, IsCompare-resources.flips m x), NotAfter-refl m)
]

-- the least element so far and every later one are not before the result
pub min_func-NotAfter :
    (m : AuthentikApplication) (xs : List AuthentikApplication)
    → NotAfter (min_func m xs) m × All (NotAfter (min_func m xs)) xs
unfolding min_func
min_func-NotAfter m [] = (NotAfter-refl m, tt)
min_func-NotAfter m (x ∷ xs) =
    let rest = min_func-NotAfter (smaller x m) xs in
    let least = min_func (smaller x m) xs in
    (
      NotAfter-trans least (smaller x m) m rest.0 (smaller-NotAfter x m).1,
      (NotAfter-trans least (smaller x m) x rest.0 (smaller-NotAfter x m).0, rest.1),
    )

smaller_cases : (x m : AuthentikApplication) → (smaller x m ≡ x) ⊎ (smaller x m ≡ m)
smaller_cases x m = ground arith

spread :
    (x m w : AuthentikApplication) (xs : List AuthentikApplication)
    → (smaller x m ≡ x) ⊎ (smaller x m ≡ m)
    → In w (smaller x m ∷ xs)
    → In w (m ∷ x ∷ xs)
spread x m w xs (inl e) (inl p) = inr (inl (p ∙ e))
spread x m w xs (inr e) (inl p) = inl (p ∙ e)
spread x m w xs c (inr i) = inr (inr i)

pub min_func-In :
    (m : AuthentikApplication) (xs : List AuthentikApplication) → In (min_func m xs) (m ∷ xs)
unfolding min_func
min_func-In m [] = inl refl
min_func-In m (x ∷ xs) =
    spread x m (min_func (smaller x m) xs) xs (smaller_cases x m) (min_func-In (smaller x m) xs)

-- The winner is a candidate, and no candidate comes before it.
pub conflict_winner-least :
    (candidates : List AuthentikApplication) (w : AuthentikApplication)
    → conflict_winner candidates ≡ some w
    → In w candidates × ((c : AuthentikApplication) → In c candidates → NotAfter w c)
unfolding conflict_winner
conflict_winner-least [] w h = cc
conflict_winner-least (x ∷ xs) w h =
    let e = some-inj h in
    (
      subst (λ v. In v (x ∷ xs)) e (min_func-In x xs),
      λ c i.
          subst (λ v. NotAfter v c) e
            (All-In (NotAfter (min_func x xs)) c (x ∷ xs) (min_func-NotAfter x xs) i),
    )
