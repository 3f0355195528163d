-- ===== src/Prelude/Sets.antt =====
-- Membership in a list by a test, distinct elements, and the pigeonhole lemma on them.
use Prim.Native.Nat.{◌≤◌, ◌<◌}
use mathlib.Core.Path.{◌≡◌, refl}
use mathlib.Core.Bool.{true, false, not, ◌&&◌}
use mathlib.Core.List.{List, [], ◌∷◌}
use native.Mathlib.Omega.{arith}
use mathlib.Core.Logic.{inl, inr}
use authentik_operator.Prelude.Tests.{Bool-cases}
use authentik_operator.Prelude.Equality.{Eq, ◌==◌, ==_sound}
use authentik_operator.Prelude.Lists.{length, contains, delete}

module _ {ℓ} {A : Type ℓ} ⦃e : Eq A⦄ where
  abbrev pub Distinct : List A → Type 0
  Distinct [] = Unit
  Distinct (x ∷ xs) = (contains xs x ≡ false) × Distinct xs

  -- every element of the first list is in the second
  abbrev pub Within : List A → List A → Type ℓ
  Within xs ys = (z : A) → contains xs z ≡ true → contains ys z ≡ true

  abbrev pub SameElements : List A → List A → Type ℓ
  SameElements xs ys = (z : A) → contains xs z ≡ contains ys z

  pub contains-delete :
      (ys : List A) (x z : A) → contains (delete ys x) z ≡ (contains ys z && not (x == z))
  unfolding contains delete
  contains-delete [] x z = refl
  contains-delete (y ∷ ys) x z = ground (arith, contains-delete ys x z)

  pub length-delete : (ys : List A) (x : A) → length (delete ys x) ≤ length ys
  unfolding delete
  length-delete [] x = omega arith
  length-delete (y ∷ ys) x = ground (arith, length-delete ys x)

  pub length-delete-lt :
      (ys : List A) (x : A) → contains ys x ≡ true → length (delete ys x) < length ys
  unfolding contains delete
  length-delete-lt [] x h = cc
  length-delete-lt (y ∷ ys) x h = ground (arith, length-delete ys x, length-delete-lt ys x)

  pub Within-tail : (x : A) (xs ys : List A) → Within (x ∷ xs) ys → Within xs ys
  unfolding contains
  Within-tail x xs ys h z m = ground (arith, h z)

  Within-delete :
      (x : A) (xs ys : List A) → contains xs x ≡ false → Within xs ys → Within xs (delete ys x)
  Within-delete x xs ys fresh h z m = ground (arith, h z m, contains-delete ys x z)

  -- Distinct elements that are all in a list are at most as many as the list has.
  pub pigeonhole : (xs ys : List A) → Distinct xs → Within xs ys → length xs ≤ length ys
  unfolding contains
  pigeonhole [] ys d h = omega arith
  pigeonhole (x ∷ xs) ys d h = omega (
    arith,
    length-delete-lt ys x (h x (ground arith)),
    pigeonhole xs (delete ys x) d.1 (Within-delete x xs ys d.0 (Within-tail x xs ys h)),
  )

  pub Within-cons :
      (x : A) (xs ys : List A) → contains ys x ≡ true → Within xs ys → Within (x ∷ xs) ys
  unfolding contains
  Within-cons x xs ys m h z k = elim (Bool-cases (x == z)) [
    | inl same ↦ rw (← ==_sound x z same) m
    | inr other ↦ h z (rw other at k)
  ]

  -- With as many elements, the two lists hold the same ones.
  pub Within-of_length :
      (xs ys : List A) → Distinct xs → Within xs ys → length ys ≤ length xs → Within ys xs
  Within-of_length xs ys d h le z m = elim (Bool-cases (contains xs z)) [
    | inl old ↦ old
    | inr fresh ↦
        absurd (omega (arith, pigeonhole (z ∷ xs) ys (fresh, d) (Within-cons z xs ys m h)))
  ]

  pub SameElements-Within : (xs ys : List A) → Within xs ys → Within ys xs → SameElements xs ys
  SameElements-Within xs ys h k z = ground (arith, h z, k z)
