-- ===== src/Patch/Sets.antt =====
-- Lists compared as sets: `sameSet` and `diffSet` of internal/authentik/patch.go. A Go map is the
-- list of its keys.
pub mod Laws
use authentik_operator.Prelude.{
  Bool, true, false, not, Option, none, some, List, [], ◌∷◌, Eq, contains, length, nat_eq, ◌==◌,
  if◌then◌else◌,
}

module _ {ℓ} {A : Type ℓ} ⦃e : Eq A⦄ where
  -- `m[v] = struct{}{}`
  unfoldable pub put : List A → A → List A
  put m v = if contains m v then m else v ∷ m

  -- the loop that fills `want`
  unfoldable pub fill : List A → List A → List A
  fill want [] = want
  fill want (v ∷ vs) = fill (put want v) vs

  -- the loop that fills `have`, and the comparison of the sizes
  unfoldable pub check_have : List A → List A → List A → Bool
  check_have want have [] = length want == length have
  check_have want have (v ∷ vs) =
      let rest = check_have want (put have v) vs in if not (contains want v) then false else rest

  unfoldable pub same_set : List A → List A → Bool
  same_set a b = check_have (fill [] a) [] b

  unfoldable pub diff_set : Option (List A) → List A → Option (List A)
  diff_set none observed = none
  diff_set (some desired) observed = if same_set desired observed then none else some desired
