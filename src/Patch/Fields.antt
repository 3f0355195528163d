-- ===== src/Patch/Fields.antt =====
-- One field of a PATCH request: the generic `diff` functions of internal/authentik/patch.go.
pub mod Laws
use authentik_operator.Prelude.{
  Bool, true, false, not, ◌&&◌, ◌||◌, Option, none, some, Eq, ◌==◌, if◌then◌else◌,
}
use authentik_operator.Models.{Nullable, get}

module _ {A : Type 0} ⦃e : Eq A⦄ where
  unfoldable pub diff_value : Option A → A → Option A
  diff_value none observed = none
  diff_value (some desired) observed = if desired == observed then none else some desired

  unfoldable pub diff_pointer : Option A → Option A → Option A
  diff_pointer none observed = none
  diff_pointer (some desired) none = some desired
  diff_pointer (some desired) (some observed) = if desired == observed then none else some desired

  unfoldable pub equal_pointers : Option A → Option A → Bool
  equal_pointers none none = true
  equal_pointers none (some b) = false
  equal_pointers (some a) none = false
  equal_pointers (some a) (some b) = a == b

  -- `diffNullableString` and `diffNullableInt32`
  unfoldable pub diff_nullable : Nullable A → Nullable A → Nullable A
  unfolding equal_pointers
  diff_nullable none observed = none
  diff_nullable (some desired) observed =
      if equal_pointers desired (get observed) then none else some desired

-- `firstNonNil` of two pointers
unfoldable pub first_non_nil : {A : Type 0} → Option A → Option A → Option A
first_non_nil none second = second
first_non_nil (some a) second = some a
