-- ===== src/Tests/Sets.antt =====
-- The set comparison of internal/authentik/patch.go at concrete slices.
use authentik_operator.Prelude.{
  String, ◌≡◌, refl, ◌↔◌, true, [], ◌∷◌, SameElements, string_eq, String_discrete, contains,
  ℕ_discrete,
}
use authentik_operator.Patch.Sets.{put, fill, check_have, same_set}
use authentik_operator.Patch.Sets.Laws.{same_set_iff}

same_set_order :
    same_set {A = String} ("openid" ∷ "email" ∷ []) ("email" ∷ "openid" ∷ "email" ∷ []) ≡ true
unfolding same_set fill put check_have contains String_discrete ℕ_discrete
same_set_order = refl

same_set_iff_example :
    (same_set {A = String} ("openid" ∷ "email" ∷ []) ("email" ∷ "openid" ∷ []) ≡ true)
    ↔ SameElements {A = String} ("openid" ∷ "email" ∷ []) ("email" ∷ "openid" ∷ [])
same_set_iff_example = same_set_iff ("openid" ∷ "email" ∷ []) ("email" ∷ "openid" ∷ [])
