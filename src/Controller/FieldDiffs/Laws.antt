-- ===== src/Controller/FieldDiffs/Laws.antt =====
-- The adoption diffs show which fields differ and no confidential value:
-- internal/controller/adoption.go.
use mathlib.Core.Path.{subst}
use authentik_operator.Controller.FieldDiffs.Tables.{confidential_fields}
use authentik_operator.Prelude.{
  List, String, ◌∷◌, ◌≡◌, contains, [], refl, ◌↔◌, true, inl, ◌⊎◌, inr, string_eq, Bool,
  if◌then◌else◌, false,
}
use authentik_operator.Controller.FieldDiffs.{field_diff, diffs_of, get_field}
use authentik_operator.Models.Json.{Json, Fields, field, end_map, json_eq}

-- Every field of `desired` has the same value in `observed`.
abbrev pub Agrees : Fields → Fields → Type 0
Agrees end_map observed = Unit
Agrees (field key value rest) observed =
    (json_eq value (get_field key observed) ≡ true) × Agrees rest observed

chosen_empty :
    {A : Type 0} (b : Bool) (x : A) (xs : List A)
    → (if b then xs else x ∷ xs) ≡ []
    → (b ≡ true) × (xs ≡ [])
chosen_empty true x xs h = (refl, h)
chosen_empty false x xs h = absurd cc

same_choice :
    {A : Type 0} {b c : Bool} {x y : A} {xs ys : List A}
    → b ≡ c
    → x ≡ y
    → xs ≡ ys
    → (if b then xs else x ∷ xs) ≡ (if c then ys else y ∷ ys)
same_choice e p q = cc

agrees :
    (json_text : Json → String) (paths : List (String × String)) (desired observed : Fields)
    → diffs_of json_text paths desired observed ≡ []
    → Agrees desired observed
unfolding diffs_of
agrees json_text paths end_map observed h = tt
agrees json_text paths (field key value rest) observed h =
    let (same, others) = chosen_empty (json_eq value (get_field key observed)) _ _ h in
    (same, agrees json_text paths rest observed others)

no_diffs :
    (json_text : Json → String) (paths : List (String × String)) (desired observed : Fields)
    → Agrees desired observed
    → diffs_of json_text paths desired observed ≡ []
unfolding diffs_of
no_diffs json_text paths end_map observed h = refl
no_diffs json_text paths (field key value rest) observed h =
    rw h.0 (no_diffs json_text paths rest observed h.1)

-- x
pub diffs_of_iff :
    (json_text : Json → String) (paths : List (String × String)) (desired observed : Fields)
    → (diffs_of json_text paths desired observed ≡ []) ↔ Agrees desired observed
diffs_of_iff json_text paths desired observed =
    (agrees json_text paths desired observed, no_diffs json_text paths desired observed)

-- Two comparisons with the same keys, the same fields that differ, and the same values of the
-- fields that are not confidential.
abbrev pub AlikeOutside : Fields → Fields → Fields → Fields → Type 0
AlikeOutside end_map end_map o p = Unit
AlikeOutside end_map (field key value rest) o p = ⊥
AlikeOutside (field key value rest) end_map o p = ⊥
AlikeOutside (field key value rest) (field name other others) o p =
    (key ≡ name)
    × (json_eq value (get_field key o) ≡ json_eq other (get_field name p))
    × ((contains confidential_fields key ≡ true)
        ⊎ ((value ≡ other) × (get_field key o ≡ get_field name p)))
    × AlikeOutside rest others o p

hidden_diff :
    (json_text : Json → String) (paths : List (String × String)) (key : String) (v w x y : Json)
    → (contains confidential_fields key ≡ true) ⊎ ((v ≡ w) × (x ≡ y))
    → field_diff json_text paths key v x ≡ field_diff json_text paths key w y
unfolding field_diff
hidden_diff json_text paths key v w x y (inl secret) = rw secret refl
hidden_diff json_text paths key v w x y (inr (p, q)) = rw p (rw q refl)

-- Two comparisons with the same fields, the same fields that differ, and the same values of the
-- fields that are not confidential yield the same adoption diffs, so the diffs tell nothing else
-- of a confidential value.
pub diffs_of-AlikeOutside :
    (json_text : Json → String) (paths : List (String × String)) (desired other o p : Fields)
    → AlikeOutside desired other o p
    → diffs_of json_text paths desired o ≡ diffs_of json_text paths other p
unfolding diffs_of
diffs_of-AlikeOutside json_text paths end_map end_map o p h = refl
diffs_of-AlikeOutside json_text paths end_map (field key value rest) o p h = absurd h
diffs_of-AlikeOutside json_text paths (field key value rest) end_map o p h = absurd h
diffs_of-AlikeOutside json_text paths (field key value rest) (field name other others) o p h =
    let (same_key, e, c, r) = h in
    same_choice e
      (subst
        (λ n.
          field_diff json_text paths key value (get_field key o)
          ≡ field_diff json_text paths n other (get_field name p))
        same_key
        (hidden_diff json_text paths key value other (get_field key o) (get_field name p) c))
      (diffs_of-AlikeOutside json_text paths rest others o p r)
