-- ===== src/Controller/FieldDiffs/Shown.antt =====
-- How encoding/json and the models of client-go write one field of an Application and of a PATCH
-- request, and what the comparison of internal/controller/adoption.go finds of the field.
use mathlib.Core.Path.{subst}
use authentik_operator.Controller.FieldDiffs.{to_fields, get_field}
use authentik_operator.Models.{PatchedApplicationRequest, Application}
use authentik_operator.Models.Json.{
  Json, Fields, json_eq, field, patched_application, end_map, null, application,
}
use authentik_operator.Prelude.{
  String, Option, ◌≡◌, ◌⊎◌, true, inl, false, some, ap, inr, none, sym, refl,
}
use authentik_operator.Effect.{Env}
use authentik_operator.Controller.FieldDiffs.Laws.{Agrees}

-- A key of a map has the value.
abbrev pub HasField : String → Json → Fields → Type 0
HasField key value end_map = ⊥
HasField key value (field name other rest) =
    ((name ≡ key) × (other ≡ value)) ⊎ HasField key value rest

-- The documented way in which a field is written: under its key as the JSON of its value, from which
-- the value can be told; one that is nil is left out, or is null in an object that is read.
pub record Writes (env : Env) {V : Type 0} (key : String)
    (sent : PatchedApplicationRequest → Option V) (held : Application → Option V) : Type 0 where
  pub encode : V → Json
  pub separate : (v w : V) → json_eq (encode v) (encode w) ≡ true → v ≡ w
  pub apparent : (v : V) → json_eq (encode v) null ≡ false
  pub sends :
      (p : PatchedApplicationRequest) (v : V)
      → sent p ≡ some v
      → HasField key (encode v) (to_fields (patched_application p) env)
  pub holds :
      (o : Application) (v : V)
      → held o ≡ some v
      → get_field key (to_fields (application o) env) ≡ encode v
  pub absent :
      (o : Application) → held o ≡ none → get_field key (to_fields (application o) env) ≡ null

Agrees-HasField :
    (key : String) (value : Json) (desired observed : Fields)
    → Agrees desired observed
    → HasField key value desired
    → json_eq value (get_field key observed) ≡ true
Agrees-HasField key value end_map observed h i = absurd i
Agrees-HasField key value (field name other rest) observed h (inl (p, q)) =
    subst (λ k. json_eq value (get_field k observed) ≡ true) p
      (subst (λ v. json_eq v (get_field name observed) ≡ true) q h.0)
Agrees-HasField key value (field name other rest) observed h (inr i) =
    Agrees-HasField key value rest observed h.1 i

module _ {V : Type 0} {key : String} {sent : PatchedApplicationRequest → Option V}
    {held : Application → Option V} (env : Env) (w : Writes env key sent held)
    (p : PatchedApplicationRequest) (o : Application)
    (h : Agrees (to_fields (patched_application p) env) (to_fields (application o) env)) where
  held_same : (x : Option V) (v : V) → held o ≡ x → sent p ≡ some v → x ≡ some v
  held_same none v e s = absurd (
      let same = Agrees-HasField key (w.encode v) _ _ h (w.sends p v s) in
      let nothing = w.absent o e in let differs = w.apparent v in cc)
  held_same (some x) v e s =
      let same = Agrees-HasField key (w.encode v) _ _ h (w.sends p v s) in
      let there = w.holds o x e in
      ap some (sym (w.separate v x (subst (λ j. json_eq (w.encode v) j ≡ true) there same)))

  -- In the absence of differences a field that is sent has the value that the Application has.
  pub sent-held : (v : V) → sent p ≡ some v → held o ≡ some v
  sent-held v s = held_same (held o) v refl s
