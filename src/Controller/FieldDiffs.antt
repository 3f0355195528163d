-- ===== src/Controller/FieldDiffs.antt =====
-- The adoption diffs: the tables, `toFields`, `formatValue` and `fieldDiffs` of
-- internal/controller/adoption.go. A Go map from API fields to spec paths is a list, the entries
-- copied last first.
pub mod Tables
pub mod Laws
pub mod Shown
use authentik_operator.Controller.FieldDiffs.Tables.{confidential_fields, redacted}
use authentik_operator.Api.{FieldDiff}
use authentik_operator.Effect.{Action, Env, asks}
use authentik_operator.Models.Json.{
  Json, JsonModel, text, Fields, boolean, null, end_map, number, field, json_eq, array, object,
}
use authentik_operator.Prelude.{
  String, List, Option, get_or, none, if◌then◌else◌, [], contains, ◌==◌, ◌∷◌, map, string_eq, some,
}

unfoldable pub path_of : String → List (String × String) → Option String
path_of key [] = none
path_of key ((name, path) ∷ rest) = if name == key then some path else path_of key rest

-- `observedFields[key]`, which is nil for a key that the map does not have
unfoldable pub get_field : String → Fields → Json
get_field key end_map = null
get_field key (field name value rest) = if name == key then value else get_field key rest

unfoldable pub to_fields : JsonModel → Env → Fields
to_fields model env = get_or (env.json_fields model) end_map

unfoldable pub format_value : (Json → String) → Json → String
format_value json_text null = ""
format_value json_text (text s) = s
format_value json_text (boolean b) = json_text (boolean b)
format_value json_text (number n) = json_text (number n)
format_value json_text (array items) = json_text (array items)
format_value json_text (object fields) = json_text (object fields)

-- the entry for a field whose values differ
unfoldable pub field_diff :
    (Json → String) → List (String × String) → String → Json → Json → FieldDiff
unfolding path_of format_value
field_diff json_text paths key desired actual =
    if contains confidential_fields key
    then record { field = get_or (path_of key paths) key; desired = redacted; actual = redacted }
    else record {
      field = get_or (path_of key paths) key;
      desired = format_value json_text desired;
      actual = format_value json_text actual;
    }

-- the loop over the keys of the desired fields, which stand in order
unfoldable pub diffs_of :
    (Json → String) → List (String × String) → Fields → Fields → List FieldDiff
unfolding get_field field_diff
diffs_of json_text paths end_map observed = []
diffs_of json_text paths (field key value rest) observed =
    let others = diffs_of json_text paths rest observed in
    if json_eq value (get_field key observed)
    then others
    else field_diff json_text paths key value (get_field key observed) ∷ others

unfoldable pub field_diffs :
    List (String × String) → JsonModel → JsonModel → Action (List FieldDiff)
unfolding diffs_of to_fields
field_diffs paths patch observed =
    asks (λ env. diffs_of env.json_text paths (to_fields patch env) (to_fields observed env))
