-- ===== src/Client/Redaction.antt =====
-- The redaction of confidential fields in error bodies: internal/authentik/errors.go.
pub mod Laws
use authentik_operator.Controller.FieldDiffs.Tables.{confidential_fields, redacted}
use authentik_operator.Models.Json.{
  Json, boolean, number, text, array, object, null, Items, item, Fields, field, end_array, end_map,
}
use authentik_operator.Prelude.{
  String, Option, Bool, false, ◌&&◌, some, get_or, contains, none, true, string_eq, if◌then◌else◌,
}

-- `child.(string)` succeeds
unfoldable pub is_text : Json → Bool
is_text null = false
is_text (boolean b) = false
is_text (number n) = false
is_text (text s) = true
is_text (array items) = false
is_text (object fields) = false

-- a field whose value is replaced
unfoldable pub is_secret : String → Json → Bool
unfolding is_text
is_secret key child = is_text child && contains confidential_fields key

unfoldable mutual
  unfolding is_secret

  pub redact_value : Json → Json
  redact_value null = null
  redact_value (boolean b) = boolean b
  redact_value (number n) = number n
  redact_value (text s) = text s
  redact_value (array items) = array (redact_items items)
  redact_value (object fields) = object (redact_fields fields)

  pub redact_items : Items → Items
  redact_items end_array = end_array
  redact_items (item child rest) = item (redact_value child) (redact_items rest)

  pub redact_fields : Fields → Fields
  redact_fields end_map = end_map
  redact_fields (field key child rest) =
      let value = redact_value child in
      let others = redact_fields rest in
      field key (if is_secret key child then text redacted else value) others

-- `redactBody`: `decode` and `encode` are json.Unmarshal and json.Marshal, `none` when they fail
unfoldable pub redact_decoded : (Json → Option String) → String → Option Json → String
redact_decoded encode body none = body
redact_decoded encode body (some value) = get_or (encode (redact_value value)) body

unfoldable pub redact_body : (String → Option Json) → (Json → Option String) → String → String
unfolding redact_decoded
redact_body decode encode body = redact_decoded encode body (decode body)
