-- ===== src/Client/Redaction/Laws.antt =====
-- What redaction leaves: internal/authentik/errors.go.
use authentik_operator.Controller.FieldDiffs.Tables.{redacted, confidential_fields}
use authentik_operator.Prelude.{
  ◌≡◌, true, Bool, String, if◌then◌else◌, ap, false, refl, Bool-cases, inl, sym, inr, ◌⊎◌,
  String_discrete, arith, ◌∙◌, contains, string_eq, ==_sound,
}
use authentik_operator.Client.Redaction.{
  is_secret, redact_value, is_text, redact_items, redact_fields,
}
use authentik_operator.Models.Json.{
  Json, boolean, number, text, array, object, Items, item, Fields, field,
}
use authentik_operator.Models.Json.{
  null, boolean, number, text, array, object, end_array, item, end_map, field, Json, Items, Fields,
}

-- The fields whose texts are secret.
abbrev pub Confidential : String → Type 0
Confidential key = (key ≡ "client_secret") ⊎ (key ≡ "password") ⊎ (key ≡ "token")

-- No confidential field holds a text other than the replacement.
unfoldable mutual
  pub IsClean : Json → Type 0
  IsClean null = Unit
  IsClean (boolean b) = Unit
  IsClean (number n) = Unit
  IsClean (text s) = Unit
  IsClean (array items) = AllClean items
  IsClean (object fields) = FieldsClean fields

  pub AllClean : Items → Type 0
  AllClean end_array = Unit
  AllClean (item child rest) = IsClean child × AllClean rest

  pub FieldsClean : Fields → Type 0
  FieldsClean end_map = Unit
  FieldsClean (field key child rest) =
      IsClean child
      × ((s : String) → Confidential key → child ≡ text s → s ≡ "(redacted)")
      × FieldsClean rest

-- redacting keeps whether a value is a text
is_text-redact_value : (value : Json) → is_text (redact_value value) ≡ is_text value
unfolding redact_value is_text
is_text-redact_value null = refl
is_text-redact_value (boolean b) = refl
is_text-redact_value (number n) = refl
is_text-redact_value (text s) = refl
is_text-redact_value (array items) = refl
is_text-redact_value (object fields) = refl

chosen-IsClean :
    (b : Bool) (value : Json) → IsClean value → IsClean (if b then text redacted else value)
unfolding IsClean
chosen-IsClean true value h = tt
chosen-IsClean false value h = h

contains-Confidential : (key : String) → Confidential key → contains confidential_fields key ≡ true
unfolding String_discrete contains
contains-Confidential key (inl e) = rw e refl
contains-Confidential key (inr (inl e)) = rw e refl
contains-Confidential key (inr (inr e)) = rw e refl

Confidential-contains : (key : String) → contains confidential_fields key ≡ true → Confidential key
unfolding contains
Confidential-contains key h =
    ground (arith, ==_sound "client_secret" key, ==_sound "password" key, ==_sound "token" key)

text-inj : {s t : String} → text s ≡ text t → s ≡ t
text-inj e = cc

replaced :
    (b : Bool) (key : String) (child : Json)
    → is_secret key child ≡ b
    → (s : String) → Confidential key
    → (if b then text redacted else redact_value child) ≡ text s
    → s ≡ "(redacted)"
unfolding is_secret
replaced true key child e s c h = sym (text-inj h)
replaced false key child e s c h =
    let same = is_text-redact_value child in
    let held = contains-Confidential key c in
    let is : is_text (redact_value child) ≡ true = unfold is_text in rw h refl in
    absurd (ground arith)

mutual
  unfolding redact_value IsClean

  pub redact_value-IsClean : (value : Json) → IsClean (redact_value value)
  redact_value-IsClean null = tt
  redact_value-IsClean (boolean b) = tt
  redact_value-IsClean (number n) = tt
  redact_value-IsClean (text s) = tt
  redact_value-IsClean (array items) = redact_items-AllClean items
  redact_value-IsClean (object fields) = redact_fields-FieldsClean fields

  redact_items-AllClean : (items : Items) → AllClean (redact_items items)
  redact_items-AllClean end_array = tt
  redact_items-AllClean (item child rest) = (redact_value-IsClean child, redact_items-AllClean rest)

  redact_fields-FieldsClean : (fields : Fields) → FieldsClean (redact_fields fields)
  redact_fields-FieldsClean end_map = tt
  redact_fields-FieldsClean (field key child rest) = (
    chosen-IsClean (is_secret key child) _ (redact_value-IsClean child),
    replaced (is_secret key child) key child refl,
    redact_fields-FieldsClean rest,
  )

is_text-text : (child : Json) → is_text child ≡ true → (s : String) × (child ≡ text s)
unfolding is_text
is_text-text null h = absurd cc
is_text-text (boolean b) h = absurd cc
is_text-text (number n) h = absurd cc
is_text-text (text s) h = (s, refl)
is_text-text (array items) h = absurd cc
is_text-text (object fields) h = absurd cc

secret-parts :
    (key : String) (child : Json)
    → is_secret key child ≡ true
    → (is_text child ≡ true) × (contains confidential_fields key ≡ true)
unfolding is_secret
secret-parts key child h = ground arith

-- Redacting a clean value changes nothing.
kept :
    (key : String) (child : Json)
    → ((s : String) → Confidential key → child ≡ text s → s ≡ "(redacted)")
    → redact_value child ≡ child
    → (if is_secret key child then text redacted else redact_value child) ≡ child
kept key child h e = elim (Bool-cases (is_secret key child)) [
  | inl secret ↦
      let (is, held) = secret-parts key child secret in
      let (s, p) = is_text-text child is in
      rw secret (sym (p ∙ ap text (h s (Confidential-contains key held) p)))
  | inr shown ↦ rw shown e
]

mutual
  unfolding redact_value IsClean

  redact_value_clean : (value : Json) → IsClean value → redact_value value ≡ value
  redact_value_clean null h = refl
  redact_value_clean (boolean b) h = refl
  redact_value_clean (number n) h = refl
  redact_value_clean (text s) h = refl
  redact_value_clean (array items) h = ap array (redact_items_clean items h)
  redact_value_clean (object fields) h = ap object (redact_fields_clean fields h)

  redact_items_clean : (items : Items) → AllClean items → redact_items items ≡ items
  redact_items_clean end_array h = refl
  redact_items_clean (item child rest) h =
      rw (redact_value_clean child h.0) (rw (redact_items_clean rest h.1) refl)

  redact_fields_clean : (fields : Fields) → FieldsClean fields → redact_fields fields ≡ fields
  redact_fields_clean end_map h = refl
  redact_fields_clean (field key child rest) h =
      let (c, k, r) = h in
      rw (kept key child k (redact_value_clean child c)) (rw (redact_fields_clean rest r) refl)

-- After the redaction of a JSON value no text in a field named client_secret, password or token,
-- at any depth, is other than the replacement, and redacting once more changes nothing.
pub redact_value-redact_value :
    (value : Json)
    → IsClean (redact_value value) × (redact_value (redact_value value) ≡ redact_value value)
redact_value-redact_value value =
    (redact_value-IsClean value, redact_value_clean _ (redact_value-IsClean value))
