-- ===== src/Tests/Client.antt =====
-- Error bodies and lists by pages at concrete inputs.
use authentik_operator.Client.Pages.Laws.{Serves, list_all-Serves}
use authentik_operator.Effect.{Result, ok, err, other}
use authentik_operator.Prelude.{
  String, some, ◌≡◌, ltb, Option, none, ◌∷◌, ℕ, ◌↔◌, ◌≤◌, [], arith, refl, contains, suc,
  String_discrete, zero,
}
use authentik_operator.Models.Json.{Json, object, field, text, end_map}
use authentik_operator.Client.Redaction.{redact_value, is_secret, is_text, redact_body}
use authentik_operator.Prelude.Int.{ℤ, wrap32, pos}
use authentik_operator.Client.Pages.{list_all, Page}
use authentik_operator.Client.Failure.Laws.{Truncates, error_body-Truncates, wrap_error_iff}
use authentik_operator.Client.Redaction.Laws.{IsClean, redact_value-redact_value}
use authentik_operator.Client.Failure.{wrap_error, Response, error_body, CallError, read_body}
use authentik_operator.Client.Pages.Laws.{more_pages, last_page}

abbrev echoed : Json
echoed = object (field "client_secret" (text "s3cret") (field "name" (text "Wiki") end_map))

redacted_example :
    redact_value echoed
    ≡ object (field "client_secret" (text "(redacted)") (field "name" (text "Wiki") end_map))
unfolding redact_value is_secret is_text contains String_discrete
redacted_example = refl

redact_value_example :
    IsClean (redact_value echoed) × (redact_value (redact_value echoed) ≡ redact_value echoed)
redact_value_example = redact_value-redact_value echoed

abbrev decode : String → Option Json
decode s = none

abbrev encode : Json → Option String
encode j = none

abbrev missing : Response
missing = record { status = 404; body = some "{}" }

error_body_example :
    Truncates
      (error_body decode encode missing none)
      (redact_body decode encode (read_body missing none))
error_body_example = error_body-Truncates decode encode missing none

abbrev no_error : Option CallError
no_error = none

wrap_error_example :
    (wrap_error decode encode "GetApplication" (some missing) no_error ≡ none)
    ↔ ((200 ≤ missing.status) × (missing.status ≤ 299) × (no_error ≡ none))
wrap_error_example = wrap_error_iff decode encode "GetApplication" missing no_error

-- two pages of numbers
abbrev fetch : ℤ → Result (Page ℕ)
fetch (pos (suc zero)) = ok (record { results = 1 ∷ 2 ∷ []; next = pos 2 })
fetch (pos (suc (suc zero))) = ok (record { results = 3 ∷ []; next = pos 0 })
fetch _ = err (other "invalid page")

served : Serves fetch (pos 1) ((1 ∷ 2 ∷ []) ∷ (3 ∷ []) ∷ [])
unfolding wrap32
served =
    more_pages (record { results = 1 ∷ 2 ∷ []; next = pos 2 }) refl refl
      (last_page (record { results = 3 ∷ []; next = pos 0 }) refl refl)

list_all_example : list_all fetch (λ n. ltb 1 n) 2 ≡ some (ok (2 ∷ 3 ∷ []))
list_all_example =
    list_all-Serves fetch (λ n. ltb 1 n) ((1 ∷ 2 ∷ []) ∷ (3 ∷ []) ∷ []) 2 served (omega arith)
