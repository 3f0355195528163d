-- ===== src/Client/Failure.antt =====
-- `wrapError` and `errorBody` of internal/authentik/errors.go. A body is a text of its bytes.
pub mod Laws
use authentik_operator.Prelude.Text.{concat_text}
use authentik_operator.Client.Redaction.{redact_body}
use authentik_operator.Models.Json.{Json}
use authentik_operator.Effect.{Error, other, wrapped, api}
use authentik_operator.Prelude.{
  Option, String, ℕ, some, suc, get_or, if◌then◌else◌, Bool, zero, ltb, none, ◌∷◌, ◌||◌, [],
}

-- what the operator reads of a response: `body` is what `Body` still holds
pub record Response : Type 0 where
  pub status : ℕ
  pub body : Option String

-- the error of a client-go call: one that keeps the body, or any other
pub data CallError : Type 0 where
  open_api : String → String → CallError
  transport : Error → CallError

-- `maxErrorBodyLength`
abbrev pub max_error_body_length : ℕ
max_error_body_length = 4096

-- `text[:n]` of a text that may be shorter
unfoldable pub take_bytes : ℕ → String → String
take_bytes zero s = ""
take_bytes (suc n) String.[] = ""
take_bytes (suc n) (String.◌∷◌ c s) = String.◌∷◌ c (take_bytes n s)

-- `len` of a text
unfoldable pub byte_count : String → ℕ
byte_count String.[] = 0
byte_count (String.◌∷◌ c s) = suc (byte_count s)

-- the body: the copy that client-go keeps, or what is read of the response, up to the limit
unfoldable pub read_body : Response → Option CallError → String
unfolding take_bytes
read_body resp (some (open_api body message)) = body
read_body resp (some (transport e)) = take_bytes max_error_body_length (get_or resp.body "")
read_body resp none = take_bytes max_error_body_length (get_or resp.body "")

unfoldable pub is_failure : ℕ → Bool
is_failure status = ltb status 200 || ltb 299 status

unfoldable pub call_error : CallError → Error
call_error (open_api body message) = other message
call_error (transport e) = e

-- no response, or one that is not a failure
unfoldable pub plain_error : String → Option CallError → Option Error
unfolding call_error
plain_error operation none = none
plain_error operation (some e) =
    some (wrapped (concat_text ("authentik API " ∷ operation ∷ " failed" ∷ [])) (call_error e))

module _ (decode : String → Option Json) (encode : Json → Option String) where
  unfoldable pub error_body : Response → Option CallError → String
  unfolding read_body take_bytes byte_count redact_body
  error_body resp e =
      let redacted = redact_body decode encode (read_body resp e) in
      if ltb max_error_body_length (byte_count redacted)
      then take_bytes max_error_body_length redacted
      else redacted

  unfoldable pub wrap_error : String → Option Response → Option CallError → Option Error
  unfolding error_body is_failure plain_error
  wrap_error operation none e = plain_error operation e
  wrap_error operation (some resp) e =
      if is_failure resp.status
      then some (api operation resp.status (error_body resp e))
      else plain_error operation e
