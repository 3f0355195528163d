-- ===== src/Effect/Errors.antt =====
-- Go errors as values: internal/authentik/errors.go, `stopError` of
-- internal/controller/authentikapplication_controller.go, and `Error` of internal/reference/error.go.
use authentik_operator.Prelude.{
  ℕ, String, Bool, false, ◌||◌, Option, none, some, List, ◌==◌, nat_eq, true,
}
use authentik_operator.Api.{Reason}
use Prim.Native.String.{◌++◌}
use authentik_operator.Prelude.Int.{pos}
use authentik_operator.Prelude.Text.{itoa}
use authentik_operator.Reference.Failures.{Failure, failures_text}

pub data Error : Type 0 where
  -- `APIError` with its operation, status code and body
  api : String → ℕ → String → Error
  -- `stopError`
  stop : Reason → String → Error
  -- `reference.Error`
  references : List Failure → Error
  -- the Kubernetes API answers NotFound
  kube_not_found : String → Error
  -- any other error
  other : String → Error
  -- `fmt.Errorf("...: %w", err)`
  wrapped : String → Error → Error
  -- `errors.Join`
  joined : Error → Error → Error

-- `errors.Is(err, ErrNotFound)`, with `APIError.Is`
unfoldable pub is_not_found : Error → Bool
is_not_found (api operation status body) = status == 404
is_not_found (stop reason message) = false
is_not_found (references failures) = false
is_not_found (kube_not_found message) = false
is_not_found (other message) = false
is_not_found (wrapped message e) = is_not_found e
is_not_found (joined e f) = is_not_found e || is_not_found f

-- `errors.As(err, &apiErr)`: the first API error of the chain
unfoldable pub as_api : Error → Option (ℕ × String)
as_api (api operation status body) = some (status, body)
as_api (stop reason message) = none
as_api (references failures) = none
as_api (kube_not_found message) = none
as_api (other message) = none
as_api (wrapped message e) = as_api e
as_api (joined e f) = elim (as_api e) [ none ↦ as_api f | some a ↦ some a ]

-- `errors.As(err, &stop)`
unfoldable pub as_stop : Error → Option (Reason × String)
as_stop (api operation status body) = none
as_stop (stop reason message) = some (reason, message)
as_stop (references failures) = none
as_stop (kube_not_found message) = none
as_stop (other message) = none
as_stop (wrapped message e) = as_stop e
as_stop (joined e f) = elim (as_stop e) [ none ↦ as_stop f | some a ↦ some a ]

-- `errors.As(err, &refErr)`
unfoldable pub as_references : Error → Option (List Failure)
as_references (api operation status body) = none
as_references (stop reason message) = none
as_references (references failures) = some failures
as_references (kube_not_found message) = none
as_references (other message) = none
as_references (wrapped message e) = as_references e
as_references (joined e f) = elim (as_references e) [ none ↦ as_references f | some a ↦ some a ]

-- `apierrors.IsNotFound(err)`
unfoldable pub is_kube_not_found : Error → Bool
is_kube_not_found (api operation status body) = false
is_kube_not_found (stop reason message) = false
is_kube_not_found (references failures) = false
is_kube_not_found (kube_not_found message) = true
is_kube_not_found (other message) = false
is_kube_not_found (wrapped message e) = is_kube_not_found e
is_kube_not_found (joined e f) = is_kube_not_found e || is_kube_not_found f

-- the `Error` methods
unfoldable pub error_text : Error → String
error_text (api operation status body) =
    "authentik API " ++ (operation ++ (" returned " ++ (itoa (pos status) ++ (": " ++ body))))
error_text (stop reason message) = message
error_text (references failures) = failures_text failures
error_text (kube_not_found message) = message
error_text (other message) = message
error_text (wrapped message e) = message ++ (": " ++ error_text e)
error_text (joined e f) = error_text e ++ ("\n" ++ error_text f)

pub data Result {ℓ} (A : Type ℓ) : Type ℓ where
  ok : A → Result A
  err : Error → Result A

-- the panic at a nil pointer that is dereferenced, here an error
abbrev pub nil_dereference : Error
nil_dereference = other "invalid memory address or nil pointer dereference"
