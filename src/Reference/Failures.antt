-- ===== src/Reference/Failures.antt =====
-- internal/reference/error.go: the references that could not be resolved, and their report. The
-- collector is the list of the failures recorded so far, in order.
use authentik_operator.Prelude.{
  ℕ, String, Bool, not, Option, none, some, List, [], ◌∷◌, ◌++◌, ltb, map, if◌then◌else◌,
}
use authentik_operator.Prelude.Int.{pos}
use authentik_operator.Prelude.Text.{join, itoa, concat_text}
use authentik_operator.Api.{Reason}

pub record Failure : Type 0 where
  pub path : String
  pub target : String
  pub matches : ℕ

unfoldable pub ambiguous : Failure → Bool
ambiguous f = ltb 1 f.matches

-- `Failure.String`
unfoldable pub failure_text : Failure → String
unfolding ambiguous
failure_text f =
    if ambiguous f
    then concat_text
        (f.path ∷ ": " ∷ f.target ∷ " matches " ∷ itoa (pos f.matches) ∷ " objects" ∷ [])
    else concat_text (f.path ∷ ": " ∷ f.target ∷ " not found" ∷ [])

-- `Error.Error`
unfoldable pub failures_text : List Failure → String
failures_text fs = concat_text ("unresolved references: " ∷ join "; " (map failure_text fs) ∷ [])

-- `Error.Reason`
unfoldable pub failures_reason : List Failure → Reason
failures_reason [] = Reason.ambiguous_reference
failures_reason (f ∷ fs) =
    if not (ambiguous f) then Reason.reference_not_found else failures_reason fs

unfoldable pub add : List Failure → String → String → ℕ → List Failure
add failures path target matches =
    failures ++ record { path = path; target = target; matches = matches } ∷ []

-- `collector.err`: nil, or the error with every failure
unfoldable pub collected : List Failure → Option (List Failure)
collected [] = none
collected (f ∷ fs) = some (f ∷ fs)
