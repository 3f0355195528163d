-- ===== src/Controller/Outpost.antt =====
-- The providers of an Outpost: internal/controller/outpost.go, and `leaveOutpost` with its helpers
-- of internal/controller/deletion.go.
pub mod Laws
use authentik_operator.Prelude.{
  String, Bool, true, false, not, ◌&&◌, Option, none, some, List, [], ◌∷◌, ◌++◌, contains, delete,
  or_else, string_eq, ◌==◌, if◌then◌else◌,
}
use authentik_operator.Prelude.Int.{ℤ, int_eq}
use authentik_operator.Api.{NamedReference}
use authentik_operator.Models.{Outpost}
use authentik_operator.Effect.{
  Error, Result, ok, err, Call, get_outpost, find_outposts_by_name, set_outpost_providers, State,
  Action, pure, raise, nil_dereference, gets, attempt, of_result, modify, call, ignore_result,
  ignore_not_found, ◌>>=◌, ◌>>◌,
}

-- `EmbeddedOutpostName` of internal/reference/resolver.go
abbrev pub embedded_outpost_name : String
embedded_outpost_name = "authentik Embedded Outpost"

unfoldable pub remove_provider_from_outpost : Outpost → ℤ → Action Unit
remove_provider_from_outpost outpost pk =
    if not (contains outpost.providers pk)
    then pure tt
    else ignore_not_found (call (set_outpost_providers outpost.pk (delete outpost.providers pk)))

-- the error of `GetOutpost` is ignored when it is a not-found error
unfoldable pub leave_found : Result Outpost → ℤ → Action Unit
unfolding remove_provider_from_outpost
leave_found (ok outpost) pk = remove_provider_from_outpost outpost pk
leave_found (err e) pk = of_result (ignore_result {A = Unit {0}} (err e))

unfoldable pub leave_outpost_by_uuid : String → ℤ → Action Unit
unfolding leave_found
leave_outpost_by_uuid uuid pk = do answer ← attempt (call (get_outpost uuid)); leave_found answer pk

-- nothing is left unless exactly one Outpost has the name
unfoldable pub leave_only : List Outpost → ℤ → Action Unit
unfolding remove_provider_from_outpost
leave_only [] pk = pure tt
leave_only (outpost ∷ []) pk = remove_provider_from_outpost outpost pk
leave_only (outpost ∷ second ∷ rest) pk = pure tt

-- A reference without a UUID has its name dereferenced.
unfoldable pub leave_referenced : Option String → Option String → ℤ → Action Unit
unfolding leave_outpost_by_uuid leave_only
leave_referenced (some uuid) name pk = leave_outpost_by_uuid uuid pk
leave_referenced none none pk = raise nil_dereference
leave_referenced none (some name) pk = do
  found ← call (find_outposts_by_name name)
  leave_only found pk

unfoldable pub leave_outpost : Option NamedReference → ℤ → Action Unit
unfolding leave_referenced
leave_outpost none pk = leave_referenced none (some embedded_outpost_name) pk
leave_outpost (some reference) pk = leave_referenced reference.uuid reference.name pk

unfoldable pub set_outpost_uuid : String → State → State
set_outpost_uuid uuid s = record s {
  app = record s.app { status = record s.app.status { outpost_uuid = uuid } };
}

unfoldable pub join_outpost : String → Outpost → ℤ → Action Unit
join_outpost uuid outpost pk =
    if not (contains outpost.providers pk)
    then (do updated ← call (set_outpost_providers uuid (outpost.providers ++ pk ∷ [])); pure tt)
    else pure tt

unfoldable pub leave_previous : String → String → ℤ → Action Unit
unfolding leave_outpost_by_uuid
leave_previous uuid previous pk =
    if not (previous == "") && not (previous == uuid)
    then leave_outpost_by_uuid previous pk
    else pure tt

-- `uuid` is `s.resolved.Proxy.Outpost`
unfoldable pub reconcile_outpost : String → ℤ → Action Unit
unfolding join_outpost leave_previous
reconcile_outpost uuid pk = do
  outpost ← call (get_outpost uuid)
  join_outpost uuid outpost pk
  previous ← gets (λ s. s.app.status.outpost_uuid)
  leave_previous uuid previous pk
  modify (set_outpost_uuid uuid)
