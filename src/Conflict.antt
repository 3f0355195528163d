-- ===== src/Conflict.antt =====
-- internal/controller/conflict.go: which of the resources with one slug manages it.
pub mod Winner
pub mod Agreement
use Prim.Native.Nat.{Ordering, compare as compare_ℕ}
use Prim.Native.String.{compare as compare_text, then}
use authentik_operator.Prelude.{
  bool_eq, ℕ, String, Bool, true, false, not, ◌&&◌, Option, none, some, List, [], ◌∷◌, ◌++◌,
  is_some, string_eq, ◌==◌, if◌then◌else◌, ◌||◌,
}
use authentik_operator.Prelude.Ordering.{lex, on}
use authentik_operator.Api.{AuthentikApplication}

-- A resource that has recorded an Application pk comes first.
unfoldable pub recorded : AuthentikApplication → Bool
recorded app = not (app.status.application_pk == "")

unfoldable pub compare_recorded : Bool → Bool → Ordering
compare_recorded true true = Ordering.eq
compare_recorded true false = Ordering.lt
compare_recorded false true = Ordering.gt
compare_recorded false false = Ordering.eq

-- the function that `conflictWinner` passes to `slices.MinFunc`
unfoldable pub compare_resources : AuthentikApplication → AuthentikApplication → Ordering
unfolding compare_recorded recorded
compare_resources = lex (on recorded compare_recorded) (
    lex (on (λ app. app.creation_timestamp) compare_ℕ)
      (lex (on (λ app. app.namespace) compare_text) (on (λ app. app.name) compare_text)))

-- the test `cmp(x, m) < 0` of `slices.MinFunc`
abbrev pub is_lt : Ordering → Bool
is_lt Ordering.lt = true
is_lt Ordering.eq = false
is_lt Ordering.gt = false

-- `slices.MinFunc` of a list whose least element so far is `m`: the first of the least ones
unfoldable pub min_func : AuthentikApplication → List AuthentikApplication → AuthentikApplication
min_func m [] = m
min_func m (x ∷ xs) = min_func (if is_lt (compare_resources x m) then x else m) xs

unfoldable pub conflict_winner : List AuthentikApplication → Option AuthentikApplication
unfolding min_func
conflict_winner [] = none
conflict_winner (x ∷ xs) = some (min_func x xs)

-- Another resource, which is not being deleted.
unfoldable pub is_other : String → AuthentikApplication → Bool
is_other uid other = not (other.uid == uid) && not (is_some other.deletion_timestamp)

-- the loop of `checkConflict` over the listed resources
unfoldable pub other_candidates : String → List AuthentikApplication → List AuthentikApplication
other_candidates uid [] = []
other_candidates uid (other ∷ rest) =
    let others = other_candidates uid rest in if is_other uid other then other ∷ others else others

-- The winner that `checkConflict` computes. There is one, since the resource is a candidate itself.
unfoldable pub winner : AuthentikApplication → List AuthentikApplication → AuthentikApplication
unfolding min_func
winner app items = min_func app (other_candidates app.uid items)

-- `checkConflict` lets the resource pass.
unfoldable pub passes : AuthentikApplication → List AuthentikApplication → Bool
unfolding winner
passes app items = (winner app items).uid == app.uid

-- `sameSlugRequests`: the keys of the other resources with the slug
unfoldable pub same_slug_requests : String → List AuthentikApplication → List (String × String)
same_slug_requests uid [] = []
same_slug_requests uid (other ∷ rest) =
    let requests = same_slug_requests uid rest in
    if not (other.uid == uid) then (other.namespace, other.name) ∷ requests else requests

-- `conflictPredicate` on an update
unfoldable pub conflict_predicate : AuthentikApplication → AuthentikApplication → Bool
conflict_predicate old new =
    not (old.status.application_pk == new.status.application_pk)
    || not (is_some old.deletion_timestamp == is_some new.deletion_timestamp)
