-- ===== src/Client/Pages.antt =====
-- `listAll` of internal/authentik/apiclient.go. The number of the next page, a float32 in the source,
-- is an integer, 0 when there is none; one outside the range of int32, whose conversion Go leaves to
-- the platform, wraps around here; `fetch` is one request with its error converted.
pub mod Laws
use authentik_operator.Effect.{Result, err, ok}
use authentik_operator.Prelude.Int.{ℤ, pos, wrap32, ltb_ℤ}
use authentik_operator.Prelude.{
  Bool, List, ◌∷◌, if◌then◌else◌, ℕ, ◌++◌, Option, [], none, suc, some, not, zero,
}

pub record Page (T : Type 0) : Type 0 where
  pub results : List T
  pub next : ℤ

module _ {T : Type 0} where
  -- the loop over the results of a page
  unfoldable pub keep_results : (T → Bool) → List T → List T → List T
  keep_results keep items [] = items
  keep_results keep items (result ∷ results) =
      keep_results keep (if keep result then items ++ result ∷ [] else items) results

  -- the loop over the pages, with fuel: `none` when it runs out
  unfoldable pub list_from :
      (ℤ → Result (Page T)) → (T → Bool) → ℕ → ℤ → List T → Option (Result (List T))
  unfolding keep_results
  list_from fetch keep zero current items = none
  list_from fetch keep (suc fuel) current items = elim (fetch current) [
    | err e ↦ some (err e)
    | ok page ↦
        let kept = keep_results keep items page.results in
        let rest = list_from fetch keep fuel (wrap32 page.next) kept in
        if not (ltb_ℤ (pos 0) page.next) then some (ok kept) else rest
  ]

  unfoldable pub list_all : (ℤ → Result (Page T)) → (T → Bool) → ℕ → Option (Result (List T))
  unfolding list_from
  list_all fetch keep fuel = list_from fetch keep fuel (pos 1) []
