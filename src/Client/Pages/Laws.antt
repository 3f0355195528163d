-- ===== src/Client/Pages/Laws.antt =====
-- `listAll` ends and returns what it is meant to: internal/authentik/apiclient.go.
use authentik_operator.Client.Pages.{Page, keep_results, list_all, list_from}
use authentik_operator.Effect.{Result, ok}
use authentik_operator.Prelude.Int.{ℤ, ltb_ℤ, pos, wrap32}
use authentik_operator.Prelude.{
  Bool, List, ◌∷◌, ◌++◌, if◌then◌else◌, [], ◌≡◌, sym, Bool-cases, ℕ, inl, length, false, ◌≤◌, ap,
  inr, some, true, refl, arith, ◌∙◌, suc, zero,
}
use mathlib.Core.List.{append-nil, append_assoc}

-- the results that `keep` holds for, in order
abbrev pub filter : {T : Type 0} → (T → Bool) → List T → List T
filter keep [] = []
filter keep (x ∷ xs) = let rest = filter keep xs in if keep x then x ∷ rest else rest

abbrev pub concat : {T : Type 0} → List (List T) → List T
concat [] = []
concat (xs ∷ xss) = xs ++ concat xss

-- From the page `current` on, the server has these pages, and the last one names no next page.
pub data Serves {T : Type 0} (fetch : ℤ → Result (Page T)) : ℤ → List (List T) → Type 0 where
  last_page :
      {current : ℤ} (page : Page T)
      → fetch current ≡ ok page
      → ltb_ℤ (pos 0) page.next ≡ false
      → Serves fetch current (page.results ∷ [])
  more_pages :
      {current : ℤ} {rest : List (List T)} (page : Page T)
      → fetch current ≡ ok page
      → ltb_ℤ (pos 0) page.next ≡ true
      → Serves fetch (wrap32 page.next) rest
      → Serves fetch current (page.results ∷ rest)

module _ {T : Type 0} (fetch : ℤ → Result (Page T)) (keep : T → Bool) where
  keeps_in_order :
      (items results : List T) → keep_results keep items results ≡ items ++ filter keep results
  unfolding keep_results
  keeps_in_order items [] = sym (append-nil items)
  keeps_in_order items (x ∷ xs) = elim (Bool-cases (keep x)) [
    | inl kept ↦
        rw kept (keeps_in_order (items ++ x ∷ []) xs ∙ append_assoc items (x ∷ []) (filter keep xs))
    | inr dropped ↦ rw dropped (keeps_in_order items xs)
  ]

  filter-append : (xs ys : List T) → filter keep (xs ++ ys) ≡ filter keep xs ++ filter keep ys
  filter-append [] ys = refl
  filter-append (x ∷ xs) ys = elim (Bool-cases (keep x)) [
    | inl kept ↦ rw kept (ap (λ l. x ∷ l) (filter-append xs ys))
    | inr dropped ↦ rw dropped (filter-append xs ys)
  ]

  all_kept :
      (items results : List T) (rest : List (List T))
      → keep_results keep items results ++ filter keep (concat rest)
        ≡ items ++ filter keep (results ++ concat rest)
  all_kept items results rest =
      ap (λ l. l ++ filter keep (concat rest)) (keeps_in_order items results)
      ∙ append_assoc items (filter keep results) (filter keep (concat rest))
      ∙ ap (λ l. items ++ l) (sym (filter-append results (concat rest)))

  listed :
      (fuel : ℕ) (pages : List (List T)) (current : ℤ) (items : List T)
      → length pages ≤ fuel
      → Serves fetch current pages
      → list_from fetch keep fuel current items ≡ some (ok (items ++ filter keep (concat pages)))
  unfolding list_from
  listed zero pages current items enough (last_page page answer last) =
      absurd (omega (arith, enough))
  listed zero pages current items enough (more_pages page answer next rest) =
      absurd (omega (arith, enough))
  listed (suc fuel) pages current items enough (last_page page answer last) =
      rw (answer, list_from)
        (rw last (
          ap (λ l. some (ok l))
            (sym (append-nil (keep_results keep items page.results))
              ∙ all_kept items page.results [])))
  listed (suc fuel) pages current items enough (more_pages {rest = others} page answer next rest) =
      rw (answer, list_from)
        (rw next (
          listed fuel others (wrap32 page.next) (keep_results keep items page.results)
            (omega (arith, enough)) rest
          ∙ ap (λ l. some (ok l)) (all_kept items page.results others)))

  -- When the server has finitely many pages from the first one on, each naming the next and the
  -- last one naming none, listAll ends after as many steps as there are pages, and returns the
  -- items that are kept, of all pages, in order.
  pub list_all-Serves :
      (pages : List (List T)) (fuel : ℕ)
      → Serves fetch (pos 1) pages
      → length pages ≤ fuel
      → list_all fetch keep fuel ≡ some (ok (filter keep (concat pages)))
  unfolding list_all
  list_all-Serves pages fuel h enough = listed fuel pages (pos 1) [] enough h
