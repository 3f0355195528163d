-- ===== src/Tests/Conflicts.antt =====
-- The check for a slug conflict of internal/controller/conflict.go at two resources.
use mathlib.Core.Path.{subst}
use authentik_operator.Prelude.{
  String, ◌≡◌, ◌≢◌, ◌⊎◌, ◌∙◌, sym, ap, refl, ◌==◌, string_eq, true, false, inl, inr, In, some, List,
  [], ◌∷◌, String_discrete,
}
use authentik_operator.Api.{AuthentikApplication}
use authentik_operator.Conflict.{
  conflict_winner, compare_resources, passes, other_candidates, is_other,
}
use authentik_operator.Conflict.Agreement.{UniqueKeys, Live, passes_unique, passes_exists}
use authentik_operator.Tests.Data.{older, newer}

abbrev pub both : List AuthentikApplication
both = newer ∷ older ∷ []

abbrev swapped : List AuthentikApplication
swapped = older ∷ newer ∷ []

both_won : conflict_winner both ≡ some older
unfolding conflict_winner compare_resources String_discrete
both_won = refl

swapped_won : conflict_winner swapped ≡ some older
unfolding conflict_winner compare_resources String_discrete
swapped_won = refl

cases : (a : AuthentikApplication) → In a both → (a ≡ newer) ⊎ (a ≡ older)
cases a (inl p) = inl p
cases a (inr (inl p)) = inr p
cases a (inr (inr i)) = absurd i

false-true : false ≡ true → ⊥
false-true p = cc

namespaces : newer.namespace ≢ older.namespace
unfolding String_discrete
namespaces e = false-true (subst (λ s. (s == newer.namespace) ≡ true) e refl)

pub uids : newer.uid ≢ older.uid
unfolding String_discrete
uids e = false-true (subst (λ s. (s == newer.uid) ≡ true) e refl)

-- Two of the resources that have one name, by a name that tells the two apart, are one.
pub by_name :
    (name : AuthentikApplication → String)
    → (name newer ≢ name older)
    → (a b : AuthentikApplication) → In a both
    → In b both
    → name a ≡ name b
    → a ≡ b
by_name name apart a b i j e = elim (cases a i) [
  | inl p ↦ elim (cases b j) [
    | inl q ↦ p ∙ sym q
    | inr q ↦ absurd (apart (sym (ap name p) ∙ e ∙ ap name q))
  ]
  | inr p ↦ elim (cases b j) [
    | inl q ↦ absurd (apart (sym (ap name q) ∙ sym e ∙ ap name p))
    | inr q ↦ p ∙ sym q
  ]
]

pub unique : UniqueKeys both
unique a b i j e f = by_name (λ r. r.namespace) namespaces a b i j e

flip : (a : AuthentikApplication) → In a both → In a swapped
flip a (inl p) = inr (inl p)
flip a (inr (inl p)) = inl p
flip a (inr (inr i)) = absurd i

flip_back : (a : AuthentikApplication) → In a swapped → In a both
flip_back a (inl p) = inr (inl p)
flip_back a (inr (inl p)) = inl p
flip_back a (inr (inr i)) = absurd i

passes-older : passes older both ≡ true
unfolding passes compare_resources other_candidates is_other String_discrete
passes-older = refl

passes_unique_example : older ≡ older
passes_unique_example =
    passes_unique both unique (by_name (λ r. r.uid) uids) older older (inr (inl refl)) refl
      (inr (inl refl)) refl passes-older passes-older

passes_exists_example : (w : AuthentikApplication) × In w both × Live w × (passes w both ≡ true)
passes_exists_example = passes_exists both unique (by_name (λ r. r.uid) uids) newer (inl refl) refl
