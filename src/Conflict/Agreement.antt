-- ===== src/Conflict/Agreement.antt =====
-- The resources with one slug agree on the winner: whatever the order in which each lists the
-- others, exactly one of them passes the check.
use Prim.Native.Nat.{Ordering}
use mathlib.Core.Path.{subst}
use text.Mathlib.TextEquality.{path_by_compare}
use authentik_operator.Prelude.{
  ap, ◌∙◌, inl, inr, string_eq, In, arith, refl, sym, [], ◌∷◌, List, none, ◌≡◌, some, String, ◌≢◌,
  true, Bool-cases, ◌⊎◌, ==_sound, ==_refl,
}
use authentik_operator.Api.{AuthentikApplication}
use authentik_operator.Conflict.{
  is_other, compare_resources, min_func, other_candidates, winner, passes, conflict_winner,
}
use authentik_operator.Conflict.Winner.{
  IsCompare-resources, NotAfter, min_func-In, conflict_winner-least,
}

-- A namespace and a name determine a resource of the list.
abbrev pub UniqueKeys : List AuthentikApplication → Type 0
UniqueKeys xs =
    (a b : AuthentikApplication)
    → In a xs
    → In b xs
    → a.namespace ≡ b.namespace
    → a.name ≡ b.name
    → a ≡ b

eq_keys :
    (a b : AuthentikApplication)
    → compare_resources a b ≡ Ordering.eq
    → (a.namespace ≡ b.namespace) × (a.name ≡ b.name)
unfolding compare_resources
eq_keys a b h =
    ground (arith, path_by_compare a.namespace b.namespace, path_by_compare a.name b.name)

both_least :
    (a b : AuthentikApplication) → NotAfter a b → NotAfter b a → compare_resources a b ≡ Ordering.eq
both_least a b h k = ground (arith, IsCompare-resources.flips a b)

-- Two lists of the same candidates, in which a namespace and a name determine a candidate, have
-- the same winner, in whatever order they are.
pub conflict_winner_unique :
    (xs ys : List AuthentikApplication) (v w : AuthentikApplication)
    → UniqueKeys xs
    → ((a : AuthentikApplication) → In a xs → In a ys)
    → ((a : AuthentikApplication) → In a ys → In a xs)
    → conflict_winner xs ≡ some v
    → conflict_winner ys ≡ some w
    → v ≡ w
conflict_winner_unique xs ys v w unique into back p q =
    let x = conflict_winner-least xs v p in
    let y = conflict_winner-least ys w q in
    let keys = eq_keys v w (both_least v w (x.1 w (back w y.0)) (y.1 v (into v x.0))) in
    unique v w x.0 (back w y.0) keys.0 keys.1

-- A resource that is not being deleted.
abbrev pub Live : AuthentikApplication → Type 0
Live a = a.deletion_timestamp ≡ none

is_other-Live : (uid : String) (y : AuthentikApplication) → is_other uid y ≡ true → Live y
unfolding is_other
is_other-Live uid y h = ground arith

other_is_other :
    (uid : String) (y : AuthentikApplication) → Live y → y.uid ≢ uid → is_other uid y ≡ true
unfolding is_other
other_is_other uid y l n = ground arith

module _ (uid : String) (x : AuthentikApplication) where
  In-other_candidates :
      (items : List AuthentikApplication) → In x (other_candidates uid items) → In x items × Live x
  unfolding other_candidates
  In-other_candidates [] i = absurd i
  In-other_candidates (y ∷ items) i = elim (Bool-cases (is_other uid y)) [
    | inl other ↦ first other (λ j. In-other_candidates items j) (rw other at i)
    | inr same ↦ later (In-other_candidates items (rw same at i))
  ]
    where
      later : In x items × Live x → In x (y ∷ items) × Live x
      later r = (inr r.0, r.1)

      first :
          is_other uid y ≡ true
          → (In x (other_candidates uid items) → In x items × Live x)
          → (x ≡ y) ⊎ In x (other_candidates uid items)
          → In x (y ∷ items) × Live x
      first other rest (inl e) = (inl e, subst Live (sym e) (is_other-Live uid y other))
      first other rest (inr j) = later (rest j)

  other_candidates-In :
      (items : List AuthentikApplication)
      → In x items
      → Live x
      → x.uid ≢ uid
      → In x (other_candidates uid items)
  unfolding other_candidates
  other_candidates-In [] i l n = absurd i
  other_candidates-In (y ∷ items) (inl e) l n =
      rw
        (other_is_other uid y (subst Live e l)
          (λ p. n (ap (λ (a : AuthentikApplication). a.uid) e ∙ p)))
        (inl e)
  other_candidates-In (y ∷ items) (inr i) l n = elim (Bool-cases (is_other uid y)) [
    | inl other ↦ rw other (inr (other_candidates-In items i l n))
    | inr same ↦ rw same (other_candidates-In items i l n)
  ]

-- One list of the resources with the slug: it has each uid and each key once.
module _ (items : List AuthentikApplication) (keys : UniqueKeys items)
    (uids : (a b : AuthentikApplication) → In a items → In b items → a.uid ≡ b.uid → a ≡ b) where
  abbrev candidates : AuthentikApplication → List AuthentikApplication
  candidates a = a ∷ other_candidates a.uid items

  In-candidates :
      (a x : AuthentikApplication) → In a items → Live a → In x (candidates a) → In x items × Live x
  In-candidates a x i l (inl e) = (subst (λ z. In z items) (sym e) i, subst Live (sym e) l)
  In-candidates a x i l (inr j) = In-other_candidates a.uid x items j

  candidates-In :
      (a x : AuthentikApplication) → In a items → In x items → Live x → In x (candidates a)
  candidates-In a x i j l = elim (string_eq.dec x.uid a.uid) [
    | yes e ↦ inl (uids x a j i e)
    | no n ↦ inr (other_candidates-In a.uid x items j l n)
  ]

  same_winner :
      (a b : AuthentikApplication)
      → In a items
      → Live a
      → In b items
      → Live b
      → winner a items ≡ winner b items
  unfolding winner conflict_winner
  same_winner a b i l j m =
      conflict_winner_unique (candidates a) (candidates b) (winner a items) (winner b items)
        (λ x y p q. keys x y (In-candidates a x i l p).0 (In-candidates a y i l q).0)
        (λ x p. let r = In-candidates a x i l p in candidates-In b x j r.0 r.1)
        (λ x p. let r = In-candidates b x j m p in candidates-In a x i r.0 r.1) refl refl

  winner-In :
      (a : AuthentikApplication)
      → In a items
      → Live a
      → In (winner a items) items × Live (winner a items)
  unfolding winner
  winner-In a i l =
      In-candidates a (min_func a (other_candidates a.uid items)) i l
        (min_func-In a (other_candidates a.uid items))

  -- what the winner that a listed resource computes is: listed, not being deleted, and let pass
  pub winner-passes :
      (a : AuthentikApplication)
      → In a items
      → Live a
      → In (winner a items) items × Live (winner a items) × (passes (winner a items) items ≡ true)
  unfolding passes
  winner-passes a i l =
      let w = winner-In a i l in
      (w.0, w.1, rw (← same_winner a (winner a items) i l w.0 w.1) (==_refl (winner a items).uid))

  -- Of the listed resources with one slug, where a namespace and a name determine a resource and
  -- so does a uid, two that are not being deleted and that both pass the conflict check are one
  -- resource.
  pub passes_unique :
      (a b : AuthentikApplication)
      → In a items
      → Live a
      → In b items
      → Live b
      → passes a items ≡ true
      → passes b items ≡ true
      → a ≡ b
  unfolding passes
  passes_unique a b i l j m p q =
      let w = winner-In a i l in
      let v = winner-In b j m in
      sym (uids (winner a items) a w.0 i (==_sound (winner a items).uid a.uid p))
      ∙ same_winner a b i l j m
      ∙ uids (winner b items) b v.0 j (==_sound (winner b items).uid b.uid q)

  -- Of the listed resources with one slug, where a namespace and a name determine a resource and
  -- so does a uid, and one is not being deleted, there is one that is not being deleted and passes
  -- the conflict check.
  pub passes_exists :
      (a : AuthentikApplication)
      → In a items
      → Live a
      → (w : AuthentikApplication) × In w items × Live w × (passes w items ≡ true)
  passes_exists a i l = let w = winner-passes a i l in (winner a items, w.0, w.1, w.2)
