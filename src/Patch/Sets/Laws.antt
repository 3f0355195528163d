-- ===== src/Patch/Sets/Laws.antt =====
-- The set comparison decides equality of sets.
use mathlib.Core.Path.{subst}
use authentik_operator.Prelude.{some-inj, get_or, Bool-cases, inl, inr}
use authentik_operator.Prelude.{
  arith, ◌≡◌, refl, sym, ◌∙◌, ◌↔◌, true, ◌||◌, Option, none, some, List, [], ◌∷◌, Eq, contains,
  length, ◌==◌, Distinct, Within, SameElements, pigeonhole, Within-of_length, SameElements-Within,
  nat_eq, Within-cons, Within-tail, ==_refl,
}
use authentik_operator.Patch.Sets.{put, fill, check_have, same_set, diff_set}

module _ {ℓ} {A : Type ℓ} ⦃e : Eq A⦄ where
  contains-put : (m : List A) (v z : A) → contains (put m v) z ≡ (v == z || contains m z)
  unfolding put contains
  contains-put m v z = ground arith

  Distinct-put : (m : List A) (v : A) → Distinct m → Distinct (put m v)
  unfolding put
  Distinct-put m v d = ground arith

  contains-fill : (m vs : List A) (z : A) → contains (fill m vs) z ≡ (contains m z || contains vs z)
  unfolding fill contains
  contains-fill m [] z = ground arith
  contains-fill m (v ∷ vs) z = ground (arith, contains-fill (put m v) vs z, contains-put m v z)

  Distinct-fill : (m vs : List A) → Distinct m → Distinct (fill m vs)
  unfolding fill
  Distinct-fill m [] d = d
  Distinct-fill m (v ∷ vs) d = Distinct-fill (put m v) vs (Distinct-put m v d)

  check_have_sound :
      (want have vs : List A)
      → check_have want have vs ≡ true
      → (Within vs want) × (length want ≡ length (fill have vs))
  unfolding check_have fill contains
  check_have_sound want have [] h = (λ z m. cc, ground arith)
  check_have_sound want have (v ∷ vs) h =
      let rest = check_have_sound want (put have v) vs (ground arith) in
      (Within-cons v vs want (ground arith) rest.0, rest.1)

  check_have_complete :
      (want have vs : List A)
      → Within vs want
      → length want ≡ length (fill have vs)
      → check_have want have vs ≡ true
  unfolding check_have fill
  check_have_complete want have [] w h = ground arith
  check_have_complete want have (v ∷ vs) w h = ground (
    arith,
    w v (unfold contains in ground (arith, ==_refl v)),
    check_have_complete want (put have v) vs (Within-tail v vs want w) h,
  )

  fill-SameElements : (vs : List A) → SameElements (fill [] vs) vs
  unfolding contains
  fill-SameElements vs z = ground (arith, contains-fill [] vs z)

  -- The set comparison of two slices holds exactly when the slices hold the same elements, in
  -- whatever order and however often.
  pub same_set_iff : (a b : List A) → (same_set a b ≡ true) ↔ SameElements a b
  unfolding same_set
  same_set_iff a b = (sound, complete)
    where
      sound : same_set a b ≡ true → SameElements a b
      sound h =
          let s = check_have_sound (fill [] a) [] b h in
          let back =
            Within-of_length (fill [] b) (fill [] a) (Distinct-fill [] b tt)
              (λ z m. s.0 z (rw fill-SameElements at m)) (omega (arith, s.1)) in
          SameElements-Within a b
            (λ z m. rw fill-SameElements at (back z (rw (fill-SameElements a z) m)))
            (λ z m. rw fill-SameElements at (s.0 z m))

      complete : SameElements a b → same_set a b ≡ true
      complete h =
          let here = λ (z : A). fill-SameElements a z in
          let there = λ (z : A). fill-SameElements b z in
          check_have_complete (fill [] a) [] b (λ z m. here z ∙ h z ∙ m)
            (omega (
              arith,
              pigeonhole (fill [] a) (fill [] b) (Distinct-fill [] a tt)
                  (λ z m. there z ∙ sym (h z) ∙ sym (here z) ∙ m),
              pigeonhole (fill [] b) (fill [] a) (Distinct-fill [] b tt)
                  (λ z m. here z ∙ h z ∙ sym (there z) ∙ m),
            ))

  abbrev pub AgreesSet : Option (List A) → List A → Type ℓ
  AgreesSet d o = (v : List A) → d ≡ some v → SameElements v o

  -- The diff is nil exactly when the desired slice is nil or names the observed elements.
  pub diff_set_iff : (d : Option (List A)) (o : List A) → (diff_set d o ≡ none) ↔ AgreesSet d o
  unfolding diff_set
  diff_set_iff none o = (λ _ v p. cc, λ _. refl)
  diff_set_iff (some d) o = (
    λ h v p. subst (λ w. SameElements w o) (some-inj p) ((same_set_iff d o).0 (ground arith)),
    λ h. ground (arith, (same_set_iff d o).1 (h d refl)),
  )

  patched_cases :
      (d o n : List A) → SameElements n (get_or (diff_set (some d) o) o) → SameElements d n
  unfolding diff_set
  patched_cases d o n h z = elim (Bool-cases (same_set d o)) [
    | inl same ↦ (same_set_iff d o).0 same z ∙ sym ((rw same at h) z)
    | inr other ↦ sym ((rw other at h) z)
  ]

  -- A partial update with the field of the diff leaves the managed elements in the object.
  pub AgreesSet-patched :
      (d : Option (List A)) (o n : List A)
      → SameElements n (get_or (diff_set d o) o)
      → AgreesSet d n
  AgreesSet-patched none o n h v p = cc
  AgreesSet-patched (some d) o n h v p =
      subst (λ w. SameElements w n) (some-inj p) (patched_cases d o n h)
