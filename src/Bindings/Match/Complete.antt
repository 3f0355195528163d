-- ===== src/Bindings/Match/Complete.antt =====
-- No Binding is assigned twice, and a rule is left without a Binding only when every Binding with
-- its subject is assigned to another rule.
use authentik_operator.Prelude.{
  In, In, refl, inl, inr, arith, ◌≡◌, String, Bool, true, false, none, some, List, [], ◌∷◌,
  contains, string_eq, bool_eq, Within, Distinct, ◌||◌, Option, Option-cases, ==_refl, ◌∙◌, All,
  All-map, sym,
}
use authentik_operator.Models.{PolicyBinding}
use authentik_operator.Reference.{Rule}
use authentik_operator.Desired.Binding.{binding_subject_eq}
use authentik_operator.Bindings.Match.{
  Slot, find_binding, fill_at, fill_slot, assign, empty_slots, match_slots, observed_subject, skips,
  rule_subject,
}
use authentik_operator.Bindings.Match.Sound.{find_binding-Fits}

-- the primary keys of the assigned Bindings
abbrev pub assigned : List Slot → List String
assigned [] = []
assigned (slot ∷ slots) = elim slot.binding [
  | none ↦ assigned slots
  | some b ↦ b.pk ∷ assigned slots
]

-- the Binding that was found, if any, is in use
abbrev taken : Option PolicyBinding → List String → Bool
taken none used = false
taken (some b) used = contains used b.pk

Distinct-cons :
    (current : Option PolicyBinding) (rest : List String)
    → Distinct rest
    → ((b : PolicyBinding) → current ≡ some b → contains rest b.pk ≡ false)
    → Distinct (elim current [ none ↦ rest | some b ↦ b.pk ∷ rest ])
Distinct-cons none rest d fresh = d
Distinct-cons (some b) rest d fresh = (fresh b refl, d)

Distinct-tail :
    (slot : Slot) (slots : List Slot)
    → Distinct (assigned (slot ∷ slots))
    → Distinct (assigned slots)
Distinct-tail slot slots d = tail slot.binding d
  where
    tail :
        (current : Option PolicyBinding)
        → Distinct (elim current [ none ↦ assigned slots | some b ↦ b.pk ∷ assigned slots ])
        → Distinct (assigned slots)
    tail none d = d
    tail (some b) d = d.1

module _ (exact : Bool) (bindings : List PolicyBinding) where
  found_fresh :
      (rule : Rule) (used : List String)
      → taken (find_binding exact rule used bindings) used ≡ false
  found_fresh rule used = elim (Option-cases (find_binding exact rule used bindings)) [
    | inl nothing ↦ rw nothing
    | inr (b, found) ↦ rw found (find_binding-Fits exact rule used bindings b found).1
  ]

  -- A key that is in use and that no slot has is given to no slot.
  fresh-assign :
      (p : String) (used : List String) (slots : List Slot)
      → contains used p ≡ true
      → contains (assigned slots) p ≡ false
      → contains (assigned (assign exact bindings used slots).0) p ≡ false
  unfolding assign fill_at contains
  fresh-assign p used [] u a = a
  fresh-assign p used (slot ∷ slots) u a = ground (
    arith,
    fresh-assign p (fill_slot exact bindings used slot).1 slots,
    found_fresh slot.rule used,
  )

  -- The used keys are those used before and those of the slots.
  used-assign :
      (p : String) (used : List String) (slots : List Slot)
      → (contains (assigned slots) p ≡ true → contains used p ≡ true)
      → contains (assign exact bindings used slots).1 p
        ≡ (contains used p || contains (assigned (assign exact bindings used slots).0) p)
  unfolding assign fill_at contains
  used-assign p used [] h = ground arith
  used-assign p used (slot ∷ slots) h =
      ground (arith, used-assign p (fill_slot exact bindings used slot).1 slots)

  -- A key that a slot has stays in a slot.
  kept-assign :
      (p : String) (used : List String) (slots : List Slot)
      → contains (assigned slots) p ≡ true
      → contains (assigned (assign exact bindings used slots).0) p ≡ true
  unfolding assign fill_at contains
  kept-assign p used [] h = h
  kept-assign p used (slot ∷ slots) h =
      ground (arith, kept-assign p (fill_slot exact bindings used slot).1 slots)

  still-Within :
      (used : List String) (slot : Slot) (slots : List Slot)
      → Within (assigned (slot ∷ slots)) used
      → Within (assigned slots) (fill_slot exact bindings used slot).1
  unfolding fill_at contains
  still-Within used slot slots h z k = ground (arith, h z)

  placed :
      (used : List String) (slot : Slot) (slots : List Slot) (b : PolicyBinding)
      → Distinct (assigned (slot ∷ slots))
      → Within (assigned (slot ∷ slots)) used
      → (fill_slot exact bindings used slot).0.binding ≡ some b
      → (contains (fill_slot exact bindings used slot).1 b.pk ≡ true)
        × (contains (assigned slots) b.pk ≡ false)
  unfolding fill_at contains
  placed used slot slots b d w e = ground (arith, w b.pk, ==_refl b.pk, found_fresh slot.rule used)

  Distinct-assign :
      (used : List String) (slots : List Slot)
      → Distinct (assigned slots)
      → Within (assigned slots) used
      → Distinct (assigned (assign exact bindings used slots).0)
  unfolding assign
  Distinct-assign used [] d w = tt
  Distinct-assign used (slot ∷ slots) d w =
      let used' = (fill_slot exact bindings used slot).1 in
      Distinct-cons (fill_slot exact bindings used slot).0.binding
        (assigned (assign exact bindings used' slots).0)
        (Distinct-assign used' slots (Distinct-tail slot slots d) (still-Within used slot slots w))
        (λ b e.
          let here = placed used slot slots b d w e in fresh-assign b.pk used' slots here.0 here.1)

-- A slot without a Binding, whose rule has the subject of `b`, is there only if `b` is in use.
abbrev pub Settled : PolicyBinding → List String → Slot → Type 0
Settled b used slot =
    slot.binding ≡ none → observed_subject b ≡ rule_subject slot.rule → contains used b.pk ≡ true

module _ (bindings : List PolicyBinding) (b : PolicyBinding) where
  all_skipped :
      (rule : Rule) (used : List String) (rest : List PolicyBinding)
      → In b rest
      → find_binding false rule used rest ≡ none
      → observed_subject b ≡ rule_subject rule
      → contains used b.pk ≡ true
  unfolding find_binding skips
  all_skipped rule used [] i n e = absurd i
  all_skipped rule used (x ∷ rest) i n e = ground (arith, all_skipped rule used rest)

  grow-assign :
      (p : String) (used : List String) (slots : List Slot)
      → contains used p ≡ true
      → contains (assign false bindings used slots).1 p ≡ true
  unfolding assign fill_at contains
  grow-assign p used [] h = h
  grow-assign p used (slot ∷ slots) h =
      ground (arith, grow-assign p (fill_slot false bindings used slot).1 slots)

  unfilled :
      (used : List String) (slot : Slot)
      → In b bindings
      → Settled b (fill_slot false bindings used slot).1 (fill_slot false bindings used slot).0
  unfolding fill_at
  unfilled used slot i n e = ground (arith, all_skipped slot.rule used bindings i)

  pub Settled-assign :
      In b bindings
      → (used : List String) (slots : List Slot)
      → All (Settled b (assign false bindings used slots).1) (assign false bindings used slots).0
  unfolding assign
  Settled-assign i used [] = tt
  Settled-assign i used (slot ∷ slots) =
      let used' = (fill_slot false bindings used slot).1 in
      (λ n e. grow-assign b.pk used' slots (unfilled used slot i n e), Settled-assign i used' slots)

assigned-empty_slots : (rules : List Rule) → assigned (empty_slots rules) ≡ []
unfolding empty_slots
assigned-empty_slots [] = refl
assigned-empty_slots (rule ∷ rules) = assigned-empty_slots rules

module _ (rules : List Rule) (bindings : List PolicyBinding) where
  -- the slots and the used keys after the pass over exact matches
  abbrev first : List Slot × List String
  first = assign true bindings [] (empty_slots rules)

  nothing : Within (assigned (empty_slots rules)) []
  nothing = rw (assigned-empty_slots rules) (λ z k. k)

  Distinct-first : Distinct (assigned first.0)
  Distinct-first =
      Distinct-assign true bindings [] (empty_slots rules) (rw (assigned-empty_slots rules) tt)
        nothing

  used-first : (p : String) → contains first.1 p ≡ contains (assigned first.0) p
  unfolding contains
  used-first p = used-assign true bindings p [] (empty_slots rules) (nothing p)

  -- No Binding is assigned to two rules, whether or not only exact matches are asked for.
  pub match_slots-Distinct :
      (exact_only : Bool) → Distinct (assigned (match_slots rules bindings exact_only))
  unfolding match_slots
  match_slots-Distinct true = Distinct-first
  match_slots-Distinct false =
      Distinct-assign false bindings first.1 first.0 Distinct-first (λ z k. used-first z ∙ k)

  used-second :
      (p : String)
      → contains (assign false bindings first.1 first.0).1 p
        ≡ contains (assigned (assign false bindings first.1 first.0).0) p
  used-second p = ground (
    arith,
    used-assign false bindings p first.1 first.0 (λ k. used-first p ∙ k),
    used-first p,
    kept-assign false bindings p first.1 first.0,
  )

  -- When a Binding with another negate may be assigned, a rule gets no Binding only if every given
  -- Binding with its subject is assigned to some rule.
  pub match_slots_complete :
      (b : PolicyBinding)
      → In b bindings
      → All
          (Settled b (assigned (match_slots rules bindings false)))
          (match_slots rules bindings false)
  unfolding match_slots
  match_slots_complete b i =
      All-map (λ slot s n e. sym (used-second b.pk) ∙ s n e)
        (assign false bindings first.1 first.0).0 (Settled-assign bindings b i first.1 first.0)
