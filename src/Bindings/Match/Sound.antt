-- ===== src/Bindings/Match/Sound.antt =====
-- Every assigned Binding belongs to its rule, and no Binding is assigned twice.
use authentik_operator.Prelude.{
  In, arith, ◌≡◌, refl, String, Bool, true, false, Option, none, some, some-inj, List, [], ◌∷◌, All,
  contains, string_eq, bool_eq, inl, inr, Bool-cases,
}
use authentik_operator.Models.{PolicyBinding}
use authentik_operator.Reference.{Rule}
use authentik_operator.Desired.Binding.{binding_subject_eq, rule_subject, observed_subject}
use authentik_operator.Bindings.Match.{
  Slot, observed_negate, skips, find_binding, fill_at, fill_slot, assign, empty_slots, match_slots,
}

-- `b` is one of the Bindings, and fits the rule; with `exact` its negate does too.
pub record Fits (exact : Bool) (bindings : List PolicyBinding) (rule : Rule) (b : PolicyBinding)
    : Type 0 where
  pub listed : In b bindings
  pub subject : observed_subject b ≡ rule_subject rule
  pub negate : exact ≡ true → observed_negate b ≡ rule.negate

abbrev pub SlotFits : Bool → List PolicyBinding → Slot → Type 0
SlotFits exact bindings slot =
    (b : PolicyBinding) → slot.binding ≡ some b → Fits exact bindings slot.rule b

module _ (exact : Bool) (rule : Rule) (used : List String) where
  not_skipped :
      (b : PolicyBinding)
      → skips exact rule used b ≡ false
      → (contains used b.pk ≡ false)
        × (observed_subject b ≡ rule_subject rule)
        × (exact ≡ true → observed_negate b ≡ rule.negate)
  unfolding skips
  not_skipped b h = ground arith

  widen :
      (x b : PolicyBinding) (bindings : List PolicyBinding)
      → Fits exact bindings rule b
      → Fits exact (x ∷ bindings) rule b
  widen x b bindings f = record { listed = inr f.listed; subject = f.subject; negate = f.negate }

  pub find_binding-Fits :
      (bindings : List PolicyBinding) (b : PolicyBinding)
      → find_binding exact rule used bindings ≡ some b
      → Fits exact bindings rule b × (contains used b.pk ≡ false)
  unfolding find_binding
  find_binding-Fits [] b h = cc
  find_binding-Fits (x ∷ rest) b h = elim (Bool-cases (skips exact rule used x)) [
    | inl skipped ↦
        let found = find_binding-Fits rest b (rw skipped at h) in (widen x b rest found.0, found.1)
    | inr taken ↦
        let e = some-inj (rw taken at h) in
        let n = not_skipped x taken in
        rw (← e) (record { listed = inl refl; subject = n.1; negate = n.2 }, n.0)
  ]

-- With `exact` false nothing is asked of the negate.
loosen :
    (bindings : List PolicyBinding) (slot : Slot)
    → SlotFits true bindings slot
    → SlotFits false bindings slot
loosen bindings slot f b h =
    let g = f b h in record { listed = g.listed; subject = g.subject; negate = λ e. cc }

module _ (exact : Bool) (bindings : List PolicyBinding) where
  fill_at-Fits :
      (used : List String) (rule : Rule) (current : Option PolicyBinding)
      → ((b : PolicyBinding) → current ≡ some b → Fits exact bindings rule b)
      → SlotFits exact bindings (fill_at exact bindings used rule current).0
  unfolding fill_at
  fill_at-Fits used rule (some c) f b h = f b h
  fill_at-Fits used rule none f b h = (find_binding-Fits exact rule used bindings b h).0

  assign-Fits :
      (used : List String) (slots : List Slot)
      → All (SlotFits exact bindings) slots
      → All (SlotFits exact bindings) (assign exact bindings used slots).0
  unfolding assign
  assign-Fits used [] f = f
  assign-Fits used (slot ∷ slots) f = (
    unfold fill_at in fill_at-Fits used slot.rule slot.binding f.0,
    assign-Fits (fill_slot exact bindings used slot).1 slots f.1,
  )

loosen-All :
    (bindings : List PolicyBinding) (slots : List Slot)
    → All (SlotFits true bindings) slots
    → All (SlotFits false bindings) slots
loosen-All bindings [] f = f
loosen-All bindings (slot ∷ slots) f = (loosen bindings slot f.0, loosen-All bindings slots f.1)

empty_slots-Fits :
    (bindings : List PolicyBinding) (rules : List Rule)
    → All (SlotFits true bindings) (empty_slots rules)
unfolding empty_slots
empty_slots-Fits bindings [] = tt
empty_slots-Fits bindings (rule ∷ rules) = (λ b h. cc, empty_slots-Fits bindings rules)

-- Every assigned Binding is one of the given ones and has the subject of its rule; when only exact
-- matches are asked for, it has the negate of the rule too.
pub match_slots-Fits :
    (rules : List Rule) (bindings : List PolicyBinding) (exact_only : Bool)
    → All (SlotFits exact_only bindings) (match_slots rules bindings exact_only)
unfolding match_slots
match_slots-Fits rules bindings true =
    assign-Fits true bindings [] (empty_slots rules) (empty_slots-Fits bindings rules)
match_slots-Fits rules bindings false =
    assign-Fits false bindings (assign true bindings [] (empty_slots rules)).1
      (assign true bindings [] (empty_slots rules)).0
      (loosen-All bindings (assign true bindings [] (empty_slots rules)).0
        (assign-Fits true bindings [] (empty_slots rules) (empty_slots-Fits bindings rules)))
