-- ===== src/Controller/Bindings/Order.antt =====
-- The order of a new Binding: `managedBindings` and `reconcileBindings` of
-- internal/controller/bindings.go.
use authentik_operator.Reference.{Rule}
use authentik_operator.Desired.Binding.{create_binding_request}
use authentik_operator.Ownership.Cache.{ensure, contains_marker}
use authentik_operator.Effect.Emits.{
  Emits, emits_rules, Emits-weaken, Emits-bind, Emits-call, Emits-modify, Emits-pure, Between,
  Between-bind,
}
use authentik_operator.Ownership.Cache.Quiet.{IsMarkerCall, Emits-contains_marker, Emits-ensure}
use authentik_operator.Bindings.Match.{Slot, match_slots, empty_slots, assign, fill_slot}
use authentik_operator.Controller.Status.{patch_status}
use authentik_operator.Effect.Gives.{
  Gives, Gives-pure, Gives-bind, Gives-Emits, Emits-Gives, Gives-weaken,
}
use mathlib.Core.Path.{subst}
use authentik_operator.Prelude.{
  ℕ, ◌<◌, ◌≡◌, refl, arith, ◌+◌, ◌^◌, Bool, true, false, List, [], ◌∷◌, All, All-map, String,
  Option, ◌≤◌, length, some, ◌*◌, none, ap, sym, suc, ◌++◌, ◌∙◌,
}
use authentik_operator.Prelude.Int.{ℤ, pos, negsuc, ◌+ℤ◌, ◌≤ℤ◌, ◌<ℤ◌, max_ℤ, wrap32, wrap32-pos}
use authentik_operator.Models.{PolicyBinding, PatchedPolicyBindingRequest}
use authentik_operator.Effect.{
  ok, Env, State, Object, Call, create_policy_binding, patch_policy_binding, list_policy_bindings,
  call,
}
use authentik_operator.Controller.Bindings.{
  Split, order_step, add_binding, split_from, managed_bindings, send_patch, is_managed_binding,
  write_slots, adopt_slot, adopt_slots, write_slot, sync_binding, set_binding_uuids, write_bindings,
}

max_ℤ-left : (a b c : ℤ) → max_ℤ a b ≤ℤ c → a ≤ℤ c
unfolding max_ℤ
max_ℤ-left a b c h = ground arith

max_ℤ-right : (a b c : ℤ) → max_ℤ a b ≤ℤ c → b ≤ℤ c
unfolding max_ℤ
max_ℤ-right a b c h = ground arith

max_order-add_binding :
    (split : Split) (b : PolicyBinding) (managed : Bool)
    → (add_binding split b managed).max_order ≡ max_ℤ split.max_order b.order
unfolding add_binding
max_order-add_binding split b true = refl
max_order-add_binding split b false = refl

-- The order of a request that creates a Binding is greater than every order of `existing`.
abbrev pub CreatesAbove : List PolicyBinding → Call → Type 0
CreatesAbove existing (create_policy_binding request) = All (λ b. b.order <ℤ request.order) existing
CreatesAbove existing _ = Unit

abbrev Below : List PolicyBinding → ℤ → Type 0
Below bs o = All (λ b. b.order ≤ℤ o) bs

-- The largest order of `r` bounds those of `split` and `bs`, and is bounded by `n`.
abbrev Bounds : Split → List PolicyBinding → ℕ → Split → Type 0
Bounds split bs n r =
    (split.max_order ≤ℤ r.max_order) × (r.max_order ≤ℤ pos n) × Below bs r.max_order

max_ℤ-bound : (a b c : ℤ) → a ≤ℤ c → b ≤ℤ c → max_ℤ a b ≤ℤ c
unfolding max_ℤ
max_ℤ-bound a b c h k = ground arith

Bounds-cons :
    (split r : Split) (b : PolicyBinding) (bs : List PolicyBinding) (n : ℕ) (managed : Bool)
    → Bounds (add_binding split b managed) bs n r
    → Bounds split (b ∷ bs) n r
Bounds-cons split r b bs n managed h =
    let m : max_ℤ split.max_order b.order ≤ℤ r.max_order =
      subst (λ o. o ≤ℤ r.max_order) (max_order-add_binding split b managed) h.0 in
    (
      max_ℤ-left split.max_order b.order r.max_order m,
      h.1,
      (max_ℤ-right split.max_order b.order r.max_order m, h.2),
    )

-- the room for one more order
abbrev Next : ℕ → ℤ × String → Type 0
Next k written = (m : ℕ) × (written.0 ≡ pos m) × (k ≤ m) × (m ≤ k + 10)

pos-step : (n : ℕ) → (pos n +ℤ order_step) ≡ pos (n + 10)
unfolding ◌+ℤ◌
pos-step n = ground arith

next_order : (k : ℕ) → k + 10 < 2 ^ 31 → wrap32 (pos k +ℤ order_step) ≡ pos (k + 10)
next_order k h = rw (pos-step k) (wrap32-pos (k + 10) h)

module _ (existing : List PolicyBinding) where
  CreatesAbove-IsMarkerCall : (c : Call) → IsMarkerCall c → CreatesAbove existing c
  CreatesAbove-IsMarkerCall (create_policy_binding request) h = absurd h
  CreatesAbove-IsMarkerCall _ h = tt

  marks : (o : Object) → Emits (CreatesAbove existing) (ensure o)
  marks o = Emits-weaken _ CreatesAbove-IsMarkerCall (Emits-ensure o)

  looks_up : (o : Object) → Emits (CreatesAbove existing) (contains_marker o)
  looks_up o = Emits-weaken _ CreatesAbove-IsMarkerCall (Emits-contains_marker o)

  Emits-is_managed_binding :
      (b : PolicyBinding) → Emits (CreatesAbove existing) (is_managed_binding b)
  unfolding is_managed_binding
  Emits-is_managed_binding b = search (emits_rules, marks, looks_up) depth 12

  Gives-split_from :
      (n : ℕ) (split : Split) (bs : List PolicyBinding)
      → split.max_order ≤ℤ pos n
      → Below bs (pos n)
      → Gives (CreatesAbove existing) (Bounds split bs n) (split_from split bs)
  unfolding split_from
  Gives-split_from n split [] h k = Gives-pure split (omega arith, h, tt)
  Gives-split_from n split (b ∷ bs) h k =
      Gives-bind _ _ (Gives-Emits _ (Emits-is_managed_binding b)) (λ m _.
        Gives-weaken _ (λ r. Bounds-cons split r b bs n m)
          (Gives-split_from n (add_binding split b m) bs
            (subst (λ o. o ≤ℤ pos n) (sym (max_order-add_binding split b m))
              (max_ℤ-bound split.max_order b.order (pos n) h k.0))
            k.1))

  Emits-adopt_slot :
      (slot : Slot) (matched candidate : Option PolicyBinding)
      → Emits (CreatesAbove existing) (adopt_slot slot matched candidate)
  unfolding adopt_slot
  Emits-adopt_slot slot (some b) candidate = search emits_rules
  Emits-adopt_slot slot none none = search emits_rules
  Emits-adopt_slot slot none (some b) = search (emits_rules, marks)

  Gives-adopt_slots :
      (slots : List Slot) (candidates : List (Option PolicyBinding))
      → Gives (CreatesAbove existing) (λ r. length r ≡ length slots) (adopt_slots slots candidates)
  unfolding adopt_slots
  Gives-adopt_slots [] candidates = Gives-pure _ refl
  Gives-adopt_slots (slot ∷ slots) [] = Gives-pure _ refl
  Gives-adopt_slots (slot ∷ slots) (c ∷ candidates) =
      Gives-bind _ _ (Gives-Emits _ (Emits-adopt_slot slot slot.binding c)) (λ adopted _.
        Gives-bind _ _ (Gives-adopt_slots slots candidates)
          (λ rest same. Gives-pure _ (ap suc same)))

  Emits-send_patch :
      (uuid : String) (patch : Option PatchedPolicyBindingRequest)
      → Emits (CreatesAbove existing) (send_patch uuid patch)
  unfolding send_patch
  Emits-send_patch uuid none = search emits_rules
  Emits-send_patch uuid (some patch) =
      Emits-bind _ _ (Emits-call {P = CreatesAbove existing} (patch_policy_binding uuid patch) tt)
        (λ _. Emits-pure _)

  writes_status : Emits (CreatesAbove existing) patch_status
  unfolding patch_status
  writes_status = search emits_rules depth 12

  Gives-write_slot :
      (k : ℕ) (target : String) (rule : Rule) (binding : Option PolicyBinding)
      → Below existing (pos k)
      → k + 10 < 2 ^ 31
      → Gives (CreatesAbove existing) (Next k) (write_slot target (pos k) rule binding)
  unfolding write_slot sync_binding set_binding_uuids create_binding_request
  Gives-write_slot k target rule (some b) below room =
      Gives-bind _ _ (Gives-Emits _ (Emits-send_patch _ _))
        (λ _ _. Gives-pure _ (k, refl, omega arith, omega arith))
  Gives-write_slot k target rule none below room =
      Gives-bind _ _
        (Gives-Emits _ (
          Emits-call {P = CreatesAbove existing} (create_policy_binding _)
            (rw (next_order k room) (All-map (λ b h. omega (arith, h)) existing below))))
        (λ created _. Gives-bind _ _ (Gives-Emits _ (Emits-modify _ (λ s. refl))) (λ _ _.
          Gives-bind _ _ (Gives-Emits _ writes_status) (λ _ _.
            Gives-bind _ _ (Gives-Emits _ (marks _))
              (λ _ _. Gives-pure _ (k + 10, next_order k room, omega arith, omega arith)))))

  Emits-write_slots :
      (k : ℕ) (target : String) (slots : List Slot) (kept : List String)
      → Below existing (pos k)
      → k + 10 * length slots < 2 ^ 31
      → Emits (CreatesAbove existing) (write_slots target slots (pos k) kept)
  unfolding write_slots
  Emits-write_slots k target [] kept below room = search emits_rules
  Emits-write_slots k target (slot ∷ slots) kept below room = Emits-Gives _ (
      Gives-bind _ _ (Gives-write_slot k target slot.rule slot.binding below (omega (arith, room)))
        (λ written next.
          let (m, e, low, high) = next in
          Gives-Emits _ (
            subst
              (λ o.
                Emits (CreatesAbove existing) (write_slots target slots o (kept ++ written.1 ∷ [])))
              (sym e)
              (Emits-write_slots m target slots (kept ++ written.1 ∷ [])
                (All-map (λ b h. omega (arith, h, low)) existing below)
                (omega (arith, room, high))))))

length-assign :
    (exact : Bool) (bindings : List PolicyBinding) (used : List String) (slots : List Slot)
    → length (assign exact bindings used slots).0 ≡ length slots
unfolding assign
length-assign exact bindings used [] = refl
length-assign exact bindings used (slot ∷ slots) =
    ap suc (length-assign exact bindings (fill_slot exact bindings used slot).1 slots)

length-empty_slots : (rules : List Rule) → length (empty_slots rules) ≡ length rules
unfolding empty_slots
length-empty_slots [] = refl
length-empty_slots (rule ∷ rules) = ap suc (length-empty_slots rules)

length-match_slots :
    (rules : List Rule) (bindings : List PolicyBinding)
    → length (match_slots rules bindings false) ≡ length rules
unfolding match_slots
length-match_slots rules bindings =
    length-assign false bindings _ _
    ∙ length-assign true bindings [] (empty_slots rules)
    ∙ length-empty_slots rules

natural : (o : ℤ) → pos 0 ≤ℤ o → (m : ℕ) × (o ≡ pos m)
natural (pos m) h = (m, refl)
natural (negsuc m) h = absurd (omega (arith, h))

writes :
    (existing : List PolicyBinding) (n : ℕ) (o : ℤ) (target : String) (slots : List Slot)
    → pos 0 ≤ℤ o
    → o ≤ℤ pos n
    → Below existing o
    → n + 10 * length slots < 2 ^ 31
    → Emits (CreatesAbove existing) (write_slots target slots o [])
writes existing n o target slots low high below room =
    let (m, e) = natural o low in
    subst (λ p. Emits (CreatesAbove existing) (write_slots target slots p [])) (sym e)
      (Emits-write_slots existing m target slots [] (subst (Below existing) e below)
        (omega (arith, room, subst (λ p. p ≤ℤ pos n) e high)))

-- When the orders of the listed Bindings are at most n and n + 10 for each rule stays below 2 ^
-- 31, every Binding that the reconcile of the Bindings creates, however the services answer, has
-- an int32 order greater than the order of every listed Binding.
pub write_bindings-CreatesAbove :
    (target : String) (rules : List Rule) (env : Env) (s : State) (existing : List PolicyBinding)
    (n : ℕ)
    → env.answer s.trace (list_policy_bindings target) ≡ ok existing
    → All (λ b. b.order ≤ℤ pos n) existing
    → n + 10 * length rules < 2 ^ 31
    → Between (CreatesAbove existing) s (write_bindings target rules env s).1
unfolding write_bindings managed_bindings call
write_bindings-CreatesAbove target rules env s existing n listed below room =
    Between-bind _ _ existing env s listed
      (Emits-call {P = CreatesAbove existing} (list_policy_bindings target) tt)
      (Emits-Gives {G = λ _. Unit} _ (
        Gives-bind _ _ (Gives-split_from existing n _ existing (omega arith) below) (λ split bounds.
          Gives-bind _ _ (Gives-adopt_slots existing _ _) (λ slots same.
            let total : length slots ≡ length rules =
              same ∙ length-match_slots rules split.managed in
            Gives-bind _ _
              (Gives-Emits _ (
                writes existing n split.max_order target slots bounds.0 bounds.1 bounds.2
                  (omega (arith, room, total))))
              (λ kept _. Gives-pure _ tt)))))
