-- ===== src/Bindings/Match.antt =====
-- `matchBindings` of internal/controller/bindings.go. The slices `rules` and `matched` are one list
-- of slots, and the map `used` is the list of its keys.
pub mod Sound
pub mod Complete
use authentik_operator.Prelude.{
  String, Bool, true, false, not, ◌&&◌, ◌||◌, Option, none, some, List, [], ◌∷◌, map, contains,
  get_or, string_eq, bool_eq, ◌==◌, if◌then◌else◌,
}
use authentik_operator.Models.{PolicyBinding}
use authentik_operator.Reference.{Rule}
use authentik_operator.Desired.Binding.{binding_subject_eq, rule_subject, observed_subject}

pub record Slot : Type 0 where
  pub rule : Rule
  pub binding : Option PolicyBinding

-- `binding.Negate != nil && *binding.Negate`
unfoldable pub observed_negate : PolicyBinding → Bool
observed_negate binding = get_or binding.negate false

-- the test that passes over a Binding
unfoldable pub skips : Bool → Rule → List String → PolicyBinding → Bool
unfolding observed_negate
skips exact_negate rule used binding =
    contains used binding.pk
    || not (observed_subject binding == rule_subject rule)
    || (exact_negate && not (observed_negate binding == rule.negate))

-- the inner loop: the first Binding that is not passed over
unfoldable pub find_binding : Bool → Rule → List String → List PolicyBinding → Option PolicyBinding
unfolding skips
find_binding exact_negate rule used [] = none
find_binding exact_negate rule used (binding ∷ rest) =
    if skips exact_negate rule used binding
    then find_binding exact_negate rule used rest
    else some binding

-- `used[binding.Pk] = true` for a Binding that was found
unfoldable pub mark_used : Option PolicyBinding → List String → List String
mark_used none used = used
mark_used (some binding) used = binding.pk ∷ used

-- what is done at one index of the outer loop, where the Binding assigned so far is `current`
unfoldable pub fill_at :
    Bool → List PolicyBinding → List String → Rule → Option PolicyBinding → Slot × List String
unfolding mark_used
fill_at exact_negate bindings used rule (some binding) =
    (record { rule = rule; binding = some binding }, used)
fill_at exact_negate bindings used rule none =
    let found = find_binding exact_negate rule used bindings in
    (record { rule = rule; binding = found }, mark_used found used)

abbrev pub fill_slot : Bool → List PolicyBinding → List String → Slot → Slot × List String
fill_slot exact_negate bindings used slot =
    fill_at exact_negate bindings used slot.rule slot.binding

-- `assign`
unfoldable pub assign :
    Bool → List PolicyBinding → List String → List Slot → List Slot × List String
assign exact_negate bindings used [] = ([], used)
assign exact_negate bindings used (slot ∷ slots) =
    let (filled, used') = fill_slot exact_negate bindings used slot in
    let (rest, used'') = assign exact_negate bindings used' slots in (filled ∷ rest, used'')

unfoldable pub empty_slots : List Rule → List Slot
empty_slots = map (λ rule. record { rule = rule; binding = none })

unfoldable pub match_slots : List Rule → List PolicyBinding → Bool → List Slot
unfolding empty_slots
match_slots rules bindings exact_only =
    let (slots, used) = assign true bindings [] (empty_slots rules) in
    if exact_only then slots else (assign false bindings used slots).0

unfoldable pub match_bindings : List Rule → List PolicyBinding → Bool → List (Option PolicyBinding)
unfolding match_slots
match_bindings rules bindings exact_only =
    map (λ slot. slot.binding) (match_slots rules bindings exact_only)
