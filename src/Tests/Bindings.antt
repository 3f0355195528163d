-- ===== src/Tests/Bindings.antt =====
-- `matchBindings` of internal/controller/bindings.go at concrete Bindings.
use authentik_operator.Prelude.{string_eq, true, false, refl, inl, All, Distinct, List, [], ◌∷◌}
use authentik_operator.Models.{PolicyBinding}
use authentik_operator.Reference.{Rule}
use authentik_operator.Bindings.Match.{match_slots}
use authentik_operator.Bindings.Match.Sound.{SlotFits, match_slots-Fits}
use authentik_operator.Bindings.Match.Complete.{
  assigned, Settled, match_slots-Distinct, match_slots_complete,
}
use authentik_operator.Tests.Data.{admins_rule, binding_observed}

abbrev rules : List Rule
rules = admins_rule ∷ admins_rule ∷ []

abbrev bindings : List PolicyBinding
bindings = binding_observed ∷ []

match_slots-Fits_example : All (SlotFits true bindings) (match_slots rules bindings true)
match_slots-Fits_example = match_slots-Fits rules bindings true

match_slots-Distinct_example : Distinct (assigned (match_slots rules bindings false))
match_slots-Distinct_example = match_slots-Distinct rules bindings false

match_slots_complete_example :
    All
      (Settled binding_observed (assigned (match_slots rules bindings false)))
      (match_slots rules bindings false)
match_slots_complete_example = match_slots_complete rules bindings binding_observed (inl refl)
