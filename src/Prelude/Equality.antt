-- ===== src/Prelude/Equality.antt =====
-- Go's `==` on comparable types, as an instance argument whose test carries its proof.
use Prim.Native.Nat.{ℕ}
use Prim.Native.String.{String}
use native.Mathlib.Decide.{ℕ_discrete}
use text.Mathlib.Text.{◌==◌ as str_eq}
use text.Mathlib.TextEquality.{eq_iff}
use mathlib.Core.Path.{◌≡◌, refl}
use mathlib.Core.Bool.{Bool, true, false}
use mathlib.Core.Option.{Option}
use native.Mathlib.Omega.{arith}

pub record Eq {ℓ} (A : Type ℓ) : Type ℓ where
  pub dec : (a b : A) → Dec (a ≡ b)

infix 50 ◌==◌
abbrev pub ◌==◌ {ℓ} : {A : Type ℓ} ⦃e : Eq A⦄ → A → A → Bool
◌==◌ ⦃e⦄ a b = elim (e.dec a b) [ yes _ ↦ true | no _ ↦ false ]

dec_of_test : (s t : String) (b : Bool) → (b ≡ true → s ≡ t) → (s ≡ t → b ≡ true) → Dec (s ≡ t)
dec_of_test s t true f g = yes (f refl)
dec_of_test s t false f g = no (λ p. cc (g p))

unfoldable pub String_discrete : (s t : String) → Dec (s ≡ t)
unfolding dec_of_test
String_discrete s t = dec_of_test s t (str_eq s t) (eq_iff s t).0 (eq_iff s t).1

unfoldable pub Option_discrete : {A : Type 0} → Discrete A → Discrete (Option A)
Option_discrete d = hlevel d

instance abbrev pub nat_eq : Eq ℕ
nat_eq = record { dec = ℕ_discrete }

instance abbrev pub string_eq : Eq String
string_eq = record { dec = String_discrete }

unfoldable pub Bool_discrete : Discrete Bool
Bool_discrete = hlevel

instance abbrev pub bool_eq : Eq Bool
bool_eq = record { dec = Bool_discrete }

instance abbrev pub option_eq : {A : Type 0} ⦃e : Eq A⦄ → Eq (Option A)
option_eq ⦃e⦄ = record { dec = Option_discrete e.dec }

module _ {ℓ} {A : Type ℓ} ⦃e : Eq A⦄ where
  pub ==_refl : (a : A) → (a == a) ≡ true
  ==_refl a = ground arith

  pub ==_sound : (a b : A) → (a == b) ≡ true → a ≡ b
  ==_sound a b h = ground arith
