-- ===== src/Prelude/Tests.antt =====
-- Boolean tests on the native numbers, the conditional, and case splits that keep the equation.
use Prim.Native.Nat.{ℕ, compare, Ordering}
use mathlib.Core.Path.{◌≡◌, refl}
use mathlib.Core.Logic.{◌⊎◌, inl, inr}
use mathlib.Core.Bool.{Bool, true, false}
use mathlib.Core.Option.{Option, none, some}

abbrev pub ltb : ℕ → ℕ → Bool
ltb a b = elim (compare a b) [ Ordering.lt ↦ true | _ ↦ false ]

abbrev pub leb : ℕ → ℕ → Bool
leb a b = elim (compare a b) [ Ordering.gt ↦ false | _ ↦ true ]

infix 1 if◌then◌else◌
abbrev pub if◌then◌else◌ {ℓ} : {A : Type ℓ} → Bool → A → A → A
if true then x else y = x
if false then x else y = y

pub Bool-cases : (b : Bool) → (b ≡ true) ⊎ (b ≡ false)
Bool-cases true = inl refl
Bool-cases false = inr refl

pub Option-cases {ℓ} : {A : Type ℓ} (o : Option A) → (o ≡ none) ⊎ ((a : A) × (o ≡ some a))
Option-cases none = inl refl
Option-cases (some a) = inr (a, refl)

-- `p != nil`
abbrev pub is_some {ℓ} : {A : Type ℓ} → Option A → Bool
is_some none = false
is_some (some _) = true

pub is_some-eq-false {ℓ} : {A : Type ℓ} (o : Option A) → is_some o ≡ false → o ≡ none
is_some-eq-false none h = refl
is_some-eq-false (some a) h = cc

-- `cmp.Or` and a nil check with a default
abbrev pub get_or {ℓ} : {A : Type ℓ} → Option A → A → A
get_or none d = d
get_or (some a) d = a

-- the first of two optional values that is set
abbrev pub or_else {ℓ} : {A : Type ℓ} → Option A → Option A → Option A
or_else none b = b
or_else (some a) b = some a

pub some-inj {ℓ} : {A : Type ℓ} {a b : A} → some a ≡ some b → a ≡ b
some-inj p = cc

-- inversion of `if b then some x else none`
pub if_some {ℓ} : {A : Type ℓ} (b : Bool) {x y : A} → (if b then some x else none) ≡ some y → x ≡ y
if_some true h = some-inj h
if_some false h = cc

pub if_none {ℓ} : {A : Type ℓ} (b : Bool) (x : A) → (if b then some x else none) ≡ none → b ≡ false
if_none true x h = cc
if_none false x h = refl

pub get_or-some {ℓ} : {A : Type ℓ} (o : Option A) (d v : A) → o ≡ some v → get_or o d ≡ v
get_or-some none d v p = cc
get_or-some (some a) d v p = some-inj p

pub or_else-some {ℓ} : {A : Type ℓ} (a b : Option A) (v : A) → a ≡ some v → or_else a b ≡ some v
or_else-some none b v p = cc
or_else-some (some a) b v p = p
