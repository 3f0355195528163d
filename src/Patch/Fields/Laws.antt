-- ===== src/Patch/Fields/Laws.antt =====
-- What a field of the diff says of the desired and the observed value.
use authentik_operator.Prelude.{arith, ◌≡◌, refl, ◌∙◌, or_else, ◌↔◌, Option, none, some, Eq, get_or}
use authentik_operator.Models.{Nullable, get}
use authentik_operator.Patch.Fields.{first_non_nil, diff_value, diff_pointer, diff_nullable}

module _ {A : Type 0} where
  -- A managed field has the desired value; the three ways in which an observed field is held.
  abbrev pub AgreesValue : Option A → A → Type 0
  AgreesValue desired observed = (v : A) → desired ≡ some v → observed ≡ v

  abbrev pub AgreesPointer : Option A → Option A → Type 0
  AgreesPointer desired observed = (v : A) → desired ≡ some v → observed ≡ some v

  abbrev pub AgreesNullable : Nullable A → Nullable A → Type 0
  AgreesNullable desired observed = (v : Option A) → desired ≡ some v → get observed ≡ v

module _ {A : Type 0} ⦃e : Eq A⦄ where
  pub diff_value_iff : (d : Option A) (o : A) → (diff_value d o ≡ none) ↔ AgreesValue d o
  unfolding diff_value
  diff_value_iff none o = (λ _ v p. cc, λ _. refl)
  diff_value_iff (some d) o = (λ h v p. ground arith, λ h. ground (arith, h d refl))

  pub diff_pointer_iff : (d o : Option A) → (diff_pointer d o ≡ none) ↔ AgreesPointer d o
  unfolding diff_pointer
  diff_pointer_iff none o = (λ _ v p. cc, λ _. refl)
  diff_pointer_iff (some d) o = (λ h v p. ground arith, λ h. ground (arith, h d refl))

  pub diff_nullable_iff : (d o : Nullable A) → (diff_nullable d o ≡ none) ↔ AgreesNullable d o
  unfolding diff_nullable
  diff_nullable_iff none o = (λ _ v p. cc, λ _. refl)
  diff_nullable_iff (some d) o = (λ h v p. ground arith, λ h. ground (arith, h d refl))

  -- A field that was sent is the desired one.
  pub diff_value-eq-some :
      (d : Option A) (o v : A) → diff_value d o ≡ some v → (d ≡ some v) × (o ≡ v → ⊥)
  unfolding diff_value
  diff_value-eq-some d o v h = ground arith

  -- The value that the field of the diff leads to.
  AgreesValue-update : (d : Option A) (o : A) → AgreesValue d (get_or (diff_value d o) o)
  unfolding diff_value
  AgreesValue-update d o v p = ground arith

  -- A partial update with the field of the diff leaves the managed value in the object.
  pub AgreesValue-patched :
      (d : Option A) (o n : A) → n ≡ get_or (diff_value d o) o → AgreesValue d n
  AgreesValue-patched d o n h v p = h ∙ AgreesValue-update d o v p

  pub AgreesPointer-patched :
      (d o n : Option A) → n ≡ or_else (diff_pointer d o) o → AgreesPointer d n
  unfolding diff_pointer
  AgreesPointer-patched d o n h v p = ground arith

  pub AgreesNullable-patched :
      (d o n : Nullable A) → get n ≡ get_or (diff_nullable d o) (get o) → AgreesNullable d n
  unfolding diff_nullable
  AgreesNullable-patched d o n h v p = ground arith

  -- Where the desired value is sent whether or not it differs, it is there afterwards.
  pub AgreesPointer-first :
      (d o n : Option A) → n ≡ or_else (first_non_nil d o) o → AgreesPointer d n
  unfolding first_non_nil
  AgreesPointer-first d o n h v p = ground arith

  pub AgreesValue-first :
      (d : Option A) (o n : A) → n ≡ get_or (first_non_nil d (some o)) o → AgreesValue d n
  unfolding first_non_nil
  AgreesValue-first d o n h v p = ground arith
