-- ===== src/Tests/Written.antt =====
-- The JSON of the tests is written as encoding/json and the models of client-go write it.
use authentik_operator.Prelude.{
  [], ◌∷◌, none, some, Bool-cases, if◌then◌else◌, arith, not, ◌==◌, ◌&&◌, inl, inr,
}
use authentik_operator.Controller.FieldDiffs.Shown.{HasField, Writes}
use authentik_operator.Tests.Services.{services}
use authentik_operator.Controller.Adoption.Match.{WritesApplication}
use authentik_operator.Models.{PolicyEngineMode, PatchedApplicationRequest, Application}
use authentik_operator.Models.Json.{json_eq, text, boolean, Json, null, application}
use authentik_operator.Prelude.{
  String, Bool, String_discrete, true, ◌≡◌, Option, some, get_or, refl, none, ==_sound, string_eq,
  bool_eq, false, ◌∙◌, ap,
}
use authentik_operator.Controller.FieldDiffs.{get_field, to_fields}
use authentik_operator.Tests.Json.{
  build, Entries, mode_text, patch_entries, written, application_entries,
}

find : String → Entries → Option Json
find key [] = none
find key ((name, value) ∷ rest) = if name == key then value else find key rest

lacks : String → Entries → Bool
lacks key [] = true
lacks key ((name, value) ∷ rest) = not (name == key) && lacks key rest

-- The key stands at most once.
once : String → Entries → Bool
unfolding lacks
once key [] = true
once key ((name, value) ∷ rest) = if name == key then lacks key rest else once key rest

build-lacks : (key : String) (es : Entries) → lacks key es ≡ true → get_field key (build es) ≡ null
unfolding build lacks get_field
build-lacks key [] h = refl
build-lacks key ((name, none) ∷ rest) h = build-lacks key rest (ground arith)
build-lacks key ((name, some value) ∷ rest) h = ground (arith, build-lacks key rest (ground arith))

build-find :
    (key : String) (es : Entries)
    → once key es ≡ true
    → get_field key (build es) ≡ get_or (find key es) null
unfolding build once find get_field
build-find key [] h = refl
build-find key ((name, none) ∷ rest) h = elim (Bool-cases (name == key)) [
  | inl same ↦ rw same (build-lacks key rest (rw same at h))
  | inr other ↦ rw other (build-find key rest (rw other at h))
]
build-find key ((name, some value) ∷ rest) h = elim (Bool-cases (name == key)) [
  | inl same ↦ rw same refl
  | inr other ↦ rw other (build-find key rest (rw other at h))
]

find-HasField :
    (key : String) (es : Entries) (v : Json) → find key es ≡ some v → HasField key v (build es)
unfolding build find
find-HasField key [] v h = absurd cc
find-HasField key ((name, none) ∷ rest) v h = elim (Bool-cases (name == key)) [
  | inl same ↦ absurd (let nothing = rw same at h in cc)
  | inr other ↦ find-HasField key rest v (rw other at h)
]
find-HasField key ((name, some value) ∷ rest) v h = elim (Bool-cases (name == key)) [
  | inl same ↦ inl (==_sound name key same, let found = rw same at h in cc)
  | inr other ↦ inr (find-HasField key rest v (rw other at h))
]

module _ {V : Type 0} (key : String) (sent : PatchedApplicationRequest → Option V)
    (held : Application → Option V) (encode : V → Json)
    (separate : (v w : V) → json_eq (encode v) (encode w) ≡ true → v ≡ w)
    (apparent : (v : V) → json_eq (encode v) null ≡ false)
    (in_patch : (p : PatchedApplicationRequest)
      → find key (patch_entries p) ≡ written encode (sent p))
    (in_application : (o : Application)
      → find key (application_entries o) ≡ written encode (held o))
    (alone : (o : Application) → once key (application_entries o) ≡ true) where
  read :
      (o : Application) (x : Option V)
      → held o ≡ x
      → get_field key (to_fields (application o) services) ≡ get_or (written encode x) null
  unfolding to_fields
  read o x e =
      build-find key (application_entries o) (alone o)
      ∙ ap (λ y. get_or y null) (in_application o ∙ ap (written encode) e)

  writes : Writes services key sent held
  unfolding to_fields
  writes = record {
    encode = encode;
    separate = separate;
    apparent = apparent;
    sends = λ p v e.
        find-HasField key (patch_entries p) (encode v) (in_patch p ∙ ap (written encode) e);
    holds = λ o v e. read o (some v) e;
    absent = λ o e. read o none e;
  }

text_separate : (v w : String) → json_eq (text v) (text w) ≡ true → v ≡ w
unfolding json_eq
text_separate v w h = ==_sound v w h

boolean_separate : (v w : Bool) → json_eq (boolean v) (boolean w) ≡ true → v ≡ w
unfolding json_eq
boolean_separate v w h = ==_sound v w h

mode_separate : (v w : PolicyEngineMode) → json_eq (mode_text v) (mode_text w) ≡ true → v ≡ w
unfolding json_eq String_discrete
mode_separate PolicyEngineMode.all PolicyEngineMode.all h = refl
mode_separate PolicyEngineMode.all PolicyEngineMode.any h = absurd cc
mode_separate PolicyEngineMode.any PolicyEngineMode.all h = absurd cc
mode_separate PolicyEngineMode.any PolicyEngineMode.any h = refl

mode_apparent : (v : PolicyEngineMode) → json_eq (mode_text v) null ≡ false
unfolding json_eq
mode_apparent PolicyEngineMode.all = refl
mode_apparent PolicyEngineMode.any = refl

pub written_application : WritesApplication services
unfolding find once lacks json_eq String_discrete
written_application = record {
  name = writes "name" _ _ text text_separate (λ v. refl) (λ p. refl) (λ o. refl) (λ o. refl);
  open_in_new_tab =
      writes "open_in_new_tab" _ _ boolean boolean_separate (λ v. refl) (λ p. refl) (λ o. refl)
        (λ o. refl);
  meta_launch_url =
      writes "meta_launch_url" _ _ text text_separate (λ v. refl) (λ p. refl) (λ o. refl)
        (λ o. refl);
  meta_icon =
      writes "meta_icon" _ _ text text_separate (λ v. refl) (λ p. refl) (λ o. refl) (λ o. refl);
  meta_description =
      writes "meta_description" _ _ text text_separate (λ v. refl) (λ p. refl) (λ o. refl)
        (λ o. refl);
  meta_publisher =
      writes "meta_publisher" _ _ text text_separate (λ v. refl) (λ p. refl) (λ o. refl)
        (λ o. refl);
  policy_engine_mode =
      writes "policy_engine_mode" _ _ mode_text mode_separate mode_apparent (λ p. refl) (λ o. refl)
        (λ o. refl);
  group = writes "group" _ _ text text_separate (λ v. refl) (λ p. refl) (λ o. refl) (λ o. refl);
  meta_hide =
      writes "meta_hide" _ _ boolean boolean_separate (λ v. refl) (λ p. refl) (λ o. refl)
        (λ o. refl);
}
