-- ===== src/Controller/Adoption/Match.antt =====
-- `adopt: IfMatch` of internal/controller/adoption.go.
use authentik_operator.Models.{policy_engine_mode_eq}
use authentik_operator.Prelude.Int.{int_eq}
use authentik_operator.Patch.Fields.Laws.{
  AgreesPointer, diff_value_iff, diff_pointer_iff, diff_nullable_iff,
}
use authentik_operator.Patch.Fields.{diff_pointer, diff_value, diff_nullable}
use authentik_operator.Controller.FieldDiffs.Shown.{Writes, sent-held}
use mathlib.Core.Path.{subst}
use authentik_operator.Patch.Application.Laws.{MatchesApplication, diff_application_iff, sent}
use authentik_operator.Effect.Yields.{ok-inj}
use authentik_operator.Controller.FieldDiffs.Tables.{application_field_paths}
use authentik_operator.Models.Json.{patched_application}
use authentik_operator.Controller.FieldDiffs.{to_fields, field_diffs, diffs_of}
use authentik_operator.Controller.FieldDiffs.Laws.{Agrees, diffs_of_iff}
use authentik_operator.Effect.Inversion.{>>=-eq-ok}
use authentik_operator.Desired.Application.{desired_application}
use authentik_operator.Patch.Application.{diff_application, application_patch}
use authentik_operator.Models.{Application, PatchedApplicationRequest}
use authentik_operator.Effect.{Env, State, ok, modify, raise, ◌>>=◌, asks}
use authentik_operator.Reference.{Resolved}
use authentik_operator.Api.{AuthentikApplication, FieldDiff, if_match, AuthentikApplicationSpec}
use authentik_operator.Prelude.{
  List, ◌≡◌, [], ◌∷◌, none, some, ◌++◌, refl, sym, ◌∙◌, Option, Eq, arith, string_eq, bool_eq,
}
use authentik_operator.Models.Json.{application, patched_application}
use authentik_operator.Controller.Adoption.{
  refuse_diffs, adopt_by, require_match, application_diffs, patch_diffs,
}

-- the diffs that an adoption saw are none
pub refuse_diffs-none :
    (diffs : List FieldDiff) (env : Env) (s : State)
    → (refuse_diffs diffs env s).0 ≡ ok tt
    → diffs ≡ []
unfolding refuse_diffs ◌>>=◌ modify raise
refuse_diffs-none [] env s h = refl
refuse_diffs-none (diff ∷ diffs) env s h = absurd cc

append_empty : {A : Type 0} (xs ys : List A) → xs ++ ys ≡ [] → xs ≡ []
append_empty [] ys h = refl
append_empty (x ∷ xs) ys h = absurd cc

application_diffs-patch :
    (spec : AuthentikApplicationSpec) (observed : Application) (patch : PatchedApplicationRequest)
    (env : Env) (s : State)
    → diff_application (desired_application spec none) observed ≡ some patch
    → (application_diffs spec observed env s).0
      ≡ ok (
          diffs_of env.json_text application_field_paths
            (to_fields (patched_application patch) env)
            (to_fields (application observed) env))
unfolding application_diffs patch_diffs field_diffs asks
application_diffs-patch spec observed patch env s d = rw d refl

adopt_by-Agrees :
    (app : AuthentikApplication) (resolved : Resolved) (observed : Application)
    (patch : PatchedApplicationRequest) (env : Env) (s : State)
    → diff_application (desired_application app.spec none) observed ≡ some patch
    → (adopt_by if_match app resolved observed env s).0 ≡ ok tt
    → Agrees (to_fields (patched_application patch) env) (to_fields (application observed) env)
unfolding adopt_by require_match
adopt_by-Agrees app resolved observed patch env s d h =
    let (found, p0, h1, t1) = >>=-eq-ok _ _ env s tt h in
    let (u, p1, h2, t2) = >>=-eq-ok _ _ env _ tt h1 in
    let (ours, p2, h3, t3) = >>=-eq-ok _ _ env _ tt p1 in
    let (theirs, p3, h4, t4) = >>=-eq-ok _ _ env _ tt h3 in
    let same = ok-inj (sym p2 ∙ application_diffs-patch app.spec observed patch env _ d) in
    (diffs_of_iff env.json_text application_field_paths _ _).0
      (sym same ∙ append_empty ours theirs (refuse_diffs-none _ env _ h4))

-- How encoding/json and client-go write the fields of an Application that a spec manages.
pub record WritesApplication (env : Env) : Type 0 where
  pub name : Writes env "name" (λ p. p.name) (λ o. some o.name)
  pub open_in_new_tab :
      Writes env "open_in_new_tab" (λ p. p.open_in_new_tab) (λ o. o.open_in_new_tab)
  pub meta_launch_url :
      Writes env "meta_launch_url" (λ p. p.meta_launch_url) (λ o. o.meta_launch_url)
  pub meta_icon : Writes env "meta_icon" (λ p. p.meta_icon) (λ o. o.meta_icon)
  pub meta_description :
      Writes env "meta_description" (λ p. p.meta_description) (λ o. o.meta_description)
  pub meta_publisher : Writes env "meta_publisher" (λ p. p.meta_publisher) (λ o. o.meta_publisher)
  pub policy_engine_mode :
      Writes env "policy_engine_mode" (λ p. p.policy_engine_mode) (λ o. o.policy_engine_mode)
  pub group : Writes env "group" (λ p. p.group) (λ o. o.group)
  pub meta_hide : Writes env "meta_hide" (λ p. p.meta_hide) (λ o. o.meta_hide)

nothing : {A : Type 0} (x : Option A) → ((v : A) → x ≡ some v → ⊥) → x ≡ none
nothing none h = refl
nothing (some v) h = absurd (h v refl)

module _ {A : Type 0} ⦃e : Eq A⦄ where
  diff_value-new : (d : Option A) (o v : A) → diff_value d o ≡ some v → some o ≡ some v → ⊥
  unfolding diff_value
  diff_value-new d o v h k = ground arith

  diff_pointer-new : (d o : Option A) (v : A) → diff_pointer d o ≡ some v → o ≡ some v → ⊥
  unfolding diff_pointer
  diff_pointer-new d o v h k = ground arith

  -- A pointer whose diff cannot be sent agrees.
  unsent_pointer :
      (d o : Option A) → ((v : A) → diff_pointer d o ≡ some v → o ≡ some v) → AgreesPointer d o
  unsent_pointer d o h =
      (diff_pointer_iff d o).0
        (nothing (diff_pointer d o) (λ v k. diff_pointer-new d o v k (h v k)))

module _ (env : Env) (w : WritesApplication env) (d : PatchedApplicationRequest) (o : Application)
    (slug : d.slug ≡ none) (provider : d.provider ≡ none)
    (h : Agrees
      (to_fields (patched_application (application_patch d o)) env)
      (to_fields (application o) env)) where
  unsent-MatchesApplication : MatchesApplication d o
  unfolding application_patch diff_value diff_nullable
  unsent-MatchesApplication = record {
    name = (diff_value_iff d.name o.name).0 (
        nothing (diff_value d.name o.name)
          (λ v k. diff_value-new d.name o.name v k (sent-held env w.name _ o h v k)));
    slug = (diff_value_iff d.slug o.slug).0 (rw slug refl);
    provider = (diff_nullable_iff d.provider o.provider).0 (rw provider refl);
    open_in_new_tab = unsent_pointer _ _ (sent-held env w.open_in_new_tab _ o h);
    meta_launch_url = unsent_pointer _ _ (sent-held env w.meta_launch_url _ o h);
    meta_icon = unsent_pointer _ _ (sent-held env w.meta_icon _ o h);
    meta_description = unsent_pointer _ _ (sent-held env w.meta_description _ o h);
    meta_publisher = unsent_pointer _ _ (sent-held env w.meta_publisher _ o h);
    policy_engine_mode = unsent_pointer _ _ (sent-held env w.policy_engine_mode _ o h);
    group = unsent_pointer _ _ (sent-held env w.group _ o h);
    meta_hide = unsent_pointer _ _ (sent-held env w.meta_hide _ o h);
  }

matched :
    (patch : Option PatchedApplicationRequest) (app : AuthentikApplication) (resolved : Resolved)
    (observed : Application) (env : Env) (s : State)
    → diff_application (desired_application app.spec none) observed ≡ patch
    → WritesApplication env
    → (adopt_by if_match app resolved observed env s).0 ≡ ok tt
    → MatchesApplication (desired_application app.spec none) observed
unfolding desired_application
matched none app resolved observed env s d writes h = (diff_application_iff _ observed).0 d
matched (some patch) app resolved observed env s d writes h =
    unsent-MatchesApplication env writes (desired_application app.spec none) observed refl refl (
      subst
        (λ p. Agrees (to_fields (patched_application p) env) (to_fields (application observed) env))
        (sym (sent _ patch observed d)) (adopt_by-Agrees app resolved observed patch env s d h))

-- When encoding/json and the models of client-go write a field that is set under its key as a
-- value that tells its value, and leave out one that is nil, an adoption with IfMatch that
-- succeeds has found every managed field of the Application at its desired value.
pub adopt_by-MatchesApplication :
    (app : AuthentikApplication) (resolved : Resolved) (observed : Application) (env : Env)
    (s : State)
    → WritesApplication env
    → (adopt_by if_match app resolved observed env s).0 ≡ ok tt
    → MatchesApplication (desired_application app.spec none) observed
adopt_by-MatchesApplication app resolved observed env s writes h =
    matched (diff_application (desired_application app.spec none) observed) app resolved observed
      env s refl writes h
