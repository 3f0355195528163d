-- ===== src/Patch/Application/Laws.antt =====
-- The Application diff is empty exactly on a match, and one partial update reaches a match.
use authentik_operator.Prelude.{string_eq, bool_eq}
use authentik_operator.Prelude.Int.{int_eq}
use authentik_operator.Models.{policy_engine_mode_eq}
use authentik_operator.Prelude.{arith, ◌≡◌, ◌↔◌, false, none, some, get_or, or_else}
use authentik_operator.Models.{Application, PatchedApplicationRequest, get}
use authentik_operator.Patch.Fields.Laws.{
  AgreesValue, AgreesPointer, AgreesNullable, diff_value_iff, diff_pointer_iff, diff_nullable_iff,
  AgreesValue-patched, AgreesPointer-patched, AgreesNullable-patched,
}
use authentik_operator.Patch.Application.{application_patch, application_changed, diff_application}

-- Every managed field of the Application has the desired value.
pub record MatchesApplication (d : PatchedApplicationRequest) (o : Application) : Type 0 where
  pub name : AgreesValue d.name o.name
  pub slug : AgreesValue d.slug o.slug
  pub provider : AgreesNullable d.provider o.provider
  pub open_in_new_tab : AgreesPointer d.open_in_new_tab o.open_in_new_tab
  pub meta_launch_url : AgreesPointer d.meta_launch_url o.meta_launch_url
  pub meta_icon : AgreesPointer d.meta_icon o.meta_icon
  pub meta_description : AgreesPointer d.meta_description o.meta_description
  pub meta_publisher : AgreesPointer d.meta_publisher o.meta_publisher
  pub policy_engine_mode : AgreesPointer d.policy_engine_mode o.policy_engine_mode
  pub group : AgreesPointer d.group o.group
  pub meta_hide : AgreesPointer d.meta_hide o.meta_hide

-- What a PATCH with the body `p` does: the fields that are sent are set, the others are kept.
pub record PatchesApplication (p : PatchedApplicationRequest) (o n : Application) : Type 0 where
  pub name : n.name ≡ get_or p.name o.name
  pub slug : n.slug ≡ get_or p.slug o.slug
  pub provider : get n.provider ≡ get_or p.provider (get o.provider)
  pub open_in_new_tab : n.open_in_new_tab ≡ or_else p.open_in_new_tab o.open_in_new_tab
  pub meta_launch_url : n.meta_launch_url ≡ or_else p.meta_launch_url o.meta_launch_url
  pub meta_icon : n.meta_icon ≡ or_else p.meta_icon o.meta_icon
  pub meta_description : n.meta_description ≡ or_else p.meta_description o.meta_description
  pub meta_publisher : n.meta_publisher ≡ or_else p.meta_publisher o.meta_publisher
  pub policy_engine_mode : n.policy_engine_mode ≡ or_else p.policy_engine_mode o.policy_engine_mode
  pub group : n.group ≡ or_else p.group o.group
  pub meta_hide : n.meta_hide ≡ or_else p.meta_hide o.meta_hide

unchanged :
    (p : PatchedApplicationRequest)
    → application_changed p ≡ false
    → (p.name ≡ none)
      × (p.slug ≡ none)
      × (p.provider ≡ none)
      × (p.open_in_new_tab ≡ none)
      × (p.meta_launch_url ≡ none)
      × (p.meta_icon ≡ none)
      × (p.meta_description ≡ none)
      × (p.meta_publisher ≡ none)
      × (p.policy_engine_mode ≡ none)
      × (p.group ≡ none)
      × (p.meta_hide ≡ none)
unfolding application_changed
unchanged p h = ground arith

still :
    (d : PatchedApplicationRequest) (o : Application)
    → diff_application d o ≡ none
    → application_changed (application_patch d o) ≡ false
unfolding diff_application
still d o h = ground arith

pub diff_application_sound :
    (d : PatchedApplicationRequest) (o : Application)
    → diff_application d o ≡ none
    → MatchesApplication d o
unfolding application_patch
diff_application_sound d o h =
    let u = unchanged (application_patch d o) (still d o h) in
    record {
      name = (diff_value_iff d.name o.name).0 u.0;
      slug = (diff_value_iff d.slug o.slug).0 u.1;
      provider = (diff_nullable_iff d.provider o.provider).0 u.2;
      open_in_new_tab = (diff_pointer_iff d.open_in_new_tab o.open_in_new_tab).0 u.3;
      meta_launch_url = (diff_pointer_iff d.meta_launch_url o.meta_launch_url).0 u.4;
      meta_icon = (diff_pointer_iff d.meta_icon o.meta_icon).0 u.5;
      meta_description = (diff_pointer_iff d.meta_description o.meta_description).0 u.6;
      meta_publisher = (diff_pointer_iff d.meta_publisher o.meta_publisher).0 u.7;
      policy_engine_mode = (diff_pointer_iff d.policy_engine_mode o.policy_engine_mode).0 u.8;
      group = (diff_pointer_iff d.group o.group).0 u.9;
      meta_hide = (diff_pointer_iff d.meta_hide o.meta_hide).0 u.10;
    }

pub diff_application_complete :
    (d : PatchedApplicationRequest) (o : Application)
    → MatchesApplication d o
    → diff_application d o ≡ none
unfolding diff_application
diff_application_complete d o m = ground (
  arith,
  (diff_value_iff d.name o.name).1 m.name,
  (diff_value_iff d.slug o.slug).1 m.slug,
  (diff_nullable_iff d.provider o.provider).1 m.provider,
  (diff_pointer_iff d.open_in_new_tab o.open_in_new_tab).1 m.open_in_new_tab,
  (diff_pointer_iff d.meta_launch_url o.meta_launch_url).1 m.meta_launch_url,
  (diff_pointer_iff d.meta_icon o.meta_icon).1 m.meta_icon,
  (diff_pointer_iff d.meta_description o.meta_description).1 m.meta_description,
  (diff_pointer_iff d.meta_publisher o.meta_publisher).1 m.meta_publisher,
  (diff_pointer_iff d.policy_engine_mode o.policy_engine_mode).1 m.policy_engine_mode,
  (diff_pointer_iff d.group o.group).1 m.group,
  (diff_pointer_iff d.meta_hide o.meta_hide).1 m.meta_hide,
)

-- The diff of an Application is empty exactly when every managed field has the desired value.
pub diff_application_iff :
    (d : PatchedApplicationRequest) (o : Application)
    → (diff_application d o ≡ none) ↔ MatchesApplication d o
diff_application_iff d o = (diff_application_sound d o, diff_application_complete d o)

pub sent :
    (d p : PatchedApplicationRequest) (o : Application)
    → diff_application d o ≡ some p
    → application_patch d o ≡ p
unfolding diff_application
sent d p o h = ground arith

patched :
    (d : PatchedApplicationRequest) (o n : Application)
    → PatchesApplication (application_patch d o) o n
    → MatchesApplication d n
patched d o n u = record {
  name = AgreesValue-patched d.name o.name n.name (unfold application_patch in u.name);
  slug = AgreesValue-patched d.slug o.slug n.slug (unfold application_patch in u.slug);
  provider =
      AgreesNullable-patched d.provider o.provider n.provider
        (unfold application_patch in u.provider);
  open_in_new_tab =
      AgreesPointer-patched d.open_in_new_tab o.open_in_new_tab n.open_in_new_tab
        (unfold application_patch in u.open_in_new_tab);
  meta_launch_url =
      AgreesPointer-patched d.meta_launch_url o.meta_launch_url n.meta_launch_url
        (unfold application_patch in u.meta_launch_url);
  meta_icon =
      AgreesPointer-patched d.meta_icon o.meta_icon n.meta_icon
        (unfold application_patch in u.meta_icon);
  meta_description =
      AgreesPointer-patched d.meta_description o.meta_description n.meta_description
        (unfold application_patch in u.meta_description);
  meta_publisher =
      AgreesPointer-patched d.meta_publisher o.meta_publisher n.meta_publisher
        (unfold application_patch in u.meta_publisher);
  policy_engine_mode =
      AgreesPointer-patched d.policy_engine_mode o.policy_engine_mode n.policy_engine_mode
        (unfold application_patch in u.policy_engine_mode);
  group = AgreesPointer-patched d.group o.group n.group (unfold application_patch in u.group);
  meta_hide =
      AgreesPointer-patched d.meta_hide o.meta_hide n.meta_hide
        (unfold application_patch in u.meta_hide);
}

-- One partial update of an Application with the body of its diff leaves nothing to send.
pub diff_application-converges :
    (d p : PatchedApplicationRequest) (o n : Application)
    → diff_application d o ≡ some p
    → PatchesApplication p o n
    → diff_application d n ≡ none
diff_application-converges d p o n h u =
    diff_application_complete d n (patched d o n (rw (sent d p o h) u))
