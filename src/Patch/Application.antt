-- ===== src/Patch/Application.antt =====
-- `DiffApplication` of internal/authentik/patch.go. `none` is the result `nil, false`.
pub mod Laws
use authentik_operator.Prelude.{string_eq, bool_eq}
use authentik_operator.Prelude.Int.{int_eq}
use authentik_operator.Models.{policy_engine_mode_eq}
use authentik_operator.Prelude.{Bool, ◌||◌, Option, none, some, is_some, if◌then◌else◌}
use authentik_operator.Models.{Application, PatchedApplicationRequest}
use authentik_operator.Patch.Fields.{diff_value, diff_pointer, diff_nullable}

-- the struct literal
unfoldable pub application_patch :
    PatchedApplicationRequest → Application → PatchedApplicationRequest
application_patch desired observed = record {
  name = diff_value desired.name observed.name;
  slug = diff_value desired.slug observed.slug;
  provider = diff_nullable desired.provider observed.provider;
  open_in_new_tab = diff_pointer desired.open_in_new_tab observed.open_in_new_tab;
  meta_launch_url = diff_pointer desired.meta_launch_url observed.meta_launch_url;
  meta_icon = diff_pointer desired.meta_icon observed.meta_icon;
  meta_description = diff_pointer desired.meta_description observed.meta_description;
  meta_publisher = diff_pointer desired.meta_publisher observed.meta_publisher;
  policy_engine_mode = diff_pointer desired.policy_engine_mode observed.policy_engine_mode;
  group = diff_pointer desired.group observed.group;
  meta_hide = diff_pointer desired.meta_hide observed.meta_hide;
}

unfoldable pub application_changed : PatchedApplicationRequest → Bool
application_changed patch =
    is_some patch.name
    || is_some patch.slug
    || is_some patch.provider
    || is_some patch.open_in_new_tab
    || is_some patch.meta_launch_url
    || is_some patch.meta_icon
    || is_some patch.meta_description
    || is_some patch.meta_publisher
    || is_some patch.policy_engine_mode
    || is_some patch.group
    || is_some patch.meta_hide

unfoldable pub diff_application :
    PatchedApplicationRequest → Application → Option PatchedApplicationRequest
unfolding application_patch application_changed
diff_application desired observed =
    let patch = application_patch desired observed in
    if application_changed patch then some patch else none
