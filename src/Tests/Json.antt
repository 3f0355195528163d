-- ===== src/Tests/Json.antt =====
-- The JSON of an Application and of its PATCH request, for the tests: a field that is nil is left
-- out.
use authentik_operator.Prelude.{List, String, Option, ◌∷◌, some, none, []}
use authentik_operator.Models.{PolicyEngineMode, Application, PatchedApplicationRequest}
use authentik_operator.Models.Json.{
  JsonModel, Json, Fields, end_map, text, patched_application, boolean, field, application,
}

abbrev pub Entries : Type 0
Entries = List (String × Option Json)

unfoldable pub build : Entries → Fields
build [] = end_map
build ((key, none) ∷ rest) = build rest
build ((key, some value) ∷ rest) = field key value (build rest)

abbrev pub written : {V : Type 0} → (V → Json) → Option V → Option Json
written encode none = none
written encode (some v) = some (encode v)

abbrev pub mode_text : PolicyEngineMode → Json
mode_text PolicyEngineMode.all = text "all"
mode_text PolicyEngineMode.any = text "any"

abbrev pub patch_entries : PatchedApplicationRequest → Entries
patch_entries p =
    ("group", written text p.group)
    ∷ ("meta_description", written text p.meta_description)
    ∷ ("meta_hide", written boolean p.meta_hide)
    ∷ ("meta_icon", written text p.meta_icon)
    ∷ ("meta_launch_url", written text p.meta_launch_url)
    ∷ ("meta_publisher", written text p.meta_publisher)
    ∷ ("name", written text p.name)
    ∷ ("open_in_new_tab", written boolean p.open_in_new_tab)
    ∷ ("policy_engine_mode", written mode_text p.policy_engine_mode)
    ∷ ("slug", written text p.slug)
    ∷ []

abbrev pub application_entries : Application → Entries
application_entries o =
    ("group", written text o.group)
    ∷ ("meta_description", written text o.meta_description)
    ∷ ("meta_hide", written boolean o.meta_hide)
    ∷ ("meta_icon", written text o.meta_icon)
    ∷ ("meta_launch_url", written text o.meta_launch_url)
    ∷ ("meta_publisher", written text o.meta_publisher)
    ∷ ("name", some (text o.name))
    ∷ ("open_in_new_tab", written boolean o.open_in_new_tab)
    ∷ ("pk", some (text o.pk))
    ∷ ("policy_engine_mode", written mode_text o.policy_engine_mode)
    ∷ ("slug", some (text o.slug))
    ∷ []

abbrev pub fields_of : JsonModel → Option Fields
fields_of (patched_application patch) = some (build (patch_entries patch))
fields_of (application observed) = some (build (application_entries observed))
fields_of _ = none
