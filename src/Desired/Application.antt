-- ===== src/Desired/Application.antt =====
-- The desired Application, and the request that creates it: internal/controller/desired.go.
pub mod Stable
use authentik_operator.Prelude.{String, Option, none, some, get_or}
use authentik_operator.Prelude.Int.{ℤ}
use authentik_operator.Api.{AccessMode, ProviderSpec, AuthentikApplicationSpec}
use authentik_operator.Models.{PolicyEngineMode, PatchedApplicationRequest, ApplicationRequest}

-- `mapEnum` with one of the tables below
unfoldable pub map_enum : {K V : Type 0} → (K → V) → Option K → Option V
map_enum table none = none
map_enum table (some value) = some (table value)

unfoldable pub policy_engine_modes : AccessMode → PolicyEngineMode
policy_engine_modes AccessMode.any = PolicyEngineMode.any
policy_engine_modes AccessMode.all = PolicyEngineMode.all

unfoldable pub desired_application : AuthentikApplicationSpec → Option ℤ → PatchedApplicationRequest
desired_application spec provider_pk = record {
  name = some spec.name;
  slug = none;
  provider = elim provider_pk [ none ↦ none | some pk ↦ some (some pk) ];
  open_in_new_tab = spec.open_in_new_tab;
  meta_launch_url = spec.launch_url;
  meta_icon = spec.icon;
  meta_description = spec.description;
  meta_publisher = spec.publisher;
  policy_engine_mode = map_enum policy_engine_modes spec.access.mode;
  group = spec.group;
  meta_hide = spec.hide_from_application_dashboard;
}

-- `*desired.Name`: the operator calls it with the result of `desiredApplication`, which sets a name
unfoldable pub create_application_request : String → PatchedApplicationRequest → ApplicationRequest
create_application_request slug desired = record {
  name = get_or desired.name "";
  slug = slug;
  provider = desired.provider;
  open_in_new_tab = desired.open_in_new_tab;
  meta_launch_url = desired.meta_launch_url;
  meta_icon = desired.meta_icon;
  meta_description = desired.meta_description;
  meta_publisher = desired.meta_publisher;
  policy_engine_mode = desired.policy_engine_mode;
  group = desired.group;
  meta_hide = desired.meta_hide;
}

-- `providerName`: the name in the provider of the spec, or else the slug
unfoldable pub provider_name : String → ProviderSpec → String
provider_name slug provider = get_or provider.name slug
