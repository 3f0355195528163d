-- ===== src/Effect/Calls.antt =====
-- One constructor for each method that the operator calls: of `authentik.Client`
-- (internal/authentik/interface.go), of the Kubernetes client, and of the clock and the recorder.
use authentik_operator.Prelude.{ℕ, String, List}
use authentik_operator.Prelude.Int.{ℤ}
use authentik_operator.Api.{AuthentikApplication, AuthentikApplicationStatus, Reason}
use authentik_operator.Models.{
  Application, ProxyProvider, OAuth2Provider, PolicyBinding, Outpost, Named, User, ScopeMapping,
  ObjectPermission, RoleAssignment, ApplicationRequest, PatchedApplicationRequest,
  ProxyProviderRequest, PatchedProxyProviderRequest, OAuth2ProviderRequest,
  PatchedOAuth2ProviderRequest, PolicyBindingRequest, PatchedPolicyBindingRequest,
}

pub data EventKind : Type 0 where
  created recreated deleted adopted : EventKind
  condition : Reason → EventKind

-- the data of a Secret by key
abbrev pub Secret : Type 0
Secret = List (String × String)

pub data Call : Type 0 where
  get_application delete_application : String → Call
  create_application : ApplicationRequest → Call
  patch_application : String → PatchedApplicationRequest → Call
  get_proxy_provider get_oauth2_provider delete_proxy_provider delete_oauth2_provider : ℤ → Call
  find_proxy_providers_by_name find_oauth2_providers_by_name : String → Call
  create_proxy_provider : ProxyProviderRequest → Call
  patch_proxy_provider : ℤ → PatchedProxyProviderRequest → Call
  create_oauth2_provider : OAuth2ProviderRequest → Call
  patch_oauth2_provider : ℤ → PatchedOAuth2ProviderRequest → Call
  list_policy_bindings delete_policy_binding : String → Call
  create_policy_binding : PolicyBindingRequest → Call
  patch_policy_binding : String → PatchedPolicyBindingRequest → Call
  get_outpost find_outposts_by_name : String → Call
  set_outpost_providers : String → List ℤ → Call
  find_roles_by_name create_role list_role_object_permissions : String → Call
  assign_object_permission unassign_object_permission : String → String → String → String → Call
  list_object_permission_roles : String → String → Call
  get_group find_groups_by_name get_policy find_policies_by_name : String → Call
  get_flow find_flows_by_slug : String → Call
  get_certificate_key_pair find_certificate_key_pairs_by_name : String → Call
  get_scope_mapping find_scope_mappings_by_scope_name : String → Call
  get_user : ℤ → Call
  find_users_by_username : String → Call
  list_resources_with_slug : String → Call
  list_resources : Call
  get_resource : String → String → Call
  list_resources_of_secret : String → String → Call
  get_secret : String → String → Call
  create_secret : String → String → Secret → Call
  patch_finalizers : List String → Call
  write_status : AuthentikApplicationStatus → Call
  record_event : EventKind → Call
  now : Call

-- what a call answers when it succeeds
abbrev pub Answer : Call → Type 0
Answer (get_application _) = Application
Answer (create_application _) = Application
Answer (patch_application _ _) = Application
Answer (get_proxy_provider _) = ProxyProvider
Answer (get_oauth2_provider _) = OAuth2Provider
Answer (find_proxy_providers_by_name _) = List ProxyProvider
Answer (find_oauth2_providers_by_name _) = List OAuth2Provider
Answer (create_proxy_provider _) = ProxyProvider
Answer (patch_proxy_provider _ _) = ProxyProvider
Answer (create_oauth2_provider _) = OAuth2Provider
Answer (patch_oauth2_provider _ _) = OAuth2Provider
Answer (list_policy_bindings _) = List PolicyBinding
Answer (create_policy_binding _) = PolicyBinding
Answer (patch_policy_binding _ _) = PolicyBinding
Answer (get_outpost _) = Outpost
Answer (find_outposts_by_name _) = List Outpost
Answer (set_outpost_providers _ _) = Outpost
Answer (find_roles_by_name _) = List Named
Answer (create_role _) = Named
Answer (list_role_object_permissions _) = List ObjectPermission
Answer (list_object_permission_roles _ _) = List RoleAssignment
Answer (get_group _) = Named
Answer (find_groups_by_name _) = List Named
Answer (get_policy _) = Named
Answer (find_policies_by_name _) = List Named
Answer (get_flow _) = Named
Answer (find_flows_by_slug _) = List Named
Answer (get_certificate_key_pair _) = Named
Answer (find_certificate_key_pairs_by_name _) = List Named
Answer (get_scope_mapping _) = ScopeMapping
Answer (find_scope_mappings_by_scope_name _) = List ScopeMapping
Answer (get_user _) = User
Answer (find_users_by_username _) = List User
Answer (list_resources_with_slug _) = List AuthentikApplication
Answer list_resources = List AuthentikApplication
Answer (get_resource _ _) = AuthentikApplication
Answer (list_resources_of_secret _ _) = List AuthentikApplication
Answer (get_secret _ _) = Secret
Answer now = ℕ
Answer _ = Unit
