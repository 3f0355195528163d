-- ===== src/Tests/Services.antt =====
-- Services for the tests that answer reads, and a state of the operator.
use authentik_operator.Tests.Json.{fields_of}
use authentik_operator.Tests.Data.{app_observed, older, new_status, no_flows}
use authentik_operator.Models.{Outpost, Application, Named}
use authentik_operator.Effect.{
  Env, State, Object, Call, Result, Answer, get_group, ok, get_flow, find_flows_by_slug,
  find_outposts_by_name, get_application, list_resources_with_slug, write_status, err, other,
}
use authentik_operator.Api.{AuthentikApplication, ProviderSpec, ProxyProviderSpec}
use authentik_operator.Prelude.{List, String, none, [], some, ◌∷◌, false, true}

abbrev named : String → Named
named pk = record { pk = pk; name = pk }

abbrev embedded : Outpost
embedded = record { pk = "o1"; name = "authentik Embedded Outpost"; providers = [] }

-- an Application that has the name in the spec of the wiki
abbrev pub wiki_application : Application
wiki_application = record app_observed { name = "Wiki"; slug = "wiki" }

-- another resource with the slug, which manages it
abbrev pub managing : AuthentikApplication
managing = record older {
  uid = "u9";
  name = "managing";
  status = record new_status { application_pk = "a1" };
}

abbrev answers : List Call → (c : Call) → Result (Answer c)
answers t (get_group pk) = ok (named pk)
answers t (get_flow pk) = ok (named pk)
answers t (find_flows_by_slug slug) = ok (named slug ∷ [])
answers t (find_outposts_by_name name) = ok (embedded ∷ [])
answers t (get_application slug) = ok wiki_application
answers t (list_resources_with_slug slug) = ok (managing ∷ [])
answers t (write_status status) = ok tt
answers t _ = err (other "unavailable")

abbrev pub services : Env
services = record {
  answer = answers;
  clock = λ t. 5;
  spec_hash = λ spec. spec.slug;
  role_name = "authentik-operator-home";
  resync_interval = 10;
  find_condition = λ conditions type. none;
  put_condition = λ conditions c. c ∷ conditions;
  drop_condition = λ conditions type. conditions;
  same_status = λ a b. false;
  contains_finalizer = λ names name. true;
  add_finalizer = λ names name. (names, false);
  remove_finalizer = λ names name. [];
  json_fields = fields_of;
  json_text = λ j. "";
  set_owner = λ app name. ok tt;
}

-- the marked Application
abbrev pub marked_wiki : Object
marked_wiki = record { model = "authentik_core.application"; pk = "a1" }

abbrev pub fresh_state : State
fresh_state = record {
  trace = [];
  role_uuid = "r1";
  objects = some (marked_wiki ∷ []);
  fetched = 0;
  app = older;
  base = new_status;
  failures = [];
}

abbrev proxy_spec : ProxyProviderSpec
proxy_spec = record {
  proxy = none;
  forward_auth_single = some (record { external_host = "https://wiki.test" });
  forward_auth_domain = none;
  unauthenticated_paths = none;
  basic_auth = none;
  intercept_header_auth = none;
  access_token_validity = none;
  refresh_token_validity = none;
  certificate = none;
  outpost = none;
}

abbrev pub proxied : ProviderSpec
proxied = record { name = none; flows = no_flows; proxy = some proxy_spec; oauth2 = none }
