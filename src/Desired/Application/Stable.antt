-- ===== src/Desired/Application/Stable.antt =====
-- An Application that was created from the spec matches the spec: the next reconcile does not patch it.
use authentik_operator.Prelude.{◌≡◌, ◌∙◌, Option, none, some-inj}
use authentik_operator.Prelude.{string_eq, bool_eq}
use authentik_operator.Prelude.Int.{int_eq}
use authentik_operator.Models.{
  policy_engine_mode_eq, client_type_eq, grant_type_eq, sub_mode_eq, issuer_mode_eq,
  logout_method_eq, proxy_mode_eq,
}
use authentik_operator.Prelude.Int.{ℤ}
use authentik_operator.Api.{AuthentikApplicationSpec}
use authentik_operator.Models.{Application, ApplicationRequest}
use authentik_operator.Patch.Fields.Laws.{AgreesPointer, AgreesNullable}
use authentik_operator.Patch.Application.{diff_application}
use authentik_operator.Patch.Application.Laws.{diff_application_complete}
use authentik_operator.Desired.Application.{desired_application, create_application_request}

-- What a POST with the body `r` does: the object has the fields that were sent.
pub record StoresApplication (r : ApplicationRequest) (n : Application) : Type 0 where
  pub name : n.name ≡ r.name
  pub slug : n.slug ≡ r.slug
  pub provider : AgreesNullable r.provider n.provider
  pub open_in_new_tab : AgreesPointer r.open_in_new_tab n.open_in_new_tab
  pub meta_launch_url : AgreesPointer r.meta_launch_url n.meta_launch_url
  pub meta_icon : AgreesPointer r.meta_icon n.meta_icon
  pub meta_description : AgreesPointer r.meta_description n.meta_description
  pub meta_publisher : AgreesPointer r.meta_publisher n.meta_publisher
  pub policy_engine_mode : AgreesPointer r.policy_engine_mode n.policy_engine_mode
  pub group : AgreesPointer r.group n.group
  pub meta_hide : AgreesPointer r.meta_hide n.meta_hide

-- An Application that holds what the create request sent has nothing to patch.
pub diff_application-create :
    (spec : AuthentikApplicationSpec) (provider_pk : Option ℤ) (n : Application)
    → StoresApplication
        (create_application_request spec.slug (desired_application spec provider_pk))
        n
    → diff_application (desired_application spec provider_pk) n ≡ none
unfolding desired_application create_application_request
diff_application-create spec provider_pk n h =
    diff_application_complete (desired_application spec provider_pk) n (record {
      name = λ v p. h.name ∙ some-inj p;
      slug = λ v p. cc;
      provider = h.provider;
      open_in_new_tab = h.open_in_new_tab;
      meta_launch_url = h.meta_launch_url;
      meta_icon = h.meta_icon;
      meta_description = h.meta_description;
      meta_publisher = h.meta_publisher;
      policy_engine_mode = h.policy_engine_mode;
      group = h.group;
      meta_hide = h.meta_hide;
    })
