-- ===== src/Tests/Handlers.antt =====
-- Adoption diffs, exported credentials and handlers of Providers at concrete inputs.
use authentik_operator.Controller.Provider.Records.{reconcile_provider_with-Records}
use authentik_operator.Controller.FieldDiffs.Tables.{oauth2_field_paths_for}
use authentik_operator.Controller.FieldDiffs.Laws.{AlikeOutside, diffs_of-AlikeOutside}
use authentik_operator.Tests.Services.{services, proxied, fresh_state}
use authentik_operator.Controller.Credentials.{exported_data}
use authentik_operator.Desired.Application.{provider_name}
use authentik_operator.Tests.Data.{oauth2_observed, wiki_spec}
use authentik_operator.Prelude.Int.{pos}
use authentik_operator.Controller.Credentials.Roundtrip.{
  secret_key, id_key, read_credentials-exported_data,
}
use authentik_operator.Effect.{pure, ok, ◌>>=◌, raise, gets, other}
use authentik_operator.Controller.Provider.Candidates.{IsFree, find_provider-IsFree}
use authentik_operator.Controller.Provider.{find_provider, reconcile_provider_with}
use authentik_operator.Api.{OAuth2CredentialsSpec}
use authentik_operator.Models.{OAuth2Provider}
use authentik_operator.Prelude.{
  List, String_discrete, contains, none, [], some, ◌==◌, ◌∷◌, ◌≡◌, false, inl, refl, true,
  string_eq,
}
use authentik_operator.Models.Json.{Fields, json_eq, field, text, end_map}
use authentik_operator.Controller.FieldDiffs.{diffs_of, get_field}
use authentik_operator.Resolver.Credentials.{read_credentials}
use authentik_operator.Controller.Provider.Observed.{ObservedProvider, ProviderHandler}

abbrev ours : Fields
ours = field "client_secret" (text "new") end_map

abbrev theirs : Fields
theirs = field "client_secret" (text "old") end_map

alike : AlikeOutside ours theirs theirs ours
unfolding contains String_discrete json_eq get_field
alike = (refl, refl, inl refl, tt)

diffs_of_example :
    diffs_of services.json_text oauth2_field_paths_for ours theirs
    ≡ diffs_of services.json_text oauth2_field_paths_for theirs ours
diffs_of_example =
    diffs_of-AlikeOutside services.json_text oauth2_field_paths_for ours theirs theirs ours alike

abbrev credentials_spec : OAuth2CredentialsSpec
credentials_spec = record {
  client_id = none;
  secret_ref = record { name = "wiki-oauth2"; client_id_key = none; client_secret_key = none };
}

abbrev exported : OAuth2Provider
exported = record oauth2_observed { client_id = some "id"; client_secret = some "s3cret" }

keys_differ : (secret_key credentials_spec == id_key credentials_spec) ≡ false
unfolding String_discrete
keys_differ = refl

read_credentials_example :
    read_credentials "a" credentials_spec
      (ok (exported_data credentials_spec exported))
      services
      fresh_state
    ≡ (
      ok (record { secret_exists = true; client_id = "id"; client_secret = "s3cret" }),
      fresh_state,
    )
read_credentials_example =
    read_credentials-exported_data "a" credentials_spec exported "id" "s3cret" services fresh_state
      refl refl keys_differ

-- a handler that finds one Provider, of no Application, and creates one with the pk 7
abbrev unused : ObservedProvider
unused = record { pk = pos 3; assigned_application = none; sync = pure tt; diffs = pure [] }

abbrev handler : List ObservedProvider → ProviderHandler
handler providers = record {
  kind = "Proxy";
  model = "authentik_providers_proxy.proxyprovider";
  get = λ pk. raise (other "unavailable");
  find_by_name = λ name. pure providers;
  create = λ name. pure (pos 7);
  exists_as_other_type = λ pk. pure false;
}

finds :
    (find_provider (handler (unused ∷ [])) wiki_spec proxied none services fresh_state).0
    ≡ ok (some unused)
unfolding find_provider ◌>>=◌ pure gets
finds = refl

find_provider_example : IsFree "wiki" unused
find_provider_example =
    find_provider-IsFree (handler (unused ∷ [])) wiki_spec proxied services fresh_state unused refl
      finds

finds_none : (find_provider (handler []) wiki_spec proxied none services fresh_state).0 ≡ ok none
unfolding find_provider ◌>>=◌ pure gets
finds_none = refl

creates :
    ((handler []).create
      (provider_name "wiki" proxied)
      services
      (find_provider (handler []) wiki_spec proxied none services fresh_state).1).0
    ≡ ok (pos 7)
unfolding pure
creates = refl

reconcile_provider_example :
    (reconcile_provider_with
      (handler [])
      wiki_spec
      proxied
      none
      services
      fresh_state).1.app.status.provider_pk
    ≡ some (pos 7)
reconcile_provider_example =
    reconcile_provider_with-Records (handler []) wiki_spec proxied none services fresh_state (pos 7)
      finds_none creates
