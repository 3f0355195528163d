-- ===== src/Controller/Credentials/Roundtrip.antt =====
-- The exported Secret is read back by the resolver: internal/controller/credentials.go and
-- internal/reference/resolver.go.
use authentik_operator.Effect.{Env, State, ok, ◌>>=◌, pure}
use authentik_operator.Models.{OAuth2Provider}
use authentik_operator.Prelude.{
  String, get_or, ◌≡◌, none, some, ◌==◌, ==_refl, refl, false, string_eq, true, Option,
}
use authentik_operator.Controller.Credentials.{exported_data, client_secret_entry, client_id_entry}
use authentik_operator.Resolver.Credentials.{
  read_credentials, lookup_key, read_client_id, read_key, default_client_id_key,
  default_client_secret_key, read_value,
}
use authentik_operator.Api.{OAuth2CredentialsSpec}

-- the keys of the Secret, with their defaults
abbrev pub id_key : OAuth2CredentialsSpec → String
id_key spec = get_or spec.secret_ref.client_id_key default_client_id_key

abbrev pub secret_key : OAuth2CredentialsSpec → String
secret_key spec = get_or spec.secret_ref.client_secret_key default_client_secret_key

lookup_secret :
    (spec : OAuth2CredentialsSpec) (provider : OAuth2Provider) (secret : String)
    → provider.client_secret ≡ some secret
    → lookup_key (secret_key spec) (exported_data spec provider) ≡ some secret
unfolding lookup_key exported_data client_secret_entry
lookup_secret spec provider secret h = rw h (rw (==_refl (secret_key spec)) refl)

lookup_id :
    (spec : OAuth2CredentialsSpec) (provider : OAuth2Provider) (id secret : String)
    → spec.client_id ≡ none
    → provider.client_id ≡ some id
    → provider.client_secret ≡ some secret
    → (secret_key spec == id_key spec) ≡ false
    → lookup_key (id_key spec) (exported_data spec provider) ≡ some id
unfolding lookup_key exported_data client_secret_entry client_id_entry
lookup_id spec provider id secret own h k d =
    rw k (rw h (rw own (rw d (rw (==_refl (id_key spec)) refl))))

read_back_id :
    (spec : OAuth2CredentialsSpec) (provider : OAuth2Provider) (id secret : String)
    (given : Option String)
    → spec.client_id ≡ given
    → provider.client_id ≡ some id
    → provider.client_secret ≡ some secret
    → (secret_key spec == id_key spec) ≡ false
    → (env : Env) (s : State)
    → read_client_id spec given (exported_data spec provider) env s ≡ (ok (get_or given id), s)
unfolding read_client_id read_key read_value pure
read_back_id spec provider id secret (some x) own h k d env s = refl
read_back_id spec provider id secret none own h k d env s =
    rw (lookup_id spec provider id secret own h k d) refl

-- When an OAuth2 Provider has a client ID and a client secret and the two keys of the Secret
-- differ, reading the credentials from the exported Secret succeeds, collects no failure, and
-- gives the client ID of the spec, or else that of the Provider, and the client secret of the
-- Provider.
pub read_credentials-exported_data :
    (namespace : String) (spec : OAuth2CredentialsSpec) (provider : OAuth2Provider)
    (id secret : String) (env : Env) (s : State)
    → provider.client_id ≡ some id
    → provider.client_secret ≡ some secret
    → (secret_key spec == id_key spec) ≡ false
    → read_credentials namespace spec (ok (exported_data spec provider)) env s ≡ (
      ok (record {
        secret_exists = true;
        client_id = get_or spec.client_id id;
        client_secret = secret;
      }),
      s,
    )
unfolding read_credentials read_key read_value ◌>>=◌ pure
read_credentials-exported_data namespace spec provider id secret env s h k d =
    rw (read_back_id spec provider id secret spec.client_id refl h k d env s)
      (rw (lookup_secret spec provider secret k) refl)
