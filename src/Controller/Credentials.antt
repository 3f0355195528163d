-- ===== src/Controller/Credentials.antt =====
-- The Secret with the credentials of an OAuth2 Provider: internal/controller/credentials.go.
pub mod Roundtrip
use authentik_operator.Prelude.Text.{concat_text}
use authentik_operator.Resolver.Credentials.{default_client_id_key, default_client_secret_key}
use authentik_operator.Models.{OAuth2Provider}
use authentik_operator.Effect.{
  Result, Action, ok, ◌>>=◌, Secret, call, attempt, gets, list_resources_of_secret,
  get_oauth2_provider, raise, err, pure, asks, ◌>>◌, wrap, of_result, create_secret, note,
  record_event, created, nil_dereference,
}
use authentik_operator.Prelude.{String, List, Option, none, map, [], ◌++◌, some, get_or, ◌∷◌}
use authentik_operator.Prelude.Int.{ℤ}
use authentik_operator.Api.{
  AuthentikApplication, OAuth2CredentialsSpec, OAuth2ProviderSpec, ProviderSpec,
}

-- the key function of `IndexCredentialsSecret`
unfoldable pub credentials_secret_names : AuthentikApplication → List String
credentials_secret_names app = elim app.spec.provider [
  | none ↦ []
  | some provider ↦ elim provider.oauth2 [
    | none ↦ []
    | some oauth2 ↦ elim oauth2.credentials [
      | none ↦ []
      | some credentials ↦ credentials.secret_ref.name ∷ []
    ]
  ]
]

abbrev pub request_of : AuthentikApplication → String × String
request_of app = (app.namespace, app.name)

unfoldable pub requests_of : Result (List AuthentikApplication) → List (String × String)
requests_of (ok items) = map request_of items
requests_of (err e) = []

-- `credentialsSecretRequests` for the Secret of a namespace and a name
unfoldable pub credentials_secret_requests : String → String → Action (List (String × String))
unfolding requests_of
credentials_secret_requests namespace name = do
  answer ← attempt (call (list_resources_of_secret namespace name))
  pure (requests_of answer)

-- The client ID is written only when the spec does not have one.
unfoldable pub client_id_entry : OAuth2CredentialsSpec → Option String → Secret
client_id_entry spec none = []
client_id_entry spec (some id) = elim spec.client_id [
  | some given ↦ []
  | none ↦ (get_or spec.secret_ref.client_id_key default_client_id_key, id) ∷ []
]

unfoldable pub client_secret_entry : OAuth2CredentialsSpec → Option String → Secret
client_secret_entry spec none = []
client_secret_entry spec (some secret) =
    (get_or spec.secret_ref.client_secret_key default_client_secret_key, secret) ∷ []

-- The client secret is set last, so it comes first and hides a client ID of the same key.
unfoldable pub exported_data : OAuth2CredentialsSpec → OAuth2Provider → Secret
unfolding client_id_entry client_secret_entry
exported_data spec provider =
    client_secret_entry spec provider.client_secret ++ client_id_entry spec provider.client_id

unfoldable pub export_to : AuthentikApplication → OAuth2CredentialsSpec → ℤ → Action Unit
unfolding exported_data
export_to app spec pk = do
  provider ← call (get_oauth2_provider pk)
  set_owner ← asks (λ env. env.set_owner)
  wrap (concat_text ("failed to set the owner of Secret " ∷ spec.secret_ref.name ∷ []))
      (of_result (set_owner app spec.secret_ref.name))
  wrap (concat_text ("failed to create Secret " ∷ app.namespace ∷ "/" ∷ spec.secret_ref.name ∷ []))
      (call (create_secret app.namespace spec.secret_ref.name (exported_data spec provider)))
  note (record_event created)

-- A part of the spec that is missing is a nil dereference in the source.
unfoldable pub export_with : AuthentikApplication → Option OAuth2CredentialsSpec → ℤ → Action Unit
unfolding export_to
export_with app none pk = raise nil_dereference
export_with app (some credentials) pk = export_to app credentials pk

unfoldable pub export_by : AuthentikApplication → Option OAuth2ProviderSpec → ℤ → Action Unit
unfolding export_with
export_by app none pk = raise nil_dereference
export_by app (some oauth2) pk = export_with app oauth2.credentials pk

unfoldable pub export_for : AuthentikApplication → Option ProviderSpec → ℤ → Action Unit
unfolding export_by
export_for app none pk = raise nil_dereference
export_for app (some provider) pk = export_by app provider.oauth2 pk

-- `exportCredentials`
unfoldable pub export_credentials : ℤ → Action Unit
unfolding export_for
export_credentials pk = do app ← gets (λ s. s.app); export_for app app.spec.provider pk
