-- ===== src/Resolver/Credentials.antt =====
-- `resolveCredentials` of internal/reference/resolver.go.
use authentik_operator.Prelude.Text.{concat_text, quote}
use authentik_operator.Reference.{Credentials}
use authentik_operator.Effect.{
  Action, Secret, Result, err, pure, is_kube_not_found, raise, wrapped, ok, ◌>>◌, ◌>>=◌, attempt,
  call, get_secret,
}
use authentik_operator.Resolver.Lookup.{add_failure}
use authentik_operator.Prelude.{
  String, Option, some, none, if◌then◌else◌, get_or, false, ◌∷◌, ◌==◌, [], string_eq, true,
}
use authentik_operator.Api.{OAuth2CredentialsSpec}

abbrev pub default_client_id_key : String
default_client_id_key = "client-id"

abbrev pub default_client_secret_key : String
default_client_secret_key = "client-secret"

-- `secret.Data[key]`
unfoldable pub lookup_key : String → Secret → Option String
lookup_key key [] = none
lookup_key key ((k, v) ∷ rest) = if k == key then some v else lookup_key key rest

-- the end of `readKey`: the value, or a failure and the empty string
unfoldable pub read_value : String → String → String → Option String → Action String
unfolding add_failure
read_value path secret_name key (some value) = pure value
read_value path secret_name key none = do
  add_failure path (concat_text ("key " ∷ quote key ∷ " in Secret " ∷ quote secret_name ∷ [])) 0
  pure ""

unfoldable pub read_key : String → String → String → Secret → Action String
unfolding read_value lookup_key
read_key path secret_name key secret = read_value path secret_name key (lookup_key key secret)

-- the client ID: that of the spec when it has one
unfoldable pub read_client_id : OAuth2CredentialsSpec → Option String → Secret → Action String
unfolding read_key
read_client_id spec (some client_id) secret = pure client_id
read_client_id spec none secret =
    read_key "provider.oauth2.credentials.secretRef.clientIDKey" spec.secret_ref.name
      (get_or spec.secret_ref.client_id_key default_client_id_key) secret

-- what is done with the answer of `Get`: a missing Secret is no failure
unfoldable pub read_credentials :
    String → OAuth2CredentialsSpec → Result Secret → Action Credentials
unfolding read_client_id
read_credentials namespace spec (err e) =
    if is_kube_not_found e
    then pure
        (record { secret_exists = false; client_id = get_or spec.client_id ""; client_secret = "" })
    else raise (
        wrapped
          (concat_text ("failed to get Secret " ∷ namespace ∷ "/" ∷ spec.secret_ref.name ∷ [])) e)
read_credentials namespace spec (ok secret) = do
  client_id ← read_client_id spec spec.client_id secret
  client_secret ←
      read_key "provider.oauth2.credentials.secretRef.clientSecretKey" spec.secret_ref.name
        (get_or spec.secret_ref.client_secret_key default_client_secret_key) secret
  pure (record { secret_exists = true; client_id = client_id; client_secret = client_secret })

unfoldable pub resolve_credentials : String → OAuth2CredentialsSpec → Action Credentials
unfolding read_credentials
resolve_credentials namespace spec = do
  answer ← attempt (call (get_secret namespace spec.secret_ref.name))
  read_credentials namespace spec answer
