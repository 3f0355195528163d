-- ===== src/Reference/Types.antt =====
-- The identifiers of the referenced objects: internal/reference/resolver.go.
use authentik_operator.Prelude.{String, Bool, Option, List}
use authentik_operator.Prelude.Int.{ℤ}

pub record Flows : Type 0 where
  pub authorization : String
  pub invalidation : String
  pub authentication : Option String

pub record ProxyReferences : Type 0 where
  pub certificate : Option String
  pub outpost : String

pub record Credentials : Type 0 where
  pub secret_exists : Bool
  pub client_id : String
  pub client_secret : String

pub record OAuth2References : Type 0 where
  pub scopes : Option (List String)
  pub signing_key : Option String
  pub encryption_key : Option String
  pub credentials : Option Credentials

-- Exactly one of `group`, `user` and `policy` is set.
pub record Rule : Type 0 where
  pub group : Option String
  pub user : Option ℤ
  pub policy : Option String
  pub negate : Bool

pub record Resolved : Type 0 where
  pub flows : Option Flows
  pub proxy : Option ProxyReferences
  pub oauth2 : Option OAuth2References
  pub rules : List Rule

pub record CreationDefaults : Type 0 where
  pub scopes : Option (List String)
  pub signing_key : Option String
