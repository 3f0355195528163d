-- ===== src/Models/Enums.antt =====
-- The enums of client-go, and its Nullable types: unset, set to null, or set to a value.
use authentik_operator.Prelude.{Option, none, some, Eq}

abbrev pub Nullable : Type 0 → Type 0
Nullable A = Option (Option A)

-- `NullableX.Get()`: nil when the value is unset or null
abbrev pub get : {A : Type 0} → Nullable A → Option A
get none = none
get (some v) = v

pub data PolicyEngineMode : Type 0 where
  all any : PolicyEngineMode

pub data ClientTypeEnum : Type 0 where
  confidential public : ClientTypeEnum

pub data GrantTypeEnum : Type 0 where
  authorization_code implicit hybrid refresh_token : GrantTypeEnum
  client_credentials password device_code token_exchange : GrantTypeEnum

pub data SubModeEnum : Type 0 where
  hashed_user_id user_id user_uuid user_username user_email user_upn : SubModeEnum

pub data IssuerModeEnum : Type 0 where
  global per_provider : IssuerModeEnum

pub data LogoutMethodEnum : Type 0 where
  back_channel front_channel : LogoutMethodEnum

pub data MatchingModeEnum : Type 0 where
  strict regex : MatchingModeEnum

pub data RedirectUriTypeEnum : Type 0 where
  authorization logout : RedirectUriTypeEnum

pub data ProxyMode : Type 0 where
  proxy forward_single forward_domain : ProxyMode

PolicyEngineMode_discrete : Discrete PolicyEngineMode
PolicyEngineMode_discrete = hlevel

ClientTypeEnum_discrete : Discrete ClientTypeEnum
ClientTypeEnum_discrete = hlevel

GrantTypeEnum_discrete : Discrete GrantTypeEnum
GrantTypeEnum_discrete = hlevel

SubModeEnum_discrete : Discrete SubModeEnum
SubModeEnum_discrete = hlevel

IssuerModeEnum_discrete : Discrete IssuerModeEnum
IssuerModeEnum_discrete = hlevel

LogoutMethodEnum_discrete : Discrete LogoutMethodEnum
LogoutMethodEnum_discrete = hlevel

MatchingModeEnum_discrete : Discrete MatchingModeEnum
MatchingModeEnum_discrete = hlevel

RedirectUriTypeEnum_discrete : Discrete RedirectUriTypeEnum
RedirectUriTypeEnum_discrete = hlevel

ProxyMode_discrete : Discrete ProxyMode
ProxyMode_discrete = hlevel

instance abbrev pub policy_engine_mode_eq : Eq PolicyEngineMode
unfolding PolicyEngineMode_discrete
policy_engine_mode_eq = record { dec = PolicyEngineMode_discrete }

instance abbrev pub client_type_eq : Eq ClientTypeEnum
unfolding ClientTypeEnum_discrete
client_type_eq = record { dec = ClientTypeEnum_discrete }

instance abbrev pub grant_type_eq : Eq GrantTypeEnum
unfolding GrantTypeEnum_discrete
grant_type_eq = record { dec = GrantTypeEnum_discrete }

instance abbrev pub sub_mode_eq : Eq SubModeEnum
unfolding SubModeEnum_discrete
sub_mode_eq = record { dec = SubModeEnum_discrete }

instance abbrev pub issuer_mode_eq : Eq IssuerModeEnum
unfolding IssuerModeEnum_discrete
issuer_mode_eq = record { dec = IssuerModeEnum_discrete }

instance abbrev pub logout_method_eq : Eq LogoutMethodEnum
unfolding LogoutMethodEnum_discrete
logout_method_eq = record { dec = LogoutMethodEnum_discrete }

instance abbrev pub proxy_mode_eq : Eq ProxyMode
unfolding ProxyMode_discrete
proxy_mode_eq = record { dec = ProxyMode_discrete }

instance abbrev pub matching_mode_eq : Eq MatchingModeEnum
unfolding MatchingModeEnum_discrete
matching_mode_eq = record { dec = MatchingModeEnum_discrete }

instance abbrev pub redirect_uri_type_eq : Eq RedirectUriTypeEnum
unfolding RedirectUriTypeEnum_discrete
redirect_uri_type_eq = record { dec = RedirectUriTypeEnum_discrete }
