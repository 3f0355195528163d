-- ===== src/Patch/RedirectUris.antt =====
-- `diffRedirectURIs` of internal/authentik/patch.go: redirect URIs compared as sets of keys.
pub mod Laws
use authentik_operator.Prelude.{
  String, Option, none, some, List, map, Eq, String_discrete, if◌then◌else◌,
}
use authentik_operator.Models.{
  MatchingModeEnum, RedirectUriTypeEnum, RedirectUri, RedirectUriRequest, matching_mode_eq,
  redirect_uri_type_eq,
}
use authentik_operator.Patch.Sets.{same_set}

-- `redirectURIKey`
pub record RedirectUriKey : Type 0 where
  pub url : String
  pub matching_mode : MatchingModeEnum
  pub uri_type : RedirectUriTypeEnum

pub RedirectUriKey_discrete : Discrete RedirectUriKey
RedirectUriKey_discrete = hlevel String_discrete

instance abbrev pub redirect_uri_key_eq : Eq RedirectUriKey
redirect_uri_key_eq = record { dec = RedirectUriKey_discrete }

-- `redirectURIType`: a missing type is the server's default
unfoldable pub redirect_uri_type : Option RedirectUriTypeEnum → RedirectUriTypeEnum
redirect_uri_type none = RedirectUriTypeEnum.authorization
redirect_uri_type (some t) = t

unfoldable pub desired_key : RedirectUriRequest → RedirectUriKey
desired_key d = record {
  url = d.url;
  matching_mode = d.matching_mode;
  uri_type = redirect_uri_type d.redirect_uri_type;
}

unfoldable pub observed_key : RedirectUri → RedirectUriKey
observed_key o = record {
  url = o.url;
  matching_mode = o.matching_mode;
  uri_type = redirect_uri_type o.redirect_uri_type;
}

unfoldable pub diff_redirect_uris :
    Option (List RedirectUriRequest) → List RedirectUri → Option (List RedirectUriRequest)
diff_redirect_uris none observed = none
diff_redirect_uris (some desired) observed =
    if same_set (map desired_key desired) (map observed_key observed) then none else some desired
