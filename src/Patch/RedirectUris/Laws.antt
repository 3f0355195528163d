-- ===== src/Patch/RedirectUris/Laws.antt =====
-- Redirect URIs agree when they have the same keys.
use mathlib.Core.Path.{subst}
use authentik_operator.Prelude.{some-inj}
use authentik_operator.Prelude.{
  arith, ◌≡◌, refl, ◌↔◌, Option, none, some, List, map, SameElements, sym, ◌∙◌, Bool-cases, inl,
  inr,
}
use authentik_operator.Models.{RedirectUri, RedirectUriRequest}
use authentik_operator.Patch.Sets.Laws.{same_set_iff}
use authentik_operator.Patch.Sets.{same_set}
use authentik_operator.Patch.RedirectUris.{
  redirect_uri_key_eq, desired_key, observed_key, diff_redirect_uris,
}

-- The keys of the observed URIs are those of the desired ones, as sets.
abbrev pub AgreesRedirectUris : Option (List RedirectUriRequest) → List RedirectUri → Type 0
AgreesRedirectUris d o =
    (v : List RedirectUriRequest)
    → d ≡ some v
    → SameElements (map desired_key v) (map observed_key o)

-- A PATCH replaces the URIs by those that are sent, and keeps them if none are.
abbrev pub PatchesRedirectUris :
    Option (List RedirectUriRequest) → List RedirectUri → List RedirectUri → Type 0
PatchesRedirectUris none o n = SameElements (map observed_key n) (map observed_key o)
PatchesRedirectUris (some v) o n = SameElements (map observed_key n) (map desired_key v)

pub diff_redirect_uris_iff :
    (d : Option (List RedirectUriRequest)) (o : List RedirectUri)
    → (diff_redirect_uris d o ≡ none) ↔ AgreesRedirectUris d o
unfolding diff_redirect_uris
diff_redirect_uris_iff none o = (λ _ v p. cc, λ _. refl)
diff_redirect_uris_iff (some d) o = (
  λ h v p.
      subst (λ w. SameElements (map desired_key w) (map observed_key o)) (some-inj p)
        ((same_set_iff (map desired_key d) (map observed_key o)).0 (ground arith)),
  λ h. ground (arith, (same_set_iff (map desired_key d) (map observed_key o)).1 (h d refl)),
)

patched_cases :
    (d : List RedirectUriRequest) (o n : List RedirectUri)
    → PatchesRedirectUris (diff_redirect_uris (some d) o) o n
    → SameElements (map desired_key d) (map observed_key n)
unfolding diff_redirect_uris
patched_cases d o n h z = elim (Bool-cases (same_set (map desired_key d) (map observed_key o))) [
  | inl same ↦
      (same_set_iff (map desired_key d) (map observed_key o)).0 same z ∙ sym ((rw same at h) z)
  | inr other ↦ sym ((rw other at h) z)
]

pub AgreesRedirectUris-patched :
    (d : Option (List RedirectUriRequest)) (o n : List RedirectUri)
    → PatchesRedirectUris (diff_redirect_uris d o) o n
    → AgreesRedirectUris d n
AgreesRedirectUris-patched none o n h v p = cc
AgreesRedirectUris-patched (some d) o n h v p =
    subst (λ w. SameElements (map desired_key w) (map observed_key n)) (some-inj p)
      (patched_cases d o n h)
