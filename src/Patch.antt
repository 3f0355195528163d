-- ===== src/Patch.antt =====
-- internal/authentik/patch.go: the bodies of PATCH requests.
pub mod Sets
pub mod Fields
pub mod Application
pub mod RedirectUris
pub mod ProxyProvider
pub mod OAuth2Provider
pub mod PolicyBinding
