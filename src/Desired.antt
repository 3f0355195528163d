-- ===== src/Desired.antt =====
-- internal/controller/desired.go: the requests that the spec asks for.
pub mod Application
pub mod Proxy
pub mod OAuth2
pub mod Binding
