-- ===== src/Client.antt =====
-- internal/authentik: the errors of the API client and the lists by pages. The methods
-- themselves are one call of client-go each, the constructors of `Call`.
pub mod Redaction
pub mod Failure
pub mod Pages
