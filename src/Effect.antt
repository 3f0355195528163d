-- ===== src/Effect.antt =====
-- The calls that the operator makes of the authentik API (internal/authentik/interface.go) and of
-- the Kubernetes API, and the actions that make them.
mod Errors
mod Calls
mod Monad
pub mod Emits
pub mod Keeps
pub mod Yields
pub mod Inversion
pub mod Gives
unfoldable pub use Errors.*
pub use Calls.*
unfoldable pub use Monad.*
