-- ===== src/Api.antt =====
-- The AuthentikApplication resource: api/v1alpha1/authentikapplication_types.go.
mod Spec
mod Status
pub use Spec.*
pub use Status.*
