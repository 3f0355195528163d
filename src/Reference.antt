-- ===== src/Reference.antt =====
-- internal/reference: the resolution of the objects that a resource refers to.
mod Types
pub mod Failures
pub use Types.*
