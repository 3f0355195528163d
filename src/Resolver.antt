-- ===== src/Resolver.antt =====
-- internal/reference/resolver.go: the references of a resource are resolved to identifiers. The
-- collector is `State.failures`; a reference that fails leaves the zero value, and is recorded there.
pub mod Lookup
pub mod Credentials
pub mod Rules
pub mod Defaults
pub mod Resolve
pub mod Reads
pub mod Quiet
pub mod Grows
pub mod Subjects
