-- ===== src/Controller.antt =====
-- internal/controller: the reconciler of an AuthentikApplication. The log lines are not modelled.
pub mod Outpost
pub mod FieldDiffs
pub mod Provider
pub mod Status
pub mod Deletion
pub mod Bindings
pub mod Unmanaged
pub mod Adoption
pub mod Application
pub mod Credentials
pub mod Reconcile
