-- ===== src/Bindings.antt =====
-- The Bindings of an Application: internal/controller/bindings.go.
pub mod Match
