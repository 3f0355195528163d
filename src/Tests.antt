-- ===== src/Tests.antt =====
-- Runs of the modelled code at concrete inputs, and the theorems at inputs that meet their hypotheses.
mod Data
mod Sets
mod Patches
mod Creates
mod Bindings
mod Conflicts
mod Effects
mod Json
mod Written
mod Services
mod Client
mod Reconciles
mod Handlers
