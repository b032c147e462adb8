-- ===== src/Kappa.antt =====
-- crates/kappa-core/src/kappa: content addresses.
pub mod Label
pub mod Path
pub mod Compute
pub mod Verified
