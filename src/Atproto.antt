-- ===== src/Atproto.antt =====
-- crates/kappa-module-atproto/src: the formats of the AT Protocol.
pub mod Tid
