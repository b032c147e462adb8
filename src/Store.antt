-- ===== src/Store.antt =====
-- crates/kappa-core/src/store/memory: the in-memory store, a part of its state in each module.
pub mod Types
pub mod Namespaces
pub mod Succession
pub mod Tags
pub mod Uploads
pub mod Relations
pub mod Bindings
pub mod Blobs
pub mod Ingest
pub mod Edges
mod Tests
