-- ===== src/Delta.antt =====
-- crates/kappa-core/src/delta.rs: the delta codec of the bundle wire format, compatible with Git's.
-- A byte slice with a position is the list of the bytes from there on. A `usize` is 64 bits wide.
-- `x & m` for a mask of adjoining bits and `x >> k` are written with `/` and `%`, and `|` of
-- disjoint bits with `+`.
pub mod Varint
pub mod Apply
pub mod Compute
mod Tests
