-- ===== src/Lib.antt =====
-- The kappa registry keeps blobs under labels that name their digest (kappa labels), and above them
-- namespaces, tags, edges and identities. This library models parts of the crate
-- crates/kappa-core and the TIDs of crates/kappa-module-atproto, whose functions keep their names here.
--
-- Parts, by file:
--   Prelude         shared names, lists and byte strings. A byte string is a list of numbers, and
--                   theorems that need bytes say so.
--   Dict            hash maps (HashMap, DashMap) as association lists
--   Merkle          crates/kappa-core/src/merkle.rs: merkle_root, merkle_proof, merkle_verify
--   Delta           crates/kappa-core/src/delta.rs: Delta/Varint has the varints, Delta/Compute
--                   compute_delta, Delta/Apply apply_delta
--   Kappa/Label     crates/kappa-core/src/kappa/label.rs: Axis and KappaLabel
--   Kappa/Path      crates/kappa-core/src/kappa/path.rs: blob_path_for
--   Kappa/Compute   crates/kappa-core/src/kappa/compute.rs: compute_kappa, verify_kappa,
--                   streaming_compute_kappa; Compute/Multi streaming_compute_multi
--   Kappa/Verified  crates/kappa-core/src/verified.rs: VerifiedContent
--   Bundle          crates/kappa-core/src/bundle.rs: decode, and encode of full entries
--   Events          crates/kappa-core/src/events.rs: InMemoryEventLog
--   Membership      crates/kappa-core/src/membership.rs
--   Atproto/Tid     crates/kappa-module-atproto/src/tid.rs
--   Clock           crates/kappa-core/src/clock/ntp_lamport.rs
--   Gc              crates/kappa-core/src/gc.rs: compute_reachable
--   Store           crates/kappa-core/src/store/memory/mod.rs: Store/Namespaces has the namespace
--                   methods and ensure_namespace, Store/Succession the resolution of successions,
--                   Store/Tags tags and sequences (with item_hash of
--                   crates/kappa-core/src/types.rs), Store/Uploads the upload sessions,
--                   Store/Relations the edge relations of types.rs,
--                   Store/Bindings identity bindings, Store/Blobs the blobs on disk,
--                   Store/Edges edges and their indexes (edge.rs beside it),
--                   Store/Ingest the default ingest methods of
--                   crates/kappa-core/src/store/mod.rs,
--                   Store/Types the errors
--
-- The parts meet in the store: an ingest verifies a content against its label (Kappa/Verified), and puts
-- it at the path of the label (Kappa/Path) and of the labels under the mandatory axes. A bundle moves
-- labels and contents, some of them as deltas, and its decoder verifies each. gc walks from label to label along
-- edges, epochs commit to tags by a Merkle root, and similar blobs are kept as deltas. A transfer of
-- a namespace asks the succession table, which Store.Namespaces takes as the argument `resolve`.
-- Setting a tag or drawing from a sequence first ensures the namespace.
--
-- State: a method of the store takes the part of the state that it uses and returns it with its
-- result. The locks of the store are not modelled, so a method is one step; only `emit` of the event log is
-- two, `draw` and `push`, and calls of it may overlap. The disk is a table of files; which step of a write
-- fails, or that a removal fails, is an argument. A panic is a value: `none`, `panic` or `capacity_overflow`.
-- Memory does not run out. Fresh uuids and the time are arguments. The texts of errors are left out.
--
-- Numbers: native natural numbers. A u8, u32 or u64 is reduced where the source shifts, casts or
-- multiplies with wrap-around; usize has 64 bits.
--
-- Fuel: the loops of Merkle take the number of leaves, since each level halves; encode_varint takes
-- ten, the groups of seven bits in 64; the scan and the flush take the length of what they consume,
-- apply_delta the length of the delta; a succession is resolved in eleven rounds, since ten visited
-- anchors end it; s32_encode takes 13, the digits of 64 bits. A bundle is decoded in as many rounds as
-- its header says. compute_reachable takes its fuel as an argument, and the roots with the edges of a
-- finite part of the store are enough.
--
-- Parameters: the digests of the crates sha1-checked, sha2, sha3 and blake3 with their incremental
-- hashers, the test of UTF-8 of the standard library, MD5 of the crate md5, the label
-- of a binding (a digest of the CBOR encoding that the crate dcbor makes), the CBOR encoding of an edge,
-- and the edges of the store that gc follows.
--
-- Not modelled: reads of files that fail, the end of upload_complete, bundles with deltas on the side
-- of encode, the sorted listings and build_root_set, which sorts too,
-- the sweep of gc, which lists the files of the disk, transactions, the
-- rest of the store (metadata, epochs, compression), the redb store, the protocol
-- modules and the server, which are I/O and HTTP for the most part, and cryptography, which
-- third-party crates do.
mod Prelude
pub mod Dict
pub mod Clock
pub mod Atproto
pub mod Membership
pub mod Events
pub mod Bundle
pub mod Kappa
pub mod Merkle
pub mod Delta
pub mod Gc
pub mod Store
