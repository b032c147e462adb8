-- ===== src/Store/Relations.antt =====
-- `EdgeRelation` of crates/kappa-core/src/types.rs: the kinds of edges and their names.
pub mod Names
mod Tests
use kappa_registry.Prelude.{
  Bool, true, if◌then◌else◌, ◌||◌, Option, none, some, Bytes, bytes_eq, codes,
}

pub data EdgeRelation : Type 0 where
  owns composed_of assertion revocation capability : EdgeRelation
  recovery_share epoch_root akd_tree_node chunk_manifest witness_receipt : EdgeRelation
  offload_receipt derived_from certified_by evidence_provenance section_of : EdgeRelation
  refers_to delegation : EdgeRelation

unfoldable pub relation_str : EdgeRelation → Bytes
relation_str owns = codes "owns"
relation_str composed_of = codes "composed-of"
relation_str assertion = codes "assertion"
relation_str revocation = codes "revocation"
relation_str capability = codes "capability"
relation_str recovery_share = codes "recovery-share"
relation_str epoch_root = codes "epoch-root"
relation_str akd_tree_node = codes "akd-tree-node"
relation_str chunk_manifest = codes "chunk-manifest"
relation_str witness_receipt = codes "witness-receipt"
relation_str offload_receipt = codes "offload-receipt"
relation_str derived_from = codes "derived-from"
relation_str certified_by = codes "certified-by"
relation_str evidence_provenance = codes "evidence-provenance"
relation_str section_of = codes "section-of"
relation_str refers_to = codes "refers-to"
relation_str delegation = codes "delegation"

unfoldable pub relation_parse : Bytes → Option EdgeRelation
relation_parse s =
    if bytes_eq s (codes "owns")
    then some owns
    else if bytes_eq s (codes "composed-of")
    then some composed_of
    else if bytes_eq s (codes "assertion")
    then some assertion
    else if bytes_eq s (codes "revocation")
    then some revocation
    else if bytes_eq s (codes "capability")
    then some capability
    else if bytes_eq s (codes "recovery-share")
    then some recovery_share
    else if bytes_eq s (codes "epoch-root")
    then some epoch_root
    else if bytes_eq s (codes "akd-tree-node")
    then some akd_tree_node
    else if bytes_eq s (codes "chunk-manifest")
    then some chunk_manifest
    else if bytes_eq s (codes "witness-receipt") || bytes_eq s (codes "witness-of")
    then some witness_receipt
    else if bytes_eq s (codes "offload-receipt")
    then some offload_receipt
    else if bytes_eq s (codes "derived-from") || bytes_eq s (codes "derives-from")
    then some derived_from
    else if bytes_eq s (codes "certified-by")
    then some certified_by
    else if bytes_eq s (codes "evidence-provenance")
    then some evidence_provenance
    else if bytes_eq s (codes "section-of")
    then some section_of
    else if bytes_eq s (codes "refers-to")
    then some refers_to
    else if bytes_eq s (codes "delegation")
    then some delegation
    else none

-- The same for every kind.
unfoldable pub gc_reachable : EdgeRelation → Bool
gc_reachable owns = true
gc_reachable composed_of = true
gc_reachable assertion = true
gc_reachable revocation = true
gc_reachable capability = true
gc_reachable recovery_share = true
gc_reachable epoch_root = true
gc_reachable akd_tree_node = true
gc_reachable chunk_manifest = true
gc_reachable witness_receipt = true
gc_reachable offload_receipt = true
gc_reachable derived_from = true
gc_reachable certified_by = true
gc_reachable evidence_provenance = true
gc_reachable section_of = true
gc_reachable refers_to = true
gc_reachable delegation = true
