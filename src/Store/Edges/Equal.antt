-- ===== src/Store/Edges/Equal.antt =====
-- What the tests of edges decide.
use kappa_registry.Prelude.{ℕ, ◌≡◌, refl, ap, arith, ◌==◌, ==_iff, true, if◌then◌else◌}
use kappa_registry.Prelude.{Option, none, some, Bytes, bytes_eq→eq}
use kappa_registry.Store.Relations.{
  EdgeRelation, owns, composed_of, assertion, revocation, capability,
}
use kappa_registry.Store.Relations.{recovery_share, epoch_root, akd_tree_node, chunk_manifest}
use kappa_registry.Store.Relations.{witness_receipt, offload_receipt, derived_from, certified_by}
use kappa_registry.Store.Relations.{evidence_provenance, section_of, refers_to, delegation}
use kappa_registry.Store.Edges.{Edge, relation_index, relation_eq, option_eq, same_edge, same_value}

relation_at : ℕ → EdgeRelation
relation_at n =
    if n == 0
    then owns
    else if n == 1
    then composed_of
    else if n == 2
    then assertion
    else if n == 3
    then revocation
    else if n == 4
    then capability
    else if n == 5
    then recovery_share
    else if n == 6
    then epoch_root
    else if n == 7
    then akd_tree_node
    else if n == 8
    then chunk_manifest
    else if n == 9
    then witness_receipt
    else if n == 10
    then offload_receipt
    else if n == 11
    then derived_from
    else if n == 12
    then certified_by
    else if n == 13
    then evidence_provenance
    else if n == 14
    then section_of
    else if n == 15
    then refers_to
    else delegation

relation_at-relation_index : (r : EdgeRelation) → relation_at (relation_index r) ≡ r
unfolding relation_at relation_index
relation_at-relation_index owns = refl
relation_at-relation_index r = refl

pub relation_eq→eq : (a b : EdgeRelation) → relation_eq a b ≡ true → a ≡ b
unfolding relation_eq
relation_eq→eq a b h =
    let n : relation_index a ≡ relation_index b =
      (==_iff (relation_index a) (relation_index b)).0 h in
    cc (n, relation_at-relation_index a, relation_at-relation_index b)

option_eq→eq : (a b : Option Bytes) → option_eq a b ≡ true → a ≡ b
unfolding option_eq
option_eq→eq none none h = refl
option_eq→eq none (some b) h = absurd (cc h)
option_eq→eq (some a) none h = absurd (cc h)
option_eq→eq (some a) (some b) h = ap some (bytes_eq→eq a b h)

-- The same logical edge.
pub same_edge→eq :
    (a b : Edge)
    → same_edge a b ≡ true
    → (a.source ≡ b.source)
      × (a.target ≡ b.target)
      × (a.relation ≡ b.relation)
      × (a.asserter ≡ b.asserter)
unfolding same_edge
same_edge→eq a b h = (
  bytes_eq→eq a.source b.source (ground arith),
  bytes_eq→eq a.target b.target (ground arith),
  relation_eq→eq a.relation b.relation (ground arith),
  bytes_eq→eq a.asserter b.asserter (ground arith),
)

pub same→eq : (a b : Edge) → same_edge a b ≡ true → same_value a b ≡ true → a ≡ b
unfolding same_value
same→eq a b h k =
    let (s, t, r, asr) = same_edge→eq a b h in
    let v = option_eq→eq a.value_kappa b.value_kappa (ground arith) in
    let m = option_eq→eq a.metadata b.metadata (ground arith) in cc (s, t, r, asr, v, m)
