-- ===== src/Store/Edges.antt =====
-- crates/kappa-core/src/store/memory/edge.rs: edges, as blobs and in four indexes. The canonical bytes
-- of an edge, which the crate dcbor makes, are a parameter, and so are the digests of the labels, BLAKE3
-- in `item_hash`, the mandatory axes and what the disk does.
pub mod Equal
pub mod Indexed
pub mod Query
mod Tests
use kappa_registry.Prelude.{ℕ, ◌==◌, Bool, true, false, ◌&&◌, ◌||◌, not, if◌then◌else◌}
use kappa_registry.Prelude.{Option, none, some, List, [], ◌∷◌, ◌++◌, Bytes, bytes_eq}
use kappa_registry.Dict.{Dict, get, insert, remove, bytes_key, pair_key}
use kappa_registry.Kappa.Label.{Axis, sha256}
use kappa_registry.Kappa.Compute.{Digests, kappa_from_bytes}
use kappa_registry.Store.Types.{Result, ok, err}
use kappa_registry.Store.Namespaces.{NamespaceRef, Namespaces, ensure_namespace}
use kappa_registry.Store.Tags.{item_hash}
use kappa_registry.Store.Relations.{
  EdgeRelation, owns, composed_of, assertion, revocation, capability,
}
use kappa_registry.Store.Relations.{recovery_share, epoch_root, akd_tree_node, chunk_manifest}
use kappa_registry.Store.Relations.{witness_receipt, offload_receipt, derived_from, certified_by}
use kappa_registry.Store.Relations.{
  evidence_provenance, section_of, refers_to, delegation, relation_str,
}
use kappa_registry.Store.Blobs.{Disk, Fault, blob_delete}
use kappa_registry.Store.Ingest.{ingest_compute}

unfoldable pub relation_index : EdgeRelation → ℕ
relation_index owns = 0
relation_index composed_of = 1
relation_index assertion = 2
relation_index revocation = 3
relation_index capability = 4
relation_index recovery_share = 5
relation_index epoch_root = 6
relation_index akd_tree_node = 7
relation_index chunk_manifest = 8
relation_index witness_receipt = 9
relation_index offload_receipt = 10
relation_index derived_from = 11
relation_index certified_by = 12
relation_index evidence_provenance = 13
relation_index section_of = 14
relation_index refers_to = 15
relation_index delegation = 16

pub record Edge : Type 0 where
  pub source : Bytes
  pub target : Bytes
  pub relation : EdgeRelation
  pub asserter : Bytes
  pub value_kappa : Option Bytes
  pub metadata : Option Bytes

pub data Direction : Type 0 where
  outbound inbound : Direction

pub record EdgeQuery : Type 0 where
  pub anchor : Bytes
  pub direction : Direction
  pub relation : Option EdgeRelation
  pub asserter : Option Bytes

abbrev pub EdgeIndex : Type 0
EdgeIndex = Dict (Bytes × ℕ) (List Bytes)

-- The part of the store that these methods read and write.
pub record EdgeStore : Type 0 where
  pub namespaces : Namespaces
  pub disk : Disk
  pub edges : Dict (Bytes × ℕ) Edge
  pub fwd_index : EdgeIndex
  pub rev_index : EdgeIndex
  pub rel_index : EdgeIndex
  pub asr_index : EdgeIndex
  pub assertion_inbound : Dict Bytes (List Bytes)

-- `==` on relations, by the number of the variant.
unfoldable pub relation_eq : EdgeRelation → EdgeRelation → Bool
relation_eq a b = relation_index a == relation_index b

unfoldable pub option_eq : Option Bytes → Option Bytes → Bool
option_eq none none = true
option_eq none (some b) = false
option_eq (some a) none = false
option_eq (some a) (some b) = bytes_eq a b

unfoldable pub same_edge : Edge → Edge → Bool
same_edge a b =
    bytes_eq a.source b.source
    && (bytes_eq a.target b.target
        && (relation_eq a.relation b.relation && bytes_eq a.asserter b.asserter))

unfoldable pub same_value : Edge → Edge → Bool
same_value a b = option_eq a.value_kappa b.value_kappa && option_eq a.metadata b.metadata

-- `.get(..).cloned().unwrap_or_default()`
unfoldable pub kappas_at : EdgeIndex → Bytes × ℕ → List Bytes
kappas_at index key = elim (get index key) [ none ↦ [] | some kappas ↦ kappas ]

unfoldable pub push_index : EdgeIndex → Bytes × ℕ → Bytes → EdgeIndex
push_index index key kappa = insert index key (kappas_at index key ++ (kappa ∷ []))

-- `vec.retain(|k| k != kappa)`
unfoldable pub retain_others : Bytes → List Bytes → List Bytes
retain_others kappa [] = []
retain_others kappa (k ∷ kappas) =
    let rest = retain_others kappa kappas in if bytes_eq k kappa then rest else k ∷ rest

unfoldable pub remove_from : EdgeIndex → Bytes × ℕ → Bytes → EdgeIndex
remove_from index key kappa = elim (get index key) [
  | none ↦ index
  | some kappas ↦ insert index key (retain_others kappa kappas)
]

-- `inbound_relations.contains(..)`
unfoldable pub is_inbound_relation : EdgeRelation → Bool
is_inbound_relation r =
    relation_eq r assertion
    || (relation_eq r revocation || (relation_eq r capability || relation_eq r delegation))

unfoldable pub push_inbound : Dict Bytes (List Bytes) → Bytes → Bytes → Dict Bytes (List Bytes)
push_inbound table key kappa = elim (get table key) [
  | none ↦ insert table key (kappa ∷ [])
  | some kappas ↦ insert table key (kappas ++ (kappa ∷ []))
]

unfoldable pub index_inbound : Edge → Bytes → Dict Bytes (List Bytes) → Dict Bytes (List Bytes)
index_inbound edge kappa table =
    if is_inbound_relation edge.relation
    then push_inbound table (edge.target ++ (0 ∷ relation_str edge.relation)) kappa
    else table

module _ (blake3 : Bytes → Bytes) where
  -- The first of some edges that is the same logical edge: its hash and the edge.
  unfoldable pub find_existing :
      Dict (Bytes × ℕ) Edge → Bytes → Edge → List Bytes → Option (ℕ × Edge)
  find_existing edges uuid edge [] = none
  find_existing edges uuid edge (ek ∷ kappas) =
      let rest = find_existing edges uuid edge kappas in
      elim (get edges (uuid, item_hash blake3 ek)) [
        | none ↦ rest
        | some existing ↦
            if same_edge existing edge then some (item_hash blake3 ek, existing) else rest
      ]

  unfoldable pub index_edge : Bytes → Edge → Bytes → EdgeStore → EdgeStore
  index_edge uuid edge kappa s = record s {
    edges = insert s.edges (uuid, item_hash blake3 kappa) edge;
    fwd_index = push_index s.fwd_index (uuid, item_hash blake3 edge.source) kappa;
    rev_index = push_index s.rev_index (uuid, item_hash blake3 edge.target) kappa;
    rel_index = push_index s.rel_index (uuid, relation_index edge.relation) kappa;
    asr_index = push_index s.asr_index (uuid, item_hash blake3 edge.asserter) kappa;
    assertion_inbound = index_inbound edge kappa s.assertion_inbound;
  }

  unfoldable pub upsert : Bytes → Edge → Bytes → EdgeStore → EdgeStore
  upsert uuid edge kappa s =
      elim (find_existing s.edges uuid edge
        (kappas_at s.fwd_index (uuid, item_hash blake3 edge.source))) [
          | none ↦ index_edge uuid edge kappa s
          | some (h, existing) ↦
              if same_value existing edge
              then s
              else record s { edges = insert s.edges (uuid, h) edge }
        ]

  -- `query.relation` and `query.asserter`, where they are given.
  unfoldable pub matches : EdgeQuery → Edge → Bool
  matches query edge =
      (elim query.relation [ none ↦ true | some r ↦ relation_eq edge.relation r ])
      && (elim query.asserter [ none ↦ true | some a ↦ bytes_eq edge.asserter a ])

  unfoldable pub collect : EdgeQuery → Dict (Bytes × ℕ) Edge → Bytes → List Bytes → List Edge
  collect query edges uuid [] = []
  collect query edges uuid (ek ∷ kappas) =
      let rest = collect query edges uuid kappas in
      elim (get edges (uuid, item_hash blake3 ek)) [
        | none ↦ rest
        | some edge ↦ if matches query edge then edge ∷ rest else rest
      ]

  unfoldable pub query_kappas : NamespaceRef → EdgeQuery → EdgeStore → List Bytes
  query_kappas ns query s = elim query.direction [
    | outbound ↦ kappas_at s.fwd_index (ns.uuid, item_hash blake3 query.anchor)
    | inbound ↦ kappas_at s.rev_index (ns.uuid, item_hash blake3 query.anchor)
  ]

  unfoldable pub edge_query : NamespaceRef → EdgeQuery → EdgeStore → List Edge
  edge_query ns query s = collect query s.edges ns.uuid (query_kappas ns query s)

  -- The first of some edges with the source, the target and the relation.
  unfoldable pub find_edge :
      Dict (Bytes × ℕ) Edge
      → Bytes
      → Bytes
      → Bytes
      → EdgeRelation
      → List Bytes
      → Option (Bytes × Edge)
  find_edge edges uuid source target relation [] = none
  find_edge edges uuid source target relation (ek ∷ kappas) =
      let rest = find_edge edges uuid source target relation kappas in
      elim (get edges (uuid, item_hash blake3 ek)) [
        | none ↦ rest
        | some e ↦
            if bytes_eq e.source source
              && (bytes_eq e.target target && relation_eq e.relation relation)
            then some (ek, e)
            else rest
      ]

  unfoldable pub unindex_edge : Bool → Bytes → Edge → Bytes → EdgeStore → EdgeStore
  unindex_edge fails uuid edge kappa s = record s {
    edges = remove s.edges (uuid, item_hash blake3 kappa);
    fwd_index = remove_from s.fwd_index (uuid, item_hash blake3 edge.source) kappa;
    rev_index = remove_from s.rev_index (uuid, item_hash blake3 edge.target) kappa;
    rel_index = remove_from s.rel_index (uuid, relation_index edge.relation) kappa;
    asr_index = remove_from s.asr_index (uuid, item_hash blake3 edge.asserter) kappa;
    disk = (blob_delete fails s.disk kappa).0;
  }

  -- `fails` says that the disk refuses to remove the file of the edge.
  unfoldable pub edge_delete :
      Bool → NamespaceRef → Bytes → Bytes → EdgeRelation → EdgeStore → EdgeStore × Result (Unit {0})
  edge_delete fails ns source target relation s =
      elim (find_edge s.edges ns.uuid source target relation
        (kappas_at s.fwd_index (ns.uuid, item_hash blake3 source))) [
          | none ↦ (s, ok tt)
          | some (kappa, edge) ↦
              (unindex_edge fails ns.uuid edge kappa s, (blob_delete fails s.disk kappa).1)
        ]

  module _ (d : Digests) (axes : List Axis) (canonical_bytes : Edge → Bytes)
      (fault : Bytes → Fault) where
    unfoldable pub edge_put : NamespaceRef → Edge → EdgeStore → EdgeStore × Result (Unit {0})
    edge_put ns edge s =
        let bytes = canonical_bytes edge in
        let ingested = ingest_compute d fault axes s.disk sha256 bytes in
        let ready : EdgeStore = record s {
          namespaces = ensure_namespace ns s.namespaces;
          disk = ingested.0;
        } in
        elim ingested.1 [
          | err e ↦ (ready, err e)
          | ok r ↦ (upsert ns.uuid edge (kappa_from_bytes d bytes) ready, ok tt)
        ]
