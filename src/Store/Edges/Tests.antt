-- ===== src/Store/Edges/Tests.antt =====
-- Puts, queries and a delete of edges with fixed digests, and the theorems at them.
use kappa_registry.Prelude.{false}
use kappa_registry.Prelude.{◌≡◌, refl, some, none, Option, [], ◌∷◌, ◌++◌, Bytes, codes, In}
use kappa_registry.Dict.{get, insert, remove, contains_key, pair_key}
use kappa_registry.Kappa.Label.{axis_str, as_str, padded, hex_char, position_colon, is_hex}
use kappa_registry.Kappa.Compute.{
  compute_kappa, sha256_label, from_hash, hex_encode, kappa_from_bytes,
}
use kappa_registry.Kappa.Compute.Sample.{digests}
use kappa_registry.Kappa.Path.{blob_path_for, split_kappa, only_hex, shard_path}
use kappa_registry.Kappa.Verified.{compute}
use kappa_registry.Store.Types.{ok}
use kappa_registry.Store.Namespaces.{NamespaceRef}
use kappa_registry.Store.Relations.{owns}
use kappa_registry.Store.Tags.{item_hash, namespace_hash, from_le_bytes}
use kappa_registry.Store.Blobs.{
  Fault, no_fault, blob_put_verified, write_blob, tmp_path, rename, blob_delete,
}
use kappa_registry.Store.Ingest.{
  mandatory_axes, ingest_compute, ingest, put, put_mandatory, axis_eq,
}
use kappa_registry.Store.Edges.{
  Edge, EdgeQuery, EdgeStore, inbound, edge_put, edge_query, edge_delete,
}
use kappa_registry.Store.Edges.{
  upsert, find_existing, index_edge, same_edge, same_value, option_eq, relation_eq, relation_index,
}
use kappa_registry.Store.Edges.{kappas_at, push_index}
use kappa_registry.Store.Edges.{
  matches, collect, query_kappas, find_edge, unindex_edge, remove_from, retain_others,
}
use kappa_registry.Store.Edges.Indexed.{
  InIndexes, Reached, start, next, put_step, empty_store, Reached-IsIndexed,
}
use kappa_registry.Store.Edges.Query.{edge_put-edge_query}

abbrev toy : Bytes → Bytes
toy bytes = bytes

abbrev value_bytes : Option Bytes → Bytes
value_bytes none = []
value_bytes (some value) = value

abbrev canonical : Edge → Bytes
canonical e = value_bytes e.value_kappa ++ (e.source ++ (e.target ++ e.asserter))

abbrev here_ns : NamespaceRef
here_ns = record { uuid = 1 ∷ []; display_name = none }

abbrev works : Bytes → Fault
works kappa = no_fault

abbrev edge : Edge
edge = record {
  source = codes "a";
  target = codes "b";
  relation = owns;
  asserter = codes "c";
  value_kappa = none;
  metadata = none;
}

-- The same logical edge with another value.
abbrev changed : Edge
changed = record edge { value_kappa = some (codes "v") }

abbrev query : EdgeQuery
query = record { anchor = codes "b"; direction = inbound; relation = some owns; asserter = none }

abbrev one : EdgeStore
one = (edge_put toy digests mandatory_axes canonical works here_ns edge empty_store).0

put_run : (edge_put toy digests mandatory_axes canonical works here_ns changed one).1 ≡ ok tt
unfolding edge_put ingest_compute ingest put put_mandatory axis_eq axis_str compute compute_kappa
    sha256_label from_hash hex_encode hex_char padded as_str blob_put_verified write_blob tmp_path
    rename blob_path_for split_kappa only_hex shard_path position_colon is_hex get insert remove
    contains_key upsert find_existing kappas_at index_edge
put_run = refl

one-Reached : Reached digests toy canonical one
one-Reached = next start (put_step mandatory_axes works here_ns edge)

edge_put-edge_query_example : In changed (
    edge_query toy here_ns query
      (edge_put toy digests mandatory_axes canonical works here_ns changed one).0)
unfolding matches relation_eq relation_index
edge_put-edge_query_example =
    edge_put-edge_query digests toy canonical mandatory_axes works here_ns changed query one
      one-Reached put_run refl refl

abbrev first_label : Bytes
first_label = kappa_from_bytes digests (canonical edge)

one_run : get one.edges (1 ∷ [], item_hash toy first_label) ≡ some edge
unfolding edge_put ingest_compute ingest put put_mandatory axis_eq axis_str compute compute_kappa
    sha256_label from_hash hex_encode hex_char padded as_str blob_put_verified write_blob tmp_path
    rename blob_path_for split_kappa only_hex shard_path position_colon is_hex get insert remove
    contains_key upsert find_existing kappas_at index_edge kappa_from_bytes item_hash namespace_hash
    from_le_bytes
one_run = refl

-- The update in place: the new value stands under the label of the old one.
changed_run :
    get
      (edge_put toy digests mandatory_axes canonical works here_ns changed one).0.edges
      (1 ∷ [], item_hash toy first_label)
    ≡ some changed
unfolding edge_put ingest_compute ingest put put_mandatory axis_eq axis_str compute compute_kappa
    sha256_label from_hash hex_encode hex_char padded as_str blob_put_verified write_blob tmp_path
    rename blob_path_for split_kappa only_hex shard_path position_colon is_hex get insert remove
    contains_key upsert find_existing kappas_at index_edge kappa_from_bytes item_hash namespace_hash
    from_le_bytes push_index same_edge same_value option_eq relation_eq relation_index
changed_run = refl

delete_run :
    edge_query toy here_ns query (edge_delete toy false here_ns (codes "a") (codes "b") owns one).0
    ≡ []
unfolding edge_put ingest_compute ingest put put_mandatory axis_eq axis_str compute compute_kappa
    sha256_label from_hash hex_encode hex_char padded as_str blob_put_verified write_blob tmp_path
    rename blob_path_for split_kappa only_hex shard_path position_colon is_hex get insert remove
    contains_key upsert find_existing kappas_at index_edge kappa_from_bytes item_hash namespace_hash
    from_le_bytes push_index relation_eq relation_index edge_delete find_edge unindex_edge
    remove_from retain_others blob_delete edge_query query_kappas collect
delete_run = refl

Reached-IsIndexed_example :
    (ek : Bytes) × (item_hash toy ek ≡ item_hash toy first_label)
    × InIndexes toy one (1 ∷ []) edge ek
Reached-IsIndexed_example =
    Reached-IsIndexed digests toy canonical one (1 ∷ []) (item_hash toy first_label) edge
      one-Reached one_run
