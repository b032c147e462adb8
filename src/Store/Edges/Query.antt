-- ===== src/Store/Edges/Query.antt =====
-- What is found after a put.
use kappa_registry.Prelude.{ℕ, ◌≡◌, refl, sym, ap, ◌∙◌, subst, arith, true}
use kappa_registry.Prelude.{
  some, List, [], ◌∷◌, Bytes, Bool-cases, Option-cases, inl, inr, ◌⊎◌, In, In-cons, here, there,
}
use kappa_registry.Dict.{Dict, get, insert, pair_key, pair_eq_iff, get-insert}
use kappa_registry.Kappa.Label.{Axis, sha256}
use kappa_registry.Kappa.Compute.{Digests, kappa_from_bytes}
use kappa_registry.Store.Types.{ok, Result-cases}
use kappa_registry.Store.Namespaces.{NamespaceRef, ensure_namespace}
use kappa_registry.Store.Blobs.{Fault}
use kappa_registry.Store.Ingest.{ingest_compute}
use kappa_registry.Store.Tags.{item_hash}
use kappa_registry.Store.Edges.{
  Edge, Direction, outbound, inbound, EdgeQuery, EdgeStore, same_value, kappas_at, find_existing,
  index_edge, upsert,
}
use kappa_registry.Store.Edges.{matches, collect, query_kappas, edge_query, edge_put}
use kappa_registry.Store.Edges.Equal.{same→eq}
use kappa_registry.Store.Edges.Indexed.{
  IsIndexed, Reached, Reached-all, put_step, next, find_existing_inv,
}

-- The end of an edge that a direction starts from.
abbrev pub end_of : Direction → Edge → Bytes
end_of outbound e = e.source
end_of inbound e = e.target

Direction-cases : (dir : Direction) → (dir ≡ outbound) ⊎ (dir ≡ inbound)
Direction-cases outbound = inl refl
Direction-cases inbound = inr refl

inserted :
    (edges : Dict (Bytes × ℕ) Edge) (k : Bytes × ℕ) (e : Edge) → get (insert edges k e) k ≡ some e
inserted edges k e = rw (get-insert edges k k e, (pair_eq_iff k k).1 refl) refl

module _ (blake3 : Bytes → Bytes) where
  In-collect :
      (query : EdgeQuery) (edges : Dict (Bytes × ℕ) Edge) (uuid ek : Bytes) (kappas : List Bytes)
      (e : Edge)
      → In ek kappas
      → get edges (uuid, item_hash blake3 ek) ≡ some e
      → matches blake3 query e ≡ true
      → In e (collect blake3 query edges uuid kappas)
  unfolding collect
  In-collect query edges uuid ek [] e m g h = elim m [ ]
  In-collect query edges uuid ek (k ∷ kappas) e m g h = elim (In-cons m) [
    | inl same ↦
        let found : get edges (uuid, item_hash blake3 k) ≡ some e = rw same g in
        rw (collect, found, h) here
    | inr later ↦
        let rest = In-collect query edges uuid ek kappas e later g h in
        elim (Option-cases (get edges (uuid, item_hash blake3 k))) [
          | inl n ↦ rw (collect, n) rest
          | inr (x, n) ↦ elim (Bool-cases (matches blake3 query x)) [
            | inl fit ↦ rw (collect, n, fit) (there rest)
            | inr other ↦ rw (collect, n, other) rest
          ]
        ]
  ]

  outbound_kappas :
      (ns : NamespaceRef) (query : EdgeQuery) (s : EdgeStore)
      → query.direction ≡ outbound
      → query_kappas blake3 ns query s
        ≡ kappas_at s.fwd_index (ns.uuid, item_hash blake3 query.anchor)
  unfolding query_kappas
  outbound_kappas ns query s out = rw (query_kappas, out) refl

  inbound_kappas :
      (ns : NamespaceRef) (query : EdgeQuery) (s : EdgeStore)
      → query.direction ≡ inbound
      → query_kappas blake3 ns query s
        ≡ kappas_at s.rev_index (ns.uuid, item_hash blake3 query.anchor)
  unfolding query_kappas
  inbound_kappas ns query s into = rw (query_kappas, into) refl

  -- A query from an end of an edge of the table finds it, where the filters let it pass.
  In-edge_query :
      (ns : NamespaceRef) (query : EdgeQuery) (s : EdgeStore) (h : ℕ) (e : Edge)
      → IsIndexed blake3 s
      → get s.edges (ns.uuid, h) ≡ some e
      → query.anchor ≡ end_of query.direction e
      → matches blake3 query e ≡ true
      → In e (edge_query blake3 ns query s)
  unfolding edge_query
  In-edge_query ns query s h e i g anchor fits =
      let (ek, m, (f, r, l, a)) = i ns.uuid h e g in
      let found : get s.edges (ns.uuid, item_hash blake3 ek) ≡ some e =
        ap (λ n. get s.edges (ns.uuid, n)) m ∙ g in
      elim (Direction-cases query.direction) [
        | inl out ↦
            let at : query.anchor ≡ e.source = anchor ∙ ap (λ dir. end_of dir e) out in
            let index : query_kappas blake3 ns query s
                ≡ kappas_at s.fwd_index (ns.uuid, item_hash blake3 e.source) =
              outbound_kappas ns query s out
              ∙ ap (λ t. kappas_at s.fwd_index (ns.uuid, item_hash blake3 t)) at in
            subst (λ ks. In e (collect blake3 query s.edges ns.uuid ks)) (sym index)
              (In-collect query s.edges ns.uuid ek _ e f found fits)
        | inr into ↦
            let at : query.anchor ≡ e.target = anchor ∙ ap (λ dir. end_of dir e) into in
            let index : query_kappas blake3 ns query s
                ≡ kappas_at s.rev_index (ns.uuid, item_hash blake3 e.target) =
              inbound_kappas ns query s into
              ∙ ap (λ t. kappas_at s.rev_index (ns.uuid, item_hash blake3 t)) at in
            subst (λ ks. In e (collect blake3 query s.edges ns.uuid ks)) (sym index)
              (In-collect query s.edges ns.uuid ek _ e r found fits)
      ]

  -- The edge is in the table after an upsert.
  get-upsert :
      (uuid : Bytes) (edge : Edge) (kappa : Bytes) (s : EdgeStore)
      → (h : ℕ) × (get (upsert blake3 uuid edge kappa s).edges (uuid, h) ≡ some edge)
  unfolding upsert index_edge
  get-upsert uuid edge kappa s =
      let found =
        find_existing blake3 s.edges uuid edge
          (kappas_at s.fwd_index (uuid, item_hash blake3 edge.source)) in
      elim (Option-cases found) [
        | inl n ↦ (
          item_hash blake3 kappa,
          rw (upsert, n) (inserted s.edges (uuid, item_hash blake3 kappa) edge),
        )
        | inr ((h, existing), f) ↦
            let (g, same) = find_existing_inv blake3 s.edges uuid edge _ h existing f in
            elim (Bool-cases (same_value existing edge)) [
              | inl equal ↦
                  (h, rw (upsert, f, equal) (g ∙ ap some (same→eq existing edge same equal)))
              | inr differ ↦ (h, rw (upsert, f, differ) (inserted s.edges (uuid, h) edge))
            ]
      ]

-- After an `edge_put` that succeeds, on a store reached by such calls, a query of the namespace finds the
-- edge from its source outbound and from its target inbound, under every filter of relation and asserter
-- that the edge passes.
pub edge_put-edge_query :
    (d : Digests) (blake3 : Bytes → Bytes) (canonical_bytes : Edge → Bytes) (axes : List Axis)
    (fault : Bytes → Fault) (ns : NamespaceRef) (edge : Edge) (query : EdgeQuery) (s : EdgeStore)
    → Reached d blake3 canonical_bytes s
    → (edge_put blake3 d axes canonical_bytes fault ns edge s).1 ≡ ok tt
    → query.anchor ≡ end_of query.direction edge
    → matches blake3 query edge ≡ true
    → In edge
        (edge_query blake3 ns query (edge_put blake3 d axes canonical_bytes fault ns edge s).0)
unfolding edge_put
edge_put-edge_query d blake3 canonical_bytes axes fault ns edge query s r h anchor fits =
    let after = (edge_put blake3 d axes canonical_bytes fault ns edge s).0 in
    let indexed : IsIndexed blake3 after =
      Reached-all d blake3 canonical_bytes (next r (put_step axes fault ns edge)) in
    elim (Result-cases (ingest_compute d fault axes s.disk sha256 (canonical_bytes edge)).1) [
      | inr (e, p) ↦ absurd (ground (arith, p, h))
      | inl (done, p) ↦
          let ready : EdgeStore = record s {
            namespaces = ensure_namespace ns s.namespaces;
            disk = (ingest_compute d fault axes s.disk sha256 (canonical_bytes edge)).0;
          } in
          let (key, g) =
            get-upsert blake3 ns.uuid edge (kappa_from_bytes d (canonical_bytes edge)) ready in
          let stored : get after.edges (ns.uuid, key) ≡ some edge = rw (edge_put, p) g in
          In-edge_query blake3 ns query after key edge indexed stored anchor fits
    ]
