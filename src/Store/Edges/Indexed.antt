-- ===== src/Store/Edges/Indexed.antt =====
-- Every edge is in its four indexes.
use kappa_registry.Prelude.{Bool}
use kappa_registry.Prelude.{
  ℕ, ◌≡◌, ◌≢◌, refl, sym, ap, ◌∙◌, subst, arith, true, false, if◌then◌else◌,
}
use kappa_registry.Prelude.{
  Option, none, some, List, [], ◌∷◌, ◌++◌, Bytes, bytes_eq, bytes_eq→eq, Bool-cases, Option-cases,
  inl, inr,
}
use kappa_registry.Prelude.{In-cons, In, here, there, In-append_left, In-append_right}
use kappa_registry.Dict.{Dict, get, insert, pair_key, pair_eq, pair_eq_iff, get-insert, get-remove}
use kappa_registry.Store.Relations.{EdgeRelation}
use kappa_registry.Kappa.Label.{Axis, sha256}
use kappa_registry.Kappa.Compute.{Digests, kappa_from_bytes}
use kappa_registry.Store.Types.{Result-cases}
use kappa_registry.Store.Namespaces.{NamespaceRef}
use kappa_registry.Store.Blobs.{Fault}
use kappa_registry.Store.Ingest.{ingest_compute}
use kappa_registry.Store.Tags.{item_hash}
use kappa_registry.Store.Edges.{
  Edge, EdgeIndex, EdgeStore, relation_index, same_edge, same_value, kappas_at, push_index,
  retain_others, remove_from,
}
use kappa_registry.Store.Edges.{
  find_existing, index_edge, upsert, find_edge, unindex_edge, edge_delete, edge_put,
}
use kappa_registry.Store.Edges.Equal.{same_edge→eq}

kappas_at-insert :
    (index : EdgeIndex) (k j : Bytes × ℕ) (v : List Bytes)
    → kappas_at (insert index k v) j ≡ (if pair_eq k j then v else kappas_at index j)
unfolding kappas_at
kappas_at-insert index k j v = elim (Bool-cases (pair_eq k j)) [
  | inl same ↦ rw (kappas_at, get-insert index k j v, same) refl
  | inr other ↦ rw (kappas_at, get-insert index k j v, other) refl
]

In-push_index :
    (index : EdgeIndex) (k j : Bytes × ℕ) (kappa x : Bytes)
    → In x (kappas_at index j)
    → In x (kappas_at (push_index index k kappa) j)
unfolding push_index
In-push_index index k j kappa x m = elim (Bool-cases (pair_eq k j)) [
  | inl same ↦
      let key = (pair_eq_iff k j).0 same in
      rw (kappas_at-insert index k j (kappas_at index k ++ (kappa ∷ [])), same)
        (In-append_left (kappa ∷ []) (subst (λ i. In x (kappas_at index i)) (sym key) m))
  | inr other ↦ rw (kappas_at-insert index k j (kappas_at index k ++ (kappa ∷ [])), other) m
]

In-push_index_new :
    (index : EdgeIndex) (k : Bytes × ℕ) (kappa : Bytes)
    → In kappa (kappas_at (push_index index k kappa) k)
unfolding push_index
In-push_index_new index k kappa =
    rw (kappas_at-insert index k k (kappas_at index k ++ (kappa ∷ [])), (pair_eq_iff k k).1 refl)
      (In-append_right (kappas_at index k) here)

In-retain_others :
    (kappa x : Bytes) (kappas : List Bytes)
    → x ≢ kappa
    → In x kappas
    → In x (retain_others kappa kappas)
unfolding retain_others
In-retain_others kappa x [] n m = m
In-retain_others kappa x (k ∷ kappas) n m = elim (Bool-cases (bytes_eq k kappa)) [
  | inl same ↦ elim (In-cons m) [
    | inl e ↦ absurd (n (sym e ∙ bytes_eq→eq k kappa same))
    | inr later ↦ rw same (In-retain_others kappa x kappas n later)
  ]
  | inr other ↦ elim (In-cons m) [
    | inl e ↦ rw other (subst (λ y. In x (y ∷ retain_others kappa kappas)) (sym e) here)
    | inr later ↦ rw other (there (In-retain_others kappa x kappas n later))
  ]
]

remove_from-none :
    (index : EdgeIndex) (k : Bytes × ℕ) (kappa : Bytes)
    → get index k ≡ none
    → remove_from index k kappa ≡ index
unfolding remove_from
remove_from-none index k kappa e = rw (remove_from, e) refl

remove_from-some :
    (index : EdgeIndex) (k : Bytes × ℕ) (kappa : Bytes) (kappas : List Bytes)
    → get index k ≡ some kappas
    → remove_from index k kappa ≡ insert index k (retain_others kappa kappas)
unfolding remove_from
remove_from-some index k kappa kappas e = rw (remove_from, e) refl

kappas_at-some :
    (index : EdgeIndex) (k : Bytes × ℕ) (kappas : List Bytes)
    → get index k ≡ some kappas
    → kappas_at index k ≡ kappas
unfolding kappas_at
kappas_at-some index k kappas e = rw (kappas_at, e) refl

In-remove_from :
    (index : EdgeIndex) (k j : Bytes × ℕ) (kappa x : Bytes)
    → (k ≡ j → x ≢ kappa)
    → In x (kappas_at index j)
    → In x (kappas_at (remove_from index k kappa) j)
In-remove_from index k j kappa x n m = elim (Option-cases (get index k)) [
  | inl e ↦ subst (λ i. In x (kappas_at i j)) (sym (remove_from-none index k kappa e)) m
  | inr (kappas, e) ↦
      subst (λ i. In x (kappas_at i j)) (sym (remove_from-some index k kappa kappas e))
        (rw (kappas_at-insert index k j (retain_others kappa kappas))
          (elim (Bool-cases (pair_eq k j)) [
            | inl same ↦
                let key = (pair_eq_iff k j).0 same in
                let there_too : kappas_at index j ≡ kappas =
                  rw (← key) (kappas_at-some index k kappas e) in
                rw same (In-retain_others kappa x kappas (n key) (subst (In x) there_too m))
            | inr other ↦ rw other m
          ]))
]

-- An edge under a hash is in the four indexes, by one label with that hash.
abbrev pub InIndexes : (Bytes → Bytes) → EdgeStore → Bytes → Edge → Bytes → Type 0
InIndexes blake3 s uuid e ek =
    In ek (kappas_at s.fwd_index (uuid, item_hash blake3 e.source))
    × In ek (kappas_at s.rev_index (uuid, item_hash blake3 e.target))
    × In ek (kappas_at s.rel_index (uuid, relation_index e.relation))
    × In ek (kappas_at s.asr_index (uuid, item_hash blake3 e.asserter))

abbrev pub IsIndexed : (Bytes → Bytes) → EdgeStore → Type 0
IsIndexed blake3 s =
    (uuid : Bytes) (h : ℕ) (e : Edge)
    → get s.edges (uuid, h) ≡ some e
    → (ek : Bytes) × (item_hash blake3 ek ≡ h) × InIndexes blake3 s uuid e ek

module _ (blake3 : Bytes → Bytes) where
  index_edge-IsIndexed :
      (uuid : Bytes) (edge : Edge) (kappa : Bytes) (s : EdgeStore)
      → IsIndexed blake3 s
      → IsIndexed blake3 (index_edge blake3 uuid edge kappa s)
  unfolding index_edge
  index_edge-IsIndexed uuid edge kappa s i u h e g =
      elim (Bool-cases (pair_eq (uuid, item_hash blake3 kappa) (u, h))) [
        | inl same ↦
            let key = (pair_eq_iff (uuid, item_hash blake3 kappa) (u, h)).0 same in
            let now : edge ≡ e =
              ground
                (arith, get-insert s.edges (uuid, item_hash blake3 kappa) (u, h) edge, same, g) in
            let after = index_edge blake3 uuid edge kappa s in
            let made : InIndexes blake3 after uuid edge kappa = (
              In-push_index_new s.fwd_index _ kappa,
              In-push_index_new s.rev_index _ kappa,
              In-push_index_new s.rel_index _ kappa,
              In-push_index_new s.asr_index _ kappa,
            ) in
            let moved = subst (λ w. InIndexes blake3 after w edge kappa) (ap (λ p. p.0) key) made in
            (kappa, ap (λ p. p.1) key, subst (λ x. InIndexes blake3 after u x kappa) now moved)
        | inr other ↦
            let before : get s.edges (u, h) ≡ some e =
              ground
                (arith, get-insert s.edges (uuid, item_hash blake3 kappa) (u, h) edge, other, g) in
            let (ek, m, (f, r, l, a)) = i u h e before in
            (
              ek,
              m,
              (
                In-push_index s.fwd_index _ _ kappa ek f,
                In-push_index s.rev_index _ _ kappa ek r,
                In-push_index s.rel_index _ _ kappa ek l,
                In-push_index s.asr_index _ _ kappa ek a,
              ),
            )
      ]

  pub find_existing_inv :
      (edges : Dict (Bytes × ℕ) Edge) (uuid : Bytes) (edge : Edge) (kappas : List Bytes) (h : ℕ)
      (existing : Edge)
      → find_existing blake3 edges uuid edge kappas ≡ some (h, existing)
      → (get edges (uuid, h) ≡ some existing) × (same_edge existing edge ≡ true)
  unfolding find_existing
  find_existing_inv edges uuid edge [] h existing f = absurd (cc f)
  find_existing_inv edges uuid edge (ek ∷ kappas) h existing f =
      elim (Option-cases (get edges (uuid, item_hash blake3 ek))) [
        | inl g ↦ find_existing_inv edges uuid edge kappas h existing (ground arith)
        | inr (e, g) ↦ elim (Bool-cases (same_edge e edge)) [
          | inr other ↦ find_existing_inv edges uuid edge kappas h existing (ground arith)
          | inl same ↦
              let made : ◌≡◌ {A = Option (ℕ × Edge)} (some (item_hash blake3 ek, e))
                  (some (h, existing)) =
                ground arith in
              let hash : item_hash blake3 ek ≡ h = cc made in
              let it : e ≡ existing = cc made in (rw (← hash, ← it) g, rw (← it) same)
        ]
      ]

  -- An edge that takes the place of the same logical edge.
  update-IsIndexed :
      (uuid : Bytes) (edge existing : Edge) (h : ℕ) (s : EdgeStore)
      → IsIndexed blake3 s
      → get s.edges (uuid, h) ≡ some existing
      → same_edge existing edge ≡ true
      → IsIndexed blake3 (record s { edges = insert s.edges (uuid, h) edge })
  update-IsIndexed uuid edge existing h s i g0 same u h' e g =
      elim (Bool-cases (pair_eq (uuid, h) (u, h'))) [
        | inr other ↦ i u h' e (ground (arith, get-insert s.edges (uuid, h) (u, h') edge, other, g))
        | inl equal ↦
            let key = (pair_eq_iff (uuid, h) (u, h')).0 equal in
            let now : edge ≡ e =
              ground (arith, get-insert s.edges (uuid, h) (u, h') edge, equal, g) in
            let (ek, m, (f, r, l, a)) = i uuid h existing g0 in
            let (src, tgt, rel, asr) = same_edge→eq existing edge same in
            let made : InIndexes blake3 s uuid edge ek =
              (rw (← src) f, rw (← tgt) r, rw (← rel) l, rw (← asr) a) in
            let moved = subst (λ w. InIndexes blake3 s w edge ek) (ap (λ p. p.0) key) made in
            (ek, m ∙ ap (λ p. p.1) key, subst (λ x. InIndexes blake3 s u x ek) now moved)
      ]

  upsert-IsIndexed :
      (uuid : Bytes) (edge : Edge) (kappa : Bytes) (s : EdgeStore)
      → IsIndexed blake3 s
      → IsIndexed blake3 (upsert blake3 uuid edge kappa s)
  unfolding upsert
  upsert-IsIndexed uuid edge kappa s i =
      let found =
        find_existing blake3 s.edges uuid edge
          (kappas_at s.fwd_index (uuid, item_hash blake3 edge.source)) in
      elim (Option-cases found) [
        | inl n ↦ rw (upsert, n) (index_edge-IsIndexed uuid edge kappa s i)
        | inr ((h, existing), f) ↦
            let (g, same) = find_existing_inv s.edges uuid edge _ h existing f in
            elim (Bool-cases (same_value existing edge)) [
              | inl equal ↦ rw (upsert, f, equal) i
              | inr differ ↦
                  rw (upsert, f, differ) (update-IsIndexed uuid edge existing h s i g same)
            ]
      ]

  -- A label under another hash is another label.
  other_label :
      (uuid u kappa ek : Bytes) (h n k : ℕ)
      → pair_eq (uuid, item_hash blake3 kappa) (u, h) ≡ false
      → item_hash blake3 ek ≡ h
      → ◌≡◌ {A = Bytes × ℕ} (uuid, n) (u, k)
      → ek ≢ kappa
  other_label uuid u kappa ek h n k other m key same =
      let first : uuid ≡ u = ap (λ p. p.0) key in
      let second : item_hash blake3 kappa ≡ h = ap (item_hash blake3) (sym same) ∙ m in
      absurd
        (cc (other, (pair_eq_iff (uuid, item_hash blake3 kappa) (u, h)).1 (cc (first, second))))

  unindex_edge-IsIndexed :
      (fails : Bool) (uuid : Bytes) (edge : Edge) (kappa : Bytes) (s : EdgeStore)
      → IsIndexed blake3 s
      → IsIndexed blake3 (unindex_edge blake3 fails uuid edge kappa s)
  unfolding unindex_edge
  unindex_edge-IsIndexed fails uuid edge kappa s i u h e g =
      elim (Bool-cases (pair_eq (uuid, item_hash blake3 kappa) (u, h))) [
        | inl same ↦
            absurd
              (ground (arith, get-remove s.edges (uuid, item_hash blake3 kappa) (u, h), same, g))
        | inr other ↦
            let before : get s.edges (u, h) ≡ some e =
              ground (arith, get-remove s.edges (uuid, item_hash blake3 kappa) (u, h), other, g) in
            let (ek, m, (f, r, l, a)) = i u h e before in
            (
              ek,
              m,
              (
                In-remove_from s.fwd_index _ _ kappa ek
                    (λ key. other_label uuid u kappa ek h _ _ other m key) f,
                In-remove_from s.rev_index _ _ kappa ek
                    (λ key. other_label uuid u kappa ek h _ _ other m key) r,
                In-remove_from s.rel_index _ _ kappa ek
                    (λ key. other_label uuid u kappa ek h _ _ other m key) l,
                In-remove_from s.asr_index _ _ kappa ek
                    (λ key. other_label uuid u kappa ek h _ _ other m key) a,
              ),
            )
      ]

-- Calls on the edges of a store, one after the other, whatever the disk does.
pub data Step (d : Digests) (blake3 : Bytes → Bytes) (canonical_bytes : Edge → Bytes)
    : EdgeStore → EdgeStore → Type 0 where
  put_step :
      (axes : List Axis) (fault : Bytes → Fault) (ns : NamespaceRef) (edge : Edge) {s : EdgeStore}
      → Step d blake3 canonical_bytes s (edge_put blake3 d axes canonical_bytes fault ns edge s).0
  delete_step :
      (fails : Bool) (ns : NamespaceRef) (source target : Bytes) (relation : EdgeRelation)
      {s : EdgeStore}
      → Step d blake3 canonical_bytes s (edge_delete blake3 fails ns source target relation s).0

abbrev pub empty_store : EdgeStore
empty_store = record {
  namespaces = record { ns_aliases = []; ns_records = [] };
  disk = [];
  edges = [];
  fwd_index = [];
  rev_index = [];
  rel_index = [];
  asr_index = [];
  assertion_inbound = [];
}

pub data Reached (d : Digests) (blake3 : Bytes → Bytes) (canonical_bytes : Edge → Bytes)
    : EdgeStore → Type 0 where
  start : Reached d blake3 canonical_bytes empty_store
  next :
      {s s' : EdgeStore}
      → Reached d blake3 canonical_bytes s
      → Step d blake3 canonical_bytes s s'
      → Reached d blake3 canonical_bytes s'

module _ (d : Digests) (blake3 : Bytes → Bytes) (canonical_bytes : Edge → Bytes) where
  Step-IsIndexed :
      {s s' : EdgeStore}
      → Step d blake3 canonical_bytes s s'
      → IsIndexed blake3 s
      → IsIndexed blake3 s'
  unfolding edge_put edge_delete
  Step-IsIndexed (put_step axes fault ns edge {s}) i =
      elim (Result-cases (ingest_compute d fault axes s.disk sha256 (canonical_bytes edge)).1) [
        | inr (e, r) ↦ rw (edge_put, r) i
        | inl (done, r) ↦
            rw (edge_put, r)
              (upsert-IsIndexed blake3 ns.uuid edge (kappa_from_bytes d (canonical_bytes edge)) _ i)
      ]
  Step-IsIndexed (delete_step fails ns source target relation {s}) i =
      elim (Option-cases (
        find_edge blake3 s.edges ns.uuid source target relation
          (kappas_at s.fwd_index (ns.uuid, item_hash blake3 source)))) [
            | inl n ↦ rw (edge_delete, n) i
            | inr ((kappa, e), f) ↦
                rw (edge_delete, f) (unindex_edge-IsIndexed blake3 fails ns.uuid e kappa s i)
          ]

  pub Reached-all : {s : EdgeStore} → Reached d blake3 canonical_bytes s → IsIndexed blake3 s
  unfolding get
  Reached-all start uuid h e g = absurd (cc g)
  Reached-all (next r st) uuid h e g = Step-IsIndexed st (Reached-all r) uuid h e g

-- On every store that starts empty and is changed by `edge_put` and `edge_delete` only, in any order and
-- whichever writes fail: each edge of the table is in the index of its source, of its target, of its
-- relation and of its asserter, all four times by one label whose hash is the key of the edge.
pub Reached-IsIndexed :
    (d : Digests) (blake3 : Bytes → Bytes) (canonical_bytes : Edge → Bytes) (s : EdgeStore)
    (uuid : Bytes) (h : ℕ) (e : Edge)
    → Reached d blake3 canonical_bytes s
    → get s.edges (uuid, h) ≡ some e
    → (ek : Bytes) × (item_hash blake3 ek ≡ h) × InIndexes blake3 s uuid e ek
Reached-IsIndexed d blake3 canonical_bytes s uuid h e r g =
    Reached-all d blake3 canonical_bytes r uuid h e g
