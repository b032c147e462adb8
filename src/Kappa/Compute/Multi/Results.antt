-- ===== src/Kappa/Compute/Multi/Results.antt =====
-- What the hashers of several axes give, against what each gives alone.
use kappa_registry.Prelude.{◌≡◌, ◌≢◌, ◌⊎◌, refl, arith, true}
use kappa_registry.Prelude.{
  Option, none, some, List, [], ◌∷◌, Bytes, bytes_eq, bytes_eq→eq, All, In, Option-cases,
  Bool-cases, inl, inr,
}
use kappa_registry.Kappa.Label.{Axis, sha1, axis_str}
use kappa_registry.Kappa.Label.{LabelError, ok, err, collision_detected}
use kappa_registry.Kappa.Compute.{
  Hashers, Reader, read_all, read_chunks, label_text, sha1_text, streaming_compute_kappa,
}
use kappa_registry.Kappa.Compute.Verify.{Result-cases}
use kappa_registry.Kappa.Compute.Multi.{
  StreamingProof, Initialized, finalize, finalize_all, remove_named, choose,
}
use kappa_registry.Kappa.Compute.Multi.Names.{remove_named-In}

-- What one hasher of many gives is what it gives alone.
streaming-finalize :
    (h : Hashers) (a : Axis) (reader : Reader) (chunks : List Bytes) (hash : Bytes)
    → read_all reader ≡ some chunks
    → finalize h a chunks ≡ some hash
    → streaming_compute_kappa h (axis_str a) reader ≡ ok (label_text (axis_str a) hash)
unfolding streaming_compute_kappa read_chunks axis_str finalize sha1_text
streaming-finalize h sha1 reader chunks hash r f = rw (read_chunks, r, sha1_text, f) refl
streaming-finalize h a reader chunks hash r f = rw (read_chunks, r) (cc f)

-- A label that a pass for its axis alone gives.
abbrev pub IsSingle : Hashers → Reader → Bytes × Bytes → Type 0
IsSingle h reader (name, kappa) = streaming_compute_kappa h name reader ≡ ok kappa

pub finalize_all-IsSingle :
    (h : Hashers) (hashers : Initialized) (reader : Reader) (chunks : List Bytes)
    (order : List Axis) (results : List (Bytes × Bytes))
    → read_all reader ≡ some chunks
    → finalize_all h hashers chunks order ≡ ok results
    → All (IsSingle h reader) results
unfolding finalize_all
finalize_all-IsSingle h hashers reader chunks [] results r f =
    let none_left : [] ≡ results = cc f in rw (← none_left) tt
finalize_all-IsSingle h hashers reader chunks (a ∷ order) results r f =
    elim (Bool-cases (hashers a)) [
      | inr off ↦ finalize_all-IsSingle h hashers reader chunks order results r (ground arith)
      | inl on ↦ elim (Option-cases (finalize h a chunks)) [
        | inl n ↦ absurd (ground arith)
        | inr (hash, n) ↦ elim (Result-cases (finalize_all h hashers chunks order)) [
          | inl (e, q) ↦ absurd (ground arith)
          | inr (more, q) ↦
              let made : ◌≡◌ {A = List (Bytes × Bytes)}
                  ((axis_str a, label_text (axis_str a) hash) ∷ more) results =
                ground arith in
              rw (← made) (
                streaming-finalize h a reader chunks hash r n,
                finalize_all-IsSingle h hashers reader chunks order more r q,
              )
        ]
      ]
    ]

-- The named result and the others.
remove_named-IsSingle :
    (h : Hashers) (reader : Reader) (name : Bytes) (results : List (Bytes × Bytes)) (kappa : Bytes)
    (rest : List (Bytes × Bytes))
    → All (IsSingle h reader) results
    → remove_named name results ≡ some (kappa, rest)
    → (streaming_compute_kappa h name reader ≡ ok kappa) × All (IsSingle h reader) rest
unfolding remove_named
remove_named-IsSingle h reader name [] kappa rest singles f = absurd (cc f)
remove_named-IsSingle h reader name ((a, k) ∷ results) kappa rest (single, singles) f =
    elim (Bool-cases (bytes_eq a name)) [
      | inl same ↦
          let made : ◌≡◌ {A = Option (Bytes × List (Bytes × Bytes))} (some (k, results))
              (some (kappa, rest)) =
            ground arith in
          let one : k ≡ kappa = cc made in
          let others : results ≡ rest = cc made in
          (rw (← one, ← bytes_eq→eq a name same) single, rw (← others) singles)
      | inr other ↦ elim (Option-cases (remove_named name results)) [
        | inl n ↦ absurd (ground arith)
        | inr ((k', rest'), n) ↦
            let made : ◌≡◌ {A = Option (Bytes × List (Bytes × Bytes))} (some (k', (a, k) ∷ rest'))
                (some (kappa, rest)) =
              ground arith in
            let one : k' ≡ kappa = cc made in
            let others : ◌≡◌ {A = List (Bytes × Bytes)} ((a, k) ∷ rest') rest = cc made in
            let (found, more) = remove_named-IsSingle h reader name results k' rest' singles n in
            (rw (← one) found, rw (← others) (single, more))
      ]
    ]

-- An axis whose hasher fails is SHA-1, with a collision.
pub finalize_all-err :
    (h : Hashers) (hashers : Initialized) (chunks : List Bytes) (order : List Axis) (e : LabelError)
    → finalize_all h hashers chunks order ≡ err e
    → (a : Axis) × (hashers a ≡ true) × (finalize h a chunks ≡ none)
unfolding finalize_all
finalize_all-err h hashers chunks [] e f = absurd (cc f)
finalize_all-err h hashers chunks (x ∷ order) e f = elim (Bool-cases (hashers x)) [
  | inr off ↦ finalize_all-err h hashers chunks order e (ground arith)
  | inl on ↦ elim (Option-cases (finalize h x chunks)) [
    | inl n ↦ (x, on, n)
    | inr (hash, n) ↦ elim (Result-cases (finalize_all h hashers chunks order)) [
      | inl (e', q) ↦ finalize_all-err h hashers chunks order e' q
      | inr (more, q) ↦ absurd (ground arith)
    ]
  ]
]

pub streaming-collision :
    (h : Hashers) (a : Axis) (reader : Reader) (chunks : List Bytes)
    → read_all reader ≡ some chunks
    → finalize h a chunks ≡ none
    → streaming_compute_kappa h (axis_str a) reader ≡ err collision_detected
unfolding streaming_compute_kappa read_chunks axis_str finalize sha1_text
streaming-collision h sha1 reader chunks r f = rw (read_chunks, r, sha1_text, f) refl
streaming-collision h a reader chunks r f = absurd (cc f)

empty_named : (name : Bytes) → remove_named name [] ≡ none
unfolding remove_named
empty_named name = refl

-- What `choose` makes of the results of names that were all known.
pub choose-IsSingle :
    (h : Hashers) (reader : Reader) (name : Bytes) (axes : List Bytes)
    (results : List (Bytes × Bytes))
    → All (IsSingle h reader) results
    → remove_named name results ≢ none
    → (proof : StreamingProof) × (choose (name ∷ axes) results ≡ some (ok proof))
      × (streaming_compute_kappa h name reader ≡ ok proof.primary)
      × All (IsSingle h reader) proof.additional
      × ((p : Bytes × Bytes)
          → (In p proof.additional → In p results)
            × (In p results → (p.0 ≡ name) ⊎ In p proof.additional))
unfolding choose
choose-IsSingle h reader name axes [] singles found = absurd (found (empty_named name))
choose-IsSingle h reader name axes ((a, kappa) ∷ results) singles found =
    elim (Option-cases (remove_named name ((a, kappa) ∷ results))) [
      | inl n ↦ absurd (found n)
      | inr ((k, rest), n) ↦
          let (one, others) =
            remove_named-IsSingle h reader name ((a, kappa) ∷ results) k rest singles n in
          (
            record { primary = k; additional = rest },
            rw (choose, n) refl,
            one,
            others,
            λ p. remove_named-In name ((a, kappa) ∷ results) rest k p n,
          )
    ]
