-- ===== src/Kappa/Compute/Multi/Agrees.antt =====
-- One pass for several axes against a pass for each.
use kappa_registry.Prelude.{◌≡◌, ◌≢◌, ◌⊎◌, ◌↔◌, refl, sym, ◌∙◌, subst, arith, true, false}
use kappa_registry.Prelude.{
  none, some, List, [], ◌∷◌, Bytes, codes, bytes_eq_refl, All, In, here, there, Option-cases, inl,
  inr,
}
use kappa_registry.Kappa.Label.{Axis, axis_str, axis_parse}
use kappa_registry.Kappa.Label.{
  LabelError, ok, err, unknown_axis, collision_detected, digest_mismatch,
}
use kappa_registry.Kappa.Label.Grammar.{axis_parse-some}
use kappa_registry.Kappa.Compute.{Hashers, Reader, read_all, read_chunks, streaming_compute_kappa}
use kappa_registry.Kappa.Compute.Verify.{Result-cases}
use kappa_registry.Kappa.Compute.Streaming.{unknown_axis_lem, failed_read}
use kappa_registry.Kappa.Compute.Multi.{
  StreamingProof, Initialized, initialize, init_hashers, final_order, finalize_all, remove_named,
  choose, lift, streaming_compute_multi,
}
use kappa_registry.Kappa.Compute.Multi.Results.{
  IsSingle, finalize_all-IsSingle, finalize_all-err, streaming-collision, choose-IsSingle,
}
use kappa_registry.Kappa.Compute.Multi.Names.{
  init_hashers-kept, init_hashers-named, init_hashers-asked, finalize_all-named, every_axis,
  finalize_all-In, finalize_all-used,
}

-- How one pass for several axes ends, against the passes for each.
abbrev pub MultiEnds : Hashers → List Bytes → Reader → Type 0
MultiEnds h axes reader =
    ((e : LabelError) × (streaming_compute_multi h axes reader ≡ some (err e))
      × ((axes ≡ [])
          ⊎ ((name : Bytes) × (e' : LabelError) × In name axes
              × (streaming_compute_kappa h name reader ≡ err e'))))
    ⊎ ((name : Bytes) × (more : List Bytes) × (proof : StreamingProof) × (axes ≡ name ∷ more)
        × (streaming_compute_multi h axes reader ≡ some (ok proof))
        × (streaming_compute_kappa h name reader ≡ ok proof.primary)
        × All (IsSingle h reader) proof.additional
        × ((n : Bytes)
            → In n axes ↔ ((n ≡ name) ⊎ ((kappa : Bytes) × In (n, kappa) proof.additional))))

-- A name that is not known gives an error alone too.
init_hashers-err :
    (h : Hashers) (reader : Reader) (axes : List Bytes) (hashers : Initialized) (e : LabelError)
    → init_hashers axes hashers ≡ err e
    → (name : Bytes) × (e' : LabelError) × In name axes
      × (streaming_compute_kappa h name reader ≡ err e')
unfolding init_hashers
init_hashers-err h reader [] hashers e f = absurd (cc f)
init_hashers-err h reader (name ∷ axes) hashers e f = elim (Option-cases (axis_parse name)) [
  | inl n ↦ (name, unknown_axis, here, unknown_axis_lem h name reader n)
  | inr (a, n) ↦
      let (other, e', m, s) =
        init_hashers-err h reader axes (initialize a hashers) e (ground arith) in
      (other, e', there m, s)
]

-- The first name's hasher is there.
first_name :
    (name : Bytes) (axes : List Bytes) (after : Initialized)
    → init_hashers (name ∷ axes) (λ a. false) ≡ ok after
    → (a : Axis) × (axis_parse name ≡ some a) × (after a ≡ true)
unfolding init_hashers initialize
first_name name axes after e = elim (Option-cases (axis_parse name)) [
  | inl n ↦ absurd (ground arith)
  | inr (a, n) ↦
      let set : initialize a (λ x. false) a ≡ true = ground (arith, bytes_eq_refl (axis_str a)) in
      (a, n, init_hashers-kept axes (initialize a (λ x. false)) after a set (ground arith))
]

streamed :
    (h : Hashers) (axes : List Bytes) (reader : Reader) (hashers : Initialized)
    (chunks : List Bytes) (results : List (Bytes × Bytes))
    → init_hashers axes (λ a. false) ≡ ok hashers
    → read_chunks (codes "multi") reader ≡ ok chunks
    → finalize_all h hashers chunks final_order ≡ ok results
    → streaming_compute_multi h axes reader ≡ choose axes results
unfolding streaming_compute_multi lift
streamed h axes reader hashers chunks results i r f = rw (streaming_compute_multi, i, r, f) refl

read_failed :
    (h : Hashers) (name : Bytes) (axes : List Bytes) (reader : Reader) (hashers : Initialized)
    → init_hashers (name ∷ axes) (λ a. false) ≡ ok hashers
    → read_all reader ≡ none
    → MultiEnds h (name ∷ axes) reader
unfolding streaming_compute_multi lift read_chunks
read_failed h name axes reader hashers i r =
    let (a, n, on) = first_name name axes hashers i in
    let it = axis_parse-some name a n in
    inl (
      digest_mismatch [] [] (codes "multi"),
      rw (streaming_compute_multi, i, read_chunks, r) refl,
      inr (name, digest_mismatch [] [] name, here, rw it (failed_read h a reader r)),
    )

-- The names that were asked for are the first one and those of the further labels.
names_labelled :
    (h : Hashers) (name : Bytes) (axes : List Bytes) (hashers : Initialized) (chunks : List Bytes)
    (results additional : List (Bytes × Bytes))
    → init_hashers (name ∷ axes) (λ a. false) ≡ ok hashers
    → finalize_all h hashers chunks final_order ≡ ok results
    → ((p : Bytes × Bytes)
        → (In p additional → In p results) × (In p results → (p.0 ≡ name) ⊎ In p additional))
    → (n : Bytes) → In n (name ∷ axes) ↔ ((n ≡ name) ⊎ ((kappa : Bytes) × In (n, kappa) additional))
names_labelled h name axes hashers chunks results additional i f parts n = (
  λ m.
      let (a, it, on) = init_hashers-named (name ∷ axes) (λ x. false) hashers n i m in
      let (kappa, found) =
        finalize_all-In h hashers chunks final_order results a on (every_axis a) f in
      elim ((parts (axis_str a, kappa)).1 found) [
        | inl first ↦ inl (it ∙ first)
        | inr more ↦ inr (kappa, subst (λ t. In (t, kappa) additional) (sym it) more)
      ],
  λ side. elim side [
    | inl first ↦ subst (λ t. In t (name ∷ axes)) (sym first) here
    | inr (kappa, m) ↦
        let (a, it, on) =
          finalize_all-used h hashers chunks final_order results n kappa f
            ((parts (n, kappa)).0 m) in
        elim (init_hashers-asked (name ∷ axes) (λ x. false) hashers a i on) [
          | inl never ↦ absurd (cc never)
          | inr asked ↦ subst (λ t. In t (name ∷ axes)) (sym it) asked
        ]
  ],
)

all_read :
    (h : Hashers) (name : Bytes) (axes : List Bytes) (reader : Reader) (hashers : Initialized)
    (chunks : List Bytes)
    → init_hashers (name ∷ axes) (λ a. false) ≡ ok hashers
    → read_all reader ≡ some chunks
    → MultiEnds h (name ∷ axes) reader
unfolding streaming_compute_multi lift read_chunks
all_read h name axes reader hashers chunks i r =
    let read : read_chunks (codes "multi") reader ≡ ok chunks = rw (read_chunks, r) refl in
    elim (Result-cases (finalize_all h hashers chunks final_order)) [
      | inl (e, f) ↦
          let (a, on, n) = finalize_all-err h hashers chunks final_order e f in
          elim (init_hashers-asked (name ∷ axes) (λ x. false) hashers a i on) [
            | inl never ↦ absurd (cc never)
            | inr asked ↦ inl (
              e,
              rw (streaming_compute_multi, i, read, f) refl,
              inr (
                axis_str a,
                collision_detected,
                asked,
                streaming-collision h a reader chunks r n,
              ),
            )
          ]
      | inr (results, f) ↦
          let (a, n, on) = first_name name axes hashers i in
          let found : remove_named name results ≢ none =
            subst (λ x. remove_named x results ≢ none) (sym (axis_parse-some name a n))
              (finalize_all-named h hashers chunks final_order results a on (every_axis a) f) in
          let singles = finalize_all-IsSingle h hashers reader chunks final_order results r f in
          let (proof, chosen, one, others, parts) =
            choose-IsSingle h reader name axes results singles found in
          inr (
            name,
            axes,
            proof,
            refl,
            streamed h (name ∷ axes) reader hashers chunks results i read f ∙ chosen,
            one,
            others,
            names_labelled h name axes hashers chunks results proof.additional i f parts,
          )
    ]

-- One pass over a reader for several axes does not panic, and ends in one of two ways. It is an error,
-- and then there was no axis, or a pass for one of the axes alone is an error too; or it gives a proof,
-- whose primary label is what a pass for the first axis alone gives, and each of whose further labels is
-- what a pass for its axis alone gives; and an axis was asked for exactly if it is the first one or one of
-- the further labels is under its name.
pub streaming_compute_multi-MultiEnds :
    (h : Hashers) (axes : List Bytes) (reader : Reader) → MultiEnds h axes reader
unfolding streaming_compute_multi lift read_chunks init_hashers finalize_all choose
streaming_compute_multi-MultiEnds h [] reader = elim (Option-cases (read_all reader)) [
  | inl r ↦ inl (
    digest_mismatch [] [] (codes "multi"),
    rw (streaming_compute_multi, read_chunks, r) refl,
    inl refl,
  )
  | inr (chunks, r) ↦
      inl (unknown_axis, rw (streaming_compute_multi, read_chunks, r) refl, inl refl)
]
streaming_compute_multi-MultiEnds h (name ∷ axes) reader =
    elim (Result-cases (init_hashers (name ∷ axes) (λ a. false))) [
      | inl (e, i) ↦
          let alone = init_hashers-err h reader (name ∷ axes) (λ a. false) e i in
          inl (e, rw (streaming_compute_multi, i) refl, inr alone)
      | inr (hashers, i) ↦ elim (Option-cases (read_all reader)) [
        | inl r ↦ read_failed h name axes reader hashers i r
        | inr (chunks, r) ↦ all_read h name axes reader hashers chunks i r
      ]
    ]
