-- ===== src/Kappa/Compute/Multi.antt =====
-- `streaming_compute_multi` of crates/kappa-core/src/kappa/compute.rs: one pass over a reader for several
-- axes. The six optional hashers are the function that says of each axis whether it has one.
pub mod Names
pub mod Results
pub mod Agrees
use kappa_registry.Prelude.{
  ◌≡◌, ◌≢◌, refl, sym, ap, ◌∙◌, subst, arith, Bool, true, false, ◌||◌, if◌then◌else◌,
}
use kappa_registry.Prelude.{
  Option, none, some, List, [], ◌∷◌, Bytes, codes, bytes_eq, bytes_eq→eq, bytes_eq_refl, All,
  Option-cases, Bool-cases, inl, inr,
}
use kappa_registry.Kappa.Label.{
  Axis, sha1, sha256, blake3, sha512, sha3_256, keccak256, axis_str, axis_parse,
}
use kappa_registry.Kappa.Label.{
  Result, ok, err, ◌>>=◌, unknown_axis, collision_detected, digest_mismatch,
}
use kappa_registry.Kappa.Label.Grammar.{axis_parse-some}
use kappa_registry.Kappa.Compute.{
  Hashers, Reader, read_all, read_chunks, label_text, sha1_text, streaming_compute_kappa,
}
use kappa_registry.Kappa.Compute.Verify.{Result-cases}

-- `StreamingVerificationProof`
pub record StreamingProof : Type 0 where
  pub primary : Bytes
  pub additional : List (Bytes × Bytes)

abbrev pub Initialized : Type 0
Initialized = Axis → Bool

unfoldable pub initialize : Axis → Initialized → Initialized
initialize a hashers x = bytes_eq (axis_str a) (axis_str x) || hashers x

-- `for axis in axes`; the axes that the match knows are those of `Axis::parse`.
unfoldable pub init_hashers : List Bytes → Initialized → Result Initialized
init_hashers [] hashers = ok hashers
init_hashers (name ∷ axes) hashers = elim (axis_parse name) [
  | none ↦ err unknown_axis
  | some a ↦ init_hashers axes (initialize a hashers)
]

unfoldable pub finalize : Hashers → Axis → List Bytes → Option Bytes
finalize h sha256 chunks = some (h.sha256_finalize chunks)
finalize h sha512 chunks = some (h.sha512_finalize chunks)
finalize h blake3 chunks = some (h.blake3_finalize chunks)
finalize h sha3_256 chunks = some (h.sha3_256_finalize chunks)
finalize h keccak256 chunks = some (h.keccak256_finalize chunks)
finalize h sha1 chunks = h.sha1_finalize chunks

-- The order in which the hashers are finalized.
abbrev pub final_order : List Axis
final_order = sha256 ∷ sha512 ∷ blake3 ∷ sha3_256 ∷ keccak256 ∷ sha1 ∷ []

-- The names and the labels that are pushed to `results`.
unfoldable pub finalize_all :
    Hashers → Initialized → List Bytes → List Axis → Result (List (Bytes × Bytes))
finalize_all h hashers chunks [] = ok []
finalize_all h hashers chunks (a ∷ order) =
    let rest = finalize_all h hashers chunks order in
    if hashers a
    then elim (finalize h a chunks) [
      | none ↦ err collision_detected
      | some hash ↦ rest >>= λ results. ok ((axis_str a, label_text (axis_str a) hash) ∷ results)
    ]
    else rest

-- `results.remove(..)` at the position of a name, if it has one.
unfoldable pub remove_named : Bytes → List (Bytes × Bytes) → Option (Bytes × List (Bytes × Bytes))
remove_named name [] = none
remove_named name ((a, kappa) ∷ results) =
    let later = remove_named name results in
    if bytes_eq a name
    then some (kappa, results)
    else elim later [ none ↦ none | some (k, rest) ↦ some (k, (a, kappa) ∷ rest) ]

-- The primary result, or the first; `none` is the panic of `axes[0]`.
unfoldable pub choose : List Bytes → List (Bytes × Bytes) → Option (Result StreamingProof)
choose axes [] = some (err unknown_axis)
choose [] (r ∷ results) = none
choose (name ∷ axes) ((a, kappa) ∷ results) = elim (remove_named name ((a, kappa) ∷ results)) [
  | none ↦ some (ok (record { primary = kappa; additional = results }))
  | some (k, rest) ↦ some (ok (record { primary = k; additional = rest }))
]

unfoldable pub lift :
    {A : Type 0} → Result A → (A → Option (Result StreamingProof)) → Option (Result StreamingProof)
lift (err e) f = some (err e)
lift (ok a) f = f a

unfoldable pub streaming_compute_multi :
    Hashers → List Bytes → Reader → Option (Result StreamingProof)
streaming_compute_multi h axes reader = lift (init_hashers axes (λ a. false)) (λ hashers.
    lift (read_chunks (codes "multi") reader)
      (λ chunks. lift (finalize_all h hashers chunks final_order) (λ results. choose axes results)))
