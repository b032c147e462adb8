-- ===== src/Kappa/Compute/Streaming.antt =====
-- Streaming over reads against one computation on the whole content.
use kappa_registry.Prelude.{◌≡◌, refl, ap, inl, inr}
use kappa_registry.Prelude.{Option, none, some, List, [], ◌∷◌, ◌++◌}
use kappa_registry.Prelude.{Bytes, Option-cases, arith}
use kappa_registry.Kappa.Label.{Axis, sha1, sha256, blake3, sha512, sha3_256, keccak256, axis_str}
use kappa_registry.Kappa.Label.{
  Result, ok, err, KappaLabel, collision_detected, unknown_axis, digest_mismatch, as_str,
  axis_parse,
}
use kappa_registry.Kappa.Label.Grammar.{as_str-label_of, length-IsLabel, axis_parse-some}
use kappa_registry.Kappa.Compute.{Digests, Hashers, Reader, compute_kappa, read_all, read_chunks}
use kappa_registry.Kappa.Compute.{label_text, sha1_text, streaming_compute_kappa}
use kappa_registry.Kappa.Compute.Verify.{IsDigests, digest_of, labelled, compute_kappa-axis_str}
use kappa_registry.Kappa.Compute.Verify.{label_text-IsLabel}

abbrev pub concat : List Bytes → Bytes
concat [] = []
concat (c ∷ cs) = c ++ concat cs

-- An incremental hasher gives the digest of what it was given.
pub record IsIncremental (d : Digests) (h : Hashers) : Type 0 where
  pub sha1_chunks : (cs : List Bytes) → h.sha1_finalize cs ≡ d.sha1_digest (concat cs)
  pub sha256_chunks : (cs : List Bytes) → h.sha256_finalize cs ≡ d.sha256_digest (concat cs)
  pub blake3_chunks : (cs : List Bytes) → h.blake3_finalize cs ≡ d.blake3_digest (concat cs)
  pub sha512_chunks : (cs : List Bytes) → h.sha512_finalize cs ≡ d.sha512_digest (concat cs)
  pub sha3_256_chunks : (cs : List Bytes) → h.sha3_256_finalize cs ≡ d.sha3_256_digest (concat cs)
  pub keccak256_chunks :
      (cs : List Bytes) → h.keccak256_finalize cs ≡ d.keccak256_digest (concat cs)

-- The text of the label, where there is one.
abbrev pub text_of : Result KappaLabel → Result Bytes
text_of (err e) = err e
text_of (ok k) = ok (as_str k)

text_digest : Axis → Option Bytes → Result Bytes
text_digest a none = err collision_detected
text_digest a (some hash) = ok (label_text (axis_str a) hash)

sha1_text-text_digest : (hash : Option Bytes) → sha1_text hash ≡ text_digest sha1 hash
unfolding sha1_text text_digest axis_str
sha1_text-text_digest none = refl
sha1_text-text_digest (some hash) = refl

-- What is streamed under an axis.
streaming-axis_str :
    (d : Digests) (h : Hashers) (a : Axis) (reader : Reader) (chunks : List Bytes)
    → IsIncremental d h
    → read_all reader ≡ some chunks
    → streaming_compute_kappa h (axis_str a) reader ≡ text_digest a (digest_of d a (concat chunks))
unfolding streaming_compute_kappa read_chunks axis_str text_digest sha1_text
streaming-axis_str d h sha1 reader chunks i r =
    rw (read_chunks, r, i.sha1_chunks chunks) (sha1_text-text_digest _)
streaming-axis_str d h sha256 reader chunks i r = rw (read_chunks, r, i.sha256_chunks chunks) refl
streaming-axis_str d h blake3 reader chunks i r = rw (read_chunks, r, i.blake3_chunks chunks) refl
streaming-axis_str d h sha512 reader chunks i r = rw (read_chunks, r, i.sha512_chunks chunks) refl
streaming-axis_str d h sha3_256 reader chunks i r =
    rw (read_chunks, r, i.sha3_256_chunks chunks) refl
streaming-axis_str d h keccak256 reader chunks i r =
    rw (read_chunks, r, i.keccak256_chunks chunks) refl

text_of-labelled :
    (d : Digests) (a : Axis) (content : Bytes)
    → IsDigests d
    → text_of (labelled a (digest_of d a content)) ≡ text_digest a (digest_of d a content)
unfolding labelled text_digest
text_of-labelled d a content i = elim (Option-cases (digest_of d a content)) [
  | inl e ↦ rw e refl
  | inr (hash, e) ↦
      let l = label_text-IsLabel d a content hash i e in
      rw e (ap ok (as_str-label_of _ (length-IsLabel _ l).1))
]

pub unknown_axis_lem :
    (h : Hashers) (axis : Bytes) (reader : Reader)
    → axis_parse axis ≡ none
    → streaming_compute_kappa h axis reader ≡ err unknown_axis
unfolding axis_parse streaming_compute_kappa
unknown_axis_lem h axis reader e = ground arith

pub failed_read :
    (h : Hashers) (a : Axis) (reader : Reader)
    → read_all reader ≡ none
    → streaming_compute_kappa h (axis_str a) reader ≡ err (digest_mismatch [] [] (axis_str a))
unfolding streaming_compute_kappa read_chunks axis_str
failed_read h sha1 reader r = rw (read_chunks, r) refl
failed_read h a reader r = rw (read_chunks, r) refl

-- The content that a reader gives up to the first read of no bytes, `none` if a read before that fails.
unfoldable pub read_to_end : Reader → Option Bytes
read_to_end [] = some []
read_to_end (none ∷ reads) = none
read_to_end (some [] ∷ reads) = some []
read_to_end (some (b ∷ bytes) ∷ reads) = elim (read_to_end reads) [
  | none ↦ none
  | some content ↦ some ((b ∷ bytes) ++ content)
]

read_to_end-read_all :
    (reader : Reader)
    → read_to_end reader
      ≡ elim (read_all reader) [ none ↦ none | some chunks ↦ some (concat chunks) ]
unfolding read_to_end read_all
read_to_end-read_all [] = refl
read_to_end-read_all (none ∷ reads) = refl
read_to_end-read_all (some [] ∷ reads) = refl
read_to_end-read_all (some (b ∷ bytes) ∷ reads) =
    let rest = read_to_end-read_all reads in
    elim (Option-cases (read_all reads)) [
      | inl r ↦ rw (rest, r) refl
      | inr (chunks, r) ↦ rw (rest, r) refl
    ]

-- All reads first, and then one computation on all that was read.
unfoldable pub read_then_compute : Digests → Bytes → Reader → Result Bytes
read_then_compute d axis reader = elim (axis_parse axis) [
  | none ↦ err unknown_axis
  | some a ↦ elim (read_to_end reader) [
    | none ↦ err (digest_mismatch [] [] axis)
    | some content ↦ text_of (compute_kappa d axis content)
  ]
]

known_axis_lem :
    (d : Digests) (h : Hashers) (a : Axis) (reader : Reader)
    → IsDigests d
    → IsIncremental d h
    → axis_parse (axis_str a) ≡ some a
    → streaming_compute_kappa h (axis_str a) reader ≡ read_then_compute d (axis_str a) reader
unfolding read_then_compute
known_axis_lem d h a reader i j e = elim (Option-cases (read_all reader)) [
  | inl r ↦ rw (read_then_compute, e, read_to_end-read_all reader, r) (failed_read h a reader r)
  | inr (chunks, r) ↦
      rw
        (
          read_then_compute,
          e,
          read_to_end-read_all reader,
          r,
          compute_kappa-axis_str d a (concat chunks) i,
          text_of-labelled d a (concat chunks) i,
        )
        (streaming-axis_str d h a reader chunks j r)
]

-- For hashers whose digest is that of the concatenation of what they were given, and digests of the
-- documented lengths, streaming does the same as reading everything up to the first empty read and computing
-- once: on an unknown axis it is an error, where a read before that fails it is an error that names the axis,
-- and else it is the text of the label that `compute_kappa` gives of all bytes read, or its error.
pub streaming_compute_kappa-read_then_compute :
    (d : Digests) (h : Hashers) (axis : Bytes) (reader : Reader)
    → IsDigests d
    → IsIncremental d h
    → streaming_compute_kappa h axis reader ≡ read_then_compute d axis reader
unfolding read_then_compute
streaming_compute_kappa-read_then_compute d h axis reader i j =
    elim (Option-cases (axis_parse axis)) [
      | inl e ↦ rw (read_then_compute, e) (unknown_axis_lem h axis reader e)
      | inr (a, e) ↦
          let name = axis_parse-some axis a e in
          rw name (known_axis_lem d h a reader i j (rw (← name) e))
    ]
