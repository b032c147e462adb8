-- ===== src/Store/Ingest/Succeeds.antt =====
-- An ingest on a disk that works succeeds.
use kappa_registry.Prelude.{◌≡◌, inl, inr, refl, ap, ◌∙◌, arith, Bool, true, false}
use kappa_registry.Prelude.{some, List, [], ◌∷◌, Bytes, All, Bool-cases}
use kappa_registry.Prelude.{◌<◌, ◌≤◌, length, take, drop}
use kappa_registry.Kappa.Label.{Axis, axis_str, as_str}
use kappa_registry.Kappa.Label.{sha1, hex_digits}
use kappa_registry.Kappa.Label.{ok as label_ok}
use kappa_registry.Kappa.Path.Layout.{blob_path_for_iff}
use kappa_registry.Kappa.Label.Grammar.{
  IsLabel, label_of, parse-IsLabel, as_str-label_of, length-IsLabel,
}
use kappa_registry.Kappa.Compute.{Digests, label_text, hex_encode}
use kappa_registry.Kappa.Compute.Verify.{
  IsDigests, digest_of, Verifies, verify_kappa_iff, labelled, compute_kappa-axis_str,
  label_text-IsLabel, NoColon-axis_str, hex_encode-IsHex, length-hex_encode,
}
use kappa_registry.Kappa.Verified.{VerifiedContent, check_match, compute, verify, compute-digest_of}
use kappa_registry.Kappa.Path.{blob_path_for}
use kappa_registry.Store.Ingest.Stores.{axis_enum-label_text}
use kappa_registry.Store.Types.{ok}
use kappa_registry.Dict.{contains_key}
use kappa_registry.Store.Blobs.{path_key, Disk, Fault, no_fault, write_blob, blob_put_verified}
use kappa_registry.Store.Ingest.{IngestResult, axis_eq, put, put_mandatory, ingest, ingest_verified}

abbrev pub HasDigest : Digests → Bytes → Axis → Type 0
HasDigest d content a = (hash : Bytes) × (digest_of d a content ≡ some hash)

length-axis_str : (a : Axis) → 0 < length (axis_str a)
unfolding axis_str
length-axis_str sha1 = omega arith
length-axis_str a = omega arith

hex_digits_bound : (a : Axis) → 40 ≤ hex_digits a
unfolding hex_digits
hex_digits_bound sha1 = omega arith
hex_digits_bound a = omega arith

-- The text of a digest has a path.
path-label_text :
    (d : Digests) (a : Axis) (content hash : Bytes)
    → IsDigests d
    → digest_of d a content ≡ some hash
    → (path : List Bytes) × (blob_path_for (label_text (axis_str a) hash) ≡ ok path)
unfolding label_text
path-label_text d a content hash digests e =
    let l = label_text-IsLabel d a content hash digests e in
    let hex = hex_encode hash in
    let path = axis_str a ∷ take 2 hex ∷ take 2 (drop 2 hex) ∷ hex ∷ [] in
    let (n, bytes) = digests a content hash e in
    (
      path,
      (blob_path_for_iff (label_text (axis_str a) hash) path).1 (record {
        algo = axis_str a;
        hex = hex;
        text = refl;
        nonempty = length-axis_str a;
        no_colon = NoColon-axis_str a;
        long = omega (arith, n, length-hex_encode hash, hex_digits_bound a);
        all_hex = hex_encode-IsHex hash bytes;
        parts = refl;
      }),
    )

put_ok :
    (disk : Disk) (v : VerifiedContent) (path : List Bytes)
    → blob_path_for (as_str v.label) ≡ ok path
    → (stored : Bool) × ((blob_put_verified no_fault disk v).1 ≡ ok stored)
unfolding blob_put_verified write_blob
put_ok disk v path p = elim (Bool-cases (contains_key disk path)) [
  | inl there ↦ (false, rw (blob_put_verified, p, there) refl)
  | inr absent ↦ (true, rw (blob_put_verified, p, absent) refl)
]

module _ (d : Digests) (digests : IsDigests d) where
  -- A disk on which every write works.
  abbrev works : Bytes → Fault
  works kappa = no_fault

  put_digest :
      (a : Axis) (content hash : Bytes) (disk : Disk) (v : VerifiedContent)
      → digest_of d a content ≡ some hash
      → as_str v.label ≡ label_text (axis_str a) hash
      → (stored : Bool) × ((put d works disk v).1 ≡ ok stored)
  unfolding put
  put_digest a content hash disk v e t =
      let (path, p) = path-label_text d a content hash digests e in put_ok disk v path (rw t p)

  compute_ok :
      (a : Axis) (content hash : Bytes)
      → digest_of d a content ≡ some hash
      → (v : VerifiedContent) × (compute d a content ≡ label_ok v)
  unfolding compute labelled
  compute_ok a content hash e = (
    record { label = label_of (label_text (axis_str a) hash); content = content },
    rw (compute_kappa-axis_str d a content digests, e) refl,
  )

  put_mandatory_ok :
      (client : Axis) (content : Bytes) (axes : List Axis) (disk : Disk)
      → All (HasDigest d content) axes
      → (kappas : List Bytes) × ((put_mandatory d works client content axes disk).1 ≡ ok kappas)
  unfolding put_mandatory
  put_mandatory_ok client content [] disk h = ([], refl)
  put_mandatory_ok client content (a ∷ axes) disk ((hash, e), hs) =
      elim (Bool-cases (axis_eq a client)) [
        | inl same ↦
            let (ks, later) = put_mandatory_ok client content axes disk hs in
            (ks, rw (put_mandatory, same) later)
        | inr other ↦
            let (v, c) = compute_ok a content hash e in
            let ((hash', e', t), same) = compute-digest_of d a content v digests c in
            let (stored, p) = put_digest a content hash' disk v e' t in
            let (ks, later) = put_mandatory_ok client content axes (put d works disk v).0 hs in
            (as_str v.label ∷ ks, rw (put_mandatory, other, c, p, later) refl)
      ]

  ingest_ok :
      (a : Axis) (hash : Bytes) (axes : List Axis) (disk : Disk) (v : VerifiedContent)
      → digest_of d a v.content ≡ some hash
      → as_str v.label ≡ label_text (axis_str a) hash
      → All (HasDigest d v.content) axes
      → (r : IngestResult) × ((ingest d works a axes disk v).1 ≡ ok r)
  unfolding ingest
  ingest_ok a hash axes disk v e t hs =
      let (stored, p) = put_digest a v.content hash disk v e t in
      let (ks, later) = put_mandatory_ok a v.content axes (put d works disk v).0 hs in
      (
        record { kappa = as_str v.label; newly_stored = stored; additional_kappas = ks },
        rw (ingest, p, later) refl,
      )

  verify_ok :
      (claimed content : Bytes)
      → Verifies d claimed content
      → verify d claimed content
        ≡ some (label_ok (record { label = label_of claimed; content = content }))
  unfolding verify check_match
  verify_ok claimed content (a, hash, e, t) =
      let l : IsLabel claimed = rw t (label_text-IsLabel d a content hash digests e) in
      let found = (verify_kappa_iff d claimed content digests).1.1 (a, hash, e, t) in
      rw (verify, parse-IsLabel claimed l, found) refl

-- On a disk whose writes work, `ingest_verified` of a content that verifies against the claimed label
-- returns a result and not an error, where the content has a digest under every axis of
-- `mandatory_axes`, which fails only for SHA-1 and a collision.
pub ingest_verified_succeeds :
    (d : Digests) (axes : List Axis) (disk : Disk) (claimed content : Bytes)
    → IsDigests d
    → Verifies d claimed content
    → All (HasDigest d content) axes
    → (after : Disk) × (r : IngestResult) × (ingest_verified d
          (λ kappa. no_fault)
          axes
          disk
          claimed
          content
        ≡ some (after, ok r))
unfolding ingest_verified
ingest_verified_succeeds d axes disk claimed content digests (a, hash, e, t) hs =
    let v : VerifiedContent = record { label = label_of claimed; content = content } in
    let l : IsLabel claimed = rw t (label_text-IsLabel d a content hash digests e) in
    let text : as_str (label_of claimed) ≡ label_text (axis_str a) hash =
      as_str-label_of claimed (length-IsLabel claimed l).1 ∙ t in
    let (r, ran) = ingest_ok d digests a hash axes disk v e text hs in
    let run = ingest d (λ kappa. no_fault) a axes disk v in
    let whole : run ≡ (run.0, ok r) = ap (λ x. (run.0, x)) ran in
    (
      run.0,
      r,
      rw
          (
            ingest_verified,
            verify_ok d digests claimed content (a, hash, e, t),
            axis_enum-label_text (label_of claimed) a hash text,
          )
          (ap some whole),
    )
