-- ===== src/Store/Ingest/Keeps.antt =====
-- What an ingest keeps of the disk, and what it stores.
use kappa_registry.Prelude.{Bool}
use kappa_registry.Prelude.{◌≡◌, ◌⊎◌, inl, inr, arith}
use kappa_registry.Prelude.{some, List, [], ◌∷◌, Bytes, Option-cases, Bool-cases}
use kappa_registry.Kappa.Label.{Axis, as_str, axis_enum}
use kappa_registry.Kappa.Label.{ok as label_ok, err as label_err}
use kappa_registry.Kappa.Label.Grammar.{IsLabel}
use kappa_registry.Kappa.Compute.{Digests}
use kappa_registry.Kappa.Compute.Verify.{IsDigests, Verifies}
use kappa_registry.Kappa.Compute.Verify.{Result-cases as label-cases}
use kappa_registry.Kappa.Verified.{
  VerifiedContent, compute, verify, compute-Verifies, verify-Verifies,
}
use kappa_registry.Store.Types.{Result, ok, err, rejected, Result-cases}
use kappa_registry.Dict.{get}
use kappa_registry.Store.Blobs.{Disk, Fault, blob_get, blob_delete}
use kappa_registry.Store.Blobs.Sound.{
  IsSound, blob_get_inv, blob_put_verified-IsSound, blob_delete-IsSound,
}
use kappa_registry.Store.Ingest.{
  IngestResult, axis_eq, put, put_mandatory, ingest, ingest_verified, ingest_compute,
}

-- What an ingest of claimed content comes to.
pub ingest_verified_inv :
    (d : Digests) (fault : Bytes → Fault) (axes : List Axis) (disk : Disk) (claimed content : Bytes)
    (after : Disk × Result IngestResult)
    → ingest_verified d fault axes disk claimed content ≡ some after
    → (after ≡ (disk, err rejected))
      ⊎ ((v : VerifiedContent) × (a : Axis) × (verify d claimed content ≡ some (label_ok v))
          × (axis_enum v.label ≡ some a)
          × (after ≡ ingest d fault a axes disk v))
unfolding ingest_verified
ingest_verified_inv d fault axes disk claimed content after e =
    elim (Option-cases (verify d claimed content)) [
      | inl n ↦ absurd (ground arith)
      | inr (label_err f, r) ↦ inl (ground arith)
      | inr (label_ok v, r) ↦ elim (Option-cases (axis_enum v.label)) [
        | inl n ↦ absurd (ground arith)
        | inr (a, n) ↦ inr (v, a, r, n, ground arith)
      ]
    ]

-- A property of disks that the put of a verified content keeps.
module _ {ℓ} (d : Digests) (fault : Bytes → Fault) (digests : IsDigests d) (P : Disk → Type ℓ) where
  abbrev pub IsKept : Type ℓ
  IsKept =
      (disk : Disk) (v : VerifiedContent)
      → Verifies d (as_str v.label) v.content
      → P disk
      → P (put d fault disk v).0

  pub put_mandatory-keeps :
      (client : Axis) (content : Bytes) (axes : List Axis) (disk : Disk)
      → IsKept
      → P disk
      → P (put_mandatory d fault client content axes disk).0
  unfolding put_mandatory
  put_mandatory-keeps client content [] disk k h = h
  put_mandatory-keeps client content (a ∷ axes) disk k h = elim (Bool-cases (axis_eq a client)) [
    | inl same ↦ rw same (put_mandatory-keeps client content axes disk k h)
    | inr other ↦ elim (label-cases (compute d a content)) [
      | inl (e, c) ↦ rw (other, c) h
      | inr (v, c) ↦
          let (fits, same) = compute-Verifies d a content v digests c in
          let kept = k disk v (rw same fits) h in
          elim (Result-cases (put d fault disk v).1) [
            | inr (e, p) ↦ rw (other, c, p) kept
            | inl (stored, p) ↦
                rw (other, c, p)
                  (put_mandatory-keeps client content axes (put d fault disk v).0 k kept)
          ]
    ]
  ]

  pub ingest-keeps :
      (client : Axis) (axes : List Axis) (disk : Disk) (v : VerifiedContent)
      → IsKept
      → Verifies d (as_str v.label) v.content
      → P disk
      → P (ingest d fault client axes disk v).0
  unfolding ingest
  ingest-keeps client axes disk v k fits h =
      let kept = k disk v fits h in
      elim (Result-cases (put d fault disk v).1) [
        | inr (e, p) ↦ rw (ingest, p) kept
        | inl (stored, p) ↦
            rw (ingest, p) (put_mandatory-keeps client v.content axes (put d fault disk v).0 k kept)
      ]

  pub ingest_compute-keeps :
      (axes : List Axis) (disk : Disk) (a : Axis) (content : Bytes)
      → IsKept
      → P disk
      → P (ingest_compute d fault axes disk a content).0
  unfolding ingest_compute
  ingest_compute-keeps axes disk a content k h = elim (label-cases (compute d a content)) [
    | inl (e, c) ↦ rw (ingest_compute, c) h
    | inr (v, c) ↦
        let (fits, same) = compute-Verifies d a content v digests c in
        rw (ingest_compute, c) (ingest-keeps a axes disk v k (rw same fits) h)
  ]

  pub ingest_verified-keeps :
      (axes : List Axis) (disk : Disk) (claimed content : Bytes)
      (after : Disk × Result IngestResult)
      → IsKept
      → ingest_verified d fault axes disk claimed content ≡ some after
      → P disk
      → P after.0
  ingest_verified-keeps axes disk claimed content after k e h =
      elim (ingest_verified_inv d fault axes disk claimed content after e) [
        | inl same ↦ rw same h
        | inr (v, a, r, n, same) ↦
            let (fits, text, body) = verify-Verifies d claimed content v digests r in
            rw same (ingest-keeps a axes disk v k (rw (text, body) fits) h)
      ]

-- One call on the blobs, whatever the disk does in it.
pub data Step (d : Digests) : Disk → Disk → Type 0 where
  verified_step :
      (fault : Bytes → Fault) (axes : List Axis) {disk : Disk} (claimed content : Bytes)
      (after : Disk × Result IngestResult)
      → ingest_verified d fault axes disk claimed content ≡ some after
      → Step d disk after.0
  compute_step :
      (fault : Bytes → Fault) (axes : List Axis) {disk : Disk} (a : Axis) (content : Bytes)
      → Step d disk (ingest_compute d fault axes disk a content).0
  delete_step :
      {disk : Disk} (fails : Bool) (kappa : Bytes) → Step d disk (blob_delete fails disk kappa).0

pub data Reached (d : Digests) : Disk → Type 0 where
  start : Reached d []
  next : {disk disk' : Disk} → Reached d disk → Step d disk disk' → Reached d disk'

put-IsKept :
    (d : Digests) (fault : Bytes → Fault) (digests : IsDigests d)
    → IsKept d fault digests (IsSound d)
unfolding put
put-IsKept d fault digests disk v fits sound =
    blob_put_verified-IsSound d (fault (as_str v.label)) disk v sound fits

Step-IsSound :
    (d : Digests) {disk disk' : Disk}
    → IsDigests d
    → Step d disk disk'
    → IsSound d disk
    → IsSound d disk'
Step-IsSound d digests (verified_step fault axes claimed content after e) sound =
    ingest_verified-keeps d fault digests (IsSound d) axes _ claimed content after
      (put-IsKept d fault digests) e sound
Step-IsSound d digests (compute_step fault axes a content) sound =
    ingest_compute-keeps d fault digests (IsSound d) axes _ a content (put-IsKept d fault digests)
      sound
Step-IsSound d digests (delete_step fails kappa) sound = blob_delete-IsSound d fails _ kappa sound

pub empty-IsSound : (d : Digests) → IsSound d []
unfolding get
empty-IsSound d kappa content l g =
    let (path, p, n) = blob_get_inv [] kappa content g in absurd (cc n)

reached : (d : Digests) {disk : Disk} → IsDigests d → Reached d disk → IsSound d disk
reached d digests start = empty-IsSound d
reached d digests (next r s) = Step-IsSound d digests s (reached d digests r)

-- On every disk that starts empty and is changed by `ingest_verified`, `ingest_compute` and
-- `blob_delete` only, in any order, with any step of any write failing and leaving any bytes behind, a
-- content that `blob_get` reads under a label that `parse` accepts has the digest in that label.
pub Reached-IsSound :
    (d : Digests) (disk : Disk) (kappa content : Bytes)
    → IsDigests d
    → Reached d disk
    → IsLabel kappa
    → blob_get disk kappa ≡ ok content
    → Verifies d kappa content
Reached-IsSound d disk kappa content digests r l g = reached d digests r kappa content l g
