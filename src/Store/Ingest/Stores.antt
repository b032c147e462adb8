-- ===== src/Store/Ingest/Stores.antt =====
-- What can be read after an ingest that succeeds.
use kappa_registry.Prelude.{◌≡◌, ◌≢◌, ◌⊎◌, inl, inr, refl, sym, ap, ◌∙◌, subst, arith, Bool, true}
use kappa_registry.Prelude.{some, List, [], ◌∷◌, Bytes, Bytes-discrete, All, Bool-cases}
use kappa_registry.Prelude.{bytes_eq→eq, bytes_eq_refl, take-length_append}
use kappa_registry.Kappa.Label.{Axis, axis_str, as_str, axis_enum, axis_parse}
use kappa_registry.Kappa.Label.{sha1}
use kappa_registry.Kappa.Label.{ok as label_ok}
use kappa_registry.Kappa.Label.{KappaLabel, axis}
use kappa_registry.Kappa.Path.Layout.{position_colon-append}
use kappa_registry.Kappa.Label.Grammar.{IsLabel}
use kappa_registry.Kappa.Compute.{Digests, label_text, hex_encode}
use kappa_registry.Kappa.Compute.Verify.{
  IsDigests, digest_of, Verifies, label_text-IsLabel, NoColon-axis_str,
}
use kappa_registry.Kappa.Compute.Verify.{Result-cases as label-cases}
use kappa_registry.Kappa.Verified.{
  VerifiedContent, compute, compute-Verifies, compute-digest_of, verify-Verifies,
}
use kappa_registry.Store.Types.{ok, ◌>>=◌, Result-cases}
use kappa_registry.Store.Blobs.{Disk, Fault, blob_get}
use kappa_registry.Store.Blobs.Sound.{
  IsSound, blob_put_verified-IsSound, blob_put_verified-keeps, blob_put_verified-ok,
}
use kappa_registry.Store.Ingest.{IngestResult, axis_eq, put, put_mandatory, ingest, ingest_verified}
use kappa_registry.Store.Ingest.Keeps.{IsKept, put_mandatory-keeps, ingest_verified_inv}

-- A blob can be read under the label; it is the content, or both have the digest in the label.
abbrev pub Holds : Digests → Disk → Bytes → Bytes → Type 0
Holds d disk content kappa =
    (stored : Bytes) × (blob_get disk kappa ≡ ok stored)
    × ((stored ≡ content)
        ⊎ ((stored ≢ content) × Verifies d kappa stored × Verifies d kappa content))

-- The blob of a content under an axis.
abbrev pub HoldsAxis : Digests → Disk → Bytes → Axis → Type 0
HoldsAxis d disk content a =
    (hash : Bytes) × (digest_of d a content ≡ some hash)
    × Holds d disk content (label_text (axis_str a) hash)

axis_parse-axis_str : (a : Axis) → axis_parse (axis_str a) ≡ some a
unfolding axis_parse axis_str
axis_parse-axis_str sha1 = refl
axis_parse-axis_str a = refl

axis_eq→eq : (a b : Axis) → axis_eq a b ≡ true → a ≡ b
unfolding axis_eq
axis_eq→eq a b h =
    cc (bytes_eq→eq (axis_str a) (axis_str b) h, axis_parse-axis_str a, axis_parse-axis_str b)

axis_eq_refl : (a : Axis) → axis_eq a a ≡ true
unfolding axis_eq
axis_eq_refl a = bytes_eq_refl (axis_str a)

module _ (d : Digests) (fault : Bytes → Fault) (digests : IsDigests d) where
  -- The put of a verified content that succeeds.
  put-Holds :
      (disk : Disk) (v : VerifiedContent) (stored : Bool)
      → IsSound d disk
      → Verifies d (as_str v.label) v.content
      → (put d fault disk v).1 ≡ ok stored
      → Holds d (put d fault disk v).0 v.content (as_str v.label)
  unfolding put
  put-Holds disk v stored sound (a, hash, e, t) p =
      let fits : Verifies d (as_str v.label) v.content = (a, hash, e, t) in
      let (c, read) = blob_put_verified-ok (fault (as_str v.label)) disk v stored p in
      let after = blob_put_verified-IsSound d (fault (as_str v.label)) disk v sound fits in
      let l : IsLabel (as_str v.label) = rw t (label_text-IsLabel d a v.content hash digests e) in
      elim (Bytes-discrete c v.content) [
        | yes same ↦ (c, read, inl same)
        | no other ↦ (c, read, inr (other, after (as_str v.label) c l read, fits))
      ]

  keeps-Holds :
      (kappa content : Bytes) → IsKept d fault digests (λ disk. Holds d disk content kappa)
  unfolding put
  keeps-Holds kappa content disk v fits (stored, read, what) =
      (stored, blob_put_verified-keeps (fault (as_str v.label)) disk v kappa stored read, what)

  -- What holds of a client's axis holds after the loop.
  keeps-HoldsAxis :
      (client a : Axis) (content content' : Bytes) (axes : List Axis) (disk : Disk)
      → HoldsAxis d disk content a
      → HoldsAxis d (put_mandatory d fault client content' axes disk).0 content a
  keeps-HoldsAxis client a content content' axes disk (hash, e, h) = (
    hash,
    e,
    put_mandatory-keeps d fault digests
        (λ disk. Holds d disk content (label_text (axis_str a) hash)) client content' axes disk
        (keeps-Holds (label_text (axis_str a) hash) content) h,
  )

  put-IsSound :
      (disk : Disk) (v : VerifiedContent)
      → IsSound d disk
      → Verifies d (as_str v.label) v.content
      → IsSound d (put d fault disk v).0
  unfolding put
  put-IsSound disk v sound fits =
      blob_put_verified-IsSound d (fault (as_str v.label)) disk v sound fits

  put-keeps-HoldsAxis :
      (a : Axis) (content : Bytes) (disk : Disk) (v : VerifiedContent)
      → HoldsAxis d disk content a
      → Verifies d (as_str v.label) v.content
      → HoldsAxis d (put d fault disk v).0 content a
  put-keeps-HoldsAxis a content disk v (hash, e, h) fits =
      (hash, e, keeps-Holds (label_text (axis_str a) hash) content disk v fits h)

  -- The put under an axis that succeeds.
  put-HoldsAxis :
      (a : Axis) (content : Bytes) (disk : Disk) (v : VerifiedContent) (stored : Bool)
      → IsSound d disk
      → compute d a content ≡ label_ok v
      → (put d fault disk v).1 ≡ ok stored
      → HoldsAxis d (put d fault disk v).0 content a
  put-HoldsAxis a content disk v stored sound c p =
      let ((hash, e, t), same) = compute-digest_of d a content v digests c in
      let held = put-Holds disk v stored sound (a, hash, rw same e, t) p in
      (hash, e, rw (← t, ← same) held)

  -- The loop that succeeds: every axis but the client's has its blob.
  put_mandatory-Holds :
      (client : Axis) (content : Bytes) (axes : List Axis) (disk : Disk) (kappas : List Bytes)
      → IsSound d disk
      → HoldsAxis d disk content client
      → (put_mandatory d fault client content axes disk).1 ≡ ok kappas
      → All (HoldsAxis d (put_mandatory d fault client content axes disk).0 content) axes
  unfolding put_mandatory
  put_mandatory-Holds client content [] disk kappas sound first h = tt
  put_mandatory-Holds client content (a ∷ axes) disk kappas sound first h =
      elim (Bool-cases (axis_eq a client)) [
        | inl same ↦
            let here : HoldsAxis d disk content a = rw (axis_eq→eq a client same) first in
            let run : (put_mandatory d fault client content axes disk).1 ≡ ok kappas =
              ground (arith, same, h) in
            let step : put_mandatory d fault client content (a ∷ axes) disk
                ≡ put_mandatory d fault client content axes disk =
              rw (put_mandatory, same) refl in
            subst (λ r. All (HoldsAxis d r.0 content) (a ∷ axes)) (sym step)
              (
                keeps-HoldsAxis client a content content axes disk here,
                put_mandatory-Holds client content axes disk kappas sound first run,
              )
        | inr other ↦ elim (label-cases (compute d a content)) [
          | inl (e, c) ↦ absurd (ground (arith, other, c, h))
          | inr (v, c) ↦ elim (Result-cases (put d fault disk v).1) [
            | inr (e, p) ↦ absurd (ground (arith, other, c, p, h))
            | inl (stored, p) ↦
                let (fits, same) = compute-Verifies d a content v digests c in
                let disk1 = (put d fault disk v).0 in
                let later = put_mandatory d fault client content axes disk1 in
                let step : put_mandatory d fault client content (a ∷ axes) disk
                    ≡ (later.0, later.1 >>= λ ks. ok (as_str v.label ∷ ks)) =
                  rw (put_mandatory, other, c, p) refl in
                let here = put-HoldsAxis a content disk v stored sound c p in
                let sound1 = put-IsSound disk v sound (rw same fits) in
                let first1 = put-keeps-HoldsAxis client content disk v first (rw same fits) in
                elim (Result-cases later.1) [
                  | inr (e, q) ↦ absurd (ground (arith, step, q, h))
                  | inl (ks, q) ↦
                      subst (λ r. All (HoldsAxis d r.0 content) (a ∷ axes)) (sym step)
                        (
                          keeps-HoldsAxis client a content content axes disk1 here,
                          put_mandatory-Holds client content axes disk1 ks sound1 first1 q,
                        )
                ]
          ]
        ]
      ]

  -- Both of an ingest's parts, where it succeeds.
  ingest-Holds :
      (a : Axis) (hash : Bytes) (axes : List Axis) (disk : Disk) (v : VerifiedContent)
      (r : IngestResult)
      → IsSound d disk
      → digest_of d a v.content ≡ some hash
      → as_str v.label ≡ label_text (axis_str a) hash
      → (ingest d fault a axes disk v).1 ≡ ok r
      → (r.kappa ≡ as_str v.label)
        × Holds d (ingest d fault a axes disk v).0 v.content (as_str v.label)
        × All (HoldsAxis d (ingest d fault a axes disk v).0 v.content) axes
  unfolding ingest
  ingest-Holds a hash axes disk v r sound e t h = elim (Result-cases (put d fault disk v).1) [
    | inr (f, p) ↦ absurd (ground (arith, p, h))
    | inl (stored, p) ↦
        let fits : Verifies d (as_str v.label) v.content = (a, hash, e, t) in
        let disk1 = (put d fault disk v).0 in
        let later = put_mandatory d fault a v.content axes disk1 in
        let held = put-Holds disk v stored sound fits p in
        let sound1 = put-IsSound disk v sound fits in
        let first : HoldsAxis d disk1 v.content a = (hash, e, rw (← t) held) in
        elim (Result-cases later.1) [
          | inr (f, q) ↦ absurd (ground (arith, p, q, h))
          | inl (ks, q) ↦
              let done : (ingest d fault a axes disk v).0 ≡ later.0 = rw (ingest, p) refl in
              let named : r.kappa ≡ as_str v.label = ground (arith, p, q, h) in
              (
                named,
                rw done (
                    put_mandatory-keeps d fault digests
                      (λ disk. Holds d disk v.content (as_str v.label)) a v.content axes disk1
                      (keeps-Holds (as_str v.label) v.content) held),
                rw done (put_mandatory-Holds a v.content axes disk1 ks sound1 first q),
              )
        ]
  ]

pub axis_enum-label_text :
    (label : KappaLabel) (a : Axis) (hash : Bytes)
    → as_str label ≡ label_text (axis_str a) hash
    → axis_enum label ≡ some a
unfolding axis_enum axis label_text
axis_enum-label_text label a hash t =
    let colon = position_colon-append (axis_str a) (hex_encode hash) (NoColon-axis_str a) in
    let name = take-length_append (axis_str a) (b':' ∷ hex_encode hash) in
    rw (axis_enum, axis, t, colon, t, name) (axis_parse-axis_str a)

-- Where `ingest_verified` succeeds on a disk whose blobs verify, it returns the claimed label, and the
-- content can be read under that label and under the label of every axis of `mandatory_axes`: what is
-- read is the content, or another content with the same digest.
pub ingest_verified_stores :
    (d : Digests) (fault : Bytes → Fault) (axes : List Axis) (disk after : Disk)
    (claimed content : Bytes) (r : IngestResult)
    → IsDigests d
    → IsSound d disk
    → ingest_verified d fault axes disk claimed content ≡ some (after, ok r)
    → (r.kappa ≡ claimed) × Holds d after content claimed × All (HoldsAxis d after content) axes
ingest_verified_stores d fault axes disk after claimed content r digests sound e =
    elim (ingest_verified_inv d fault axes disk claimed content (after, ok r) e) [
      | inl refused ↦ absurd (cc refused)
      | inr (v, a, q, n, same) ↦
          let ((b, hash, f, t), text, body) = verify-Verifies d claimed content v digests q in
          let t' : as_str v.label ≡ label_text (axis_str b) hash = text ∙ t in
          let axes_agree : b ≡ a = cc (axis_enum-label_text v.label b hash t', n) in
          let disk_same : after ≡ (ingest d fault b axes disk v).0 =
            rw axes_agree (ap (λ x. x.0) same) in
          let ran : (ingest d fault b axes disk v).1 ≡ ok r =
            rw axes_agree (sym (ap (λ x. x.1) same)) in
          let (named, held, all) =
            ingest-Holds d fault digests b hash axes disk v r sound (rw body f) t' ran in
          (named ∙ text, rw (disk_same, ← text, ← body) held, rw (disk_same, ← body) all)
    ]
