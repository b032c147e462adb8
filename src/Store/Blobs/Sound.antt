-- ===== src/Store/Blobs/Sound.antt =====
-- What stands on the disk under the path of a label verifies against the label.
use kappa_registry.Prelude.{Bool, true, false}
use kappa_registry.Prelude.{◌≡◌, ◌≢◌, ◌⊎◌, inl, inr, refl, arith, Bool, if◌then◌else◌}
use kappa_registry.Prelude.{
  some, List, [], ◌∷◌, ◌++◌, Bytes, codes, take, drop, All, Option-cases, Bool-cases,
}
use kappa_registry.Dict.{get, insert, remove, contains_key, get-insert, get-remove}
use kappa_registry.Kappa.Label.{as_str}
use kappa_registry.Kappa.Label.Grammar.{IsHex, IsLabel}
use kappa_registry.Kappa.Path.{blob_path_for}
use kappa_registry.Kappa.Path.Layout.{blob_path_for_iff, blob_path_for_injective}
use kappa_registry.Kappa.Verified.{VerifiedContent}
use kappa_registry.Kappa.Compute.{Digests}
use kappa_registry.Kappa.Compute.Verify.{Verifies}
use kappa_registry.Store.Types.{ok, Result-cases}
use kappa_registry.Store.Blobs.{
  Disk, Fault, no_fault, create_dir_fails, write_fails, rename_fails, path_key, paths_eq_iff,
  paths_eq,
}
use kappa_registry.Store.Blobs.{
  tmp_path, rename, write_blob, blob_put_verified, read_file, blob_get, blob_delete,
}

-- Every label whose blob can be read has a content that verifies against it.
abbrev pub IsSound : Digests → Disk → Type 0
IsSound d disk =
    (kappa content : Bytes)
    → IsLabel kappa
    → blob_get disk kappa ≡ ok content
    → Verifies d kappa content

not_hex : (hex : Bytes) → All IsHex (hex ++ codes ".tmp") → ⊥
not_hex [] (h, hs) = absurd (ground arith)
not_hex (b ∷ hex) (h, hs) = not_hex hex hs

-- The temporary file of a blob has the path of no label.
tmp_path-ne :
    (kappa j : Bytes) (path : List Bytes)
    → blob_path_for kappa ≡ ok path
    → blob_path_for j ≢ ok (tmp_path path)
unfolding tmp_path
tmp_path-ne kappa j path h e =
    let i = (blob_path_for_iff kappa path).0 h in
    let s = (blob_path_for_iff j (tmp_path path)).0 e in
    let parts : tmp_path path
        ≡ i.algo ∷ take 2 i.hex ∷ take 2 (drop 2 i.hex) ∷ (i.hex ++ codes ".tmp") ∷ [] =
      rw i.parts refl in
    let same : i.hex ++ codes ".tmp" ≡ s.hex = cc (parts, s.parts) in
    not_hex i.hex (rw same s.all_hex)

-- What is read after a write of a temporary file.
get-tmp :
    (disk : Disk) (kappa j written : Bytes) (path at : List Bytes)
    → blob_path_for kappa ≡ ok path
    → blob_path_for j ≡ ok at
    → get (insert disk (tmp_path path) written) at ≡ get disk at
get-tmp disk kappa j written path at h e = elim (Bool-cases (paths_eq (tmp_path path) at)) [
  | inl same ↦ absurd (tmp_path-ne kappa j path h (rw ((paths_eq_iff (tmp_path path) at).0 same) e))
  | inr other ↦ ground (arith, get-insert disk (tmp_path path) at written)
]

-- What is read after the temporary file is renamed to the path.
get-rename :
    (disk : Disk) (kappa j content : Bytes) (path at : List Bytes)
    → blob_path_for kappa ≡ ok path
    → blob_path_for j ≡ ok at
    → get (rename (insert disk (tmp_path path) content) (tmp_path path) path) at
      ≡ (if paths_eq path at then some content else get disk at)
unfolding rename
get-rename disk kappa j content path at h e =
    let tmp = tmp_path path in
    let written = insert disk tmp content in
    let found : get written tmp ≡ some content =
      ground (arith, get-insert disk tmp tmp content, (paths_eq_iff tmp tmp).1 refl) in
    elim (Bool-cases (paths_eq tmp at)) [
      | inl same ↦ absurd (tmp_path-ne kappa j path h (rw ((paths_eq_iff tmp at).0 same) e))
      | inr other ↦
          rw (rename, found)
            (ground (
              arith,
              get-insert (remove written tmp) path at content,
              get-remove written tmp at,
              get-insert disk tmp at content,
            ))
    ]

-- After a write, whatever the disk did, a path of a label reads as before or holds the content.
get-write_blob :
    (fault : Fault) (disk : Disk) (kappa j content : Bytes) (path at : List Bytes)
    → blob_path_for kappa ≡ ok path
    → blob_path_for j ≡ ok at
    → (get (write_blob fault disk path content).0 at ≡ get disk at)
      ⊎ ((path ≡ at) × (get (write_blob fault disk path content).0 at ≡ some content))
unfolding write_blob
get-write_blob no_fault disk kappa j content path at h e = elim (Bool-cases (paths_eq path at)) [
  | inl same ↦
      inr
        ((paths_eq_iff path at).0 same, rw (get-rename disk kappa j content path at h e, same) refl)
  | inr other ↦ inl (rw (get-rename disk kappa j content path at h e, other) refl)
]
get-write_blob create_dir_fails disk kappa j content path at h e = inl refl
get-write_blob (write_fails written) disk kappa j content path at h e =
    inl (get-tmp disk kappa j written path at h e)
get-write_blob rename_fails disk kappa j content path at h e =
    inl (get-tmp disk kappa j content path at h e)

-- What `blob_get` reads is the file under the path.
pub blob_get_inv :
    (disk : Disk) (kappa content : Bytes)
    → blob_get disk kappa ≡ ok content
    → (path : List Bytes) × (blob_path_for kappa ≡ ok path) × (get disk path ≡ some content)
unfolding blob_get read_file
blob_get_inv disk kappa content g = elim (Result-cases (blob_path_for kappa)) [
  | inr (e, p) ↦ absurd (ground arith)
  | inl (path, p) ↦ elim (Option-cases (get disk path)) [
    | inl n ↦ absurd (ground arith)
    | inr (c, n) ↦ (path, p, ground arith)
  ]
]

pub blob_get-path :
    (disk : Disk) (kappa content : Bytes) (path : List Bytes)
    → blob_path_for kappa ≡ ok path
    → get disk path ≡ some content
    → blob_get disk kappa ≡ ok content
unfolding blob_get read_file
blob_get-path disk kappa content path p n = rw (p, read_file, n) refl

-- A put of a verified content keeps the disk sound, whatever the disk does.
pub blob_put_verified-IsSound :
    (d : Digests) (fault : Fault) (disk : Disk) (verified : VerifiedContent)
    → IsSound d disk
    → Verifies d (as_str verified.label) verified.content
    → IsSound d (blob_put_verified fault disk verified).0
unfolding blob_put_verified
blob_put_verified-IsSound d fault disk verified sound v j content l g =
    elim (Result-cases (blob_path_for (as_str verified.label))) [
      | inr (e, p) ↦ sound j content l (ground arith)
      | inl (path, p) ↦ elim (Bool-cases (contains_key disk path)) [
        | inl there ↦ sound j content l (ground arith)
        | inr absent ↦
            let after = (write_blob fault disk path verified.content).0 in
            let read : blob_get after j ≡ ok content = ground arith in
            let (at, q, n) = blob_get_inv after j content read in
            elim (get-write_blob fault disk (as_str verified.label) j verified.content path at p
              q) [
                | inl same ↦ sound j content l (blob_get-path disk j content at q (cc (same, n)))
                | inr (here, made) ↦
                    let name =
                      blob_path_for_injective (as_str verified.label) j path p (rw here q) in
                    let same : verified.content ≡ content = cc (made, n) in rw (← name, ← same) v
              ]
      ]
    ]

pub blob_delete-IsSound :
    (d : Digests) (fails : Bool) (disk : Disk) (kappa : Bytes)
    → IsSound d disk
    → IsSound d (blob_delete fails disk kappa).0
unfolding blob_delete
blob_delete-IsSound d true disk kappa sound j content l g =
    elim (Result-cases (blob_path_for kappa)) [
      | inr (e, p) ↦ sound j content l (ground arith)
      | inl (path, p) ↦ sound j content l (ground arith)
    ]
blob_delete-IsSound d false disk kappa sound j content l g =
    elim (Result-cases (blob_path_for kappa)) [
      | inr (e, p) ↦ sound j content l (ground arith)
      | inl (path, p) ↦
          let after = remove disk path in
          let read : blob_get after j ≡ ok content = ground arith in
          let (at, q, n) = blob_get_inv after j content read in
          let kept : get disk at ≡ some content = ground (arith, n, get-remove disk path at) in
          sound j content l (blob_get-path disk j content at q kept)
    ]

-- A put leaves a blob that can be read as it is.
pub blob_put_verified-keeps :
    (fault : Fault) (disk : Disk) (verified : VerifiedContent) (j content : Bytes)
    → blob_get disk j ≡ ok content
    → blob_get (blob_put_verified fault disk verified).0 j ≡ ok content
unfolding blob_put_verified contains_key
blob_put_verified-keeps fault disk verified j content g =
    elim (Result-cases (blob_path_for (as_str verified.label))) [
      | inr (e, p) ↦ ground arith
      | inl (path, p) ↦ elim (Bool-cases (contains_key disk path)) [
        | inl there ↦ ground arith
        | inr absent ↦
            let (at, q, n) = blob_get_inv disk j content g in
            let after = (write_blob fault disk path verified.content).0 in
            let read : blob_get after j ≡ ok content =
              elim (get-write_blob fault disk (as_str verified.label) j verified.content path at p
                q) [
                  | inl same ↦ blob_get-path after j content at q (cc (same, n))
                  | inr (here, made) ↦ absurd (ground (arith, n, here))
                ] in
            ground arith
      ]
    ]

write_blob-ok :
    (fault : Fault) (disk : Disk) (kappa content : Bytes) (path : List Bytes) (stored : Bool)
    → blob_path_for kappa ≡ ok path
    → (write_blob fault disk path content).1 ≡ ok stored
    → get (write_blob fault disk path content).0 path ≡ some content
unfolding write_blob
write_blob-ok no_fault disk kappa content path stored p h =
    rw (get-rename disk kappa kappa content path path p p, (paths_eq_iff path path).1 refl) refl
write_blob-ok create_dir_fails disk kappa content path stored p h = absurd (cc h)
write_blob-ok (write_fails written) disk kappa content path stored p h = absurd (cc h)
write_blob-ok rename_fails disk kappa content path stored p h = absurd (cc h)

-- After a put that succeeds, the blob can be read.
pub blob_put_verified-ok :
    (fault : Fault) (disk : Disk) (verified : VerifiedContent) (stored : Bool)
    → (blob_put_verified fault disk verified).1 ≡ ok stored
    → (content : Bytes) × (blob_get
          (blob_put_verified fault disk verified).0
          (as_str verified.label)
        ≡ ok content)
unfolding blob_put_verified contains_key
blob_put_verified-ok fault disk verified stored h =
    elim (Result-cases (blob_path_for (as_str verified.label))) [
      | inr (e, p) ↦ absurd (ground arith)
      | inl (path, p) ↦ elim (Bool-cases (contains_key disk path)) [
        | inl there ↦ elim (Option-cases (get disk path)) [
          | inl n ↦ absurd (ground arith)
          | inr (c, n) ↦ (c, ground (arith, blob_get-path disk (as_str verified.label) c path p n))
        ]
        | inr absent ↦
            let wrote : (write_blob fault disk path verified.content).1 ≡ ok stored =
              ground arith in
            let n =
              write_blob-ok fault disk (as_str verified.label) verified.content path stored p
                wrote in
            let read =
              blob_get-path (write_blob fault disk path verified.content).0 (as_str verified.label)
                verified.content path p n in
            (verified.content, ground arith)
      ]
    ]
