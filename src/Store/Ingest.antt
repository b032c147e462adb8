-- ===== src/Store/Ingest.antt =====
-- The default methods `ingest_verified` and `ingest_compute` of crates/kappa-core/src/store/mod.rs, over
-- the blobs of the in-memory store. `mandatory_axes` is an argument, and so is what the disk does on the
-- put of each label. `none` is the panic of an accessor.
pub mod Keeps
pub mod Stores
pub mod Succeeds
mod Tests
use kappa_registry.Prelude.{
  Bool, true, false, ◌==◌, if◌then◌else◌, Option, none, some, List, [], ◌∷◌, Bytes, bytes_eq,
}
use kappa_registry.Kappa.Label.{Axis, sha256, axis_str, as_str, axis_enum}
use kappa_registry.Kappa.Label.{ok as label_ok, err as label_err}
use kappa_registry.Kappa.Compute.{Digests}
use kappa_registry.Kappa.Verified.{VerifiedContent, compute, verify}
use kappa_registry.Store.Types.{Result, ok, err, ◌>>=◌, rejected}
use kappa_registry.Store.Blobs.{Disk, Fault, blob_put_verified}

pub record IngestResult : Type 0 where
  pub kappa : Bytes
  pub newly_stored : Bool
  pub additional_kappas : List Bytes

-- The axes that `mandatory_axes` returns where it is not overridden.
abbrev pub mandatory_axes : List Axis
mandatory_axes = sha256 ∷ []

-- `axis == client_axis`, by the names.
unfoldable pub axis_eq : Axis → Axis → Bool
axis_eq a b = bytes_eq (axis_str a) (axis_str b)

module _ (d : Digests) (fault : Bytes → Fault) where
  unfoldable pub put : Disk → VerifiedContent → Disk × Result Bool
  put disk v = blob_put_verified (fault (as_str v.label)) disk v

  -- `for axis in self.mandatory_axes()`: the labels that were pushed.
  unfoldable pub put_mandatory : Axis → Bytes → List Axis → Disk → Disk × Result (List Bytes)
  put_mandatory client_axis content [] disk = (disk, ok [])
  put_mandatory client_axis content (a ∷ axes) disk =
      if axis_eq a client_axis
      then put_mandatory client_axis content axes disk
      else elim (compute d a content) [
        | label_err e ↦ (disk, err rejected)
        | label_ok v ↦ elim (put disk v).1 [
          | err e ↦ ((put disk v).0, err e)
          | ok stored ↦
              let later = put_mandatory client_axis content axes (put disk v).0 in
              (later.0, later.1 >>= λ kappas. ok (as_str v.label ∷ kappas))
        ]
      ]

  -- The put under the first label, the mandatory axes, and the result.
  unfoldable pub ingest : Axis → List Axis → Disk → VerifiedContent → Disk × Result IngestResult
  ingest axis axes disk v = elim (put disk v).1 [
    | err e ↦ ((put disk v).0, err e)
    | ok stored ↦
        let later = put_mandatory axis v.content axes (put disk v).0 in
        (
          later.0,
          later.1 >>= λ kappas. ok (record {
            kappa = as_str v.label;
            newly_stored = stored;
            additional_kappas = kappas;
          }),
        )
  ]

  unfoldable pub ingest_verified :
      List Axis → Disk → Bytes → Bytes → Option (Disk × Result IngestResult)
  ingest_verified axes disk claimed content = elim (verify d claimed content) [
    | none ↦ none
    | some (label_err e) ↦ some (disk, err rejected)
    | some (label_ok v) ↦ elim (axis_enum v.label) [
      | none ↦ none
      | some client_axis ↦ some (ingest client_axis axes disk v)
    ]
  ]

  unfoldable pub ingest_compute : List Axis → Disk → Axis → Bytes → Disk × Result IngestResult
  ingest_compute axes disk axis content = elim (compute d axis content) [
    | label_err e ↦ (disk, err rejected)
    | label_ok v ↦ ingest axis axes disk v
  ]
