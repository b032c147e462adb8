-- ===== src/Store/Ingest/Tests.antt =====
-- Ingests of fixed contents, with a fixed digest in place of the crates', and the theorems at them.
use kappa_registry.Prelude.{◌≡◌, refl, some, [], ◌∷◌, Bytes, codes, All, true, ℕ, ◌++◌, replicate}
use kappa_registry.Kappa.Label.{
  sha1, parse, parse_label, position_colon, axis_parse, check_digits, hex_digits, check_hex, is_hex,
  hex_char, axis, as_str, padded, axis_enum, axis_str,
}
use kappa_registry.Kappa.Compute.{
  compare_label, compute_kappa, from_hash, label_sha1, sha256_label, hex_encode, verify_kappa,
  label_text,
}
use kappa_registry.Kappa.Path.{blob_path_for, only_hex, shard_path, split_kappa}
use kappa_registry.Dict.{contains_key, get, insert, remove}
use kappa_registry.Kappa.Compute.Verify.{Verifies, label_text-IsLabel}
use kappa_registry.Kappa.Compute.Sample.{digests, digests-IsDigests, label, first_byte}
use kappa_registry.Kappa.Verified.{verify, check_match, mismatch, compute}
use kappa_registry.Store.Types.{ok, err, io}
use kappa_registry.Store.Blobs.{
  Disk, Fault, no_fault, rename_fails, blob_put_verified, rename, tmp_path, write_blob, blob_get,
  read_file,
}
use kappa_registry.Store.Ingest.{
  IngestResult, mandatory_axes, ingest_verified, ingest, put, put_mandatory, axis_eq,
}
use kappa_registry.Store.Ingest.Keeps.{start, next, verified_step, empty-IsSound, Reached-IsSound}
use kappa_registry.Store.Ingest.Stores.{Holds, HoldsAxis, ingest_verified_stores}
use kappa_registry.Store.Ingest.Succeeds.{ingest_verified_succeeds}

abbrev content : Bytes
content = 9 ∷ 8 ∷ []

abbrev works : Bytes → Fault
works kappa = no_fault

fits : Verifies digests label content
unfolding axis_str
fits = (sha1, first_byte 19 content, refl, refl)

abbrev hex : ℕ → Bytes
hex n = codes "09" ++ replicate n b'0'

-- The two files after an ingest under SHA-1.
abbrev stored_disk : Disk
stored_disk =
    (codes "sha256" ∷ codes "09" ∷ codes "00" ∷ hex 62 ∷ [], content)
    ∷ (codes "sha1" ∷ codes "09" ∷ codes "00" ∷ hex 38 ∷ [], content)
    ∷ []

abbrev result : IngestResult
result = record {
  kappa = label;
  newly_stored = true;
  additional_kappas = (codes "sha256:" ++ hex 62) ∷ [];
}

ingested_run :
    ingest_verified digests works mandatory_axes [] label content ≡ some (stored_disk, ok result)
unfolding parse parse_label position_colon axis_parse check_digits hex_digits check_hex is_hex
    hex_char axis as_str padded axis_enum axis_str compare_label compute_kappa from_hash label_sha1
    sha256_label hex_encode verify_kappa label_text blob_path_for only_hex shard_path split_kappa
    verify check_match mismatch compute blob_put_verified rename tmp_path write_blob ingest_verified
    ingest put put_mandatory axis_eq contains_key get insert remove
ingested_run = refl

-- The rename fails: the file is not there under its label.
failed_run :
    ingest_verified digests (λ kappa. rename_fails) mandatory_axes [] label content
    ≡ some (
      (codes "sha1" ∷ codes "09" ∷ codes "00" ∷ (hex 38 ++ codes ".tmp") ∷ [], content) ∷ [],
      err io,
    )
unfolding parse parse_label position_colon axis_parse check_digits hex_digits check_hex is_hex
    hex_char axis as_str padded axis_enum axis_str compare_label compute_kappa from_hash label_sha1
    sha256_label hex_encode verify_kappa label_text blob_path_for only_hex shard_path split_kappa
    verify check_match mismatch compute blob_put_verified rename tmp_path write_blob ingest_verified
    ingest put put_mandatory axis_eq contains_key get insert remove
failed_run = refl

read_run : blob_get stored_disk label ≡ ok content
unfolding blob_get blob_path_for split_kappa position_colon label_text hex_encode shard_path
    only_hex is_hex hex_char read_file get
read_run = refl

Reached-IsSound_example : Verifies digests label content
unfolding axis_str
Reached-IsSound_example =
    Reached-IsSound digests stored_disk label content digests-IsDigests
      (next start
        (verified_step works mandatory_axes label content (stored_disk, ok result) ingested_run))
      (label_text-IsLabel digests sha1 content (first_byte 19 content) digests-IsDigests refl)
      read_run

ingest_verified_stores_example :
    (label ≡ label)
    × Holds digests stored_disk content label
    × All (HoldsAxis digests stored_disk content) mandatory_axes
ingest_verified_stores_example =
    ingest_verified_stores digests works mandatory_axes [] stored_disk label content result
      digests-IsDigests (empty-IsSound digests) ingested_run

ingest_verified_succeeds_example :
    (after : Disk) × (r : IngestResult) × (ingest_verified digests
        (λ kappa. no_fault)
        mandatory_axes
        []
        label
        content
      ≡ some (after, ok r))
ingest_verified_succeeds_example =
    ingest_verified_succeeds digests mandatory_axes [] label content digests-IsDigests fits
      ((first_byte 31 content, refl), tt)
