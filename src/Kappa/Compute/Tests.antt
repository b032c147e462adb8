-- ===== src/Kappa/Compute/Tests.antt =====
-- Digests of fixed bytes in place of the crates', runs with them, and the theorems at one content.
use kappa_registry.Prelude.{◌≡◌, ◌≢◌, ◌↔◌, refl, true, some, none, [], ◌∷◌, codes}
use kappa_registry.Kappa.Label.{sha1, ok, err}
use kappa_registry.Kappa.Label.{digest_mismatch, unknown_axis, axis_str, hex_char}
use kappa_registry.Kappa.Compute.{Hashers, Reader, hex_encode, label_text}
use kappa_registry.Kappa.Compute.{verify_kappa, read_all, read_chunks, streaming_compute_kappa}
use kappa_registry.Kappa.Compute.{sha1_text}
use kappa_registry.Kappa.Compute.Verify.{Verifies, verify_kappa_iff}
use kappa_registry.Kappa.Compute.Streaming.{concat, IsIncremental, read_then_compute}
use kappa_registry.Kappa.Compute.Streaming.{streaming_compute_kappa-read_then_compute}
use kappa_registry.Kappa.Compute.Multi.{
  streaming_compute_multi, lift, init_hashers, finalize_all, choose,
}
use kappa_registry.Kappa.Compute.Multi.Agrees.{MultiEnds, streaming_compute_multi-MultiEnds}
use kappa_registry.Kappa.Compute.Sample.{first_byte, digests, digests-IsDigests, label}

abbrev hashers : Hashers
hashers = record {
  sha1_finalize = λ cs. some (first_byte 19 (concat cs));
  sha256_finalize = λ cs. first_byte 31 (concat cs);
  blake3_finalize = λ cs. first_byte 31 (concat cs);
  sha512_finalize = λ cs. first_byte 63 (concat cs);
  sha3_256_finalize = λ cs. first_byte 31 (concat cs);
  keccak256_finalize = λ cs. first_byte 31 (concat cs);
}

hashers-IsIncremental : IsIncremental digests hashers
hashers-IsIncremental = record {
  sha1_chunks = λ cs. refl;
  sha256_chunks = λ cs. refl;
  blake3_chunks = λ cs. refl;
  sha512_chunks = λ cs. refl;
  sha3_256_chunks = λ cs. refl;
  keccak256_chunks = λ cs. refl;
}

verified_run : verify_kappa digests label (9 ∷ 8 ∷ []) ≡ some (ok true)
unfolding axis_str
verified_run =
    (verify_kappa_iff digests label (9 ∷ 8 ∷ []) digests-IsDigests).1.1
      (sha1, first_byte 19 (9 ∷ []), refl, refl)

abbrev reads : Reader
reads = some (9 ∷ []) ∷ some (8 ∷ 7 ∷ []) ∷ some [] ∷ none ∷ []

streamed_run : streaming_compute_kappa hashers (codes "sha1") reads ≡ ok label
unfolding streaming_compute_kappa read_chunks read_all sha1_text label_text hex_encode hex_char
streamed_run = refl

failing_run :
    streaming_compute_kappa hashers (codes "sha256") (some (9 ∷ []) ∷ none ∷ [])
    ≡ err (digest_mismatch [] [] (codes "sha256"))
unfolding streaming_compute_kappa read_chunks read_all
failing_run = refl

unknown_run : streaming_compute_kappa hashers (codes "md5") (none ∷ []) ≡ err unknown_axis
unfolding streaming_compute_kappa read_chunks read_all
unknown_run = refl

verify_kappa_iff_example :
    (verify_kappa digests label (9 ∷ 8 ∷ []) ≢ none)
    × ((verify_kappa digests label (9 ∷ 8 ∷ []) ≡ some (ok true))
        ↔ Verifies digests label (9 ∷ 8 ∷ []))
verify_kappa_iff_example = verify_kappa_iff digests label (9 ∷ 8 ∷ []) digests-IsDigests

streaming_compute_kappa-read_then_compute_example :
    streaming_compute_kappa hashers (codes "sha1") reads
    ≡ read_then_compute digests (codes "sha1") reads
streaming_compute_kappa-read_then_compute_example =
    streaming_compute_kappa-read_then_compute digests hashers (codes "sha1") reads digests-IsDigests
      hashers-IsIncremental

no_axes_run : streaming_compute_multi hashers [] reads ≡ some (err unknown_axis)
unfolding streaming_compute_multi read_chunks read_all lift init_hashers finalize_all choose
no_axes_run = refl

streaming_compute_multi-MultiEnds_example :
    MultiEnds hashers (codes "sha1" ∷ codes "sha256" ∷ []) reads
streaming_compute_multi-MultiEnds_example =
    streaming_compute_multi-MultiEnds hashers (codes "sha1" ∷ codes "sha256" ∷ []) reads
