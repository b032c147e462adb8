-- ===== src/Kappa/Compute.antt =====
-- crates/kappa-core/src/kappa/compute.rs: labels of contents. The digests are functions of the crates
-- sha1-checked, sha2, sha3 and blake3 and parameters; `none` is the collision that sha1-checked finds.
-- An incremental hasher is the chunks that it was given, in order, with a digest of them at the end.
-- A reader is the reads that it answers: `none` is an I/O error, and the list's end a read of 0 bytes.
pub mod Verify
pub mod Streaming
pub mod Multi
pub mod Sample
mod Tests
use kappa_registry.Prelude.{ℕ, ◌+◌, ◌/◌, ◌%◌, ◌==◌, Bool, true, false, not, if◌then◌else◌, ◌||◌}
use kappa_registry.Prelude.{Option, none, some, List, [], ◌∷◌, ◌++◌, Bytes, codes, bytes_eq, length}
use kappa_registry.Kappa.Label.{Axis, sha1, sha256, blake3, sha512, sha3_256, keccak256, KappaLabel}
use kappa_registry.Kappa.Label.{Result, ok, err, ◌>>=◌, unknown_axis, collision_detected}
use kappa_registry.Kappa.Label.{digest_mismatch, hex_char, padded, parse, as_str, axis}

pub record Digests : Type 0 where
  pub sha1_digest : Bytes → Option Bytes
  pub sha256_digest : Bytes → Bytes
  pub blake3_digest : Bytes → Bytes
  pub sha512_digest : Bytes → Bytes
  pub sha3_256_digest : Bytes → Bytes
  pub keccak256_digest : Bytes → Bytes

pub record Hashers : Type 0 where
  pub sha1_finalize : List Bytes → Option Bytes
  pub sha256_finalize : List Bytes → Bytes
  pub blake3_finalize : List Bytes → Bytes
  pub sha512_finalize : List Bytes → Bytes
  pub sha3_256_finalize : List Bytes → Bytes
  pub keccak256_finalize : List Bytes → Bytes

-- The two digits of each byte, as the loops over `HEX` write them, and as `hex::encode` does.
unfoldable pub hex_encode : Bytes → Bytes
hex_encode [] = []
hex_encode (b ∷ bytes) = hex_char (b / 16) ∷ hex_char (b % 16) ∷ hex_encode bytes

-- A prefix and the digits of a hash in a buffer of zeros, of which the first `len` bytes count.
unfoldable pub from_hash : Bytes → Bytes → ℕ → KappaLabel
from_hash prefix hash len = record { buf = padded (prefix ++ hex_encode hash); len = len }

-- `KappaLabel::sha1` at the digest.
unfoldable pub label_sha1 : Option Bytes → Result KappaLabel
label_sha1 none = err collision_detected
label_sha1 (some hash) = ok (from_hash (codes "sha1:") hash 45)

unfoldable pub sha256_label : Bytes → KappaLabel
sha256_label hash = from_hash (codes "sha256:") hash 71

unfoldable pub compute_kappa : Digests → Bytes → Bytes → Result KappaLabel
compute_kappa d axis content =
    if bytes_eq axis (codes "sha1")
    then label_sha1 (d.sha1_digest content)
    else if bytes_eq axis (codes "sha256")
    then ok (sha256_label (d.sha256_digest content))
    else if bytes_eq axis (codes "blake3")
    then ok (from_hash (codes "blake3:") (d.blake3_digest content) 71)
    else if bytes_eq axis (codes "sha3-256")
    then ok (from_hash (codes "sha3-256:") (d.sha3_256_digest content) 73)
    else if bytes_eq axis (codes "keccak256")
    then ok (from_hash (codes "keccak256:") (d.keccak256_digest content) 74)
    else if bytes_eq axis (codes "sha512")
    then ok (from_hash (codes "sha512:") (d.sha512_digest content) 135)
    else err unknown_axis

-- `computed.as_str() == kappa`
unfoldable pub compare_label : Bytes → Result KappaLabel → Result Bool
compare_label kappa computed = computed >>= λ k. ok (bytes_eq (as_str k) kappa)

-- `none` is the panic of `axis`, where a label has no colon.
unfoldable pub verify_kappa : Digests → Bytes → Bytes → Option (Result Bool)
verify_kappa d kappa content = elim (parse kappa) [
  | err e ↦ some (err e)
  | ok parsed ↦ elim (axis parsed) [
    | none ↦ none
    | some a ↦ some (compare_label kappa (compute_kappa d a content))
  ]
]

unfoldable pub kappa_from_bytes : Digests → Bytes → Bytes
kappa_from_bytes d bytes = as_str (sha256_label (d.sha256_digest bytes))

abbrev pub Reader : Type 0
Reader = List (Option Bytes)

-- The loop of reads: the chunks up to a read of 0 bytes, unless a read fails first.
unfoldable pub read_all : Reader → Option (List Bytes)
read_all [] = some []
read_all (none ∷ reads) = none
read_all (some [] ∷ reads) = some []
read_all (some (b ∷ chunk) ∷ reads) = elim (read_all reads) [
  | none ↦ none
  | some chunks ↦ some ((b ∷ chunk) ∷ chunks)
]

-- The chunks, or the error of a failing read, which holds the axis and a text that is left out.
unfoldable pub read_chunks : Bytes → Reader → Result (List Bytes)
read_chunks axis reader = elim (read_all reader) [
  | none ↦ err (digest_mismatch [] [] axis)
  | some chunks ↦ ok chunks
]

-- `format!("<axis>:{}", hex::encode(..))`
unfoldable pub label_text : Bytes → Bytes → Bytes
label_text axis hash = axis ++ (b':' ∷ hex_encode hash)

unfoldable pub sha1_text : Option Bytes → Result Bytes
sha1_text none = err collision_detected
sha1_text (some hash) = ok (label_text (codes "sha1") hash)

-- The label inside the proof that is returned.
unfoldable pub streaming_compute_kappa : Hashers → Bytes → Reader → Result Bytes
streaming_compute_kappa h axis reader =
    let chunks = read_chunks axis reader in
    if bytes_eq axis (codes "sha256")
    then (chunks >>= λ cs. ok (label_text axis (h.sha256_finalize cs)))
    else if bytes_eq axis (codes "sha512")
    then (chunks >>= λ cs. ok (label_text axis (h.sha512_finalize cs)))
    else if bytes_eq axis (codes "blake3")
    then (chunks >>= λ cs. ok (label_text axis (h.blake3_finalize cs)))
    else if bytes_eq axis (codes "sha3-256")
    then (chunks >>= λ cs. ok (label_text axis (h.sha3_256_finalize cs)))
    else if bytes_eq axis (codes "keccak256")
    then (chunks >>= λ cs. ok (label_text axis (h.keccak256_finalize cs)))
    else if bytes_eq axis (codes "sha1")
    then (chunks >>= λ cs. sha1_text (h.sha1_finalize cs))
    else err unknown_axis
