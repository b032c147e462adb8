-- ===== src/Kappa/Compute/Sample.antt =====
-- Digests of fixed bytes, for runs.
use kappa_registry.Prelude.{◌≡◌, arith, some, [], ◌∷◌, Bytes, codes}
use kappa_registry.Prelude.{
  zero, suc, ap, length-replicate, ◌%◌, All, IsByte, replicate, length, ◌*◌, ℕ,
}
use kappa_registry.Kappa.Label.{sha1, sha512}
use kappa_registry.Kappa.Label.{hex_digits}
use kappa_registry.Kappa.Compute.{Digests, label_text}
use kappa_registry.Kappa.Compute.Verify.{IsDigests}

-- The first byte, or 7, and zeros.
abbrev pub first_byte : ℕ → Bytes → Bytes
first_byte n [] = 7 ∷ replicate n 0
first_byte n (b ∷ bytes) = (b % 256) ∷ replicate n 0

abbrev pub digests : Digests
digests = record {
  sha1_digest = λ content. some (first_byte 19 content);
  sha256_digest = first_byte 31;
  blake3_digest = first_byte 31;
  sha512_digest = first_byte 63;
  sha3_256_digest = first_byte 31;
  keccak256_digest = first_byte 31;
}

zeros-IsByte : (n : ℕ) → All IsByte (replicate n 0)
zeros-IsByte zero = tt
zeros-IsByte (suc n) = (omega arith, zeros-IsByte n)

first_byte-IsByte :
    (n : ℕ) (content : Bytes)
    → (length (first_byte n content) ≡ suc n) × All IsByte (first_byte n content)
first_byte-IsByte n [] = (ap suc (length-replicate n 0), (omega arith, zeros-IsByte n))
first_byte-IsByte n (b ∷ bs) = (ap suc (length-replicate n 0), (omega arith, zeros-IsByte n))

sized :
    (n : ℕ) (content hash : Bytes)
    → some (first_byte n content) ≡ some hash
    → (2 * length hash ≡ 2 * suc n) × All IsByte hash
sized n content hash e =
    let made : first_byte n content ≡ hash = cc e in
    rw (← made) (ap (λ l. 2 * l) (first_byte-IsByte n content).0, (first_byte-IsByte n content).1)

pub digests-IsDigests : IsDigests digests
unfolding hex_digits
digests-IsDigests sha1 content hash e = sized 19 content hash e
digests-IsDigests sha512 content hash e = sized 63 content hash e
digests-IsDigests a content hash e = sized 31 content hash e

abbrev pub label : Bytes
label = label_text (codes "sha1") (first_byte 19 (9 ∷ []))
