-- ===== src/Kappa/Compute/Verify.antt =====
-- Which labels a content verifies against.
use kappa_registry.Prelude.{ℕ, ◌+◌, ◌*◌, ◌/◌, ◌%◌, ◌<◌, ◌≡◌, ◌≢◌, ◌↔◌, ◌⊎◌, refl, ap, arith}
use kappa_registry.Prelude.{true, Option, none, some, [], ◌∷◌, ◌++◌}
use kappa_registry.Prelude.{
  Bytes, IsByte, bytes_eq, bytes_eq→eq, bytes_eq_refl, length, length-append, append_assoc, All,
}
use kappa_registry.Prelude.{take, take-length_append, inl, inr, Option-cases}
use kappa_registry.Kappa.Label.{Axis, sha1, sha256, blake3, sha512, sha3_256, keccak256, axis_str}
use kappa_registry.Kappa.Label.{
  LabelError, hex_digits, label_len, KappaLabel, Result, ok, err, collision_detected, hex_char,
}
use kappa_registry.Kappa.Label.{parse, as_str, axis, position_colon}
use kappa_registry.Kappa.Label.Grammar.{IsHex, IsLabel, label_of, parse-IsLabel, IsLabel-parse}
use kappa_registry.Kappa.Label.Grammar.{
  as_str-parse, label_len_bounds, length-IsLabel, as_str-label_of,
}
use kappa_registry.Kappa.Path.Layout.{NoColon, position_colon-append}
use kappa_registry.Kappa.Compute.{Digests, hex_encode, from_hash, label_sha1, sha256_label}
use kappa_registry.Kappa.Compute.{compute_kappa, compare_label, verify_kappa, label_text}

-- The digest under an axis.
abbrev pub digest_of : Digests → Axis → Bytes → Option Bytes
digest_of d sha1 content = d.sha1_digest content
digest_of d sha256 content = some (d.sha256_digest content)
digest_of d blake3 content = some (d.blake3_digest content)
digest_of d sha512 content = some (d.sha512_digest content)
digest_of d sha3_256 content = some (d.sha3_256_digest content)
digest_of d keccak256 content = some (d.keccak256_digest content)

-- Digests are bytes, as many as the algorithm has.
abbrev pub IsDigests : Digests → Type 0
IsDigests d =
    (a : Axis) (content hash : Bytes)
    → digest_of d a content ≡ some hash
    → (2 * length hash ≡ hex_digits a) × All IsByte hash

hex_char-IsHex : (n : ℕ) → n < 16 → IsHex (hex_char n)
unfolding hex_char
hex_char-IsHex n h = ground arith

pub hex_encode-IsHex : (hash : Bytes) → All IsByte hash → All IsHex (hex_encode hash)
unfolding hex_encode
hex_encode-IsHex [] h = tt
hex_encode-IsHex (b ∷ hash) (h, hs) = (
  hex_char-IsHex (b / 16) (omega arith),
  (hex_char-IsHex (b % 16) (omega arith), hex_encode-IsHex hash hs),
)

pub length-hex_encode : (hash : Bytes) → length (hex_encode hash) ≡ 2 * length hash
unfolding hex_encode
length-hex_encode [] = refl
length-hex_encode (b ∷ hash) = omega (arith, length-hex_encode hash)

-- The text of a digest is a label.
pub label_text-IsLabel :
    (d : Digests) (a : Axis) (content hash : Bytes)
    → IsDigests d
    → digest_of d a content ≡ some hash
    → IsLabel (label_text (axis_str a) hash)
unfolding label_text
label_text-IsLabel d a content hash i e =
    let (n, bytes) = i a content hash e in
    record {
      alg = a;
      hex = hex_encode hash;
      text = refl;
      digits = omega (arith, length-hex_encode hash);
      all_hex = hex_encode-IsHex hash bytes;
    }

-- What `compute_kappa` makes of a digest.
unfoldable pub labelled : Axis → Option Bytes → Result KappaLabel
labelled a none = err collision_detected
labelled a (some hash) = ok (label_of (label_text (axis_str a) hash))

from_hash-label_of :
    (a : Axis) (hash : Bytes)
    → 2 * length hash ≡ hex_digits a
    → from_hash (axis_str a ++ (b':' ∷ [])) hash (length (axis_str a) + 1 + hex_digits a)
      ≡ label_of (label_text (axis_str a) hash)
unfolding from_hash label_text label_len
from_hash-label_of a hash n =
    let text : (axis_str a ++ (b':' ∷ [])) ++ hex_encode hash
        ≡ axis_str a ++ (b':' ∷ hex_encode hash) =
      append_assoc (axis_str a) (b':' ∷ []) (hex_encode hash) in
    let size : length (axis_str a) + 1 + hex_digits a
        ≡ length (axis_str a ++ (b':' ∷ hex_encode hash)) % 256 =
      omega (
        arith,
        length-append (axis_str a) (b':' ∷ hex_encode hash),
        length-hex_encode hash,
        label_len_bounds a,
      ) in
    cc (text, size)

pub compute_kappa-axis_str :
    (d : Digests) (a : Axis) (content : Bytes)
    → IsDigests d
    → compute_kappa d (axis_str a) content ≡ labelled a (digest_of d a content)
unfolding compute_kappa label_sha1 sha256_label axis_str hex_digits labelled
compute_kappa-axis_str d sha1 content i = elim (Option-cases (d.sha1_digest content)) [
  | inl e ↦ rw e
  | inr (hash, e) ↦ rw e (ap ok (from_hash-label_of sha1 hash (i sha1 content hash e).0))
]
compute_kappa-axis_str d a content i = ap ok (from_hash-label_of a _ (i a content _ refl).0)

pub NoColon-axis_str : (a : Axis) → NoColon (axis_str a)
unfolding axis_str
NoColon-axis_str sha1 = ground arith
NoColon-axis_str a = ground arith

pub Result-cases :
    {A : Type 0} (r : Result A) → ((e : LabelError) × (r ≡ err e)) ⊎ ((a : A) × (r ≡ ok a))
Result-cases (err e) = inl (e, refl)
Result-cases (ok a) = inr (a, refl)

-- What `verify_kappa` does on a label.
verify_kappa-IsLabel :
    (d : Digests) (a : Axis) (hex kappa content : Bytes)
    → IsDigests d
    → IsLabel kappa
    → kappa ≡ axis_str a ++ (b':' ∷ hex)
    → verify_kappa d kappa content ≡ some (compare_label kappa (labelled a (digest_of d a content)))
unfolding verify_kappa axis
verify_kappa-IsLabel d a hex kappa content i l t =
    let parsed = parse-IsLabel kappa l in
    let text = (as_str-parse kappa (label_of kappa) parsed).0 in
    let colon : position_colon kappa ≡ some (length (axis_str a)) =
      rw t (position_colon-append (axis_str a) hex (NoColon-axis_str a)) in
    let name : take (length (axis_str a)) kappa ≡ axis_str a =
      rw t (take-length_append (axis_str a) (b':' ∷ hex)) in
    rw (verify_kappa, parsed, axis, text, colon, text, name)
      (ap (λ r. some (compare_label kappa r)) (compute_kappa-axis_str d a content i))

-- What it is that a content verifies against a label.
abbrev pub Verifies : Digests → Bytes → Bytes → Type 0
Verifies d kappa content =
    (a : Axis) × (hash : Bytes) × (digest_of d a content ≡ some hash)
    × (kappa ≡ label_text (axis_str a) hash)

verified_text :
    (d : Digests) (a : Axis) (content hash kappa : Bytes)
    → IsDigests d
    → digest_of d a content ≡ some hash
    → compare_label kappa (labelled a (some hash)) ≡ ok true
    → kappa ≡ label_text (axis_str a) hash
unfolding compare_label labelled
verified_text d a content hash kappa i e c =
    let l = label_text-IsLabel d a content hash i e in
    let same = as_str-label_of _ (length-IsLabel _ l).1 in
    let t : bytes_eq (as_str (label_of (label_text (axis_str a) hash))) kappa ≡ true =
      ground arith in
    cc (same, bytes_eq→eq _ kappa t)

Verifies-verify_kappa :
    (d : Digests) (kappa content : Bytes)
    → IsDigests d
    → Verifies d kappa content
    → verify_kappa d kappa content ≡ some (ok true)
unfolding compare_label labelled label_text
Verifies-verify_kappa d kappa content i (a, hash, e, t) =
    let l : IsLabel kappa = rw t (label_text-IsLabel d a content hash i e) in
    let same = as_str-label_of kappa (length-IsLabel kappa l).1 in
    rw
      (
        verify_kappa-IsLabel d a (hex_encode hash) kappa content i l t,
        e,
        ← t,
        same,
        bytes_eq_refl kappa,
      )
      refl

verify_kappa-Verifies :
    (d : Digests) (kappa content : Bytes)
    → IsDigests d
    → verify_kappa d kappa content ≡ some (ok true)
    → Verifies d kappa content
unfolding verify_kappa compare_label labelled
verify_kappa-Verifies d kappa content i v = elim (Result-cases (parse kappa)) [
  | inl (e, p) ↦ absurd (ground arith)
  | inr (k, p) ↦
      let l = IsLabel-parse kappa k p in
      let run = verify_kappa-IsLabel d l.alg l.hex kappa content i l l.text in
      elim (Option-cases (digest_of d l.alg content)) [
        | inl e ↦ absurd (ground arith)
        | inr (hash, e) ↦
            (l.alg, hash, e, verified_text d l.alg content hash kappa i e (cc (v, run, e)))
      ]
]

verify_kappa-ne-none :
    (d : Digests) (kappa content : Bytes) → IsDigests d → verify_kappa d kappa content ≢ none
unfolding verify_kappa
verify_kappa-ne-none d kappa content i v = elim (Result-cases (parse kappa)) [
  | inl (e, p) ↦ ground arith
  | inr (k, p) ↦
      let l = IsLabel-parse kappa k p in
      let run = verify_kappa-IsLabel d l.alg l.hex kappa content i l l.text in ground arith
]

-- Where digests are as long as the algorithms say, `verify_kappa` does not panic, and finds that a
-- content verifies exactly when the label is the name of an algorithm, a colon and the hex digits of
-- the digest of the content under that algorithm; under SHA-1 none verifies where a collision is found.
pub verify_kappa_iff :
    (d : Digests) (kappa content : Bytes)
    → IsDigests d
    → (verify_kappa d kappa content ≢ none)
      × ((verify_kappa d kappa content ≡ some (ok true)) ↔ Verifies d kappa content)
verify_kappa_iff d kappa content i = (
  verify_kappa-ne-none d kappa content i,
  (verify_kappa-Verifies d kappa content i, Verifies-verify_kappa d kappa content i),
)
