-- ===== src/Bundle/RoundTrip.antt =====
-- A bundle of full entries is decoded to its objects.
use kappa_registry.Prelude.{ℕ, ◌+◌, ◌-◌, ◌*◌, ◌^◌, ◌≤◌, ◌<◌, ◌≡◌, refl, ap, ◌∙◌, arith, Bool, true}
use kappa_registry.Prelude.{
  Option, List, [], ◌∷◌, ◌++◌, append_assoc, Bytes, bytes_eq_refl, length, length-append,
  take-length_append, drop-length_append, All,
}
use kappa_registry.Dict.{Dict, insert, bytes_key}
use kappa_registry.Kappa.Label.{sha256, hex_digits}
use kappa_registry.Kappa.Label.Grammar.{IsLabel, length-IsLabel}
use kappa_registry.Kappa.Compute.{Digests}
use kappa_registry.Kappa.Compute.Verify.{IsDigests, Verifies, verify_kappa_iff, label_text-IsLabel}
use kappa_registry.Bundle.{
  BundleEntry, ok, decode_max_bytes, check_match, verify_entry_kappa, saturating_add, admit,
}
use kappa_registry.Bundle.{
  field, to_be_bytes, full_entry, full_entries, payload_of, encode_full_only, from_be_bytes,
}
use kappa_registry.Bundle.{
  parse_full_entry, read_typed, read_entry, decode_entries, decode_payload, decode,
}
use kappa_registry.Bundle.Fields.{
  At, At-move, At-length, length-to_be_bytes, parse_kappa_field-At, parse_content_field-At,
}
use kappa_registry.Bundle.Verified.{total_of}

-- Objects whose contents verify against their labels, which are texts.
abbrev pub IsObject : Digests → (Bytes → Bool) → BundleEntry → Type 0
IsObject d utf8 e = Verifies d e.kappa e.content × (utf8 e.kappa ≡ true)

module _ (d : Digests) (utf8 : Bytes → Bool) (resolve_base : Option (Bytes → Option Bytes))
    (digests : IsDigests d) where
  short_kappa : (kappa content : Bytes) → Verifies d kappa content → length kappa ≤ 135
  short_kappa kappa content (a, hash, e, t) =
      let l : IsLabel kappa = rw t (label_text-IsLabel d a content hash digests e) in
      (length-IsLabel kappa l).1

  parse_full_entry-At :
      (p : Bytes) (pos : ℕ) (e : BundleEntry) (rest : Bytes)
      → length p < 2 ^ 64
      → IsObject d utf8 e
      → At p pos (field 2 e.kappa ++ (field 8 e.content ++ rest))
      → (end : ℕ) × (parse_full_entry utf8 p pos ≡ ok (e, end)) × At p end rest
  unfolding parse_full_entry
  parse_full_entry-At p pos e rest b (v, u) at =
      let (k, next) =
        parse_kappa_field-At utf8 p pos e.kappa (field 8 e.content ++ rest) u
          (omega (arith, short_kappa e.kappa e.content v)) at in
      let (c, last) = parse_content_field-At p (pos + 2 + length e.kappa) e.content rest b next in
      (pos + 2 + length e.kappa + 8 + length e.content, rw (parse_full_entry, k, c) refl, last)

  read_entry-At :
      (flags : ℕ) (index : Dict Bytes Bytes) (p : Bytes) (pos : ℕ) (e : BundleEntry) (rest : Bytes)
      → length p < 2 ^ 64
      → IsObject d utf8 e
      → At p pos (full_entry e ++ rest)
      → (end : ℕ) × (read_entry d utf8 resolve_base flags index p pos ≡ ok (e, end)) × At p end rest
  unfolding read_entry read_typed full_entry
  read_entry-At flags index p pos e rest b o at =
      let (f, n) = At-move p pos (1 ∷ []) ((field 2 e.kappa ++ field 8 e.content) ++ rest) at in
      let again = append_assoc (field 2 e.kappa) (field 8 e.content) rest in
      let (end, run, last) =
        parse_full_entry-At p (pos + 1) e rest b o
          (f ∙ again, n ∙ ap (λ t. pos + 1 + length t) again) in
      (end, rw (read_entry, at.0) run, last)

  admit-Verifies :
      (total : ℕ) (e : BundleEntry)
      → IsObject d utf8 e
      → total + length e.content ≤ decode_max_bytes
      → admit d utf8 resolve_base total e ≡ ok (total + length e.content)
  unfolding admit verify_entry_kappa check_match saturating_add
  admit-Verifies total e (v, u) h =
      let found = (verify_kappa_iff d e.kappa e.content digests).1.1 v in
      rw (admit, found) (ground (arith, h))

  decode_entries-full :
      (flags : ℕ) (index : Dict Bytes Bytes) (total : ℕ) (p : Bytes) (pos : ℕ)
      (objects : List BundleEntry)
      → length p < 2 ^ 64
      → All (IsObject d utf8) objects
      → total + total_of objects ≤ decode_max_bytes
      → At p pos (full_entries objects)
      → decode_entries d utf8 resolve_base (length objects) flags index total p pos ≡ ok objects
  unfolding decode_entries full_entries
  decode_entries-full flags index total p pos [] b o h at = refl
  decode_entries-full flags index total p pos (e ∷ objects) b (o, os) h at =
      let (end, run, last) = read_entry-At flags index p pos e (full_entries objects) b o at in
      let admitted = admit-Verifies total e o (omega arith) in
      let rest =
        decode_entries-full flags (insert index e.kappa e.content) (total + length e.content) p end
          objects b os (omega arith) last in
      rw (run, admitted, rest) refl

  length-full_entries :
      (objects : List BundleEntry)
      → All (IsObject d utf8) objects
      → length (full_entries objects) ≤ 146 * length objects + total_of objects
  unfolding full_entries full_entry field
  length-full_entries [] o = omega arith
  length-full_entries (e ∷ objects) ((v, u), os) =
      let k = to_be_bytes 2 (length e.kappa) in
      let c = to_be_bytes 8 (length e.content) in
      omega (
        arith,
        length-full_entries objects os,
        short_kappa e.kappa e.content v,
        length-append ((k ++ e.kappa) ++ (c ++ e.content)) (full_entries objects),
        length-append (k ++ e.kappa) (c ++ e.content),
        length-append k e.kappa,
        length-append c e.content,
        length-to_be_bytes 2 (length e.kappa),
        length-to_be_bytes 8 (length e.content),
      )

  decode_payload-payload_of :
      (objects : List BundleEntry)
      → All (IsObject d utf8) objects
      → length objects < 2 ^ 32
      → total_of objects ≤ decode_max_bytes
      → decode_payload d utf8 resolve_base (payload_of objects) ≡ ok objects
  unfolding decode_payload payload_of from_be_bytes
  decode_payload-payload_of objects o n h =
      let p = payload_of objects in
      let (size, at) =
        At-length p 6 4 (length objects) (full_entries objects) n (refl, omega arith) in
      let bound : length p < 2 ^ 64 = omega (arith, length-full_entries objects o, at.1) in
      ap (λ count. decode_entries d utf8 resolve_base count 0 [] 0 p 10) size
      ∙ decode_entries-full 0 [] 0 p 10 objects bound o (omega arith) at

trailer : (d : Digests) → IsDigests d → (p : Bytes) → length (d.sha256_digest p) ≡ 32
unfolding hex_digits
trailer d digests p = let (n, bytes) = digests sha256 p (d.sha256_digest p) refl in omega (arith, n)

length-payload_of : (objects : List BundleEntry) → 10 ≤ length (payload_of objects)
unfolding payload_of
length-payload_of objects = omega (
  arith,
  length-append (to_be_bytes 4 (length objects)) (full_entries objects),
  length-to_be_bytes 4 (length objects),
)

-- Objects whose contents verify against their labels, the labels being texts, fewer than 2^32 of them and
-- with 268,435,456 bytes of content together at most: the bundle of full entries is decoded to exactly
-- the objects, in order, whatever `resolve_base` is.
pub decode-encode_full_only :
    (d : Digests) (utf8 : Bytes → Bool) (resolve_base : Option (Bytes → Option Bytes))
    (objects : List BundleEntry)
    → IsDigests d
    → All (IsObject d utf8) objects
    → length objects < 2 ^ 32
    → total_of objects ≤ decode_max_bytes
    → decode d utf8 resolve_base (encode_full_only d objects) ≡ ok objects
unfolding decode encode_full_only
decode-encode_full_only d utf8 resolve_base objects digests o n h =
    let p = payload_of objects in
    let hash = d.sha256_digest p in
    let size : length hash ≡ 32 = trailer d digests p in
    let whole = length-append p hash in
    let cut : length (p ++ hash) - 32 ≡ length p = omega (arith, size, whole) in
    let header = length-payload_of objects in
    let front = take-length_append p hash in
    let back = drop-length_append p hash in
    rw (decode, cut, front, back, bytes_eq_refl hash)
      (ground (
        arith,
        whole,
        size,
        header,
        decode_payload-payload_of d utf8 resolve_base digests objects o n h,
      ))
