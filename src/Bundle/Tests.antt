-- ===== src/Bundle/Tests.antt =====
-- Bundles with a fixed digest in place of the crates', and the theorems at one.
use kappa_registry.Prelude.{
  ◌≡◌, ◌≤◌, refl, arith, true, Bool, none, List, [], ◌∷◌, ◌++◌, Bytes, All, replicate, length, take,
  drop,
}
use kappa_registry.Kappa.Label.{sha1, axis_str}
use kappa_registry.Kappa.Compute.Verify.{Verifies}
use kappa_registry.Kappa.Compute.Sample.{digests, digests-IsDigests, label, first_byte}
use kappa_registry.Bundle.{
  BundleEntry, ok, panic, err, delta_in_no_delta_bundle, decode_max_bytes, magic, from_be_bytes,
}
use kappa_registry.Bundle.{encode_full_only, decode, decode_payload}
use kappa_registry.Bundle.{
  decode_entries, read_entry, read_typed, read_delta, parse_full_entry, parse_kappa_field,
  parse_content_field, take_content, slice,
}
use kappa_registry.Bundle.Verified.{total_of, decode-Verifies}
use kappa_registry.Bundle.RoundTrip.{IsObject, decode-encode_full_only}

abbrev utf8 : Bytes → Bool
utf8 bytes = true

abbrev objects : List BundleEntry
objects = record { kappa = label; content = 9 ∷ 8 ∷ [] } ∷ []

objects-IsObject : All (IsObject digests utf8) objects
unfolding axis_str
objects-IsObject = (((sha1, first_byte 19 (9 ∷ []), refl, refl), refl), tt)

decode-encode_full_only_example :
    decode digests utf8 none (encode_full_only digests objects) ≡ ok objects
decode-encode_full_only_example =
    decode-encode_full_only digests utf8 none objects digests-IsDigests objects-IsObject
      (omega arith) (omega arith)

decoded : decode digests utf8 none (encode_full_only digests objects) ≡ ok objects
decoded =
    decode-encode_full_only digests utf8 none objects digests-IsDigests objects-IsObject
      (omega arith) (omega arith)

decode-Verifies_example :
    All (λ e. Verifies digests e.kappa e.content) objects
    × (length objects ≡ from_be_bytes 0 (take 4 (drop 6 (encode_full_only digests objects))))
    × (total_of objects ≤ decode_max_bytes)
decode-Verifies_example =
    decode-Verifies digests utf8 none (encode_full_only digests objects) objects digests-IsDigests
      decoded

-- A payload and the trailer.
abbrev bundle : Bytes → Bytes
bundle payload = payload ++ first_byte 31 payload

-- One full entry with an empty label and a length of 2^64 - 1.
huge_run :
    decode digests utf8 none
      (bundle (magic ++ (1 ∷ 0 ∷ 0 ∷ 0 ∷ 0 ∷ 1 ∷ 1 ∷ 0 ∷ 0 ∷ replicate 8 255)))
    ≡ panic
unfolding decode decode_payload decode_entries read_entry read_typed parse_full_entry
    parse_kappa_field parse_content_field take_content slice from_be_bytes
huge_run = refl

-- A delta entry where the flags say that there is none.
flags_run :
    decode digests utf8 none (bundle (magic ++ (1 ∷ 0 ∷ 0 ∷ 0 ∷ 0 ∷ 1 ∷ 2 ∷ [])))
    ≡ err delta_in_no_delta_bundle
unfolding decode decode_payload decode_entries read_entry read_typed read_delta from_be_bytes
flags_run = refl
