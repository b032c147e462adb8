-- ===== src/Kappa/Label/Tests.antt =====
-- Runs on a SHA-1 label, and the theorems at it.
use kappa_registry.Prelude.{length, ◌++◌, ◌-◌, replicate, ◌≡◌, ◌↔◌, refl, some, Bytes, codes}
use kappa_registry.Kappa.Label.{KappaLabel, ok, err, bad_hex, parse, parse_label}
use kappa_registry.Kappa.Label.{position_colon, axis_parse, hex_digits, check_digits, check_hex}
use kappa_registry.Kappa.Label.{is_hex, padded, as_str, complement, complement_hex, complement_pair}
use kappa_registry.Kappa.Label.{hex_char, hex_nibble, axis_enum}
use kappa_registry.Kappa.Label.Grammar.{IsLabel, label_of, parse_iff}
use kappa_registry.Kappa.Label.Involution.{complement-complement}

abbrev text : Bytes
text = codes "sha1:da39a3ee5e6b4b0d3255bfef95601890afd80709"

abbrev upper : Bytes
upper = codes "sha1:dA39a3ee5e6b4b0d3255bfef95601890afd80709"

text_parses : parse text ≡ ok (label_of text)
unfolding parse parse_label position_colon axis_parse hex_digits check_digits check_hex is_hex
    padded
text_parses = refl

upper_refused : parse upper ≡ err (bad_hex 6 b'A')
unfolding parse parse_label position_colon axis_parse hex_digits check_digits check_hex is_hex
    padded
upper_refused = refl

text_complement :
    complement (label_of text)
    ≡ some (label_of (codes "sha1:25c65c11a194b4f2cdaa40106a9fe76f5027f8f6"))
unfolding complement as_str position_colon complement_hex complement_pair hex_nibble hex_char padded
text_complement = refl

parse_iff_example : (parse text ≡ ok (label_of text)) ↔ (
    IsLabel text
    × ((label_of text).buf ≡ text ++ replicate (135 - length text) 0)
    × ((label_of text).len ≡ length text))
parse_iff_example = parse_iff text (label_of text)

complement-complement_example :
    (k' : KappaLabel) × (s' : Bytes) × (complement (label_of text) ≡ some k')
    × (parse s' ≡ ok k')
    × (axis_enum k' ≡ axis_enum (label_of text))
    × (complement k' ≡ some (label_of text))
complement-complement_example = complement-complement text (label_of text) text_parses
