-- ===== src/Kappa/Label/Grammar.antt =====
-- `parse` accepts exactly the labels of the grammar, and keeps the text.
use kappa_registry.Prelude.{ℕ, zero, suc, ◌+◌, ◌-◌, ◌%◌, ◌≤◌, ◌≡◌, ◌↔◌, ◌⊎◌, refl, arith, ap, ◌∙◌}
use kappa_registry.Prelude.{true, some}
use kappa_registry.Prelude.{[], ◌∷◌, ◌++◌, Bytes, codes, bytes_eq→eq}
use kappa_registry.Prelude.{length, take, drop, All, length-append, take-length_append, inl, inr}
use kappa_registry.Prelude.{Option-cases, replicate}
use kappa_registry.Kappa.Label.{Axis, sha1, axis_str}
use kappa_registry.Kappa.Label.{hex_digits, axis_parse, ok, KappaLabel}
use kappa_registry.Kappa.Label.{
  position_colon, is_hex, check_hex, padded, check_digits, parse_label,
}
use kappa_registry.Kappa.Label.{parse, as_str, label_len}

-- A lowercase hex digit.
abbrev pub IsHex : ℕ → Type 0
IsHex b = ((b'0' ≤ b) × (b ≤ b'9')) ⊎ ((b'a' ≤ b) × (b ≤ b'f'))

pub is_hex_iff : (b : ℕ) → (is_hex b ≡ true) ↔ IsHex b
unfolding is_hex
is_hex_iff b = ground arith

-- `<algorithm>:<hex digest>`, with the number of digits of the algorithm.
pub record IsLabel (s : Bytes) : Type 0 where
  pub alg : Axis
  pub hex : Bytes
  pub text : s ≡ axis_str alg ++ (b':' ∷ hex)
  pub digits : length hex ≡ hex_digits alg
  pub all_hex : All IsHex hex

pub position_colon-split :
    (s : Bytes) (n : ℕ) → position_colon s ≡ some n → s ≡ take n s ++ (b':' ∷ drop (n + 1) s)
unfolding position_colon
position_colon-split [] n h = cc
position_colon-split (b ∷ bs) zero h = ground arith
position_colon-split (b ∷ bs) (suc n) h =
    let later : position_colon bs ≡ some n = ground arith in
    let a : suc n + 1 ≡ suc (n + 1) = omega arith in
    rw a (ap (λ t. b ∷ t) (position_colon-split bs n later))

pub axis_parse-some : (s : Bytes) (a : Axis) → axis_parse s ≡ some a → s ≡ axis_str a
unfolding axis_parse axis_str
axis_parse-some s a h = ground (
  arith,
  bytes_eq→eq s (codes "sha1"),
  bytes_eq→eq s (codes "sha256"),
  bytes_eq→eq s (codes "blake3"),
  bytes_eq→eq s (codes "sha512"),
  bytes_eq→eq s (codes "sha3-256"),
  bytes_eq→eq s (codes "keccak256"),
)

check_hex_iff : (position : ℕ) (hex : Bytes) → (check_hex position hex ≡ ok tt) ↔ All IsHex hex
unfolding check_hex
check_hex_iff position [] = (λ h. tt, λ h. refl)
check_hex_iff position (b ∷ bs) = ground (arith, is_hex_iff b, check_hex_iff (position + 1) bs)

check_digits_ok :
    (expected colon : ℕ) (hex : Bytes)
    → length hex ≡ expected
    → All IsHex hex
    → check_digits expected colon hex ≡ ok tt
unfolding check_digits
check_digits_ok expected colon hex n h = ground (arith, check_hex_iff (colon + 1) hex)

parse_label-alg :
    (a : Axis) (hex : Bytes)
    → length hex ≡ hex_digits a
    → All IsHex hex
    → parse_label (axis_str a ++ (b':' ∷ hex))
      ≡ ok (record {
        buf = padded (axis_str a ++ (b':' ∷ hex));
        len = length (axis_str a ++ (b':' ∷ hex)) % 256;
      })
unfolding parse_label position_colon axis_parse axis_str hex_digits
parse_label-alg sha1 hex n h = rw (check_digits_ok 40 4 hex n h)
parse_label-alg a hex n h = rw (check_digits_ok (hex_digits a) (length (axis_str a)) hex n h)

pub label_len_bounds : (a : Axis) → (45 ≤ label_len a) × (label_len a ≤ 135)
unfolding label_len axis_str hex_digits
label_len_bounds sha1 = omega arith
label_len_bounds a = omega arith

length-text :
    (a : Axis) (hex : Bytes)
    → length hex ≡ hex_digits a
    → length (axis_str a ++ (b':' ∷ hex)) ≡ label_len a
unfolding label_len
length-text a hex n = omega (arith, length-append (axis_str a) (b':' ∷ hex))

-- The label that `parse` makes of an accepted text.
abbrev pub label_of : Bytes → KappaLabel
label_of s = record { buf = padded s; len = length s % 256 }

parse-text :
    (a : Axis) (hex : Bytes)
    → length hex ≡ hex_digits a
    → All IsHex hex
    → parse (axis_str a ++ (b':' ∷ hex)) ≡ ok (label_of (axis_str a ++ (b':' ∷ hex)))
unfolding parse
parse-text a hex n h =
    let l = length-text a hex n in
    let b = label_len_bounds a in ground (arith, parse_label-alg a hex n h)

pub parse-IsLabel : (s : Bytes) → IsLabel s → parse s ≡ ok (label_of s)
parse-IsLabel s l = rw l.text (parse-text l.alg l.hex l.digits l.all_hex)

check_digits_inv :
    (expected colon : ℕ) (hex : Bytes)
    → check_digits expected colon hex ≡ ok tt
    → (length hex ≡ expected) × All IsHex hex
unfolding check_digits
check_digits_inv expected colon hex h = ground (arith, check_hex_iff (colon + 1) hex)

pub IsLabel-parse : (s : Bytes) (k : KappaLabel) → parse s ≡ ok k → IsLabel s
unfolding parse parse_label
IsLabel-parse s k h = elim (Option-cases (position_colon s)) [
  | inl e ↦ absurd (ground arith)
  | inr (n, e) ↦ elim (Option-cases (axis_parse (take n s))) [
    | inl f ↦ absurd (ground arith)
    | inr (a, f) ↦
        let hex = drop (n + 1) s in
        let checked : check_digits (hex_digits a) n hex ≡ ok tt = ground arith in
        let inv = check_digits_inv (hex_digits a) n hex checked in
        record {
          alg = a;
          hex = hex;
          text = position_colon-split s n e ∙ ap (λ t. t ++ (b':' ∷ hex)) (axis_parse-some _ a f);
          digits = inv.0;
          all_hex = inv.1;
        }
  ]
]

pub length-IsLabel : (s : Bytes) → IsLabel s → (45 ≤ length s) × (length s ≤ 135)
length-IsLabel s l =
    omega (arith, ap length l.text, length-text l.alg l.hex l.digits, label_len_bounds l.alg)

pub as_str-label_of : (s : Bytes) → length s ≤ 135 → as_str (label_of s) ≡ s
unfolding as_str padded
as_str-label_of s h =
    let short : length s % 256 ≡ length s = omega arith in
    rw short (take-length_append s (replicate (135 - length s) 0))

-- A parsed label prints as the text it was parsed from, and that text parses to the same label; its
-- length is 45 to 135 bytes.
pub as_str-parse :
    (s : Bytes) (k : KappaLabel)
    → parse s ≡ ok k
    → (as_str k ≡ s) × (parse (as_str k) ≡ ok k) × (45 ≤ length s) × (length s ≤ 135)
as_str-parse s k h =
    let l = IsLabel-parse s k h in
    let made : label_of s ≡ k = cc (parse-IsLabel s l) in
    let bounds = length-IsLabel s l in
    let text : as_str k ≡ s = rw (← made) (as_str-label_of s bounds.1) in
    (text, rw text h, bounds.0, bounds.1)

KappaLabel_ext : (k k' : KappaLabel) → k.buf ≡ k'.buf → k.len ≡ k'.len → k ≡ k'
KappaLabel_ext k k' b l i = record { buf = b i; len = l i }

-- `parse` accepts a text and returns a label exactly when the text is one of the six algorithm tokens, a
-- colon, and as many lowercase hex digits as the algorithm has, and the label is the text in the buffer of
-- 135 bytes, filled up with zeros, with the length of the text.
pub parse_iff :
    (s : Bytes) (k : KappaLabel)
    → (parse s ≡ ok k)
      ↔ (IsLabel s × (k.buf ≡ s ++ replicate (135 - length s) 0) × (k.len ≡ length s))
unfolding padded
parse_iff s k = (
  λ h.
      let l = IsLabel-parse s k h in
      let made : label_of s ≡ k = cc (parse-IsLabel s l) in
      let bounds = length-IsLabel s l in
      let short : length s % 256 ≡ length s = omega (arith, bounds) in
      (l, rw (← made) refl, rw (← made) short),
  λ (l, buf, len).
      let bounds = length-IsLabel s l in
      let short : length s ≡ length s % 256 = omega (arith, bounds) in
      let made : k ≡ label_of s = KappaLabel_ext k (label_of s) buf (len ∙ short) in
      rw made (parse-IsLabel s l),
)
