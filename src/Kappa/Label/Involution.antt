-- ===== src/Kappa/Label/Involution.antt =====
-- The complement of a label is a label of the same algorithm, and complementing twice gives the label.
use kappa_registry.Prelude.{ℕ, ◌+◌, ◌-◌, ◌*◌, ◌/◌, ◌%◌, ◌<◌, ◌≡◌, refl, arith, ap, sym, ◌∙◌}
use kappa_registry.Prelude.{leb, if◌then◌else◌, some}
use kappa_registry.Prelude.{[], ◌∷◌, ◌++◌, Bytes, length, take, drop, All}
use kappa_registry.Kappa.Label.{sha1}
use kappa_registry.Kappa.Label.{Axis, axis_str, hex_digits, hex_char, hex_nibble, KappaLabel}
use kappa_registry.Kappa.Label.{ok, parse, as_str, position_colon, padded, complement_pair}
use kappa_registry.Kappa.Label.{complement_hex, complement, axis_enum, axis, axis_parse}
use kappa_registry.Kappa.Label.Grammar.{IsHex, label_of, parse-IsLabel, IsLabel-parse, as_str-parse}

-- A hex digit has a nibble, and the nibble has that digit.
nibble_of_hex : (b : ℕ) → IsHex b → (n : ℕ) × (hex_nibble b ≡ some n) × (n < 16) × (hex_char n ≡ b)
unfolding hex_nibble hex_char
nibble_of_hex b h =
    ((if leb b b'9' then b - b'0' else b - b'a' + 10), ground arith, ground arith, ground arith)

hex_char_nibble : (n : ℕ) → n < 16 → (hex_nibble (hex_char n) ≡ some n) × IsHex (hex_char n)
unfolding hex_nibble hex_char
hex_char_nibble n h = (ground arith, ground arith)

complement_pair_digits :
    (hi lo : ℕ)
    → hi < 16
    → lo < 16
    → complement_pair hi lo ≡ hex_char (15 - hi) ∷ hex_char (15 - lo) ∷ []
unfolding complement_pair
complement_pair_digits hi lo h k =
    let up : (255 - (hi * 16 + lo)) / 16 ≡ 15 - hi = omega arith in
    let low : (255 - (hi * 16 + lo)) % 16 ≡ 15 - lo = omega arith in rw (up, low)

complement_hex-pair :
    (x y hi lo : ℕ) (rest more : Bytes)
    → hex_nibble x ≡ some hi
    → hex_nibble y ≡ some lo
    → hi < 16
    → lo < 16
    → complement_hex rest ≡ some more
    → complement_hex (x ∷ y ∷ rest) ≡ some (hex_char (15 - hi) ∷ hex_char (15 - lo) ∷ more)
unfolding complement_hex
complement_hex-pair x y hi lo rest more ex ey lx ly e =
    ground (arith, complement_pair_digits hi lo lx ly)

-- Digits with a complement of equal length that is complemented back to them.
abbrev Complements : Bytes → Type 0
Complements hex =
    (hex' : Bytes) × (complement_hex hex ≡ some hex')
    × (length hex' ≡ length hex)
    × All IsHex hex'
    × (complement_hex hex' ≡ some hex)

Complements-pair :
    (x y : ℕ) (rest : Bytes) → IsHex x → IsHex y → Complements rest → Complements (x ∷ y ∷ rest)
Complements-pair x y rest hx hy (rest', e, l, k, back) =
    let (hi, ex, lx, cx) = nibble_of_hex x hx in
    let (lo, ey, ly, cy) = nibble_of_hex y hy in
    let (ex', ix') = hex_char_nibble (15 - hi) (omega arith) in
    let (ey', iy') = hex_char_nibble (15 - lo) (omega arith) in
    let twice_hi : 15 - (15 - hi) ≡ hi = omega arith in
    let twice_lo : 15 - (15 - lo) ≡ lo = omega arith in
    (
      hex_char (15 - hi) ∷ hex_char (15 - lo) ∷ rest',
      complement_hex-pair x y hi lo rest rest' ex ey lx ly e,
      omega (arith, l),
      (ix', (iy', k)),
      complement_hex-pair _ _ (15 - hi) (15 - lo) rest' rest ex' ey' (omega arith) (omega arith)
            back
          ∙ cc (twice_hi, twice_lo, cx, cy),
    )

complement_hex_lem : (hex : Bytes) → length hex % 2 ≡ 0 → All IsHex hex → Complements hex
unfolding complement_hex
complement_hex_lem [] n h = ([], refl, refl, tt, refl)
complement_hex_lem (x ∷ []) n h = absurd (omega arith)
complement_hex_lem (x ∷ y ∷ rest) n (hx, (hy, h)) =
    Complements-pair x y rest hx hy (complement_hex_lem rest (omega arith) h)

digits_even : (a : Axis) (hex : Bytes) → length hex ≡ hex_digits a → length hex % 2 ≡ 0
unfolding hex_digits
digits_even sha1 hex n = omega arith
digits_even _ hex n = omega arith

-- A label over other digits of the same number.
abbrev with_digits : Axis → Bytes → Bytes
with_digits a hex = axis_str a ++ (b':' ∷ hex)

complement_parts :
    (k : KappaLabel) (text hex hex' : Bytes) (colon : ℕ)
    → as_str k ≡ text
    → position_colon text ≡ some colon
    → drop (colon + 1) text ≡ hex
    → complement_hex hex ≡ some hex'
    → complement k ≡ some (record { buf = padded (take (colon + 1) k.buf ++ hex'); len = k.len })
unfolding complement
complement_parts k text hex hex' colon t p d e = ground arith

complement-with_digits :
    (a : Axis) (hex hex' : Bytes)
    → as_str (label_of (with_digits a hex)) ≡ with_digits a hex
    → complement_hex hex ≡ some hex'
    → length hex' ≡ length hex
    → complement (label_of (with_digits a hex)) ≡ some (label_of (with_digits a hex'))
unfolding axis_str position_colon padded
complement-with_digits sha1 hex hex' t e n =
    complement_parts _ _ hex hex' 4 t refl refl e ∙ rw (← n)
complement-with_digits a hex hex' t e n =
    complement_parts _ _ hex hex' (length (axis_str a)) t refl refl e ∙ rw (← n)

as_str-with_digits :
    (a : Axis) (hex : Bytes)
    → length hex ≡ hex_digits a
    → All IsHex hex
    → as_str (label_of (with_digits a hex)) ≡ with_digits a hex
as_str-with_digits a hex n h =
    (as_str-parse (with_digits a hex) _ (
      parse-IsLabel (with_digits a hex)
        (record { alg = a; hex = hex; text = refl; digits = n; all_hex = h }))).0

axis_enum_parts :
    (k : KappaLabel) (text : Bytes) (colon : ℕ) (a : Axis)
    → as_str k ≡ text
    → position_colon text ≡ some colon
    → axis_parse (take colon text) ≡ some a
    → axis_enum k ≡ some a
unfolding axis_enum axis
axis_enum_parts k text colon a t p h = ground arith

axis_enum-with_digits :
    (a : Axis) (hex : Bytes)
    → as_str (label_of (with_digits a hex)) ≡ with_digits a hex
    → axis_enum (label_of (with_digits a hex)) ≡ some a
unfolding position_colon axis_parse axis_str
axis_enum-with_digits sha1 hex t = axis_enum_parts _ _ 4 sha1 t refl refl
axis_enum-with_digits a hex t = axis_enum_parts _ _ (length (axis_str a)) a t refl refl

record Complemented (k : KappaLabel) (a : Axis) : Type 0 where
  label : KappaLabel
  text : Bytes
  made : complement k ≡ some label
  parses : parse text ≡ ok label
  alg : axis_enum label ≡ some a
  back : complement label ≡ some k

Complemented-with_digits :
    (a : Axis) (hex : Bytes)
    → length hex ≡ hex_digits a
    → All IsHex hex
    → Complemented (label_of (with_digits a hex)) a
Complemented-with_digits a hex n h =
    let (hex', e, l, k, back) = complement_hex_lem hex (digits_even a hex n) h in
    let t = as_str-with_digits a hex n h in
    let t' = as_str-with_digits a hex' (l ∙ n) k in
    record {
      label = label_of (with_digits a hex');
      text = with_digits a hex';
      made = complement-with_digits a hex hex' t e l;
      parses =
          parse-IsLabel (with_digits a hex')
            (record { alg = a; hex = hex'; text = refl; digits = l ∙ n; all_hex = k });
      alg = axis_enum-with_digits a hex' t';
      back = complement-with_digits a hex' hex t' back (sym l);
    }

-- The complement of a parsed label is again a label that `parse` accepts, of the same algorithm, and
-- its complement is the label.
pub complement-complement :
    (s : Bytes) (k : KappaLabel)
    → parse s ≡ ok k
    → (k' : KappaLabel) × (s' : Bytes) × (complement k ≡ some k')
      × (parse s' ≡ ok k')
      × (axis_enum k' ≡ axis_enum k)
      × (complement k' ≡ some k)
complement-complement s k h =
    let l = IsLabel-parse s k h in
    let made : label_of (with_digits l.alg l.hex) ≡ k =
      ap label_of (sym l.text) ∙ cc (parse-IsLabel s l) in
    let c = Complemented-with_digits l.alg l.hex l.digits l.all_hex in
    let t = axis_enum-with_digits l.alg l.hex (as_str-with_digits l.alg l.hex l.digits l.all_hex) in
    (c.label, c.text, rw (← made) c.made, c.parses, c.alg ∙ sym (rw (← made) t), rw (← made) c.back)
