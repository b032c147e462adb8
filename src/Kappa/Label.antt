-- ===== src/Kappa/Label.antt =====
-- crates/kappa-core/src/kappa/label.rs: `KappaLabel`, a validated `<algorithm>:<hex digest>`. A label
-- is ASCII, so its characters are its bytes; `b':'` is 58. What `unwrap` may refuse is an `Option`.
pub mod Grammar
pub mod Involution
mod Tests
use kappa_registry.Prelude.{ℕ, ◌+◌, ◌-◌, ◌*◌, ◌/◌, ◌%◌, ◌==◌, ltb, leb, if◌then◌else◌}
use kappa_registry.Prelude.{◌&&◌, ◌||◌, Bool, Option, none, some, List, [], ◌∷◌, ◌++◌}
use kappa_registry.Prelude.{Bytes, codes, bytes_eq, length, take, drop, replicate}

pub data Axis : Type 0 where
  sha1 sha256 blake3 sha512 sha3_256 keccak256 : Axis

-- `Axis::as_str`
unfoldable pub axis_str : Axis → Bytes
axis_str sha1 = codes "sha1"
axis_str sha256 = codes "sha256"
axis_str blake3 = codes "blake3"
axis_str sha512 = codes "sha512"
axis_str sha3_256 = codes "sha3-256"
axis_str keccak256 = codes "keccak256"

unfoldable pub hex_digits : Axis → ℕ
hex_digits sha1 = 40
hex_digits sha256 = 64
hex_digits blake3 = 64
hex_digits sha512 = 128
hex_digits sha3_256 = 64
hex_digits keccak256 = 64

unfoldable pub digest_bytes : Axis → ℕ
digest_bytes a = hex_digits a / 2

unfoldable pub label_len : Axis → ℕ
label_len a = length (axis_str a) + 1 + hex_digits a

-- `Axis::parse`
unfoldable pub axis_parse : Bytes → Option Axis
axis_parse s =
    if bytes_eq s (codes "sha1")
    then some sha1
    else if bytes_eq s (codes "sha256")
    then some sha256
    else if bytes_eq s (codes "blake3")
    then some blake3
    else if bytes_eq s (codes "sha512")
    then some sha512
    else if bytes_eq s (codes "sha3-256")
    then some sha3_256
    else if bytes_eq s (codes "keccak256")
    then some keccak256
    else none

pub data LabelError : Type 0 where
  bad_length : ℕ → LabelError
  no_colon : LabelError
  unknown_axis : LabelError
  bad_hex : ℕ → ℕ → LabelError
  wrong_digit_count : ℕ → ℕ → LabelError
  collision_detected : LabelError
  digest_mismatch : Bytes → Bytes → Bytes → LabelError

pub data Result {ℓ} (A : Type ℓ) : Type ℓ where
  ok : A → Result A
  err : LabelError → Result A

infixl 5 ◌>>=◌
abbrev pub ◌>>=◌ {ℓ κ} : {A : Type ℓ} {B : Type κ} → Result A → (A → Result B) → Result B
ok a >>= f = f a
err e >>= f = err e

abbrev pub ok_or {ℓ} : {A : Type ℓ} → LabelError → Option A → Result A
ok_or e none = err e
ok_or e (some a) = ok a

-- `HEX[n]`, for a nibble.
unfoldable pub hex_char : ℕ → ℕ
hex_char n = if ltb n 10 then n + b'0' else n - 10 + b'a'

unfoldable pub hex_nibble : ℕ → Option ℕ
hex_nibble b =
    if leb b'0' b && leb b b'9'
    then some (b - b'0')
    else if leb b'a' b && leb b b'f'
    then some (b - b'a' + 10)
    else none

-- A buffer of 135 bytes, of which the first `len` are the label.
pub record KappaLabel : Type 0 where
  pub buf : Bytes
  pub len : ℕ

-- `iter().position(|&b| b == b':')`
unfoldable pub position_colon : Bytes → Option ℕ
position_colon [] = none
position_colon (b ∷ bs) =
    let later : Option ℕ = elim (position_colon bs) [ none ↦ none | some n ↦ some (n + 1) ] in
    if b == b':' then some 0 else later

-- `matches!(b, b'0'..=b'9' | b'a'..=b'f')`
unfoldable pub is_hex : ℕ → Bool
is_hex b = (leb b'0' b && leb b b'9') || (leb b'a' b && leb b b'f')

-- The loop over the digits; `position` is that of the first of them.
unfoldable pub check_hex : ℕ → Bytes → Result (Unit {0})
check_hex position [] = ok tt
check_hex position (b ∷ bs) =
    let more = check_hex (position + 1) bs in if is_hex b then more else err (bad_hex position b)

-- `buf[..n].copy_from_slice(bytes)` into 135 zeros.
unfoldable pub padded : Bytes → Bytes
padded bytes = bytes ++ replicate (135 - length bytes) 0

unfoldable pub check_digits : ℕ → ℕ → Bytes → Result (Unit {0})
check_digits expected colon hex_part =
    if length hex_part == expected
    then check_hex (colon + 1) hex_part
    else err (wrong_digit_count expected (length hex_part))

unfoldable pub parse_label : Bytes → Result KappaLabel
parse_label s = do
  colon ← ok_or no_colon (position_colon s)
  axis ← ok_or unknown_axis (axis_parse (take colon s))
  _ ← check_digits (hex_digits axis) colon (drop (colon + 1) s)
  ok (record { buf = padded s; len = length s % 256 })

-- `KappaLabel::parse`
unfoldable pub parse : Bytes → Result KappaLabel
parse s =
    if leb 45 (length s) && leb (length s) 135 then parse_label s else err (bad_length (length s))

unfoldable pub as_str : KappaLabel → Bytes
as_str k = take k.len k.buf

unfoldable pub axis : KappaLabel → Option Bytes
axis k = elim (position_colon (as_str k)) [ none ↦ none | some n ↦ some (take n (as_str k)) ]

unfoldable pub axis_enum : KappaLabel → Option Axis
axis_enum k = elim (axis k) [ none ↦ none | some s ↦ axis_parse s ]

unfoldable pub hex_digest : KappaLabel → Option Bytes
hex_digest k = elim (position_colon (as_str k)) [
  | none ↦ none
  | some n ↦ some (drop (n + 1) (as_str k))
]

-- One pair of digits: `byte = (hi << 4) | lo`, `comp = !byte`, and its two digits.
unfoldable pub complement_pair : ℕ → ℕ → Bytes
complement_pair hi lo =
    let comp = 255 - (hi * 16 + lo) in hex_char (comp / 16) ∷ hex_char (comp % 16) ∷ []

-- `for pair in hex_bytes.chunks_exact(2)`
unfoldable pub complement_hex : Bytes → Option Bytes
complement_hex [] = some []
complement_hex (x ∷ []) = some []
complement_hex (x ∷ y ∷ rest) = elim (hex_nibble x) [
  | none ↦ none
  | some hi ↦ elim (hex_nibble y) [
    | none ↦ none
    | some lo ↦ elim (complement_hex rest) [
      | none ↦ none
      | some more ↦ some (complement_pair hi lo ++ more)
    ]
  ]
]

unfoldable pub complement : KappaLabel → Option KappaLabel
complement k = elim (position_colon (as_str k)) [
  | none ↦ none
  | some colon ↦ elim (complement_hex (drop (colon + 1) (as_str k))) [
    | none ↦ none
    | some hex ↦ some (record { buf = padded (take (colon + 1) k.buf ++ hex); len = k.len })
  ]
]
