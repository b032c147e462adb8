-- ===== src/Bundle/Fields.antt =====
-- The fields of an entry at a position, and what is read there.
use kappa_registry.Prelude.{
  ℕ, zero, suc, ◌+◌, ◌-◌, ◌*◌, ◌/◌, ◌%◌, ◌^◌, ◌≤◌, ◌<◌, ◌≡◌, refl, sym, ap, ◌∙◌, arith, Bool, true,
}
use kappa_registry.Prelude.{
  [], ◌∷◌, ◌++◌, append_assoc, Bytes, length, length-append, take, drop, drop-drop,
  take-length_append, drop-length_append,
}
use kappa_registry.Bundle.{
  to_be_bytes, from_be_bytes, field, ok, slice, take_content, parse_content_field,
  parse_kappa_field,
}

-- How many numbers have a width.
abbrev pub limit : ℕ → ℕ
limit zero = 1
limit (suc width) = limit width * 256

pub length-to_be_bytes : (width n : ℕ) → length (to_be_bytes width n) ≡ width
unfolding to_be_bytes
length-to_be_bytes zero n = refl
length-to_be_bytes (suc width) n = omega (
  arith,
  length-append (to_be_bytes width (n / 256)) ((n % 256) ∷ []),
  length-to_be_bytes width (n / 256),
)

from_be_bytes-append :
    (a b : ℕ) (bytes : Bytes)
    → from_be_bytes a (bytes ++ (b ∷ [])) ≡ from_be_bytes a bytes * 256 + b
unfolding from_be_bytes
from_be_bytes-append a b [] = refl
from_be_bytes-append a b (x ∷ bytes) = from_be_bytes-append (a * 256 + x) b bytes

pub from_be_bytes-to_be_bytes :
    (width n : ℕ) → n < limit width → from_be_bytes 0 (to_be_bytes width n) ≡ n
unfolding to_be_bytes from_be_bytes
from_be_bytes-to_be_bytes zero n h = omega arith
from_be_bytes-to_be_bytes (suc width) n h =
    let top = from_be_bytes-to_be_bytes width (n / 256) (omega arith) in
    omega (arith, top, from_be_bytes-append 0 (n % 256) (to_be_bytes width (n / 256)))

-- What stands in `p` from a position on.
abbrev pub At : Bytes → ℕ → Bytes → Type 0
At p pos rest = (drop pos p ≡ rest) × (length p ≡ pos + length rest)

pub At-move :
    (p : Bytes) (pos : ℕ) (front rest : Bytes)
    → At p pos (front ++ rest)
    → At p (pos + length front) rest
At-move p pos front rest (e, n) = (
  sym (drop-drop (length front) pos p) ∙ ap (drop (length front)) e ∙ drop-length_append front rest,
  omega (arith, n, length-append front rest),
)

-- The bytes read at a position.
At-take :
    (p : Bytes) (pos : ℕ) (front rest : Bytes)
    → At p pos (front ++ rest)
    → take (length front) (drop pos p) ≡ front
At-take p pos front rest (e, n) = rw e (take-length_append front rest)

-- A length that is read at a position.
pub At-length :
    (p : Bytes) (pos width n : ℕ) (rest : Bytes)
    → n < limit width
    → At p pos (to_be_bytes width n ++ rest)
    → (from_be_bytes 0 (take width (drop pos p)) ≡ n) × At p (pos + width) rest
At-length p pos width n rest h at =
    let size = length-to_be_bytes width n in
    let read = At-take p pos (to_be_bytes width n) rest at in
    let moved = At-move p pos (to_be_bytes width n) rest at in
    (
      ap (λ w. from_be_bytes 0 (take w (drop pos p))) (sym size)
          ∙ ap (from_be_bytes 0) read
          ∙ from_be_bytes-to_be_bytes width n h,
      rw (← size) moved,
    )

-- A field at a position is a length and the bytes.
At-field :
    (p : Bytes) (pos width : ℕ) (bytes rest : Bytes)
    → length bytes < limit width
    → At p pos (field width bytes ++ rest)
    → (from_be_bytes 0 (take width (drop pos p)) ≡ length bytes)
      × (take (length bytes) (drop (pos + width) p) ≡ bytes)
      × At p (pos + width + length bytes) rest
unfolding field
At-field p pos width bytes rest h (e, n) =
    let again = append_assoc (to_be_bytes width (length bytes)) bytes rest in
    let (size, next) =
      At-length p pos width (length bytes) (bytes ++ rest) h
        (e ∙ again, n ∙ ap (λ t. pos + length t) again) in
    (size, At-take p (pos + width) bytes rest next, At-move p (pos + width) bytes rest next)

pub parse_kappa_field-At :
    (utf8 : Bytes → Bool) (p : Bytes) (pos : ℕ) (kappa rest : Bytes)
    → utf8 kappa ≡ true
    → length kappa < 65536
    → At p pos (field 2 kappa ++ rest)
    → (parse_kappa_field utf8 p pos ≡ ok (kappa, pos + 2 + length kappa))
      × At p (pos + 2 + length kappa) rest
unfolding parse_kappa_field
parse_kappa_field-At utf8 p pos kappa rest u h at =
    let (size, text, moved) = At-field p pos 2 kappa rest h at in
    (rw (parse_kappa_field, size, text, u) (ground (arith, moved.1)), moved)

pub parse_content_field-At :
    (p : Bytes) (pos : ℕ) (content rest : Bytes)
    → length p < 2 ^ 64
    → At p pos (field 8 content ++ rest)
    → (parse_content_field p pos ≡ ok (content, pos + 8 + length content))
      × At p (pos + 8 + length content) rest
unfolding parse_content_field take_content slice field
parse_content_field-At p pos content rest b at =
    let fits : length content < 2 ^ 64 = omega (
      arith,
      b,
      at.1,
      length-append (field 8 content) rest,
      length-append (to_be_bytes 8 (length content)) content,
    ) in
    let (size, text, moved) = At-field p pos 8 content rest fits at in
    let inside : pos + 8 + length content ≤ length p = omega (arith, moved.1) in
    let whole : (pos + 8 + length content) % 2 ^ 64 ≡ pos + 8 + length content = omega arith in
    let count : (pos + 8 + length content) - (pos + 8) ≡ length content = omega arith in
    (rw (parse_content_field, size, whole, count, text) (ground (arith, inside)), moved)
