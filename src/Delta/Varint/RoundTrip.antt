-- ===== src/Delta/Varint/RoundTrip.antt =====
-- Every 64-bit number is read back from what `encode_varint` writes.
use kappa_registry.Prelude.{ℕ, zero, suc, ◌+◌, ◌*◌, ◌/◌, ◌%◌, ◌^◌, ◌≤◌, ◌<◌, ◌≡◌, ◌≢◌, ap}
use kappa_registry.Prelude.{arith, [], ◌∷◌, ◌++◌, append_assoc, Bytes, length}
use kappa_registry.Prelude.{ltb, if◌then◌else◌}
use native.Mathlib.Nat.{div-add-mod}
use native.Mathlib.Numerals.{towards_suc}
use kappa_registry.Delta.Varint.{ok, err, stuck, encode_varint_loop, encode_varint, group}
use kappa_registry.Delta.Varint.{decode_varint_loop, decode_varint}

-- The groups of `v`, in `k + 1` bytes at most.
groups : ℕ → ℕ → Bytes
groups zero v = (v % 128) ∷ []
groups (suc k) v =
    let rest = groups k (v / 128) in
    if ltb 0 (v / 128) then (v % 128 + 128) ∷ rest else (v % 128) ∷ []

encode_varint_loop-groups :
    (k v : ℕ) (out : Bytes) → v < 128 ^ suc k → encode_varint_loop (suc k) v out ≡ out ++ groups k v
unfolding encode_varint_loop groups
encode_varint_loop-groups zero v out h = ground arith
encode_varint_loop-groups (suc k) v out h = ground (
  arith,
  encode_varint_loop-groups k (v / 128) (out ++ ((v % 128 + 128) ∷ [])),
  append_assoc out ((v % 128 + 128) ∷ []) (groups k (v / 128)),
)

next_shift : (shift : ℕ) → 128 * 2 ^ shift ≡ 2 ^ (shift + 7)
next_shift shift = simp towards_suc (omega arith)

-- The lowest group of `w` and the groups above it, where `p` is the weight of the lowest one.
groups_weigh : (p q w : ℕ) → 128 * p ≡ q → w / 128 * q + w % 128 * p ≡ w * p
groups_weigh p q w e =
    let whole = ap (λ (n : ℕ). p * n) (div-add-mod w 128) in
    omega (arith, whole, ap (λ (n : ℕ). n * (w / 128)) e)

-- The number `w` that the groups make is added from bit `shift` on.
decode_varint_loop-groups :
    (k w value shift : ℕ) (rest : Bytes)
    → shift + 7 * k ≤ 63
    → w < 128 ^ suc k
    → value + w * 2 ^ shift < 2 ^ 64
    → decode_varint_loop (groups k w ++ rest) value shift ≡ ok (value + w * 2 ^ shift, rest)
unfolding groups decode_varint_loop group
decode_varint_loop-groups zero w value shift rest hs hw fits = ground arith
decode_varint_loop-groups (suc k) w value shift rest hs hw fits =
    let weights = groups_weigh (2 ^ shift) (2 ^ (shift + 7)) w (next_shift shift) in
    let later =
      decode_varint_loop-groups k (w / 128) (value + w % 128 * 2 ^ shift) (shift + 7) rest in
    ground (arith, weights, later (omega arith) (omega arith))

encode_varint-groups : (v : ℕ) (out : Bytes) → v < 2 ^ 64 → encode_varint v out ≡ out ++ groups 9 v
unfolding encode_varint
encode_varint-groups v out h = encode_varint_loop-groups 9 v out (omega arith)

-- Every 64-bit value that `encode_varint` appends to an empty buffer is read back by
-- `decode_varint`, with what follows it left unread.
pub decode_varint-encode_varint :
    (v : ℕ) (rest : Bytes) → v < 2 ^ 64 → decode_varint (encode_varint v [] ++ rest) ≡ ok (v, rest)
unfolding decode_varint
decode_varint-encode_varint v rest h =
    rw (encode_varint-groups v [] h)
      (ground (arith, decode_varint_loop-groups 9 v 0 0 rest (omega arith)))

pub encode_varint-append :
    (v : ℕ) (out : Bytes) → v < 2 ^ 64 → encode_varint v out ≡ out ++ encode_varint v []
encode_varint-append v out h = rw (encode_varint-groups v out h, encode_varint-groups v [] h)

-- A number read from any bytes took one byte at least.
pub decode_varint_loop-shorter :
    (bytes : Bytes) (value shift v : ℕ) (rest : Bytes)
    → decode_varint_loop bytes value shift ≡ ok (v, rest)
    → length rest < length bytes
unfolding decode_varint_loop
decode_varint_loop-shorter [] value shift v rest h = cc
decode_varint_loop-shorter (b ∷ bs) value shift v rest h =
    ground (arith, decode_varint_loop-shorter bs (value + group b shift) (shift + 7) v rest)

decode_varint_loop-ne-stuck :
    (bytes : Bytes) (value shift : ℕ) → decode_varint_loop bytes value shift ≢ err stuck
unfolding decode_varint_loop
decode_varint_loop-ne-stuck [] value shift h = cc
decode_varint_loop-ne-stuck (b ∷ bs) value shift h =
    ground (arith, decode_varint_loop-ne-stuck bs (value + group b shift) (shift + 7))

pub decode_varint-ne-stuck : (bytes : Bytes) → decode_varint bytes ≢ err stuck
unfolding decode_varint
decode_varint-ne-stuck bytes = decode_varint_loop-ne-stuck bytes 0 0

length-groups : (k v : ℕ) → length (groups k v) ≤ k + 1
unfolding groups
length-groups zero v = omega arith
length-groups (suc k) v = ground (arith, length-groups k (v / 128))

-- A 64-bit value is written in ten bytes at most.
pub length-encode_varint : (v : ℕ) → v < 2 ^ 64 → length (encode_varint v []) ≤ 10
length-encode_varint v h = rw (encode_varint-groups v [] h) (length-groups 9 v)
