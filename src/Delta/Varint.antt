-- ===== src/Delta/Varint.antt =====
-- `encode_varint` and `decode_varint` of crates/kappa-core/src/delta.rs: seven bits a byte, lowest
-- first, the top bit set on every byte but the last.
pub mod RoundTrip
use kappa_registry.Prelude.{ℕ, zero, suc, ◌+◌, ◌*◌, ◌/◌, ◌%◌, ◌^◌, ◌==◌, ltb, if◌then◌else◌}
use kappa_registry.Prelude.{List, [], ◌∷◌, ◌++◌, Bytes, length}

-- `capacity_overflow` is the panic of `Vec::with_capacity`, which takes at most `isize::MAX` bytes. `stuck`
-- is no Rust value: a loop of the model ran out of fuel.
pub data DeltaError : Type 0 where
  truncated_varint truncated_copy_offset truncated_copy_size truncated_insert : DeltaError
  varint_overflow : DeltaError
  base_size_mismatch : ℕ → ℕ → DeltaError
  copy_out_of_bounds : ℕ → ℕ → ℕ → DeltaError
  reserved_opcode : DeltaError
  result_size_mismatch : ℕ → ℕ → DeltaError
  capacity_overflow : DeltaError
  stuck : DeltaError

pub data Result {ℓ} (A : Type ℓ) : Type ℓ where
  ok : A → Result A
  err : DeltaError → Result A

infixl 5 ◌>>=◌
abbrev pub ◌>>=◌ {ℓ κ} : {A : Type ℓ} {B : Type κ} → Result A → (A → Result B) → Result B
ok a >>= f = f a
err e >>= f = err e

-- The loop of `encode_varint`. A `usize` has ten groups of seven bits, the fuel that is given.
unfoldable pub encode_varint_loop : ℕ → ℕ → Bytes → Bytes
encode_varint_loop zero v out = out
encode_varint_loop (suc fuel) v out =
    let last = out ++ ((v % 128) ∷ []) in
    let more = encode_varint_loop fuel (v / 128) (out ++ ((v % 128 + 128) ∷ [])) in
    if ltb 0 (v / 128) then more else last

unfoldable pub encode_varint : ℕ → Bytes → Bytes
encode_varint value out = encode_varint_loop 10 value out

-- `((byte & 0x7f) as usize) << shift`, a shift in 64 bits.
unfoldable pub group : ℕ → ℕ → ℕ
group byte shift = (byte % 128 * 2 ^ shift) % 2 ^ 64

-- The bytes of `value` lie below `shift`, so that `value |= group` adds.
unfoldable pub decode_varint_loop : Bytes → ℕ → ℕ → Result (ℕ × Bytes)
decode_varint_loop [] value shift = err truncated_varint
decode_varint_loop (byte ∷ rest) value shift =
    let value' = value + group byte shift in
    let more = decode_varint_loop rest value' (shift + 7) in
    if byte / 128 % 2 == 0
    then ok (value', rest)
    else if ltb 63 (shift + 7)
    then err varint_overflow
    else more

unfoldable pub decode_varint : Bytes → Result (ℕ × Bytes)
decode_varint bytes = decode_varint_loop bytes 0 0
