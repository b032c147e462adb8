-- ===== src/Delta/Apply.antt =====
-- `apply_delta` of crates/kappa-core/src/delta.rs: it runs COPY and INSERT instructions over a base.
pub mod Total
pub mod Run
use kappa_registry.Prelude.{ℕ, zero, suc, ◌+◌, ◌*◌, ◌/◌, ◌%◌, ◌^◌, ◌-◌, ◌==◌, ltb, if◌then◌else◌}
use kappa_registry.Prelude.{Bool, true, false, List, [], ◌∷◌, ◌++◌, Bytes, length, take, drop}
use kappa_registry.Delta.Varint.{DeltaError, Result, ok, err, ◌>>=◌, decode_varint}
use kappa_registry.Delta.Varint.{truncated_copy_offset, truncated_copy_size, truncated_insert}
use kappa_registry.Delta.Varint.{base_size_mismatch, copy_out_of_bounds, reserved_opcode}
use kappa_registry.Delta.Varint.{result_size_mismatch, capacity_overflow, stuck}

-- `if cmd & flag != 0 { if pos >= delta.len() { .. } value |= (delta[pos] as usize) << k; pos += 1 }`
unfoldable pub read_field : Bool → ℕ → DeltaError → ℕ → Bytes → Result (ℕ × Bytes)
read_field false weight e value rest = ok (value, rest)
read_field true weight e value [] = err e
read_field true weight e value (b ∷ rest) = ok (value + b * weight, rest)

unfoldable pub read_offset : ℕ → Bytes → Result (ℕ × Bytes)
read_offset cmd delta = do
  (o1, r1) ← read_field (cmd % 2 == 1) 1 truncated_copy_offset 0 delta
  (o2, r2) ← read_field (cmd / 0x02 % 2 == 1) 0x100 truncated_copy_offset o1 r1
  (o3, r3) ← read_field (cmd / 0x04 % 2 == 1) 0x1_0000 truncated_copy_offset o2 r2
  read_field (cmd / 0x08 % 2 == 1) 0x100_0000 truncated_copy_offset o3 r3

unfoldable pub read_size : ℕ → Bytes → Result (ℕ × Bytes)
read_size cmd delta = do
  (s1, r1) ← read_field (cmd / 0x10 % 2 == 1) 1 truncated_copy_size 0 delta
  (s2, r2) ← read_field (cmd / 0x20 % 2 == 1) 0x100 truncated_copy_size s1 r1
  read_field (cmd / 0x40 % 2 == 1) 0x1_0000 truncated_copy_size s2 r2

-- `&base[offset..offset + size]`
unfoldable pub slice : Bytes → ℕ → ℕ → Bytes
slice base offset size = take size (drop offset base)

-- The COPY branch: the bytes copied, and the delta after the instruction.
unfoldable pub copy_step : Bytes → ℕ → ℕ → Bytes → Result (Bytes × Bytes)
copy_step base offset size rest =
    let size' = if size == 0 then 0x1_0000 else size in
    if ltb (length base) (offset + size')
    then err (copy_out_of_bounds offset size' (length base))
    else ok (slice base offset size', rest)

-- One round of the loop, at the instruction byte `cmd`.
unfoldable pub apply_step : Bytes → ℕ → Bytes → Result (Bytes × Bytes)
apply_step base cmd rest =
    if cmd == 0
    then err reserved_opcode
    else if cmd / 0x80 % 2 == 1
    then (do
      (offset, r1) ← read_offset cmd rest
      (size, r2) ← read_size cmd r1
      copy_step base offset size r2)
    else if ltb (length rest) cmd
    then err truncated_insert
    else ok (take cmd rest, drop cmd rest)

-- `while pos < delta.len()`. A round takes one byte at least, so `length delta` rounds are enough.
unfoldable pub apply_loop : ℕ → Bytes → Bytes → Bytes → Result Bytes
apply_loop fuel base [] out = ok out
apply_loop zero base (cmd ∷ rest) out = err stuck
apply_loop (suc fuel) base (cmd ∷ rest) out = do
  (chunk, rest') ← apply_step base cmd rest
  apply_loop fuel base rest' (out ++ chunk)

unfoldable pub check_size : ℕ → Bytes → Result Bytes
check_size result_size out =
    if length out == result_size
    then ok out
    else err (result_size_mismatch result_size (length out))

unfoldable pub apply_sized : Bytes → ℕ → ℕ → Bytes → Result Bytes
apply_sized base base_size result_size delta =
    if length base == base_size
    then (if ltb (2 ^ 63 - 1) result_size
        then err capacity_overflow
        else (do out ← apply_loop (length delta) base delta []; check_size result_size out))
    else err (base_size_mismatch base_size (length base))

unfoldable pub apply_delta : Bytes → Bytes → Result Bytes
unfolding apply_sized
apply_delta base delta = do
  (base_size, r1) ← decode_varint delta
  (result_size, r2) ← decode_varint r1
  apply_sized base base_size result_size r2
