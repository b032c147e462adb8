-- ===== src/Delta/Tests.antt =====
-- Runs of the delta codec, and its theorems at concrete inputs.
use kappa_registry.Prelude.{ℕ, zero, suc, ◌+◌, ◌<◌, ◌≡◌, refl, arith, some}
use kappa_registry.Prelude.{[], ◌∷◌, ◌++◌, Bytes, length, replicate, length-replicate}
use kappa_registry.Delta.Varint.{
  capacity_overflow, ok, err, result_size_mismatch, encode_varint, decode_varint,
}
use kappa_registry.Delta.Varint.RoundTrip.{decode_varint-encode_varint}
use kappa_registry.Delta.Apply.{apply_delta, apply_sized, apply_loop, apply_step, copy_step}
use kappa_registry.Delta.Apply.{check_size, read_offset, read_size, read_field, slice}
use kappa_registry.Delta.Compute.{lookup, build_index, compute_delta, fnv1a, fnv1a_loop, build_loop}
use kappa_registry.Delta.Compute.{
  push, consider, consider_all, common_prefix, best_match, scan_step,
}
use kappa_registry.Delta.Compute.{scan_loop, flush_inserts, flush_loop, emit_copy, copy_code, flag}
use kappa_registry.Delta.Compute.{field}
use kappa_registry.Delta.Varint.{decode_varint_loop, group, encode_varint_loop}
use kappa_registry.Delta.Compute.Copy.{carried}
use kappa_registry.Delta.Compute.RoundTrip.{apply_delta-compute_delta}
use kappa_registry.Delta.Compute.Oversize.{compute_delta_oversize}

decode_varint-encode_varint_example :
    decode_varint (encode_varint 300 [] ++ (9 ∷ [])) ≡ ok (300, 9 ∷ [])
decode_varint-encode_varint_example = decode_varint-encode_varint 300 (9 ∷ []) (omega arith)

-- COPY of two bytes from offset 1, then INSERT of one byte.
abbrev small_base : Bytes
small_base = 5 ∷ 6 ∷ 7 ∷ []

abbrev small_delta : Bytes
small_delta = 3 ∷ 3 ∷ 0x91 ∷ 1 ∷ 2 ∷ 1 ∷ 9 ∷ []

abbrev small_out : Bytes
small_out = 6 ∷ 7 ∷ 9 ∷ []

apply_run : apply_delta small_base small_delta ≡ ok small_out
unfolding apply_delta apply_sized apply_loop apply_step copy_step check_size read_offset read_size
    read_field slice decode_varint decode_varint_loop group
apply_run = refl

-- A result size of 2 ^ 63.
capacity_run : apply_delta [] (0 ∷ (replicate 9 0x80 ++ (1 ∷ []))) ≡ err capacity_overflow
unfolding apply_delta apply_sized decode_varint decode_varint_loop group
capacity_run = refl

abbrev count_up : ℕ → ℕ → Bytes
count_up zero n = []
count_up (suc rounds) n = n ∷ count_up rounds (n + 1)

abbrev base : Bytes
base = count_up 64 0

abbrev target : Bytes
target = base ++ (1 ∷ 2 ∷ [])

compute_run : compute_delta base target ≡ some (64 ∷ 66 ∷ 0x90 ∷ 64 ∷ 2 ∷ 1 ∷ 2 ∷ [])
unfolding compute_delta scan_loop scan_step best_match consider_all consider common_prefix
    build_index build_loop push lookup fnv1a fnv1a_loop slice flush_inserts flush_loop emit_copy
    copy_code flag field encode_varint encode_varint_loop
compute_run = refl

apply_delta-compute_delta_example :
    apply_delta base (64 ∷ 66 ∷ 0x90 ∷ 64 ∷ 2 ∷ 1 ∷ 2 ∷ []) ≡ ok target
apply_delta-compute_delta_example =
    apply_delta-compute_delta base target (64 ∷ 66 ∷ 0x90 ∷ 64 ∷ 2 ∷ 1 ∷ 2 ∷ []) (omega arith)
      (omega arith) compute_run

-- Kept shut, so that no list of 2 ^ 24 zeros is built.
zeros : ℕ → Bytes
zeros n = replicate n 0

length-zeros : (n : ℕ) → length (zeros n) ≡ n
unfolding zeros
length-zeros n = length-replicate n 0

compute_delta_oversize_example :
    (delta : Bytes) × (compute_delta (zeros 16777216) (zeros 16777216) ≡ some delta)
    × (apply_delta (zeros 16777216) delta
        ≡ err (result_size_mismatch (length (zeros 16777216)) (carried (length (zeros 16777216)))))
    × (carried (length (zeros 16777216)) < length (zeros 16777216))
compute_delta_oversize_example =
    compute_delta_oversize (zeros 16777216) (omega (arith, length-zeros 16777216))
      (omega (arith, length-zeros 16777216))
