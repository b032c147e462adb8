-- ===== src/Delta/Compute/RoundTrip.antt =====
-- `apply_delta` undoes `compute_delta`.
use kappa_registry.Prelude.{ℕ, ◌*◌, ◌^◌, ◌<◌, ◌≡◌, arith, ap, ◌∙◌}
use kappa_registry.Prelude.{[], ◌++◌}
use kappa_registry.Prelude.{Bytes, length, append_assoc, some}
use kappa_registry.Delta.Varint.{ok, encode_varint}
use kappa_registry.Delta.Varint.RoundTrip.{decode_varint-encode_varint, encode_varint-append}
use kappa_registry.Delta.Apply.{apply_delta, apply_sized, check_size}
use kappa_registry.Delta.Apply.Run.{run, Makes, run-Makes}
use kappa_registry.Delta.Compute.{build_index, scan_loop, compute_delta}
use kappa_registry.Delta.Compute.Scan.{scan-Makes}

apply_sized-Makes :
    (base i made : Bytes)
    → length made < 2 ^ 63
    → Makes base i made
    → apply_sized base (length base) (length made) i ≡ ok made
unfolding apply_sized check_size run
apply_sized-Makes base i made fits m = ground (arith, run-Makes base i made m)

-- The header that `compute_delta` writes is read as the sizes of the base and of the result.
pub apply_delta-header :
    (base i : Bytes) (size : ℕ)
    → length base < 2 ^ 64
    → size < 2 ^ 64
    → apply_delta base (encode_varint size (encode_varint (length base) []) ++ i)
      ≡ apply_sized base (length base) size i
unfolding apply_delta
apply_delta-header base i size hb hm =
    let header : encode_varint size (encode_varint (length base) []) ++ i
        ≡ encode_varint (length base) [] ++ (encode_varint size [] ++ i) =
      ap (λ t. t ++ i) (encode_varint-append size _ hm) ∙ append_assoc _ _ i in
    rw (
      header,
      decode_varint-encode_varint (length base) _ hb,
      decode_varint-encode_varint size i hm,
    )

compute_delta-some :
    (base target delta : Bytes)
    → compute_delta base target ≡ some delta
    → (encode_varint (length target) (encode_varint (length base) [])
          ++ scan_loop (length target) base (build_index base) [] [] target
        ≡ delta)
      × (length delta * 100 < length target * 75)
unfolding compute_delta
compute_delta-some base target delta h = ground arith

-- Where `compute_delta` returns a delta, of a base shorter than 2 ^ 32 bytes and a target shorter
-- than 2 ^ 24, `apply_delta` makes the target of the base and that delta.
pub apply_delta-compute_delta :
    (base target delta : Bytes)
    → length base < 2 ^ 32
    → length target < 2 ^ 24
    → compute_delta base target ≡ some delta
    → apply_delta base delta ≡ ok target
apply_delta-compute_delta base target delta small short h =
    let (e, _) = compute_delta-some base target delta h in
    let i = scan_loop (length target) base (build_index base) [] [] target in
    rw (← e) (
      apply_delta-header base i (length target) (omega arith) (omega arith)
      ∙ apply_sized-Makes base i target (omega arith)
          (scan-Makes base (build_index base) target small short))
