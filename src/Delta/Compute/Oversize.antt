-- ===== src/Delta/Compute/Oversize.antt =====
-- A copy of 2 ^ 24 bytes or more: a COPY instruction has three size bytes, and `compute_delta` does
-- not split what it matched.
use kappa_registry.Prelude.{ℕ, zero, suc, ◌+◌, ◌-◌, ◌^◌, ◌≤◌, ◌<◌, ◌≡◌, refl, arith, ap, ◌∙◌}
use kappa_registry.Prelude.{◌==◌, ltb, leb, true, false, List, [], ◌∷◌, ◌++◌}
use kappa_registry.Prelude.{
  Bytes, bytes_eq, bytes_eq_refl, length, take, drop, some, ap, bytes_eq→eq,
}
use kappa_registry.Prelude.{length-drop, Bool-cases, inl, inr}
use kappa_registry.Delta.Apply.{slice}
use kappa_registry.Delta.Compute.{Index, lookup, push, fnv1a, build_loop, build_index}
use kappa_registry.Delta.Compute.{
  common_prefix, consider, consider_all, best_match, emit_copy, scan_loop, scan_step,
}
use kappa_registry.Delta.Compute.{
  ScanState, flush_inserts, flush_loop, compute_delta, field, copy_code,
}
use kappa_registry.Delta.Compute.Copy.{carried, carried-lt, step_at-emit_copy}
use kappa_registry.Delta.Varint.{err, result_size_mismatch, encode_varint}
use kappa_registry.Delta.Varint.RoundTrip.{length-encode_varint, encode_varint-append}
use kappa_registry.Delta.Apply.{apply_delta, apply_sized, check_size}
use kappa_registry.Delta.Apply.Run.{run, Makes, Makes-one, run-Makes}
use kappa_registry.Delta.Compute.RoundTrip.{apply_delta-header}
use kappa_registry.Prelude.{length-append, length-take}
use kappa_registry.Delta.Compute.Offsets.{lookup-push}
use kappa_registry.Delta.Compute.Match.{IsMatch-candidate}

-- The first offset of a fingerprint stays the first.
abbrev FirstIsZero : List ℕ → Type 0
FirstIsZero offsets = (more : List ℕ) × (offsets ≡ 0 ∷ more)

push-first :
    (fp k i : ℕ) (index : Index)
    → FirstIsZero (lookup fp index)
    → FirstIsZero (lookup fp (push k i index))
push-first fp k i index (more, e) = elim (Bool-cases (k == fp)) [
  | inl hit ↦ (more ++ (i ∷ []), rw (lookup-push fp k i index, hit, e))
  | inr miss ↦ (more, rw (lookup-push fp k i index, miss, e))
]

build_loop-first :
    (rounds n fp : ℕ) (base : Bytes) (index : Index)
    → FirstIsZero (lookup fp index)
    → FirstIsZero (lookup fp (build_loop rounds n base index))
unfolding build_loop
build_loop-first zero n fp base index h = h
build_loop-first (suc rounds) n fp base index h =
    build_loop-first rounds (n + 1) fp base _ (push-first fp _ n index h)

push-first_empty : (fp : ℕ) → FirstIsZero (lookup fp (push fp 0 []))
unfolding lookup
push-first_empty fp = ([], rw (lookup-push fp fp 0 []) (ground arith))

build_index-first :
    (base : Bytes)
    → 16 ≤ length base
    → FirstIsZero (lookup (fnv1a (slice base 0 16)) (build_index base))
unfolding build_index build_loop
build_index-first base h =
    let long : leb 16 (length base) ≡ true = ground arith in
    let rounds : length base - 16 + 1 ≡ suc (length base - 16) = omega arith in
    rw (long, rounds)
      (build_loop-first (length base - 16) (0 + 1) _ base _
        (push-first_empty (fnv1a (slice base 0 16))))

common_prefix_self : (xs : Bytes) → common_prefix xs xs ≡ length xs
unfolding common_prefix
common_prefix_self [] = refl
common_prefix_self (x ∷ xs) = ground (arith, common_prefix_self xs)

-- A match of the whole target stays the best.
consider_whole :
    (base : Bytes) (off o : ℕ)
    → 16 ≤ length base
    → consider base base off (o, length base) ≡ (o, length base)
unfolding consider
consider_whole base off o h = elim (Bool-cases (bytes_eq (slice base off 16) (take 16 base))) [
  | inl agree ↦
      let m = IsMatch-candidate base base off h (bytes_eq→eq _ _ agree) in
      let longest : ltb (length base) (16 + common_prefix (drop 16 (drop off base)) (drop 16 base))
          ≡ false =
        ground arith in
      rw (agree, longest)
  | inr differ ↦ rw differ
]

consider_all_whole :
    (base : Bytes) (offsets : List ℕ) (o : ℕ)
    → 16 ≤ length base
    → consider_all base base offsets (o, length base) ≡ (o, length base)
unfolding consider_all
consider_all_whole base [] o h = refl
consider_all_whole base (off ∷ offsets) o h =
    ap (consider_all base base offsets) (consider_whole base off o h)
    ∙ consider_all_whole base offsets o h

consider_zero : (base : Bytes) → 16 ≤ length base → consider base base 0 (0, 0) ≡ (0, length base)
unfolding consider slice
consider_zero base h =
    let run : 16 + common_prefix (drop 16 base) (drop 16 base) ≡ length base =
      omega (arith, common_prefix_self (drop 16 base), length-drop 16 base) in
    let positive : ltb 0 (length base) ≡ true = ground arith in
    rw (bytes_eq_refl (take 16 base), run, positive)

-- Of a base against itself the match is the whole base.
best_match_self :
    (base : Bytes) → 16 ≤ length base → best_match base (build_index base) base ≡ (0, length base)
unfolding best_match
best_match_self base h =
    let long : leb 16 (length base) ≡ true = ground arith in
    let (more, e) = build_index-first base h in
    let offsets : lookup (fnv1a (take 16 base)) (build_index base) ≡ 0 ∷ more = unfold slice in e in
    rw (long, offsets)
      (unfold consider_all in
        (ap (consider_all base base more) (consider_zero base h)
          ∙ consider_all_whole base more 0 h))

drop_all : (xs : Bytes) → drop (length xs) xs ≡ []
drop_all [] = refl
drop_all (x ∷ xs) = drop_all xs

scan_step_whole :
    (base : Bytes) (index : Index) (b : ℕ) (rest : Bytes)
    → 16 ≤ length (b ∷ rest)
    → best_match base index (b ∷ rest) ≡ (0, length (b ∷ rest))
    → scan_step base index [] [] b rest
      ≡ record { instructions = emit_copy [] 0 (length (b ∷ rest)); insert_buf = []; target = [] }
unfolding scan_step flush_inserts flush_loop
scan_step_whole base index b rest h e =
    let long : leb 16 (length (b ∷ rest)) ≡ true = ground arith in
    rw (e, scan_step, long) (rw (drop_all rest))

scan_whole :
    (base : Bytes) (index : Index) (b : ℕ) (rest : Bytes)
    → 16 ≤ length (b ∷ rest)
    → best_match base index (b ∷ rest) ≡ (0, length (b ∷ rest))
    → scan_loop (length (b ∷ rest)) base index [] [] (b ∷ rest) ≡ emit_copy [] 0 (length (b ∷ rest))
unfolding scan_loop flush_inserts flush_loop
scan_whole base index b rest h e =
    ap (λ (s : ScanState). scan_loop (length rest) base index s.instructions s.insert_buf s.target)
      (scan_step_whole base index b rest h e)

field-le : (byte : ℕ) → length (field byte) ≤ 1
unfolding field
field-le byte = ground arith

copy_code-le : (off sz : ℕ) → length (copy_code off sz) ≤ 8
unfolding copy_code
copy_code-le off sz = simp (length-append) (omega (arith, field-le))

-- The delta of a base against itself is one COPY instruction.
abbrev self_delta : Bytes → Bytes
self_delta base =
    encode_varint (length base) (encode_varint (length base) []) ++ emit_copy [] 0 (length base)

self_delta_short : (base : Bytes) → length base < 2 ^ 64 → length (self_delta base) ≤ 28
unfolding emit_copy
self_delta_short base h =
    rw (encode_varint-append (length base) (encode_varint (length base) []) h)
      (simp length-append (omega (arith, length-encode_varint (length base) h, copy_code-le)))

compute_delta_self :
    (base : Bytes)
    → 100 ≤ length base
    → length base < 2 ^ 64
    → compute_delta base base ≡ some (self_delta base)
unfolding compute_delta
compute_delta_self [] h k = absurd (omega arith)
compute_delta_self (b ∷ rest) h k =
    let e =
      scan_whole (b ∷ rest) (build_index (b ∷ rest)) b rest (omega arith)
        (best_match_self (b ∷ rest) (omega arith)) in
    rw e (ground (arith, self_delta_short (b ∷ rest) k))

emit_copy-Makes :
    (base : Bytes)
    → length base < 2 ^ 32
    → carried (length base) ≤ length base
    → Makes base (emit_copy [] 0 (length base)) (slice base 0 (carried (length base)))
unfolding emit_copy copy_code
emit_copy-Makes base small fits =
    Makes-one base _ _ _
      (λ rest. step_at-emit_copy base 0 (length base) rest (omega arith) (omega arith))

apply_sized_oversize :
    (base : Bytes)
    → 2 ^ 24 ≤ length base
    → length base < 2 ^ 32
    → apply_sized base (length base) (length base) (emit_copy [] 0 (length base))
      ≡ err (result_size_mismatch (length base) (carried (length base)))
unfolding apply_sized check_size run slice
apply_sized_oversize base h small =
    let lt = carried-lt (length base) h in
    let made = run-Makes base _ _ (emit_copy-Makes base small (omega (arith, lt))) in
    let n : length (take (carried (length base)) base) ≡ carried (length base) =
      length-take (carried (length base)) base (omega (arith, lt)) in
    let whole : (length base == length base) ≡ true = ground arith in
    let short : (carried (length base) == length base) ≡ false = ground (arith, lt) in
    let fits : ltb (2 ^ 63 - 1) (length base) ≡ false = ground arith in
    rw (whole, fits, made, n, short)

-- Of every base of 2 ^ 24 bytes or more (and fewer than 2 ^ 32) against itself, `compute_delta`
-- returns a delta, and `apply_delta` refuses that delta: the one COPY carries a smaller size.
pub compute_delta_oversize :
    (base : Bytes)
    → 2 ^ 24 ≤ length base
    → length base < 2 ^ 32
    → (delta : Bytes) × (compute_delta base base ≡ some delta)
      × (apply_delta base delta ≡ err (result_size_mismatch (length base) (carried (length base))))
      × (carried (length base) < length base)
compute_delta_oversize base h small = (
  self_delta base,
  compute_delta_self base (omega arith) (omega arith),
  apply_delta-header base (emit_copy [] 0 (length base)) (length base) (omega arith) (omega arith)
      ∙ apply_sized_oversize base h small,
  carried-lt (length base) h,
)
