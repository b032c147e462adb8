-- ===== src/Delta/Compute/Scan.antt =====
-- The instructions that the scan writes make the target, when no copy is as long as 2 ^ 24 bytes.
use kappa_registry.Prelude.{ℕ, zero, suc, ◌+◌, ◌^◌, ◌≤◌, ◌<◌, ◌≡◌, refl, arith, ap, sym, ◌∙◌}
use kappa_registry.Prelude.{◌==◌, ltb, leb, if◌then◌else◌, [], ◌∷◌, ◌++◌}
use kappa_registry.Prelude.{Bytes, length, take, drop, length-take, length-drop, take-append-drop}
use kappa_registry.Prelude.{append_assoc, append-nil, Bool-cases, inl, inr, subst}
use kappa_registry.Delta.Varint.{ok}
use kappa_registry.Delta.Apply.{slice}
use kappa_registry.Delta.Apply.Run.{Makes, Makes-nil, Makes-append, Makes-one, Makes-insert}
use kappa_registry.Delta.Compute.{
  Index, ScanState, best_match, flush_loop, flush_inserts, emit_copy,
}
use kappa_registry.Delta.Compute.{copy_code, scan_step, scan_loop}
use kappa_registry.Delta.Compute.Copy.{step_at, step_at-emit_copy, carried_small}
use kappa_registry.Delta.Compute.Match.{IsMatch-best_match}

flush_step :
    (base : Bytes) (n : ℕ) (instructions made buf : Bytes)
    → 0 < n
    → n < 128
    → n ≤ length buf
    → Makes base instructions made
    → Makes base (instructions ++ (n ∷ take n buf)) (made ++ take n buf)
flush_step base n instructions made buf p q h m =
    Makes-append base _ _ _ _ m (Makes-insert base n (take n buf) p q (length-take n buf h))

Makes-flush_loop :
    (base : Bytes) (fuel : ℕ) (instructions made buf : Bytes)
    → length buf ≤ fuel
    → Makes base instructions made
    → Makes base (flush_loop fuel instructions buf) (made ++ buf)
unfolding flush_loop
Makes-flush_loop base fuel instructions made [] h m = rw append-nil m
Makes-flush_loop base zero instructions made (b ∷ buf) h m = absurd (omega arith)
Makes-flush_loop base (suc fuel) instructions made (b ∷ buf) h m =
    let whole : Bytes = b ∷ buf in
    let n = if ltb (length whole) 127 then length whole else 127 in
    let bounds : (0 < n) × (n < 128) × (n ≤ length whole) =
      (ground arith, ground arith, ground arith) in
    let ih =
      Makes-flush_loop base fuel (instructions ++ (n ∷ take n whole)) (made ++ take n whole)
        (drop n whole) (omega (arith, bounds, length-drop n whole))
        (flush_step base n instructions made whole bounds.0 bounds.1 bounds.2 m) in
    subst (Makes base _) (append_assoc made _ _ ∙ ap (λ t. made ++ t) (take-append-drop n whole)) ih

Makes-flush_inserts :
    (base instructions made buf : Bytes)
    → Makes base instructions made
    → Makes base (flush_inserts instructions buf) (made ++ buf)
unfolding flush_inserts
Makes-flush_inserts base instructions made buf m =
    Makes-flush_loop base (length buf) instructions made buf (omega arith) m

Makes-emit_copy :
    (base instructions made : Bytes) (offset size : ℕ)
    → offset + size ≤ length base
    → length base < 2 ^ 32
    → 0 < size
    → size < 2 ^ 24
    → Makes base instructions made
    → Makes base (emit_copy instructions offset size) (made ++ slice base offset size)
unfolding emit_copy copy_code
Makes-emit_copy base instructions made offset size fits small p q m =
    let c = carried_small size p q in
    Makes-append base instructions _ made (slice base offset size) m (
      Makes-one base _ _ (slice base offset size) (λ rest.
        subst
          (λ s. step_at base (emit_copy [] offset size ++ rest) ≡ ok (slice base offset s, rest)) c
          (step_at-emit_copy base offset size rest (omega arith) (rw c fits))))

-- What is made, what waits in the buffer and what is still to be scanned are the target.
record Keeps (base whole : Bytes) (s : ScanState) : Type 0 where
  made : Bytes
  makes : Makes base s.instructions made
  covers : (made ++ (s.insert_buf ++ s.target)) ≡ whole

abbrev at : Bytes → Bytes → Bytes → ScanState
at instructions buf target = record {
  instructions = instructions;
  insert_buf = buf;
  target = target;
}

module _ (base : Bytes) (index : Index) (whole : Bytes) where
  copy_Keeps :
      (i buf target : Bytes)
      → length base < 2 ^ 32
      → length target < 2 ^ 24
      → 16 ≤ (best_match base index target).1
      → Keeps base whole (at i buf target)
      → Keeps base whole (
          at
            (emit_copy
              (flush_inserts i buf)
              (best_match base index target).0
              (best_match base index target).1)
            []
            (drop (best_match base index target).1 target))
  copy_Keeps i buf target small short long k =
      let (o, l) = best_match base index target in
      let m = IsMatch-best_match base index target in
      record {
        made = (k.made ++ buf) ++ slice base o l;
        makes =
            Makes-emit_copy base (flush_inserts i buf) (k.made ++ buf) o l m.in_base small
              (omega arith) (omega (arith, m.in_target))
              (Makes-flush_inserts base i k.made buf k.makes);
        covers =
            append_assoc (k.made ++ buf) (slice base o l) (drop l target)
            ∙ ap (λ t. (k.made ++ buf) ++ (t ++ drop l target)) m.same
            ∙ ap (λ t. (k.made ++ buf) ++ t) (take-append-drop l target)
            ∙ append_assoc k.made buf target
            ∙ k.covers;
      }

  push_Keeps :
      (i buf : Bytes) (b : ℕ) (rest : Bytes)
      → Keeps base whole (at i buf (b ∷ rest))
      → Keeps base whole (at i (buf ++ (b ∷ [])) rest)
  push_Keeps i buf b rest k = record {
    made = k.made;
    makes = k.makes;
    covers = ap (λ t. k.made ++ t) (append_assoc buf (b ∷ []) rest) ∙ k.covers;
  }

  flush_Keeps :
      (i buf target : Bytes)
      → Keeps base whole (at i buf target)
      → Keeps base whole (at (flush_inserts i buf) [] target)
  flush_Keeps i buf target k = record {
    made = k.made ++ buf;
    makes = Makes-flush_inserts base i k.made buf k.makes;
    covers = append_assoc k.made buf target ∙ k.covers;
  }

  scan_step-Keeps :
      (i buf : Bytes) (b : ℕ) (rest : Bytes)
      → length base < 2 ^ 32
      → length (b ∷ rest) < 2 ^ 24
      → Keeps base whole (at i buf (b ∷ rest))
      → Keeps base whole (scan_step base index i buf b rest)
        × (length (scan_step base index i buf b rest).target ≤ length rest)
  unfolding scan_step
  scan_step-Keeps i buf b rest small short k =
      elim (Bool-cases (leb 16 (best_match base index (b ∷ rest)).1)) [
        | inl long ↦
            let n : 16 ≤ (best_match base index (b ∷ rest)).1 = ground arith in
            rw long (
              copy_Keeps i buf (b ∷ rest) small short n k,
              omega (arith, length-drop (best_match base index (b ∷ rest)).1 (b ∷ rest)),
            )
        | inr none ↦ elim (Bool-cases (length (buf ++ (b ∷ [])) == 127)) [
          | inl full ↦
              rw (none, full)
                (flush_Keeps i (buf ++ (b ∷ [])) rest (push_Keeps i buf b rest k), omega arith)
          | inr room ↦ rw (none, room) (push_Keeps i buf b rest k, omega arith)
        ]
      ]

  scan_loop-Makes :
      (fuel : ℕ) (i buf target : Bytes)
      → length base < 2 ^ 32
      → length target < 2 ^ 24
      → length target ≤ fuel
      → Keeps base whole (at i buf target)
      → Makes base (scan_loop fuel base index i buf target) whole
  unfolding scan_loop
  scan_loop-Makes fuel i buf [] small short h k =
      subst (Makes base _) (ap (λ t. k.made ++ t) (sym (append-nil buf)) ∙ k.covers)
        (Makes-flush_inserts base i k.made buf k.makes)
  scan_loop-Makes zero i buf (b ∷ rest) small short h k = absurd (omega arith)
  scan_loop-Makes (suc fuel) i buf (b ∷ rest) small short h k =
      let (k', shorter) = scan_step-Keeps i buf b rest small short k in
      let s = scan_step base index i buf b rest in
      scan_loop-Makes fuel s.instructions s.insert_buf s.target small (omega arith) (omega arith) k'

  -- The scan's instructions make its whole target, when the base is shorter than 2 ^ 32 bytes and
  -- the target than 2 ^ 24.
  pub scan-Makes :
      length base < 2 ^ 32
      → length whole < 2 ^ 24
      → Makes base (scan_loop (length whole) base index [] [] whole) whole
  scan-Makes small short =
      scan_loop-Makes (length whole) [] [] whole small short (omega arith)
        (record { made = []; makes = Makes-nil base; covers = refl })
