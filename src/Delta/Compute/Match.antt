-- ===== src/Delta/Compute/Match.antt =====
-- The match that `best_match` finds is a run of equal bytes that lies in the base.
use kappa_registry.Prelude.{ℕ, zero, suc, ◌+◌, ◌≤◌, ◌≡◌, refl, arith, ap}
use kappa_registry.Prelude.{ltb, leb, List, [], ◌∷◌}
use kappa_registry.Prelude.{Bytes, bytes_eq, bytes_eq→eq, length, take, drop, length-take}
use kappa_registry.Prelude.{length-drop, Bool-cases, inl, inr}
use mathlib.Core.Path.{ap₂}
use kappa_registry.Delta.Apply.{slice}
use kappa_registry.Delta.Compute.{Index, common_prefix, consider, consider_all}
use kappa_registry.Delta.Compute.{best_match}

common_prefix-le :
    (xs ys : Bytes) → (common_prefix xs ys ≤ length xs) × (common_prefix xs ys ≤ length ys)
unfolding common_prefix
common_prefix-le [] ys = omega arith
common_prefix-le (x ∷ xs) [] = omega arith
common_prefix-le (x ∷ xs) (y ∷ ys) = ground (arith, common_prefix-le xs ys)

take-common_prefix : (xs ys : Bytes) → take (common_prefix xs ys) xs ≡ take (common_prefix xs ys) ys
unfolding common_prefix
take-common_prefix [] [] = refl
take-common_prefix [] (y ∷ ys) = refl
take-common_prefix (x ∷ xs) [] = refl
take-common_prefix (x ∷ xs) (y ∷ ys) = ground (arith, take-common_prefix xs ys)

-- Equal blocks, and equal runs behind them.
take-add :
    (n k : ℕ) (xs ys : Bytes)
    → n ≤ length xs
    → n ≤ length ys
    → take n xs ≡ take n ys
    → take k (drop n xs) ≡ take k (drop n ys)
    → take (n + k) xs ≡ take (n + k) ys
take-add zero k xs ys hx hy e f = let z : 0 + k ≡ k = omega arith in rw z f
take-add (suc n) k [] ys hx hy e f = absurd (omega arith)
take-add (suc n) k (x ∷ xs) [] hx hy e f = absurd (omega arith)
take-add (suc n) k (x ∷ xs) (y ∷ ys) hx hy e f =
    let same : x ≡ y = cc in
    let tails : take n xs ≡ take n ys = cc in
    let ih = take-add n k xs ys (omega arith) (omega arith) tails f in
    let s : suc n + k ≡ suc (n + k) = omega arith in rw s (ap₂ ◌∷◌ same ih)

-- The pair names a run of the base that the target starts with.
pub record IsMatch (base target : Bytes) (best : ℕ × ℕ) : Type 0 where
  pub in_base : best.0 + best.1 ≤ length base
  pub in_target : best.1 ≤ length target
  pub same : slice base best.0 best.1 ≡ take best.1 target

IsMatch-none : (base target : Bytes) → IsMatch base target (0, 0)
unfolding slice
IsMatch-none base target = record { in_base = omega arith; in_target = omega arith; same = refl }

length-take_le : (n : ℕ) (xs : Bytes) → length (take n xs) ≤ length xs
length-take_le zero xs = omega arith
length-take_le (suc n) [] = omega arith
length-take_le (suc n) (x ∷ xs) = omega (arith, length-take_le n xs)

-- A candidate whose block agrees is a match as far as the run behind the block goes.
pub IsMatch-candidate :
    (base target : Bytes) (off : ℕ)
    → 16 ≤ length target
    → slice base off 16 ≡ take 16 target
    → IsMatch base target (off, 16 + common_prefix (drop 16 (drop off base)) (drop 16 target))
unfolding slice
IsMatch-candidate base target off h e =
    let run = common_prefix-le (drop 16 (drop off base)) (drop 16 target) in
    let block_in_base : 16 ≤ length (drop off base) =
      omega (arith, ap length e, length-take 16 target h, length-take_le 16 (drop off base)) in
    let total : off + 16 ≤ length base = omega (arith, length-drop off base) in
    record {
      in_base = omega (arith, run, length-drop 16 (drop off base), length-drop off base);
      in_target = omega (arith, run, length-drop 16 target);
      same =
          take-add 16 (common_prefix (drop 16 (drop off base)) (drop 16 target)) (drop off base)
            target block_in_base h e (take-common_prefix _ _);
    }

IsMatch-consider :
    (base target : Bytes) (off : ℕ) (best : ℕ × ℕ)
    → 16 ≤ length target
    → IsMatch base target best
    → IsMatch base target (consider base target off best)
unfolding consider
IsMatch-consider base target off (o, l) h m =
    elim (Bool-cases (bytes_eq (slice base off 16) (take 16 target))) [
      | inl agree ↦
          let run = 16 + common_prefix (drop 16 (drop off base)) (drop 16 target) in
          let c = IsMatch-candidate base target off h (bytes_eq→eq _ _ agree) in
          elim (Bool-cases (ltb l run)) [
            | inl longer ↦ rw (agree, longer) c
            | inr shorter ↦ rw (agree, shorter) m
          ]
      | inr differ ↦ rw differ m
    ]

IsMatch-consider_all :
    (base target : Bytes) (offsets : List ℕ) (best : ℕ × ℕ)
    → 16 ≤ length target
    → IsMatch base target best
    → IsMatch base target (consider_all base target offsets best)
unfolding consider_all
IsMatch-consider_all base target [] best h m = m
IsMatch-consider_all base target (off ∷ offsets) best h m =
    IsMatch-consider_all base target offsets (consider base target off best) h
      (IsMatch-consider base target off best h m)

-- Whatever the index holds, `best_match` returns a run that lies in the base and starts the target.
pub IsMatch-best_match :
    (base : Bytes) (index : Index) (target : Bytes)
    → IsMatch base target (best_match base index target)
unfolding best_match
IsMatch-best_match base index target = elim (Bool-cases (leb 16 (length target))) [
  | inl long ↦
      rw long (IsMatch-consider_all base target _ (0, 0) (ground arith) (IsMatch-none base target))
  | inr short ↦ rw short (IsMatch-none base target)
]
