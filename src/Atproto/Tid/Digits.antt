-- ===== src/Atproto/Tid/Digits.antt =====
-- A padded number is its digits in a fixed width.
use kappa_registry.Prelude.{
  ℕ, zero, suc, ◌-◌, ◌/◌, ◌%◌, ◌^◌, ◌≤◌, ◌<◌, ◌≡◌, refl, ap, sym, ◌∙◌, arith,
}
use kappa_registry.Prelude.{[], ◌∷◌, ◌++◌, Bytes, length, length-append, replicate}
use kappa_registry.Prelude.{append_assoc, append-nil, lt-cases, inl, inr}
use kappa_registry.Atproto.Tid.{s32_char, s32_encode_loop, s32_encode, padded}

-- The last `k` digits of `n`.
abbrev pub digits : ℕ → ℕ → Bytes
digits zero n = []
digits (suc k) n = digits k (n / 32) ++ (s32_char (n % 32) ∷ [])

pub length-digits : (k n : ℕ) → length (digits k n) ≡ k
length-digits zero n = refl
length-digits (suc k) n =
    omega
      (arith, length-append (digits k (n / 32)) (s32_char (n % 32) ∷ []), length-digits k (n / 32))

loop-append : (fuel n : ℕ) (s : Bytes) → s32_encode_loop fuel n s ≡ s32_encode_loop fuel n [] ++ s
unfolding s32_encode_loop
loop-append zero n s = refl
loop-append (suc fuel) n s =
    let c = s32_char (n % 32) in
    ground (
      arith,
      loop-append fuel (n / 32) (c ∷ s),
      loop-append fuel (n / 32) (c ∷ []),
      append_assoc (s32_encode_loop fuel (n / 32) []) (c ∷ []) s,
    )

replicate-snoc : (k c : ℕ) → replicate (suc k) c ≡ replicate k c ++ (c ∷ [])
replicate-snoc zero c = refl
replicate-snoc (suc k) c = ap (λ t. c ∷ t) (replicate-snoc k c)

zeros-digits : (k : ℕ) → replicate k (s32_char 0) ≡ digits k 0
zeros-digits zero = refl
zeros-digits (suc k) =
    let e : 0 / 32 ≡ 0 = omega arith in
    let f : 0 % 32 ≡ 0 = omega arith in
    replicate-snoc k (s32_char 0) ∙ rw (e, f) (ap (λ t. t ++ (s32_char 0 ∷ [])) (zeros-digits k))

loop_zero : (fuel : ℕ) → s32_encode_loop fuel 0 [] ≡ []
unfolding s32_encode_loop
loop_zero zero = refl
loop_zero (suc fuel) = ground arith

padded_zero : (k fuel : ℕ) → padded k (s32_encode_loop fuel 0 []) ≡ digits k 0
unfolding padded
padded_zero k fuel =
    let e : k - 0 ≡ k = omega arith in rw (loop_zero fuel, e, append-nil) (zeros-digits k)

padded-snoc : (k c : ℕ) (s : Bytes) → padded (suc k) (s ++ (c ∷ [])) ≡ padded k s ++ (c ∷ [])
unfolding padded
padded-snoc k c s =
    let e : suc k - length (s ++ (c ∷ [])) ≡ k - length s =
      omega (arith, length-append s (c ∷ [])) in
    rw e (sym (append_assoc (replicate (k - length s) (s32_char 0)) s (c ∷ [])))

loop-suc :
    (fuel n : ℕ)
    → 0 < n
    → s32_encode_loop (suc fuel) n [] ≡ s32_encode_loop fuel (n / 32) [] ++ (s32_char (n % 32) ∷ [])
unfolding s32_encode_loop
loop-suc fuel n h = ground (arith, loop-append fuel (n / 32) (s32_char (n % 32) ∷ []))

padded-loop :
    (k fuel n : ℕ) → k ≤ fuel → n < 32 ^ k → padded k (s32_encode_loop fuel n []) ≡ digits k n
padded-loop zero fuel n h l = let e : n ≡ 0 = omega arith in rw e (padded_zero 0 fuel)
padded-loop (suc k) zero n h l = absurd (omega arith)
padded-loop (suc k) (suc fuel) n h l = elim (lt-cases 0 n) [
  | inl pos ↦
      rw (loop-suc fuel n pos, padded-snoc k (s32_char (n % 32)) (s32_encode_loop fuel (n / 32) []))
        (ap (λ t. t ++ (s32_char (n % 32) ∷ []))
          (padded-loop k fuel (n / 32) (omega arith) (omega arith)))
  | inr none ↦ let e : n ≡ 0 = omega arith in rw e (padded_zero (suc k) (suc fuel))
]

-- A number of at most 13 digits, padded to a width that holds it.
pub padded-s32_encode : (k n : ℕ) → k ≤ 13 → n < 32 ^ k → padded k (s32_encode n) ≡ digits k n
unfolding s32_encode
padded-s32_encode k n h l = padded-loop k 13 n h l
