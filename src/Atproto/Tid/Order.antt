-- ===== src/Atproto/Tid/Order.antt =====
-- Texts of TIDs are ordered as their timestamps, and a generator's grow.
use kappa_registry.Prelude.{ℕ, zero, suc, ◌+◌, ◌/◌, ◌%◌, ◌^◌, ◌<◌, ◌≡◌, arith, ltb, ◌==◌}
use kappa_registry.Prelude.{
  if◌then◌else◌, Bool, true, false, List, [], ◌∷◌, ◌++◌, Bytes, length, All, lt-cases,
}
use kappa_registry.Prelude.{inl, inr}
use kappa_registry.Atproto.Tid.{s32_char, tid_from_parts, TidGenerator, next, with_clock_id}
use kappa_registry.Atproto.Tid.Digits.{digits, length-digits}
use kappa_registry.Atproto.Tid.RoundTrip.{tid_from_parts-digits}

-- The order of Rust texts, byte by byte.
abbrev pub str_lt : Bytes → Bytes → Bool
str_lt [] [] = false
str_lt [] (y ∷ ys) = true
str_lt (x ∷ xs) [] = false
str_lt (x ∷ xs) (y ∷ ys) = let rest = str_lt xs ys in if x == y then rest else ltb x y

str_lt-append :
    (xs ys us vs : Bytes)
    → length xs ≡ length ys
    → str_lt xs ys ≡ true
    → str_lt (xs ++ us) (ys ++ vs) ≡ true
str_lt-append [] [] us vs l h = cc
str_lt-append [] (y ∷ ys) us vs l h = absurd (omega arith)
str_lt-append (x ∷ xs) [] us vs l h = absurd (omega arith)
str_lt-append (x ∷ xs) (y ∷ ys) us vs l h = ground (arith, str_lt-append xs ys us vs (omega arith))

str_lt-prefix : (xs us vs : Bytes) → str_lt us vs ≡ true → str_lt (xs ++ us) (xs ++ vs) ≡ true
str_lt-prefix [] us vs h = h
str_lt-prefix (x ∷ xs) us vs h = ground (arith, str_lt-prefix xs us vs h)

char_lt : (a b : ℕ) → a < b → b < 32 → str_lt (s32_char a ∷ []) (s32_char b ∷ []) ≡ true
unfolding s32_char
char_lt a b h l = ground arith

digits_lt : (k n m : ℕ) → n < m → m < 32 ^ k → str_lt (digits k n) (digits k m) ≡ true
digits_lt zero n m h l = absurd (omega arith)
digits_lt (suc k) n m h l = elim (lt-cases (n / 32) (m / 32)) [
  | inl front ↦
      str_lt-append (digits k (n / 32)) (digits k (m / 32)) _ _
        (omega (arith, length-digits k (n / 32), length-digits k (m / 32)))
        (digits_lt k (n / 32) (m / 32) front (omega arith))
  | inr same ↦
      let e : n / 32 ≡ m / 32 = omega arith in
      rw e (
        str_lt-prefix (digits k (m / 32)) _ _
          (char_lt (n % 32) (m % 32) (omega arith) (omega arith)))
]

-- An earlier timestamp has the smaller text, whatever the clocks are.
pub tid_from_parts_lt :
    (t u c d : ℕ)
    → t < u
    → u < 2 ^ 55
    → c < 2 ^ 10
    → d < 2 ^ 10
    → str_lt (tid_from_parts t c) (tid_from_parts u d) ≡ true
tid_from_parts_lt t u c d h l hc hd =
    rw (tid_from_parts-digits t c (omega arith) hc, tid_from_parts-digits u d l hd)
      (str_lt-append (digits 11 t) (digits 11 u) (digits 2 c) (digits 2 d)
        (omega (arith, length-digits 11 t, length-digits 11 u)) (digits_lt 11 t u h (omega arith)))

-- The texts of the calls of `next`, in the order in which they replace the timestamp.
abbrev pub tids : List ℕ → TidGenerator → List Bytes
tids [] g = []
tids (now_us ∷ times) g = (next now_us g).1 ∷ tids times (next now_us g).0

-- Each text is greater than the one before it.
abbrev pub Ascending : Bytes → List Bytes → Type 0
Ascending previous [] = Unit {0}
Ascending previous (s ∷ ss) = (str_lt previous s ≡ true) × Ascending s ss

next_grows :
    (now_us rest : ℕ) (g : TidGenerator)
    → now_us + rest < 2 ^ 55
    → g.last_timestamp + suc rest < 2 ^ 55
    → (g.last_timestamp < (next now_us g).0.last_timestamp)
      × ((next now_us g).0.last_timestamp + rest < 2 ^ 55)
unfolding next
next_grows now_us rest g h l = ground arith

tids-Ascending :
    (times : List ℕ) (g : TidGenerator)
    → All (λ t. t < 2 ^ 54) times
    → length times < 2 ^ 54
    → g.last_timestamp + length times < 2 ^ 55
    → g.clock_id < 32
    → Ascending (tid_from_parts g.last_timestamp g.clock_id) (tids times g)
unfolding next
tids-Ascending [] g h n l c = tt
tids-Ascending (t ∷ ts) g (ht, h) n l c =
    let (grows, bound) = next_grows t (length ts) g (omega arith) (omega arith) in
    (
      tid_from_parts_lt g.last_timestamp (next t g).0.last_timestamp g.clock_id g.clock_id grows
          (omega (arith, bound)) (omega arith) (omega arith),
      tids-Ascending ts (next t g).0 h (omega arith) bound c,
    )

-- The texts of a generator grow strictly, also where the system's time stands still or goes back and
-- calls of several threads interleave: fewer than 2 ^ 54 calls, at times below 2 ^ 54.
pub with_clock_id-Ascending :
    (times : List ℕ) (clock_id : ℕ)
    → All (λ t. t < 2 ^ 54) times
    → length times < 2 ^ 54
    → Ascending (tid_from_parts 0 (clock_id % 32)) (tids times (with_clock_id clock_id))
unfolding with_clock_id
with_clock_id-Ascending times clock_id h n =
    tids-Ascending times (with_clock_id clock_id) h n (omega arith) (omega arith)
