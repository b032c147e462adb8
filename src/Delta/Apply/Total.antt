-- ===== src/Delta/Apply/Total.antt =====
-- `apply_delta` ends on every input, and what it returns has the size that the delta announces.
use kappa_registry.Prelude.{ℕ, zero, suc, ◌≤◌, ◌≡◌, ◌≢◌, refl, arith}
use kappa_registry.Prelude.{Bool, true, false, [], ◌∷◌, ◌++◌, Bytes, length, length-drop, subst}
use kappa_registry.Delta.Varint.{DeltaError, Result, ok, err, ◌>>=◌, decode_varint, stuck}
use kappa_registry.Delta.Varint.RoundTrip.{decode_varint-ne-stuck}
use kappa_registry.Delta.Apply.{read_field, read_offset, read_size, copy_step, apply_step}
use kappa_registry.Delta.Apply.{apply_loop, check_size, apply_sized, apply_delta}

abbrev NotStuck : DeltaError → Type 0
NotStuck stuck = ⊥
NotStuck _ = Unit

-- A step that leaves at most `n` bytes, or an error of the source.
abbrev Takes {ℓ} : {A : Type ℓ} → ℕ → Result (A × Bytes) → Type 0
Takes n (ok (a, rest)) = length rest ≤ n
Takes n (err e) = NotStuck e

Takes-bind {ℓ κ} :
    {A : Type ℓ} {B : Type κ} (n : ℕ) (m : Result (A × Bytes)) (f : A × Bytes → Result (B × Bytes))
    → Takes n m
    → ((a : A) (rest : Bytes) → length rest ≤ n → Takes n (f (a, rest)))
    → Takes n (m >>= f)
Takes-bind n (ok (a, rest)) f h k = k a rest h
Takes-bind n (err e) f h k = h

Takes-read_field :
    (test : Bool) (weight : ℕ) (e : DeltaError) (value n : ℕ) (rest : Bytes)
    → NotStuck e
    → length rest ≤ n
    → Takes n (read_field test weight e value rest)
unfolding read_field
Takes-read_field false weight e value n rest s h = h
Takes-read_field true weight e value n [] s h = s
Takes-read_field true weight e value n (b ∷ rest) s h = omega arith

Takes-read_offset : (cmd n : ℕ) (delta : Bytes) → length delta ≤ n → Takes n (read_offset cmd delta)
unfolding read_offset
Takes-read_offset cmd n delta h =
    Takes-bind n _ _ (Takes-read_field _ _ _ _ n delta tt h) λ o1 r1 h1.
      Takes-bind n _ _ (Takes-read_field _ _ _ _ n r1 tt h1) λ o2 r2 h2.
        Takes-bind n _ _ (Takes-read_field _ _ _ _ n r2 tt h2)
          λ o3 r3 h3. Takes-read_field _ _ _ _ n r3 tt h3

Takes-read_size : (cmd n : ℕ) (delta : Bytes) → length delta ≤ n → Takes n (read_size cmd delta)
unfolding read_size
Takes-read_size cmd n delta h = Takes-bind n _ _ (Takes-read_field _ _ _ _ n delta tt h) λ s1 r1 h1.
    Takes-bind n _ _ (Takes-read_field _ _ _ _ n r1 tt h1)
      λ s2 r2 h2. Takes-read_field _ _ _ _ n r2 tt h2

Takes-copy_step :
    (base : Bytes) (offset size n : ℕ) (rest : Bytes)
    → length rest ≤ n
    → Takes n (copy_step base offset size rest)
unfolding copy_step
Takes-copy_step base offset size n rest h = ground arith

Takes-copy :
    (base : Bytes) (cmd : ℕ) (rest : Bytes)
    → Takes (length rest) (do
      (offset, r1) ← read_offset cmd rest
      (size, r2) ← read_size cmd r1
      copy_step base offset size r2)
Takes-copy base cmd rest =
    let n = length rest in
    Takes-bind n _ _ (Takes-read_offset cmd n rest (omega arith)) λ offset r1 h1.
      Takes-bind n _ _ (Takes-read_size cmd n r1 h1)
        λ size r2 h2. Takes-copy_step base offset size n r2 h2

Takes-apply_step :
    (base : Bytes) (cmd : ℕ) (rest : Bytes) → Takes (length rest) (apply_step base cmd rest)
unfolding apply_step
Takes-apply_step base cmd rest = ground (arith, Takes-copy base cmd rest, length-drop cmd rest)

abbrev Answers {ℓ} : {A : Type ℓ} → Result A → Type 0
Answers (ok a) = Unit
Answers (err e) = NotStuck e

Answers-apply_loop :
    (fuel : ℕ) (base delta out : Bytes)
    → length delta ≤ fuel
    → Answers (apply_loop fuel base delta out)
unfolding apply_loop
Answers-apply_loop fuel base [] out h = tt
Answers-apply_loop zero base (cmd ∷ rest) out h = absurd (omega arith)
Answers-apply_loop (suc fuel) base (cmd ∷ rest) out h =
    after (apply_step base cmd rest) (Takes-apply_step base cmd rest)
      (λ chunk rest' h'. Answers-apply_loop fuel base rest' (out ++ chunk) (omega arith))
  where
    after :
        (m : Result (Bytes × Bytes))
        → Takes (length rest) m
        → ((chunk rest' : Bytes)
            → length rest' ≤ length rest
            → Answers (apply_loop fuel base rest' (out ++ chunk)))
        → Answers (m >>= (λ (chunk, rest'). apply_loop fuel base rest' (out ++ chunk)))
    after (ok (chunk, rest')) t k = k chunk rest' t
    after (err e) t k = t

Answers-check_size : (n : ℕ) (out : Bytes) → Answers (check_size n out)
unfolding check_size
Answers-check_size n out = ground arith

Answers-bind {ℓ κ} :
    {A : Type ℓ} {B : Type κ} (m : Result A) (f : A → Result B)
    → Answers m
    → ((a : A) → Answers (f a))
    → Answers (m >>= f)
Answers-bind (ok a) f h k = k a
Answers-bind (err e) f h k = h

Answers-apply_sized :
    (base : Bytes) (n m : ℕ) (delta : Bytes) → Answers (apply_sized base n m delta)
unfolding apply_sized
Answers-apply_sized base n m delta = ground (
  arith,
  Answers-bind (apply_loop (length delta) base delta []) (check_size m)
      (Answers-apply_loop (length delta) base delta [] (omega arith)) (Answers-check_size m),
)

Answers-of_ne {ℓ} : {A : Type ℓ} (r : Result A) → r ≢ err stuck → Answers r
Answers-of_ne (ok a) h = tt
Answers-of_ne (err stuck) h = absurd (h refl)
Answers-of_ne (err _) h = tt

ne_of_Answers {ℓ} : {A : Type ℓ} (r : Result A) → Answers r → r ≢ err stuck
ne_of_Answers (ok a) h e = cc
ne_of_Answers (err stuck) h e = h
ne_of_Answers (err _) h e = cc

-- `apply_delta` ends on every base and every delta, well formed or not: the loop of the model never
-- runs out of fuel.
pub apply_delta-ne-stuck : (base delta : Bytes) → apply_delta base delta ≢ err stuck
unfolding apply_delta
apply_delta-ne-stuck base delta = ne_of_Answers (apply_delta base delta) (
    Answers-bind _ _ (Answers-of_ne _ (decode_varint-ne-stuck delta)) λ (base_size, r1).
      Answers-bind _ _ (Answers-of_ne _ (decode_varint-ne-stuck r1))
        λ (result_size, r2). Answers-apply_sized base base_size result_size r2)

pub apply_step-shorter :
    (base : Bytes) (cmd : ℕ) (rest chunk rest' : Bytes)
    → apply_step base cmd rest ≡ ok (chunk, rest')
    → length rest' ≤ length rest
apply_step-shorter base cmd rest chunk rest' e =
    subst (Takes (length rest)) e (Takes-apply_step base cmd rest)

-- Where `apply_delta` succeeds, the base has the size that the delta names first, and the result
-- has the size that it names second.
pub apply_delta_sizes :
    (base delta out : Bytes) (n m : ℕ) (r1 r2 : Bytes)
    → decode_varint delta ≡ ok (n, r1)
    → decode_varint r1 ≡ ok (m, r2)
    → apply_delta base delta ≡ ok out
    → (length base ≡ n) × (length out ≡ m)
unfolding apply_delta apply_sized check_size
apply_delta_sizes base delta out n m r1 r2 d1 d2 h = ground arith
