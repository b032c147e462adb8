-- ===== src/Delta/Apply/Run.antt =====
-- `apply_loop` with the fuel that its input wants, one instruction at a time.
use kappa_registry.Prelude.{ℕ, zero, suc, ◌≤◌, ◌<◌, ◌≡◌, refl, arith, sym, ◌∙◌, ap}
use kappa_registry.Prelude.{[], ◌∷◌, ◌++◌, Bytes, length, append_assoc, append-nil, take, drop}
use kappa_registry.Prelude.{take-length_append, drop-length_append, length-append}
use kappa_registry.Delta.Varint.{Result, ok, err, ◌>>=◌}
use kappa_registry.Delta.Apply.{apply_step, apply_loop}
use kappa_registry.Delta.Apply.Total.{apply_step-shorter}

-- Fuel beyond the length of the input changes nothing.
apply_loop_fuel :
    (f g : ℕ) (base delta out : Bytes)
    → length delta ≤ f
    → length delta ≤ g
    → apply_loop f base delta out ≡ apply_loop g base delta out
unfolding apply_loop
apply_loop_fuel f g base [] out hf hg = refl
apply_loop_fuel zero g base (c ∷ rest) out hf hg = absurd (omega arith)
apply_loop_fuel (suc f) zero base (c ∷ rest) out hf hg = absurd (omega arith)
apply_loop_fuel (suc f) (suc g) base (c ∷ rest) out hf hg =
    after (apply_step base c rest) refl
      (λ chunk rest' h. apply_loop_fuel f g base rest' (out ++ chunk) (omega arith) (omega arith))
  where
    after :
        (m : Result (Bytes × Bytes))
        → apply_step base c rest ≡ m
        → ((chunk rest' : Bytes)
            → length rest' ≤ length rest
            → apply_loop f base rest' (out ++ chunk) ≡ apply_loop g base rest' (out ++ chunk))
        → (m >>= (λ (chunk, rest'). apply_loop f base rest' (out ++ chunk)))
          ≡ (m >>= (λ (chunk, rest'). apply_loop g base rest' (out ++ chunk)))
    after (ok (chunk, rest')) e ih = ih chunk rest' (apply_step-shorter base c rest chunk rest' e)
    after (err x) e ih = refl

unfoldable pub run : Bytes → Bytes → Bytes → Result Bytes
run base delta out = apply_loop (length delta) base delta out

pub run_step :
    (base : Bytes) (c : ℕ) (rest chunk rest' out : Bytes)
    → apply_step base c rest ≡ ok (chunk, rest')
    → run base (c ∷ rest) out ≡ run base rest' (out ++ chunk)
unfolding run apply_loop
run_step base c rest chunk rest' out e = rw e (
    apply_loop_fuel (length rest) (length rest') base rest' (out ++ chunk)
      (apply_step-shorter base c rest chunk rest' e) (omega arith))

-- `instructions` add `made` to the output, whatever stands behind them and was made before.
pub record Makes (base instructions made : Bytes) : Type 0 where
  pub at : (rest out : Bytes) → run base (instructions ++ rest) out ≡ run base rest (out ++ made)

pub Makes-nil : (base : Bytes) → Makes base [] []
Makes-nil base = record { at = λ rest out. ap (run base rest) (sym (append-nil out)) }

pub Makes-append :
    (base i j xs ys : Bytes) → Makes base i xs → Makes base j ys → Makes base (i ++ j) (xs ++ ys)
Makes-append base i j xs ys hi hj = record {
  at = λ rest out.
      ap (λ t. run base t out) (append_assoc i j rest)
      ∙ hi.at (j ++ rest) out
      ∙ hj.at rest (out ++ xs)
      ∙ ap (run base rest) (append_assoc out xs ys);
}

-- One instruction makes its chunk.
pub Makes-one :
    (base : Bytes) (c : ℕ) (args chunk : Bytes)
    → ((rest : Bytes) → apply_step base c (args ++ rest) ≡ ok (chunk, rest))
    → Makes base (c ∷ args) chunk
Makes-one base c args chunk h = record {
  at = λ rest out. run_step base c (args ++ rest) chunk rest out (h rest);
}

insert_step :
    (base : Bytes) (n : ℕ) (bytes rest : Bytes)
    → 0 < n
    → n < 128
    → length bytes ≡ n
    → apply_step base n (bytes ++ rest) ≡ ok (bytes, rest)
unfolding apply_step
insert_step base n bytes rest p q e =
    let t : take n (bytes ++ rest) ≡ bytes = rw (← e) (take-length_append bytes rest) in
    let d : drop n (bytes ++ rest) ≡ rest = rw (← e) (drop-length_append bytes rest) in
    ground (arith, length-append bytes rest, t, d)

-- INSERT: a byte from 1 to 127 and as many literal bytes.
pub Makes-insert :
    (base : Bytes) (n : ℕ) (bytes : Bytes)
    → 0 < n
    → n < 128
    → length bytes ≡ n
    → Makes base (n ∷ bytes) bytes
Makes-insert base n bytes p q e =
    Makes-one base n bytes bytes (λ rest. insert_step base n bytes rest p q e)

-- Running instructions that make `made` from nothing gives `made`.
pub run-Makes : (base i made : Bytes) → Makes base i made → run base i [] ≡ ok made
unfolding run apply_loop
run-Makes base i made m = let e = m.at [] [] in rw (append-nil i) at e
