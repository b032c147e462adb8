-- ===== src/Events/Last.antt =====
-- The last elements of a list.
use kappa_registry.Prelude.{ℕ, zero, suc, ◌+◌, ◌-◌, ◌≤◌, ◌≡◌, refl, sym, ap, ◌∙◌, arith}
use kappa_registry.Prelude.{
  List, [], ◌∷◌, ◌++◌, length, length-append, drop, length-drop, drop-drop,
}

module _ {ℓ} {A : Type ℓ} where
  -- The last `n` elements.
  abbrev pub last : ℕ → List A → List A
  last n xs = drop (length xs - n) xs

  pub drop-append : (k : ℕ) (xs ys : List A) → k ≤ length xs → drop k (xs ++ ys) ≡ drop k xs ++ ys
  drop-append zero xs ys h = refl
  drop-append (suc k) [] ys h = absurd (omega arith)
  drop-append (suc k) (x ∷ xs) ys h = drop-append k xs ys (omega arith)

  pub drop-append_right :
      (k : ℕ) (xs ys : List A) → length xs ≤ k → drop k (xs ++ ys) ≡ drop (k - length xs) ys
  drop-append_right k [] ys h = ap (λ n. drop n ys) (omega arith)
  drop-append_right zero (x ∷ xs) ys h = absurd (omega arith)
  drop-append_right (suc k) (x ∷ xs) ys h =
      drop-append_right k xs ys (omega arith) ∙ ap (λ n. drop n ys) (omega arith)

  pub last-last_append : (n : ℕ) (xs ys : List A) → last n (last n xs ++ ys) ≡ last n (xs ++ ys)
  last-last_append n xs ys =
      let k = length xs - n in
      let front : drop k xs ++ ys ≡ drop k (xs ++ ys) = sym (drop-append k xs ys (omega arith)) in
      let size : length (drop k xs ++ ys) ≡ (length xs - k) + length ys =
        omega (arith, length-append (drop k xs) ys, length-drop k xs) in
      let count : k + ((length xs - k) + length ys - n) ≡ length (xs ++ ys) - n =
        omega (arith, length-append xs ys) in
      rw (size, front)
        (drop-drop ((length xs - k) + length ys - n) k (xs ++ ys)
          ∙ ap (λ j. drop j (xs ++ ys)) count)

  pub last_short : (n : ℕ) (events : List A) → length events ≤ n → last n events ≡ events
  last_short n events h = let k : length events - n ≡ 0 = omega arith in rw k refl

  pub length-last : (n : ℕ) (events : List A) → length (last n events) ≤ n
  length-last n events = omega (arith, length-drop (length events - n) events)
