-- ===== src/Prelude/Lists.antt =====
-- Lists measured and indexed by native numbers, under the library's names.
use Prim.Native.Nat.{ℕ, zero, suc, ◌+◌, ◌-◌, ◌≤◌, ◌<◌}
use mathlib.Core.Path.{◌≡◌, refl, sym, ap, ◌∙◌}
use mathlib.Core.Logic.{◌⊎◌, inl, inr}
use mathlib.Core.List.{List, [], ◌∷◌, ◌++◌, map}
use mathlib.Core.Option.{Option, none, some}
use native.Mathlib.Omega.{arith}

module _ {ℓ} {A : Type ℓ} where
  abbrev pub length : List A → ℕ
  length [] = 0
  length (x ∷ xs) = suc (length xs)

  abbrev pub get_elem? : List A → ℕ → Option A
  get_elem? [] i = none
  get_elem? (x ∷ xs) zero = some x
  get_elem? (x ∷ xs) (suc i) = get_elem? xs i

  abbrev pub take : ℕ → List A → List A
  take zero xs = []
  take (suc n) [] = []
  take (suc n) (x ∷ xs) = x ∷ take n xs

  abbrev pub drop : ℕ → List A → List A
  drop zero xs = xs
  drop (suc n) [] = []
  drop (suc n) (x ∷ xs) = drop n xs

  abbrev pub replicate : ℕ → A → List A
  replicate zero a = []
  replicate (suc n) a = a ∷ replicate n a

  abbrev pub All {κ} : (A → Type κ) → List A → Type κ
  All P [] = Unit {κ}
  All P (x ∷ xs) = P x × All P xs

  -- Membership with the position kept.
  pub data In (a : A) : List A → Type ℓ where
    here : {xs : List A} → In a (a ∷ xs)
    there : {x : A} {xs : List A} → In a xs → In a (x ∷ xs)

module _ {ℓ} {A : Type ℓ} where
  pub length-append : (xs ys : List A) → length (xs ++ ys) ≡ length xs + length ys
  length-append [] ys = omega arith
  length-append (x ∷ xs) ys = omega (arith, length-append xs ys)

  pub length-replicate : (n : ℕ) (a : A) → length (replicate n a) ≡ n
  length-replicate zero a = refl
  length-replicate (suc n) a = ap suc (length-replicate n a)

  pub length-map {κ} : {B : Type κ} (f : A → B) (xs : List A) → length (map f xs) ≡ length xs
  length-map f [] = refl
  length-map f (x ∷ xs) = ap suc (length-map f xs)

  pub take-append-drop : (n : ℕ) (xs : List A) → take n xs ++ drop n xs ≡ xs
  take-append-drop zero xs = refl
  take-append-drop (suc n) [] = refl
  take-append-drop (suc n) (x ∷ xs) = rw (take-append-drop n xs)

  pub take-length_append : (xs ys : List A) → take (length xs) (xs ++ ys) ≡ xs
  take-length_append [] ys = refl
  take-length_append (x ∷ xs) ys = ap (λ t. x ∷ t) (take-length_append xs ys)

  pub drop-length_append : (xs ys : List A) → drop (length xs) (xs ++ ys) ≡ ys
  drop-length_append [] ys = refl
  drop-length_append (x ∷ xs) ys = drop-length_append xs ys

  pub length-take : (n : ℕ) (xs : List A) → n ≤ length xs → length (take n xs) ≡ n
  length-take zero xs h = refl
  length-take (suc n) [] h = absurd (omega arith)
  length-take (suc n) (x ∷ xs) h = ap suc (length-take n xs (omega arith))

  pub length-drop : (n : ℕ) (xs : List A) → length (drop n xs) ≡ length xs - n
  length-drop zero xs = omega arith
  length-drop (suc n) [] = omega arith
  length-drop (suc n) (x ∷ xs) = omega (arith, length-drop n xs)

  pub get_elem?-map {κ} :
      {B : Type κ} (f : A → B) (xs : List A) (i : ℕ) (a : A)
      → get_elem? xs i ≡ some a
      → get_elem? (map f xs) i ≡ some (f a)
  get_elem?-map f [] i a h = cc
  get_elem?-map f (x ∷ xs) zero a h = ground arith
  get_elem?-map f (x ∷ xs) (suc i) a h = get_elem?-map f xs i a h

  pub get_elem?-lt : (xs : List A) (i : ℕ) (a : A) → get_elem? xs i ≡ some a → i < length xs
  get_elem?-lt [] i a h = cc
  get_elem?-lt (x ∷ xs) zero a h = omega arith
  get_elem?-lt (x ∷ xs) (suc i) a h = omega (arith, get_elem?-lt xs i a h)

  pub get_elem?_total : (xs : List A) (i : ℕ) → i < length xs → (a : A) × (get_elem? xs i ≡ some a)
  get_elem?_total [] i h = absurd (omega arith)
  get_elem?_total (x ∷ xs) zero h = (x, refl)
  get_elem?_total (x ∷ xs) (suc i) h = get_elem?_total xs i (omega arith)

  pub In-append_left : {a : A} {xs : List A} (ys : List A) → In a xs → In a (xs ++ ys)
  In-append_left ys here = here
  In-append_left ys (there m) = there (In-append_left ys m)

  pub In-append_right : {a : A} (xs : List A) {ys : List A} → In a ys → In a (xs ++ ys)
  In-append_right [] m = m
  In-append_right (x ∷ xs) m = there (In-append_right xs m)

  pub In-append : {a : A} (xs : List A) {ys : List A} → In a (xs ++ ys) → In a xs ⊎ In a ys
  In-append [] m = inr m
  In-append (x ∷ xs) here = inl here
  In-append (x ∷ xs) (there m) = elim (In-append xs m) [ inl l ↦ inl (there l) | inr r ↦ inr r ]

  pub In-cons : {a x : A} {xs : List A} → In a (x ∷ xs) → (x ≡ a) ⊎ In a xs
  In-cons here = inl refl
  In-cons (there m) = inr m

  pub All-In {κ} : (P : A → Type κ) {a : A} {xs : List A} → In a xs → All P xs → P a
  All-In P here (h, hs) = h
  All-In P (there m) (h, hs) = All-In P m hs

  pub All-append {κ} : (P : A → Type κ) (xs ys : List A) → All P xs → All P ys → All P (xs ++ ys)
  All-append P [] ys h k = k
  All-append P (x ∷ xs) ys (h, hs) k = (h, All-append P xs ys hs k)

module _ {ℓ} {A : Type ℓ} where
  pub drop_nil : (k : ℕ) → drop {A = A} k [] ≡ []
  drop_nil zero = refl
  drop_nil (suc k) = refl

  pub drop-drop : (j k : ℕ) (xs : List A) → drop j (drop k xs) ≡ drop (k + j) xs
  drop-drop j zero xs = ap (λ n. drop n xs) (omega arith)
  drop-drop j (suc k) [] = drop_nil j ∙ sym (drop_nil (suc k + j))
  drop-drop j (suc k) (x ∷ xs) =
      let e : suc k + j ≡ suc (k + j) = omega arith in rw e (drop-drop j k xs)

  pub take-take : (n m : ℕ) (xs : List A) → n ≤ m → take n (take m xs) ≡ take n xs
  take-take zero m xs h = refl
  take-take (suc n) zero xs h = absurd (omega arith)
  take-take (suc n) (suc m) [] h = refl
  take-take (suc n) (suc m) (x ∷ xs) h = ap (λ t. x ∷ t) (take-take n m xs (omega arith))

  pub take-drop-take :
      (j m n : ℕ) (xs : List A) → j + n ≤ m → take n (drop j (take m xs)) ≡ take n (drop j xs)
  take-drop-take zero m n xs h = take-take n m xs (omega arith)
  take-drop-take (suc j) zero n xs h = absurd (omega arith)
  take-drop-take (suc j) (suc m) n [] h = refl
  take-drop-take (suc j) (suc m) n (x ∷ xs) h = take-drop-take j m n xs (omega arith)
