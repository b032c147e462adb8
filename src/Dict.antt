-- ===== src/Dict.antt =====
-- Hash maps: `HashMap` and `DashMap` of the standard library and the crate dashmap, used through
-- get, insert, remove and retain. A map is an association list; where the program iterates over one,
-- it sorts afterwards or does not depend on the order.
use kappa_registry.Prelude.{All, Bool-cases, inl, inr, subst}
use kappa_registry.Prelude.{ℕ, ◌≡◌, ◌↔◌, refl, arith, Bool, true, false, ◌&&◌, if◌then◌else◌}
use kappa_registry.Prelude.{Option, none, some, List, [], ◌∷◌, Bytes, bytes_eq, bytes_eq_iff}
use kappa_registry.Prelude.{◌==◌}

pub record Eq {ℓ} (A : Type ℓ) : Type ℓ where
  pub beq : A → A → Bool
  pub beq_iff : (a b : A) → (beq a b ≡ true) ↔ (a ≡ b)

instance abbrev pub bytes_key : Eq Bytes
bytes_key = record { beq = bytes_eq; beq_iff = bytes_eq_iff }

-- A namespace's uuid with the hash of a name.
abbrev pub pair_eq : Bytes × ℕ → Bytes × ℕ → Bool
pair_eq (a, b) (c, d) = bytes_eq a c && (b == d)

pub pair_eq_iff : (x y : Bytes × ℕ) → (pair_eq x y ≡ true) ↔ (x ≡ y)
pair_eq_iff (a, b) (c, d) = ground (arith, bytes_eq_iff a c)

instance abbrev pub pair_key : Eq (Bytes × ℕ)
pair_key = record { beq = pair_eq; beq_iff = pair_eq_iff }

pub beq_refl {ℓ} : {K : Type ℓ} ⦃e : Eq K⦄ (k : K) → e.beq k k ≡ true
beq_refl ⦃e⦄ k = (e.beq_iff k k).1 refl

abbrev pub Dict {ℓ κ} : Type ℓ → Type κ → Type (ℓ ⊔ κ)
Dict K V = List (K × V)

module _ {ℓ κ} {K : Type ℓ} {V : Type κ} ⦃e : Eq K⦄ where
  unfoldable pub get : Dict K V → K → Option V
  get [] j = none
  get ((k, v) ∷ m) j = if e.beq k j then some v else get m j

  unfoldable pub remove : Dict K V → K → Dict K V
  remove [] j = []
  remove ((k, v) ∷ m) j = let rest = remove m j in if e.beq k j then rest else (k, v) ∷ rest

  unfoldable pub insert : Dict K V → K → V → Dict K V
  insert m k v = (k, v) ∷ remove m k

  pub get-remove :
      (m : Dict K V) (k j : K) → get (remove m k) j ≡ (if e.beq k j then none else get m j)
  unfolding get remove
  get-remove [] k j = ground arith
  get-remove ((i, v) ∷ m) k j =
      ground (arith, get-remove m k j, e.beq_iff i k, e.beq_iff i j, e.beq_iff k j)

  pub get-insert :
      (m : Dict K V) (k j : K) (v : V)
      → get (insert m k v) j ≡ (if e.beq k j then some v else get m j)
  unfolding get insert
  get-insert m k j v = ground (arith, get-remove m k j)

  unfoldable pub contains_key : Dict K V → K → Bool
  contains_key m k = elim (get m k) [ none ↦ false | some v ↦ true ]

pub ruleset dict_laws = (get-remove, get-insert)

-- A property of every value in a table.
module _ {ℓ κ π} {K : Type ℓ} {V : Type κ} ⦃e : Eq K⦄ (P : V → Type π) where
  abbrev pub AllValues : Dict K V → Type π
  AllValues m = All (λ (entry : K × V). P entry.1) m

  pub AllValues-get : (m : Dict K V) (k : K) (v : V) → AllValues m → get m k ≡ some v → P v
  unfolding get
  AllValues-get [] k v h g = cc
  AllValues-get ((i, w) ∷ m) k v (p, ps) g = elim (Bool-cases (e.beq i k)) [
    | inl same ↦ let here : w ≡ v = cc in subst P here p
    | inr other ↦ AllValues-get m k v ps (ground arith)
  ]

  pub AllValues-remove : (m : Dict K V) (k : K) → AllValues m → AllValues (remove m k)
  unfolding remove
  AllValues-remove [] k h = tt
  AllValues-remove ((i, w) ∷ m) k (p, ps) = elim (Bool-cases (e.beq i k)) [
    | inl same ↦ rw same (AllValues-remove m k ps)
    | inr other ↦ rw other (p, AllValues-remove m k ps)
  ]

  pub AllValues-insert :
      (m : Dict K V) (k : K) (v : V) → P v → AllValues m → AllValues (insert m k v)
  unfolding insert
  AllValues-insert m k v p ps = (p, AllValues-remove m k ps)
