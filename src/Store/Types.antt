-- ===== src/Store/Types.antt =====
-- The errors of crates/kappa-core/src/types.rs and what a store method returns. The text inside an
-- error is not modelled, and neither is what `Io` and `Canonical` carry.
use kappa_registry.Prelude.{◌≡◌, refl, ◌⊎◌, inl, inr}

pub data StoreError : Type 0 where
  io not_found conflict rejected canonical : StoreError

pub data Result {ℓ} (A : Type ℓ) : Type ℓ where
  ok : A → Result A
  err : StoreError → Result A

infixl 5 ◌>>=◌
abbrev pub ◌>>=◌ {ℓ κ} : {A : Type ℓ} {B : Type κ} → Result A → (A → Result B) → Result B
ok a >>= f = f a
err e >>= f = err e

pub Result-cases {ℓ} :
    {A : Type ℓ} (r : Result A) → ((a : A) × (r ≡ ok a)) ⊎ ((e : StoreError) × (r ≡ err e))
Result-cases (ok a) = inl (a, refl)
Result-cases (err e) = inr (e, refl)
