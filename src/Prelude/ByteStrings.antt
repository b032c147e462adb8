-- ===== src/Prelude/ByteStrings.antt =====
-- Byte strings, and the comparison of two of them. A byte string is a list of numbers; a Rust
-- `&str` is its UTF-8 bytes.
use Prim.Native.Nat.{ℕ, ◌<◌}
use Prim.Native.Char.{code}
use Prim.Native.String.{String}
use mathlib.Core.Path.{◌≡◌, refl}
use mathlib.Core.Logic.{◌↔◌}
use mathlib.Core.Bool.{Bool, true, false, ◌&&◌}
use mathlib.Core.List.{List, [], ◌∷◌, ◌++◌}
use native.Mathlib.Decide.{ℕ_discrete}
use native.Mathlib.Omega.{arith}
use kappa_registry.Prelude.Tests.{◌==◌}
use kappa_registry.Prelude.Lists.{length}

abbrev pub Bytes : Type 0
Bytes = List ℕ

abbrev pub IsByte : ℕ → Type 0
IsByte b = b < 256

-- The code points of a literal: its bytes, as it is ASCII.
abbrev pub codes : String → Bytes
codes String.[] = []
codes (String.◌∷◌ c s) = code c ∷ codes s

abbrev pub bytes_eq : Bytes → Bytes → Bool
bytes_eq [] [] = true
bytes_eq [] (y ∷ ys) = false
bytes_eq (x ∷ xs) [] = false
bytes_eq (x ∷ xs) (y ∷ ys) = (x == y) && bytes_eq xs ys

pub bytes_eq→eq : (xs ys : Bytes) → bytes_eq xs ys ≡ true → xs ≡ ys
bytes_eq→eq [] [] h = refl
bytes_eq→eq [] (y ∷ ys) h = cc
bytes_eq→eq (x ∷ xs) [] h = cc
bytes_eq→eq (x ∷ xs) (y ∷ ys) h = ground (arith, bytes_eq→eq xs ys)

pub bytes_eq_refl : (xs : Bytes) → bytes_eq xs xs ≡ true
bytes_eq_refl [] = refl
bytes_eq_refl (x ∷ xs) = ground (arith, bytes_eq_refl xs)

pub bytes_eq_iff : (xs ys : Bytes) → (bytes_eq xs ys ≡ true) ↔ (xs ≡ ys)
bytes_eq_iff xs ys = (bytes_eq→eq xs ys, λ e. rw e (bytes_eq_refl ys))

pub Bytes-discrete : Discrete Bytes
Bytes-discrete = hlevel ℕ_discrete

-- Two concatenations whose left parts are equally long agree part by part.
pub append-injective :
    (xs ys us vs : Bytes) → length xs ≡ length us → (xs ++ ys) ≡ (us ++ vs) → (xs ≡ us) × (ys ≡ vs)
append-injective [] ys [] vs l e = (refl, e)
append-injective [] ys (u ∷ us) vs l e = absurd (omega arith)
append-injective (x ∷ xs) ys [] vs l e = absurd (omega arith)
append-injective (x ∷ xs) ys (u ∷ us) vs l e =
    ground (arith, append-injective xs ys us vs (omega arith))
