-- ===== src/Kappa/Path/Layout.antt =====
-- Which labels have a path, and that the path tells the label.
use kappa_registry.Prelude.{ℕ, zero, suc, ◌+◌, ◌≤◌, ◌<◌, ◌≡◌, ◌≢◌, ◌↔◌, refl, arith}
use kappa_registry.Prelude.{true, some, List, [], ◌∷◌, ◌++◌}
use kappa_registry.Prelude.{
  Bytes, length, take, drop, All, Option-cases, Bool-cases, inl, inr, length-append,
}
use kappa_registry.Prelude.{take-length_append, length-take}
use kappa_registry.Kappa.Label.{position_colon}
use kappa_registry.Kappa.Label.Grammar.{IsHex, is_hex_iff, position_colon-split}
use kappa_registry.Kappa.Path.{split_kappa, only_hex, shard_path, blob_path_for}
use kappa_registry.Store.Types.{ok}

-- No colon.
abbrev pub NoColon : Bytes → Type 0
NoColon s = All (λ b. b ≢ b':') s

pub position_colon-append :
    (algo hex : Bytes) → NoColon algo → position_colon (algo ++ (b':' ∷ hex)) ≡ some (length algo)
unfolding position_colon
position_colon-append [] hex h = refl
position_colon-append (a ∷ algo) hex (h, hs) = ground (arith, position_colon-append algo hex hs)

position_colon-NoColon : (s : Bytes) (n : ℕ) → position_colon s ≡ some n → NoColon (take n s)
unfolding position_colon
position_colon-NoColon [] n h = cc
position_colon-NoColon (b ∷ bs) zero h = tt
position_colon-NoColon (b ∷ bs) (suc n) h =
    let later : position_colon bs ≡ some n = ground arith in
    ((λ e. absurd (ground arith)), position_colon-NoColon bs n later)

position_colon-lt : (s : Bytes) (n : ℕ) → position_colon s ≡ some n → n < length s
unfolding position_colon
position_colon-lt [] n h = cc
position_colon-lt (b ∷ bs) zero h = omega arith
position_colon-lt (b ∷ bs) (suc n) h =
    let later : position_colon bs ≡ some n = ground arith in
    omega (arith, position_colon-lt bs n later)

only_hex_iff : (hex : Bytes) → (only_hex hex ≡ true) ↔ All IsHex hex
unfolding only_hex
only_hex_iff [] = (λ h. tt, λ h. refl)
only_hex_iff (b ∷ bs) = ground (arith, is_hex_iff b, only_hex_iff bs)

-- `<algorithm>:<digest>`, with any text without a colon for the algorithm and four lowercase hex
-- digits or more for the digest, and the four parts of its path.
pub record IsSharded (kappa : Bytes) (path : List Bytes) : Type 0 where
  pub algo : Bytes
  pub hex : Bytes
  pub text : kappa ≡ algo ++ (b':' ∷ hex)
  pub nonempty : 0 < length algo
  pub no_colon : NoColon algo
  pub long : 4 ≤ length hex
  pub all_hex : All IsHex hex
  pub parts : path ≡ algo ∷ take 2 hex ∷ take 2 (drop 2 hex) ∷ hex ∷ []

drop-colon : (algo hex : Bytes) → drop (length algo + 1) (algo ++ (b':' ∷ hex)) ≡ hex
drop-colon [] hex = refl
drop-colon (a ∷ algo) hex =
    let e : length (a ∷ algo) + 1 ≡ suc (length algo + 1) = omega arith in
    rw e (drop-colon algo hex)

IsSharded-path :
    (kappa : Bytes) (path : List Bytes) → IsSharded kappa path → blob_path_for kappa ≡ ok path
unfolding blob_path_for split_kappa shard_path
IsSharded-path kappa path i =
    let at = position_colon-append i.algo i.hex i.no_colon in
    let digits = (only_hex_iff i.hex).1 i.all_hex in
    rw (i.text, i.parts)
      (ground (
        arith,
        at,
        digits,
        i.long,
        i.nonempty,
        length-append i.algo (b':' ∷ i.hex),
        take-length_append i.algo (b':' ∷ i.hex),
        drop-colon i.algo i.hex,
      ))

shard_path_inv :
    (algo hex : Bytes) (path : List Bytes)
    → shard_path (algo, hex) ≡ ok path
    → (4 ≤ length hex) × All IsHex hex × (path ≡ algo ∷ take 2 hex ∷ take 2 (drop 2 hex) ∷ hex ∷ [])
unfolding shard_path
shard_path_inv algo hex path h = elim (Bool-cases (only_hex hex)) [
  | inl digits ↦ (ground arith, (only_hex_iff hex).0 digits, ground arith)
  | inr other ↦ absurd (ground arith)
]

path-IsSharded :
    (kappa : Bytes) (path : List Bytes) → blob_path_for kappa ≡ ok path → IsSharded kappa path
unfolding blob_path_for split_kappa
path-IsSharded kappa path h = elim (Option-cases (position_colon kappa)) [
  | inl e ↦ absurd (ground arith)
  | inr (n, e) ↦
      let hex = drop (n + 1) kappa in
      let inside = position_colon-lt kappa n e in
      let shard : shard_path (take n kappa, hex) ≡ ok path = ground arith in
      let (long, digits, made) = shard_path_inv (take n kappa) hex path shard in
      let start : 0 < n = ground arith in
      record {
        algo = take n kappa;
        hex = hex;
        text = position_colon-split kappa n e;
        nonempty = omega (arith, length-take n kappa (omega (arith, inside)));
        no_colon = position_colon-NoColon kappa n e;
        long = long;
        all_hex = digits;
        parts = made;
      }
]

-- A label has a path exactly when it is a nonempty text without a colon, a colon, and four lowercase
-- hex digits or more; the path is that text, two pairs of digits, and all the digits. The text is not
-- tested any further.
pub blob_path_for_iff :
    (kappa : Bytes) (path : List Bytes) → (blob_path_for kappa ≡ ok path) ↔ IsSharded kappa path
blob_path_for_iff kappa path = (path-IsSharded kappa path, IsSharded-path kappa path)

-- Two labels whose paths have the same parts are the same label.
pub blob_path_for_injective :
    (kappa kappa' : Bytes) (path : List Bytes)
    → blob_path_for kappa ≡ ok path
    → blob_path_for kappa' ≡ ok path
    → kappa ≡ kappa'
blob_path_for_injective kappa kappa' path h h' =
    let i = path-IsSharded kappa path h in
    let i' = path-IsSharded kappa' path h' in cc (i.text, i'.text, i.parts, i'.parts)
