-- ===== src/Bundle.antt =====
-- crates/kappa-core/src/bundle.rs: the bundles that objects are moved in. `encode` is modelled where it
-- makes full entries only. A `usize` is 64 bits and a sum of two wraps; a slice whose end is before its
-- start panics. The digests, and the test of UTF-8 of the standard library, are parameters.
pub mod Fields
pub mod Verified
pub mod RoundTrip
mod Tests
use kappa_registry.Prelude.{
  ℕ, zero, suc, ◌+◌, ◌-◌, ◌*◌, ◌/◌, ◌%◌, ◌^◌, ◌==◌, ltb, Bool, true, false, not, ◌||◌,
  if◌then◌else◌,
}
use kappa_registry.Prelude.{
  Option, none, some, List, [], ◌∷◌, ◌++◌, Bytes, bytes_eq, codes, length, take, drop,
}
use kappa_registry.Dict.{Dict, get, insert, bytes_key}
use kappa_registry.Kappa.Label.{LabelError, Result as LabelResult}
use kappa_registry.Kappa.Label.{ok as label_ok, err as label_err}
use kappa_registry.Kappa.Compute.{Digests, verify_kappa}
use kappa_registry.Delta.Varint.{DeltaError, capacity_overflow}
use kappa_registry.Delta.Varint.{ok as delta_ok, err as delta_err}
use kappa_registry.Delta.Apply.{apply_delta}

pub data BundleError : Type 0 where
  truncated : Bytes → BundleError
  trailer_mismatch : BundleError
  kappa_mismatch : Bytes → BundleError
  delta_in_no_delta_bundle decode_limit_exceeded : BundleError
  unsupported_entry_type : ℕ → BundleError
  unresolvable_base : Bytes → BundleError
  delta : DeltaError → BundleError
  label : LabelError → BundleError
  invalid : Bytes → BundleError

pub data Result {ℓ} (A : Type ℓ) : Type ℓ where
  ok : A → Result A
  err : BundleError → Result A
  panic : Result A

infixl 5 ◌>>=◌
abbrev pub ◌>>=◌ {ℓ κ} : {A : Type ℓ} {B : Type κ} → Result A → (A → Result B) → Result B
ok a >>= f = f a
err e >>= f = err e
panic >>= f = panic

abbrev pub magic : Bytes
magic = codes "KBND"

abbrev pub version : ℕ
version = 1

abbrev pub entry_type_full : ℕ
entry_type_full = 1

abbrev pub entry_type_delta : ℕ
entry_type_delta = 2

abbrev pub decode_max_bytes : ℕ
decode_max_bytes = 268435456

pub record BundleEntry : Type 0 where
  pub kappa : Bytes
  pub content : Bytes

-- `n.to_be_bytes()` of an integer of `width` bytes.
unfoldable pub to_be_bytes : ℕ → ℕ → Bytes
to_be_bytes zero n = []
to_be_bytes (suc width) n = to_be_bytes width (n / 256) ++ ((n % 256) ∷ [])

-- `from_be_bytes`, from the value of the bytes before.
unfoldable pub from_be_bytes : ℕ → Bytes → ℕ
from_be_bytes n [] = n
from_be_bytes n (b ∷ bytes) = from_be_bytes (n * 256 + b) bytes

-- A length and the bytes, as the entries hold a label and a content.
unfoldable pub field : ℕ → Bytes → Bytes
field width bytes = to_be_bytes width (length bytes) ++ bytes

unfoldable pub full_entry : BundleEntry → Bytes
full_entry e = entry_type_full ∷ (field 2 e.kappa ++ field 8 e.content)

unfoldable pub full_entries : List BundleEntry → Bytes
full_entries [] = []
full_entries (e ∷ objects) = full_entry e ++ full_entries objects

unfoldable pub payload_of : List BundleEntry → Bytes
payload_of objects =
    magic ++ (version ∷ 0 ∷ (to_be_bytes 4 (length objects) ++ full_entries objects))

unfoldable pub encode_full_only : Digests → List BundleEntry → Bytes
encode_full_only d objects = payload_of objects ++ d.sha256_digest (payload_of objects)

-- `p[start..end]`, where the end is within `p`.
unfoldable pub slice : Bytes → ℕ → ℕ → Result Bytes
slice p start end = if ltb end start then panic else ok (take (end - start) (drop start p))

-- The bytes after a length of eight bytes; the sum of the position and the length wraps.
unfoldable pub take_content : Bytes → ℕ → ℕ → Result (Bytes × ℕ)
take_content p pos cl =
    let end = (pos + cl) % 2 ^ 64 in
    if ltb (length p) end
    then err (truncated (codes "content"))
    else slice p pos end >>= λ c. ok (c, end)

unfoldable pub parse_content_field : Bytes → ℕ → Result (Bytes × ℕ)
parse_content_field p pos =
    if ltb (length p) (pos + 8)
    then err (truncated (codes "content length"))
    else take_content p (pos + 8) (from_be_bytes 0 (take 8 (drop pos p)))

-- `verify_entry_kappa`, at the result of `verify_kappa`; `none` is its panic.
unfoldable pub check_match : Bytes → Option (LabelResult Bool) → Result (Unit {0})
check_match kappa none = panic
check_match kappa (some (label_err e)) = err (label e)
check_match kappa (some (label_ok false)) = err (kappa_mismatch kappa)
check_match kappa (some (label_ok true)) = ok tt

unfoldable pub apply : Bytes → Bytes → Result Bytes
apply base delta_bytes = elim (apply_delta base delta_bytes) [
  | delta_err capacity_overflow ↦ panic
  | delta_err e ↦ err (delta e)
  | delta_ok content ↦ ok content
]

-- `total_bytes.saturating_add(..)`
unfoldable pub saturating_add : ℕ → ℕ → ℕ
saturating_add a b = if ltb (2 ^ 64 - 1) (a + b) then 2 ^ 64 - 1 else a + b

unfoldable pub verify_entry_kappa : Digests → Bytes → Bytes → Result (Unit {0})
verify_entry_kappa d kappa content = check_match kappa (verify_kappa d kappa content)

-- The parsers of an entry.
module _ (utf8 : Bytes → Bool) where
  -- A label, and the position after it.
  unfoldable pub parse_kappa_field : Bytes → ℕ → Result (Bytes × ℕ)
  parse_kappa_field p pos =
      if ltb (length p) (pos + 2)
      then err (truncated (codes "kappa length"))
      else (let kl = from_be_bytes 0 (take 2 (drop pos p)) in
          let k = take kl (drop (pos + 2) p) in
          if ltb (length p) (pos + 2 + kl)
          then err (truncated (codes "kappa"))
          else if utf8 k
          then ok (k, pos + 2 + kl)
          else err (invalid (codes "kappa not UTF-8")))

  unfoldable pub parse_full_entry : Bytes → ℕ → Result (BundleEntry × ℕ)
  parse_full_entry p pos = do
    (kappa, pos1) ← parse_kappa_field p pos
    (content, pos2) ← parse_content_field p pos1
    ok (record { kappa = kappa; content = content }, pos2)

  unfoldable pub parse_delta_entry : Bytes → ℕ → Result (Bytes × Bytes × Bytes × ℕ)
  parse_delta_entry p pos = do
    (kappa, pos1) ← parse_kappa_field p pos
    (base_kappa, pos2) ← parse_kappa_field p pos1
    (delta_bytes, pos3) ← parse_content_field p pos2
    ok (kappa, base_kappa, delta_bytes, pos3)

-- The decoder.
module _ (d : Digests) (utf8 : Bytes → Bool) (resolve_base : Option (Bytes → Option Bytes)) where
  -- `index.get(..)`, or else what `resolve_base` gives.
  unfoldable pub find_base : Dict Bytes Bytes → Bytes → Option Bytes
  find_base index base_kappa = elim (get index base_kappa) [
    | some base ↦ some base
    | none ↦ elim resolve_base [ none ↦ none | some f ↦ f base_kappa ]
  ]

  unfoldable pub resolve : Dict Bytes Bytes → Bytes → Result Bytes
  resolve index base_kappa = elim (find_base index base_kappa) [
    | none ↦ err (unresolvable_base base_kappa)
    | some base ↦ ok base
  ]

  -- The limit and the check of an entry: the total after it.
  unfoldable pub admit : ℕ → BundleEntry → Result ℕ
  admit total e =
      let sum = saturating_add total (length e.content) in
      if ltb decode_max_bytes sum
      then err decode_limit_exceeded
      else verify_entry_kappa d e.kappa e.content >>= λ u. ok sum

  -- The entry at a position, of either type, and the position after it.
  unfoldable pub read_delta : ℕ → Dict Bytes Bytes → Bytes → ℕ → Result (BundleEntry × ℕ)
  read_delta flags index p pos = if flags % 2 == 0 then err delta_in_no_delta_bundle else (do
    (kappa, base_kappa, delta_bytes, pos') ← parse_delta_entry utf8 p pos
    base ← resolve index base_kappa
    content ← apply base delta_bytes
    ok (record { kappa = kappa; content = content }, pos'))

  unfoldable pub read_typed : ℕ → Dict Bytes Bytes → Bytes → ℕ → ℕ → Result (BundleEntry × ℕ)
  read_typed flags index p pos t =
      if t == entry_type_full
      then parse_full_entry utf8 p (pos + 1)
      else if t == entry_type_delta
      then read_delta flags index p (pos + 1)
      else err (unsupported_entry_type t)

  unfoldable pub read_entry : ℕ → Dict Bytes Bytes → Bytes → ℕ → Result (BundleEntry × ℕ)
  read_entry flags index p pos = elim (drop pos p) [
    | [] ↦ err (truncated (codes "entry"))
    | t ∷ rest ↦ read_typed flags index p pos t
  ]

  -- `for _ in 0..entry_count`
  unfoldable pub decode_entries :
      ℕ → ℕ → Dict Bytes Bytes → ℕ → Bytes → ℕ → Result (List BundleEntry)
  decode_entries zero flags index total p pos = ok []
  decode_entries (suc count) flags index total p pos = do
    (e, pos') ← read_entry flags index p pos
    total' ← admit total e
    entries ← decode_entries count flags (insert index e.kappa e.content) total' p pos'
    ok (e ∷ entries)

  -- What follows the check of the trailer.
  unfoldable pub decode_payload : Bytes → Result (List BundleEntry)
  decode_payload p =
      if not (bytes_eq (take 4 p) magic)
      then err (invalid (codes "bad bundle magic"))
      else if not (from_be_bytes 0 (take 1 (drop 4 p)) == version)
      then err (invalid (codes "unsupported bundle version"))
      else decode_entries (from_be_bytes 0 (take 4 (drop 6 p)))
          (from_be_bytes 0 (take 1 (drop 5 p))) [] 0 p 10

  unfoldable pub decode : Bytes → Result (List BundleEntry)
  decode bytes =
      if ltb (length bytes) 42
      then err (truncated (codes "header+trailer"))
      else if not (
          bytes_eq (d.sha256_digest (take (length bytes - 32) bytes))
            (drop (length bytes - 32) bytes))
      then err trailer_mismatch
      else decode_payload (take (length bytes - 32) bytes)
