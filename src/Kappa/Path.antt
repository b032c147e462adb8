-- ===== src/Kappa/Path.antt =====
-- crates/kappa-core/src/kappa/path.rs: where a blob stands on disk. A path is the list of the parts
-- that are joined to the root, in order.
pub mod Layout
mod Tests
use kappa_registry.Prelude.{ℕ, zero, suc, ◌+◌, ◌-◌, ◌==◌, ltb, Bool, true, false, ◌||◌}
use kappa_registry.Prelude.{
  if◌then◌else◌, Option, none, some, List, [], ◌∷◌, Bytes, length, take, drop,
}
use kappa_registry.Kappa.Label.{is_hex, position_colon}
use kappa_registry.Store.Types.{Result, ok, err, rejected}

unfoldable pub split_kappa : Bytes → Option (Bytes × Bytes)
split_kappa kappa = elim (position_colon kappa) [
  | none ↦ none
  | some colon ↦
      if (colon == 0) || (colon == length kappa - 1)
      then none
      else some (take colon kappa, drop (colon + 1) kappa)
]

-- `for &b in hex.as_bytes()`
unfoldable pub only_hex : Bytes → Bool
only_hex [] = true
only_hex (b ∷ bs) = let rest = only_hex bs in if is_hex b then rest else false

unfoldable pub shard_path : Bytes × Bytes → Result (List Bytes)
shard_path (algo, hex) =
    if ltb (length hex) 4
    then err rejected
    else if only_hex hex
    then ok (algo ∷ take 2 hex ∷ take 2 (drop 2 hex) ∷ hex ∷ [])
    else err rejected

unfoldable pub blob_path_for : Bytes → Result (List Bytes)
blob_path_for kappa = elim (split_kappa kappa) [
  | none ↦ err rejected
  | some parts ↦ shard_path parts
]
