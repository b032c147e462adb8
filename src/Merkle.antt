-- ===== src/Merkle.antt =====
-- crates/kappa-core/src/merkle.rs: the binary Merkle tree, its inclusion proofs and their check.
-- SHA-256 is the parameter `sha256` (the crate sha2). A leaf is a byte string, a digest the byte
-- string that `sha256` returns. The loops over levels take fuel; a level of n digests is followed
-- by one of (n + 1) / 2, so the number of leaves is enough.
pub mod Complete
pub mod Sound
pub mod Duplicate
mod Tests
use kappa_registry.Prelude.{ℕ, zero, suc, ◌+◌, ◌-◌, ◌/◌, ◌%◌, ◌==◌, ltb, leb, if◌then◌else◌}
use kappa_registry.Prelude.{Bool, true, false, Option, none, some, List, [], ◌∷◌, ◌++◌, map}
use kappa_registry.Prelude.{Bytes, bytes_eq, length, get_elem?}

abbrev pub leaf_prefix : ℕ
leaf_prefix = 0x00

abbrev pub node_prefix : ℕ
node_prefix = 0x01

-- A proof step: the sibling's digest, and whether it stands on the left.
abbrev pub ProofStep : Type 0
ProofStep = Bytes × Bool

pub sibling_index : ℕ → ℕ
sibling_index idx = if idx % 2 == 0 then idx + 1 else idx - 1

-- On the odd end of a level the sibling is the node itself.
pub sibling : List Bytes → ℕ → Option Bytes
unfolding sibling_index
sibling level idx =
    if ltb (sibling_index idx) (length level)
    then get_elem? level (sibling_index idx)
    else get_elem? level idx

-- `proof.push((sibling, is_left))`, where `level[...]` may panic.
pub push_step : List ProofStep → Option Bytes → Bool → Option (List ProofStep)
push_step proof none is_left = none
push_step proof (some s) is_left = some (proof ++ ((s, is_left) ∷ []))

module _ (sha256 : Bytes → Bytes) where
  pub hash_leaf : Bytes → Bytes
  hash_leaf leaf = sha256 (leaf_prefix ∷ leaf)

  pub hash_node : Bytes → Bytes → Bytes
  hash_node left right = sha256 (node_prefix ∷ (left ++ right))

  -- The inner loop `while i < level.len()`, which both functions run.
  pub next_level : List Bytes → List Bytes
  next_level [] = []
  next_level (x ∷ []) = hash_node x x ∷ []
  next_level (x ∷ y ∷ rest) = hash_node x y ∷ next_level rest

  -- `while level.len() > 1`, then `level[0]`. `none` is fuel that ran out, or the index panic.
  pub root_loop : ℕ → List Bytes → Option Bytes
  root_loop fuel [] = none
  root_loop fuel (x ∷ []) = some x
  root_loop zero (x ∷ y ∷ rest) = none
  root_loop (suc fuel) (x ∷ y ∷ rest) = root_loop fuel (next_level (x ∷ y ∷ rest))

  pub merkle_root : List Bytes → Option Bytes
  merkle_root [] = none
  merkle_root (leaf ∷ leaves) = root_loop (length (leaf ∷ leaves)) (map hash_leaf (leaf ∷ leaves))

  pub proof_loop : ℕ → List Bytes → ℕ → List ProofStep → Option (List ProofStep)
  proof_loop fuel [] idx proof = some proof
  proof_loop fuel (x ∷ []) idx proof = some proof
  proof_loop zero (x ∷ y ∷ rest) idx proof = none
  proof_loop (suc fuel) (x ∷ y ∷ rest) idx proof =
      elim (push_step proof (sibling (x ∷ y ∷ rest) idx) (idx % 2 == 1)) [
        | none ↦ none
        | some proof' ↦ proof_loop fuel (next_level (x ∷ y ∷ rest)) (idx / 2) proof'
      ]

  pub merkle_proof : List Bytes → ℕ → Option (List ProofStep)
  merkle_proof [] index = none
  merkle_proof (leaf ∷ leaves) index =
      if leb (length (leaf ∷ leaves)) index
      then none
      else proof_loop (length (leaf ∷ leaves)) (map hash_leaf (leaf ∷ leaves)) index []

  -- One step of the verifier's loop.
  pub join : Bytes → ProofStep → Bytes
  join current (s, true) = hash_node s current
  join current (s, false) = hash_node current s

  pub walk : Bytes → List ProofStep → Bytes
  walk current [] = current
  walk current (step ∷ proof) = walk (join current step) proof

  pub merkle_verify : Bytes → Bytes → List ProofStep → Bool
  merkle_verify root leaf proof = bytes_eq (walk (hash_leaf leaf) proof) root
