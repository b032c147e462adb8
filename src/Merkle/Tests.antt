-- ===== src/Merkle/Tests.antt =====
-- Runs of the Merkle tree over a toy digest of 32 numbers, and the theorems at these inputs.
use kappa_registry.Prelude.{ℕ, ◌+◌, ◌*◌, ◌%◌, ◌≡◌, ◌⊎◌, refl, arith, true, false, some}
use kappa_registry.Prelude.{List, [], ◌∷◌, Bytes, replicate, length-replicate, In}
use kappa_registry.Merkle.{ProofStep, hash_leaf, hash_node, next_level, root_loop, merkle_root}
use kappa_registry.Merkle.{sibling, push_step, proof_loop, merkle_proof, walk, join, merkle_verify}
use kappa_registry.Merkle.Complete.{verify-proof}
use kappa_registry.Merkle.Sound.{Collision, tree_inputs, verify_inputs, verify-In}
use kappa_registry.Merkle.Duplicate.{merkle_root-duplicate}

abbrev checksum : Bytes → ℕ
checksum [] = 7
checksum (b ∷ bs) = (b + 3 * checksum bs) % 251

abbrev toy : Bytes → Bytes
toy bs = replicate 32 (checksum bs)

abbrev leaves : List Bytes
leaves = (1 ∷ []) ∷ (2 ∷ 2 ∷ []) ∷ (3 ∷ []) ∷ []

abbrev top : Bytes
top = replicate 32 5

root_run : merkle_root toy leaves ≡ some top
unfolding merkle_root root_loop next_level hash_leaf hash_node
root_run = refl

abbrev path : List ProofStep
path = (replicate 32 66, true) ∷ (replicate 32 99, false) ∷ []

proof_run : merkle_proof toy leaves 1 ≡ some path
unfolding merkle_proof proof_loop sibling push_step next_level hash_leaf hash_node
proof_run = refl

accept_run : merkle_verify toy top (2 ∷ 2 ∷ []) path ≡ true
unfolding merkle_verify walk join hash_leaf hash_node
accept_run = refl

reject_run : merkle_verify toy top (2 ∷ 3 ∷ []) path ≡ false
unfolding merkle_verify walk join hash_leaf hash_node
reject_run = refl

verify-proof_example :
    (proof : List ProofStep) × (root : Bytes) × (merkle_proof toy leaves 1 ≡ some proof)
    × (merkle_root toy leaves ≡ some root)
    × (merkle_verify toy root (2 ∷ 2 ∷ []) proof ≡ true)
verify-proof_example = verify-proof toy leaves 1 (2 ∷ 2 ∷ []) refl

verify-In_example :
    In (2 ∷ 2 ∷ []) leaves
    ⊎ Collision toy (tree_inputs toy leaves) (verify_inputs toy (2 ∷ 2 ∷ []) path)
verify-In_example =
    verify-In toy (λ x. length-replicate 32 (checksum x)) leaves top (2 ∷ 2 ∷ []) path root_run
      (omega arith) accept_run

merkle_root-duplicate_example :
    merkle_root toy ((1 ∷ []) ∷ (2 ∷ []) ∷ (3 ∷ []) ∷ [])
    ≡ merkle_root toy ((1 ∷ []) ∷ (2 ∷ []) ∷ (3 ∷ []) ∷ (3 ∷ []) ∷ [])
merkle_root-duplicate_example =
    merkle_root-duplicate toy (1 ∷ []) (2 ∷ []) [] (3 ∷ []) (omega arith)
