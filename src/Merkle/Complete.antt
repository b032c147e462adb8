-- ===== src/Merkle/Complete.antt =====
-- The proofs that `merkle_proof` makes are accepted against the root that `merkle_root` makes.
use kappa_registry.Prelude.{
  ℕ, zero, suc, ◌+◌, ◌/◌, ◌%◌, ◌≤◌, ◌≡◌, refl, ◌∙◌, ◌↔◌, inl, inr, lt-cases, get_elem?_total, ◌==◌,
  arith,
}
use kappa_registry.Prelude.{true, none, some, List, [], ◌∷◌, ◌++◌, map}
use kappa_registry.Prelude.{
  Bytes, bytes_eq_refl, length, get_elem?, append_assoc, append-nil, ap, sym,
}
use kappa_registry.Prelude.{get_elem?-map, get_elem?-lt, length-map}
use kappa_registry.Merkle.{ProofStep, hash_leaf, next_level, root_loop, merkle_root}
use kappa_registry.Merkle.{sibling_index, sibling, push_step, proof_loop, merkle_proof}
use kappa_registry.Merkle.{join, walk, merkle_verify}

sibling_index-two : (i : ℕ) → sibling_index (suc (suc i)) ≡ suc (suc (sibling_index i))
unfolding sibling_index
sibling_index-two i = ground arith

sibling-two :
    (x y : Bytes) (rest : List Bytes) (i : ℕ)
    → sibling (x ∷ y ∷ rest) (suc (suc i)) ≡ sibling rest i
unfolding sibling
sibling-two x y rest i = ground (arith, sibling_index-two i)

module _ (sha256 : Bytes → Bytes) where
  pub length-next_level :
      (level : List Bytes) → length (next_level sha256 level) ≡ (length level + 1) / 2
  unfolding next_level
  length-next_level [] = omega arith
  length-next_level (x ∷ []) = omega arith
  length-next_level (x ∷ y ∷ rest) = omega (arith, length-next_level rest)

  next_level-two :
      (a b : Bytes) (rest : List Bytes) (i : ℕ)
      → get_elem? (next_level sha256 (a ∷ b ∷ rest)) (suc (suc i) / 2)
        ≡ get_elem? (next_level sha256 rest) (i / 2)
  unfolding next_level
  next_level-two a b rest i = let e : suc (suc i) / 2 ≡ suc (i / 2) = omega arith in rw e

  parity_two : (i : ℕ) → (suc (suc i) % 2 == 1) ≡ (i % 2 == 1)
  parity_two i = let e : suc (suc i) % 2 ≡ i % 2 = omega arith in rw e

  level_step :
      (level : List Bytes) (i : ℕ) (x : Bytes)
      → get_elem? level i ≡ some x
      → (s : Bytes) × (sibling level i ≡ some s)
        × (get_elem? (next_level sha256 level) (i / 2) ≡ some (join sha256 x (s, i % 2 == 1)))
  unfolding next_level join sibling
  level_step [] i x h = cc
  level_step (a ∷ []) zero x h = (a, refl, ground arith)
  level_step (a ∷ []) (suc i) x h = cc
  level_step (a ∷ b ∷ rest) zero x h = (b, ground arith, ground arith)
  level_step (a ∷ b ∷ rest) (suc zero) x h = (a, ground arith, ground arith)
  level_step (a ∷ b ∷ rest) (suc (suc i)) x h =
      let (s, e, f) = level_step rest i x h in
      (s, sibling-two a b rest i ∙ e, next_level-two a b rest i ∙ rw parity_two f)

  proof_loop_step :
      (fuel : ℕ) (a b : Bytes) (rest : List Bytes) (i : ℕ) (done : List ProofStep) (s : Bytes)
      → sibling (a ∷ b ∷ rest) i ≡ some s
      → proof_loop sha256 (suc fuel) (a ∷ b ∷ rest) i done
        ≡ proof_loop sha256 fuel
            (next_level sha256 (a ∷ b ∷ rest))
            (i / 2)
            (done ++ ((s, i % 2 == 1) ∷ []))
  unfolding proof_loop push_step
  proof_loop_step fuel a b rest i done s e = rw (e, proof_loop)

  abbrev Climbs : ℕ → List Bytes → ℕ → Bytes → List ProofStep → Type 0
  Climbs fuel level i x done =
      (proof : List ProofStep) × (proof_loop sha256 fuel level i done ≡ some (done ++ proof))
      × (root_loop sha256 fuel level ≡ some (walk sha256 x proof))

  climb :
      (fuel : ℕ) (level : List Bytes) (i : ℕ) (x : Bytes) (done : List ProofStep)
      → get_elem? level i ≡ some x
      → length level ≤ fuel
      → Climbs fuel level i x done
  unfolding proof_loop root_loop walk
  climb fuel [] i x done h f = cc
  climb fuel (a ∷ []) zero x done h f = ([], ap some (sym (append-nil done)), h)
  climb fuel (a ∷ []) (suc i) x done h f = cc
  climb zero (a ∷ b ∷ rest) i x done h f = absurd (omega arith)
  climb (suc fuel) (a ∷ b ∷ rest) i x done h f =
      let (s, e, g) = level_step (a ∷ b ∷ rest) i x h in
      let step : ProofStep = (s, i % 2 == 1) in
      let (proof, p, r) =
        climb fuel (next_level sha256 (a ∷ b ∷ rest)) (i / 2) (join sha256 x step)
          (done ++ (step ∷ [])) g (omega (arith, length-next_level (a ∷ b ∷ rest))) in
      (
        step ∷ proof,
        proof_loop_step fuel a b rest i done s e
            ∙ p
            ∙ ap some (append_assoc done (step ∷ []) proof),
        r,
      )

  -- For every leaf, `merkle_proof` returns a proof and `merkle_root` a root, and `merkle_verify`
  -- accepts the leaf with that proof against that root.
  pub verify-proof :
      (leaves : List Bytes) (index : ℕ) (leaf : Bytes)
      → get_elem? leaves index ≡ some leaf
      → (proof : List ProofStep) × (root : Bytes) × (merkle_proof sha256 leaves index ≡ some proof)
        × (merkle_root sha256 leaves ≡ some root)
        × (merkle_verify sha256 root leaf proof ≡ true)
  unfolding merkle_proof merkle_root merkle_verify
  verify-proof [] index leaf h = cc
  verify-proof (l ∷ ls) index leaf h =
      let first : Bytes = hash_leaf sha256 leaf in
      let (proof, p, r) =
        climb (length (l ∷ ls)) (map (hash_leaf sha256) (l ∷ ls)) index first []
          (get_elem?-map (hash_leaf sha256) (l ∷ ls) index leaf h)
          (omega (arith, length-map {0, 0} (hash_leaf sha256) (l ∷ ls))) in
      (
        proof,
        walk sha256 first proof,
        ground (arith, get_elem?-lt (l ∷ ls) index leaf h),
        r,
        bytes_eq_refl (walk sha256 first proof),
      )

  none_outside :
      (leaves : List Bytes) (index : ℕ)
      → length leaves ≤ index
      → merkle_proof sha256 leaves index ≡ none
  unfolding merkle_proof
  none_outside [] index h = refl
  none_outside (l ∷ ls) index h = ground arith

  -- `merkle_proof` refuses exactly the indices that are out of bounds.
  pub merkle_proof-eq-none :
      (leaves : List Bytes) (index : ℕ)
      → (merkle_proof sha256 leaves index ≡ none) ↔ (length leaves ≤ index)
  merkle_proof-eq-none leaves index = (refused, none_outside leaves index)
    where
      refused : merkle_proof sha256 leaves index ≡ none → length leaves ≤ index
      refused e = elim (lt-cases index (length leaves)) [
        | inl inside ↦
            let (leaf, g) = get_elem?_total leaves index inside in
            let (proof, root, p, r, v) = verify-proof leaves index leaf g in cc
        | inr outside ↦ outside
      ]
