-- ===== src/Merkle/Duplicate.antt =====
-- An odd level pairs its last node with itself, so two lists of leaves can have one root.
use kappa_registry.Prelude.{ℕ, zero, suc, ◌+◌, ◌%◌, ◌≤◌, ◌≡◌, refl, arith, ap, ◌∙◌}
use kappa_registry.Prelude.{List, [], ◌∷◌, ◌++◌, map, Bytes, length, length-append, length-map}
use mathlib.Core.List.{map-append}
use kappa_registry.Merkle.{hash_leaf, hash_node, next_level, root_loop, merkle_root}
use kappa_registry.Merkle.Complete.{length-next_level}

module _ (sha256 : Bytes → Bytes) where
  next_level-duplicate :
      (level : List Bytes) (x : Bytes)
      → length level % 2 ≡ 0
      → next_level sha256 (level ++ (x ∷ [])) ≡ next_level sha256 (level ++ (x ∷ x ∷ []))
  unfolding next_level
  next_level-duplicate [] x h = refl
  next_level-duplicate (a ∷ []) x h = absurd (omega arith)
  next_level-duplicate (a ∷ b ∷ rest) x h =
      ap (λ t. hash_node sha256 a b ∷ t) (next_level-duplicate rest x (omega arith))

  -- Fuel beyond the length of the level changes nothing.
  root_loop_fuel :
      (f g : ℕ) (level : List Bytes)
      → length level ≤ f
      → length level ≤ g
      → root_loop sha256 f level ≡ root_loop sha256 g level
  unfolding root_loop
  root_loop_fuel f g [] hf hg = refl
  root_loop_fuel f g (x ∷ []) hf hg = refl
  root_loop_fuel zero g (x ∷ y ∷ rest) hf hg = absurd (omega arith)
  root_loop_fuel (suc f) zero (x ∷ y ∷ rest) hf hg = absurd (omega arith)
  root_loop_fuel (suc f) (suc g) (x ∷ y ∷ rest) hf hg =
      let n = length-next_level sha256 (x ∷ y ∷ rest) in
      root_loop_fuel f g (next_level sha256 (x ∷ y ∷ rest)) (omega (arith, n)) (omega (arith, n))

  root_loop-duplicate :
      (f g : ℕ) (a b : Bytes) (rest : List Bytes) (x : Bytes)
      → length (a ∷ b ∷ rest) % 2 ≡ 0
      → length rest + 3 ≤ f
      → length rest + 4 ≤ g
      → root_loop sha256 f (a ∷ b ∷ (rest ++ (x ∷ [])))
        ≡ root_loop sha256 g (a ∷ b ∷ (rest ++ (x ∷ x ∷ [])))
  unfolding root_loop
  root_loop-duplicate zero g a b rest x h hf hg = absurd (omega arith)
  root_loop-duplicate (suc f) zero a b rest x h hf hg = absurd (omega arith)
  root_loop-duplicate (suc f) (suc g) a b rest x h hf hg =
      let n = length-next_level sha256 (a ∷ b ∷ (rest ++ (x ∷ []))) in
      let m = length-append rest (x ∷ []) in
      root_loop_fuel f g (next_level sha256 (a ∷ b ∷ (rest ++ (x ∷ [])))) (omega (arith, n, m))
        (omega (arith, n, m))
      ∙ ap (root_loop sha256 g) (next_level-duplicate (a ∷ b ∷ rest) x h)

  -- A list of an odd number of leaves, three or more, has the root of the list that repeats its
  -- last leaf once more: the root does not tell how many leaves there are.
  pub merkle_root-duplicate :
      (a b : Bytes) (rest : List Bytes) (x : Bytes)
      → length (a ∷ b ∷ rest) % 2 ≡ 0
      → merkle_root sha256 (a ∷ b ∷ (rest ++ (x ∷ [])))
        ≡ merkle_root sha256 (a ∷ b ∷ (rest ++ (x ∷ x ∷ [])))
  unfolding merkle_root
  merkle_root-duplicate a b rest x h =
      let leaf = hash_leaf sha256 in
      let n = length-map leaf rest in
      let m1 = length-append rest (x ∷ []) in
      let m2 = length-append rest (x ∷ x ∷ []) in
      rw (map-append leaf rest (x ∷ []), map-append leaf rest (x ∷ x ∷ []))
        (root_loop-duplicate _ _ (leaf a) (leaf b) (map leaf rest) (leaf x) (omega (arith, n))
          (omega (arith, n, m1)) (omega (arith, n, m2)))
