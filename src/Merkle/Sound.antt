-- ===== src/Merkle/Sound.antt =====
-- An accepted proof is a proof of a leaf, or the inputs that were hashed hold a SHA-256 collision.
-- Every sibling of a proof is a digest of 32 bytes, as its Rust type `[u8; 32]` says.
use kappa_registry.Prelude.{ℕ, zero, suc, ◌≡◌, ◌≢◌, ◌⊎◌, inl, inr, refl, ap, arith, subst}
use kappa_registry.Prelude.{true, false, some, List, [], ◌∷◌, ◌++◌, map}
use kappa_registry.Prelude.{Bytes, bytes_eq→eq, Bytes-discrete, append-injective, length, All, In}
use kappa_registry.Prelude.{here, there, In-append_left, In-append_right}
use kappa_registry.Merkle.{ProofStep, hash_leaf, hash_node, next_level, root_loop, merkle_root}
use kappa_registry.Merkle.{join, walk, merkle_verify}

-- Two different inputs, one of each list, with one digest.
pub record Collision (hash : Bytes → Bytes) (xs ys : List Bytes) : Type 0 where
  pub left : Bytes
  pub right : Bytes
  pub differ : left ≢ right
  pub agree : hash left ≡ hash right
  pub left_in : In left xs
  pub right_in : In right ys

abbrev pub IsDigest : Bytes → Type 0
IsDigest d = length d ≡ 32

abbrev pub IsProof : List ProofStep → Type 0
IsProof = All (λ (step : ProofStep). IsDigest step.0)

abbrev leaf_input : Bytes → Bytes
leaf_input leaf = 0 ∷ leaf

abbrev node_input : Bytes → Bytes → Bytes
node_input l r = 1 ∷ (l ++ r)

abbrev join_input : Bytes → ProofStep → Bytes
join_input current (s, true) = node_input s current
join_input current (s, false) = node_input current s

-- What is hashed to make the level above.
next_inputs : List Bytes → List Bytes
next_inputs [] = []
next_inputs (x ∷ []) = node_input x x ∷ []
next_inputs (x ∷ y ∷ rest) = node_input x y ∷ next_inputs rest

module _ (sha256 : Bytes → Bytes) where
  level_inputs : ℕ → List Bytes → List Bytes
  level_inputs zero level = []
  level_inputs (suc fuel) level = next_inputs level ++ level_inputs fuel (next_level sha256 level)

  -- All that is hashed for the root of `leaves`.
  pub tree_inputs : List Bytes → List Bytes
  tree_inputs leaves =
      map leaf_input leaves ++ level_inputs (length leaves) (map (hash_leaf sha256) leaves)

  walk_inputs : Bytes → List ProofStep → List Bytes
  walk_inputs current [] = []
  walk_inputs current (step ∷ proof) =
      join_input current step ∷ walk_inputs (join sha256 current step) proof

  -- All that is hashed to check `proof` for `leaf`.
  pub verify_inputs : Bytes → List ProofStep → List Bytes
  verify_inputs leaf proof = leaf_input leaf ∷ walk_inputs (hash_leaf sha256 leaf) proof

  -- `x` is the digest of a tree over some of the leaves, made from inputs of the list.
  data Covers (leaves inputs : List Bytes) : Bytes → Type 0 where
    at_leaf :
        {x : Bytes} (leaf : Bytes)
        → In leaf leaves
        → In (leaf_input leaf) inputs
        → x ≡ hash_leaf sha256 leaf
        → Covers leaves inputs x
    at_node :
        {x : Bytes} (l r : Bytes)
        → Covers leaves inputs l
        → Covers leaves inputs r
        → In (node_input l r) inputs
        → x ≡ hash_node sha256 l r
        → Covers leaves inputs x

  module _ (leaves inputs : List Bytes) where
    Covers-next_level :
        (level : List Bytes)
        → ((i : Bytes) → In i (next_inputs level) → In i inputs)
        → All (Covers leaves inputs) level
        → All (Covers leaves inputs) (next_level sha256 level)
    unfolding next_level next_inputs
    Covers-next_level [] sub h = tt
    Covers-next_level (x ∷ []) sub (hx, h) = (at_node x x hx hx (sub _ here) refl, tt)
    Covers-next_level (x ∷ y ∷ rest) sub (hx, (hy, h)) =
        (at_node x y hx hy (sub _ here) refl, Covers-next_level rest (λ i m. sub i (there m)) h)

    Covers-root_loop :
        (fuel : ℕ) (level : List Bytes) (root : Bytes)
        → ((i : Bytes) → In i (level_inputs fuel level) → In i inputs)
        → All (Covers leaves inputs) level
        → root_loop sha256 fuel level ≡ some root
        → Covers leaves inputs root
    unfolding root_loop level_inputs
    Covers-root_loop fuel [] root sub h e = cc
    Covers-root_loop fuel (x ∷ []) root sub h e =
        let same : x ≡ root = cc in subst (Covers leaves inputs) same h.0
    Covers-root_loop zero (x ∷ y ∷ rest) root sub h e = cc
    Covers-root_loop (suc fuel) (x ∷ y ∷ rest) root sub h e =
        Covers-root_loop fuel (next_level sha256 (x ∷ y ∷ rest)) root
          (λ i m. sub i (In-append_right (next_inputs (x ∷ y ∷ rest)) m))
          (Covers-next_level (x ∷ y ∷ rest) (λ i m. sub i (In-append_left _ m)) h) e

    Covers-map :
        (ls : List Bytes)
        → ((leaf : Bytes) → In leaf ls → In leaf leaves)
        → ((i : Bytes) → In i (map leaf_input ls) → In i inputs)
        → All (Covers leaves inputs) (map (hash_leaf sha256) ls)
    Covers-map [] sub subi = tt
    Covers-map (l ∷ ls) sub subi = (
      at_leaf l (sub l here) (subi _ here) refl,
      Covers-map ls (λ leaf m. sub leaf (there m)) (λ i m. subi i (there m)),
    )

  Covers-merkle_root :
      (leaves : List Bytes) (root : Bytes)
      → merkle_root sha256 leaves ≡ some root
      → Covers leaves (tree_inputs leaves) root
  unfolding merkle_root tree_inputs
  Covers-merkle_root [] root e = cc
  Covers-merkle_root (l ∷ ls) root e =
      Covers-root_loop (l ∷ ls) _ (length (l ∷ ls)) (map (hash_leaf sha256) (l ∷ ls)) root
        (λ i m. In-append_right (map leaf_input (l ∷ ls)) m)
        (Covers-map (l ∷ ls) _ (l ∷ ls) (λ leaf m. m) (λ i m. In-append_left _ m)) e

module _ (sha256 : Bytes → Bytes) (sha256_length : (x : Bytes) → length (sha256 x) ≡ 32) where
  Covers-IsDigest :
      (leaves inputs : List Bytes) (x : Bytes) → Covers sha256 leaves inputs x → IsDigest x
  unfolding hash_leaf hash_node
  Covers-IsDigest leaves inputs x (at_leaf leaf m i e) =
      omega (arith, sha256_length (leaf_input leaf), ap length e)
  Covers-IsDigest leaves inputs x (at_node l r cl cr i e) =
      omega (arith, sha256_length (node_input l r), ap length e)

  node_collide :
      (xs ys : List Bytes) (l r a b : Bytes)
      → length l ≡ length a
      → In (node_input l r) xs
      → In (node_input a b) ys
      → hash_node sha256 l r ≡ hash_node sha256 a b
      → ((l ≡ a) × (r ≡ b)) ⊎ Collision sha256 xs ys
  unfolding hash_node
  node_collide xs ys l r a b n i j e = elim (Bytes-discrete (node_input l r) (node_input a b)) [
    | yes same ↦ inl (append-injective l r a b n (cc))
    | no differ ↦ inr (record {
      left = node_input l r;
      right = node_input a b;
      differ = differ;
      agree = e;
      left_in = i;
      right_in = j;
    })
  ]

  -- A covered digest of a node covers both children.
  Covers-split :
      (leaves inputs ys : List Bytes) (x a b : Bytes)
      → Covers sha256 leaves inputs x
      → x ≡ hash_node sha256 a b
      → IsDigest a
      → In (node_input a b) ys
      → (Covers sha256 leaves inputs a × Covers sha256 leaves inputs b) ⊎ Collision sha256 inputs ys
  unfolding hash_leaf hash_node
  Covers-split leaves inputs ys x a b (at_leaf leaf m i e) p d j = inr (record {
    left = leaf_input leaf;
    right = node_input a b;
    differ = λ same. ground arith;
    agree = cc;
    left_in = i;
    right_in = j;
  })
  Covers-split leaves inputs ys x a b (at_node l r cl cr i e) p d j =
      elim (node_collide inputs ys l r a b (omega (arith, Covers-IsDigest leaves inputs l cl)) i j
        (cc)) [
          | inl (same_l, same_r) ↦ inl (
            subst (Covers sha256 leaves inputs) same_l cl,
            subst (Covers sha256 leaves inputs) same_r cr,
          )
          | inr c ↦ inr c
        ]

  Covers-join :
      (leaves inputs ys : List Bytes) (current : Bytes) (step : ProofStep)
      → Covers sha256 leaves inputs (join sha256 current step)
      → IsDigest current
      → IsDigest step.0
      → In (join_input current step) ys
      → Covers sha256 leaves inputs current ⊎ Collision sha256 inputs ys
  unfolding join
  Covers-join leaves inputs ys current (s, true) c d ds j =
      elim (Covers-split leaves inputs ys _ s current c refl ds j) [
        | inl (_, right) ↦ inl right
        | inr k ↦ inr k
      ]
  Covers-join leaves inputs ys current (s, false) c d ds j =
      elim (Covers-split leaves inputs ys _ current s c refl d j) [
        | inl (left, _) ↦ inl left
        | inr k ↦ inr k
      ]

  join-IsDigest : (current : Bytes) (step : ProofStep) → IsDigest (join sha256 current step)
  unfolding join hash_node
  join-IsDigest current (s, true) = sha256_length _
  join-IsDigest current (s, false) = sha256_length _

  Covers-walk :
      (leaves inputs ys : List Bytes) (current : Bytes) (proof : List ProofStep)
      → IsDigest current
      → IsProof proof
      → ((i : Bytes) → In i (walk_inputs sha256 current proof) → In i ys)
      → Covers sha256 leaves inputs (walk sha256 current proof)
      → Covers sha256 leaves inputs current ⊎ Collision sha256 inputs ys
  unfolding walk walk_inputs
  Covers-walk leaves inputs ys current [] d h sub c = inl c
  Covers-walk leaves inputs ys current (step ∷ proof) d (ds, h) sub c =
      elim (Covers-walk leaves inputs ys (join sha256 current step) proof
        (join-IsDigest current step) h (λ i m. sub i (there m)) c) [
          | inl c' ↦ Covers-join leaves inputs ys current step c' d ds (sub _ here)
          | inr k ↦ inr k
        ]

  Covers-leaf :
      (leaves inputs ys : List Bytes) (leaf : Bytes) (x : Bytes)
      → Covers sha256 leaves inputs x
      → x ≡ hash_leaf sha256 leaf
      → In (leaf_input leaf) ys
      → In leaf leaves ⊎ Collision sha256 inputs ys
  unfolding hash_leaf hash_node
  Covers-leaf leaves inputs ys leaf x (at_leaf l m i e) p j = elim (Bytes-discrete l leaf) [
    | yes same ↦ inl (subst (λ t. In t leaves) same m)
    | no differ ↦ inr (record {
      left = leaf_input l;
      right = leaf_input leaf;
      differ = λ same. differ (cc);
      agree = cc;
      left_in = i;
      right_in = j;
    })
  ]
  Covers-leaf leaves inputs ys leaf x (at_node l r cl cr i e) p j = inr (record {
    left = node_input l r;
    right = leaf_input leaf;
    differ = λ same. ground arith;
    agree = cc;
    left_in = i;
    right_in = j;
  })

  -- If `merkle_verify` accepts a leaf and a proof of 32-byte siblings, of any length and with any
  -- directions, against the root of `leaves`, then the leaf is one of `leaves`, or SHA-256 gives one
  -- digest to two different inputs: one hashed for that root, the other hashed by this check.
  pub verify-In :
      (leaves : List Bytes) (root leaf : Bytes) (proof : List ProofStep)
      → merkle_root sha256 leaves ≡ some root
      → IsProof proof
      → merkle_verify sha256 root leaf proof ≡ true
      → In leaf leaves
        ⊎ Collision sha256 (tree_inputs sha256 leaves) (verify_inputs sha256 leaf proof)
  unfolding merkle_verify verify_inputs
  verify-In leaves root leaf proof made h accepted =
      let inputs = tree_inputs sha256 leaves in
      let ys = verify_inputs sha256 leaf proof in
      let first = hash_leaf sha256 leaf in
      let reached = bytes_eq→eq (walk sha256 first proof) root accepted in
      let top = Covers-merkle_root sha256 leaves root made in
      elim (Covers-walk leaves inputs ys first proof (unfold hash_leaf in sha256_length _) h
        (λ i m. there m) (rw reached top)) [
          | inl c ↦ Covers-leaf leaves inputs ys leaf first c refl here
          | inr k ↦ inr k
        ]
