-- ===== src/Delta/Compute/Offsets.antt =====
-- The index holds exactly the offsets of the base at which a block of a fingerprint starts.
use kappa_registry.Prelude.{ℕ, zero, suc, ◌+◌, ◌-◌, ◌≤◌, ◌<◌, ◌≡◌, ◌↔◌, refl, arith, ap, sym, ◌∙◌}
use kappa_registry.Prelude.{◌==◌, leb, if◌then◌else◌, true, [], ◌∷◌, ◌++◌}
use kappa_registry.Prelude.{Bytes, length, In, here, there, In-append, In-append_left}
use kappa_registry.Prelude.{In-append_right, Bool-cases, inl, inr, subst, lt-cases, ==_iff}
use kappa_registry.Delta.Apply.{slice}
use kappa_registry.Delta.Compute.{Index, lookup, push, fnv1a, build_loop, build_index}

pub lookup-push :
    (fp k i : ℕ) (index : Index)
    → lookup fp (push k i index)
      ≡ (if k == fp then lookup fp index ++ (i ∷ []) else lookup fp index)
unfolding lookup push
lookup-push fp k i [] = ground arith
lookup-push fp k i ((j, offsets) ∷ index) = ground (arith, lookup-push fp k i index)

-- `j` is an offset below `n` whose block has the fingerprint.
abbrev Starts : Bytes → ℕ → ℕ → ℕ → Type 0
Starts base fp n j = (j < n) × (fnv1a (slice base j 16) ≡ fp)

-- The rounds done and the rounds to do.
record IsBuilt (base : Bytes) (n : ℕ) (index : Index) : Type 0 where
  sound : (fp j : ℕ) → In j (lookup fp index) → Starts base fp n j
  complete : (fp j : ℕ) → Starts base fp n j → In j (lookup fp index)

In-lookup_empty : (fp j : ℕ) → ¬ In j (lookup fp [])
unfolding lookup
In-lookup_empty fp j m = elim m [ ]

In-one : {j n : ℕ} → In j (n ∷ []) → j ≡ n
In-one here = refl
In-one (there m) = elim m [ ]

module _ (base : Bytes) where
  push_sound :
      (n : ℕ) (index : Index)
      → IsBuilt base n index
      → (fp j : ℕ) → In j (lookup fp (push (fnv1a (slice base n 16)) n index))
      → Starts base fp (n + 1) j
  push_sound n index b fp j m =
      let k = fnv1a (slice base n 16) in
      elim (Bool-cases (k == fp)) [
        | inl hit ↦ elim (In-append (lookup fp index) (rw (lookup-push fp k n index, hit) at m)) [
          | inl old ↦ let (lt, e) = b.sound fp j old in (omega arith, e)
          | inr new ↦
              let e = In-one new in
              (omega arith, ap (λ t. fnv1a (slice base t 16)) e ∙ (==_iff k fp).0 hit)
        ]
        | inr miss ↦
            let (lt, e) = b.sound fp j (rw (lookup-push fp k n index, miss) at m) in
            (omega arith, e)
      ]

  push_complete :
      (n : ℕ) (index : Index)
      → IsBuilt base n index
      → (fp j : ℕ) → Starts base fp (n + 1) j
      → In j (lookup fp (push (fnv1a (slice base n 16)) n index))
  push_complete n index b fp j (lt, e) =
      let k = fnv1a (slice base n 16) in
      elim (lt-cases j n) [
        | inl before ↦
            let old = b.complete fp j (before, e) in
            elim (Bool-cases (k == fp)) [
              | inl hit ↦ rw (lookup-push fp k n index, hit) (In-append_left (n ∷ []) old)
              | inr miss ↦ rw (lookup-push fp k n index, miss) old
            ]
        | inr after ↦
            let same : j ≡ n = omega arith in
            let hit : (k == fp) ≡ true =
              (==_iff k fp).1 (ap (λ t. fnv1a (slice base t 16)) (sym same) ∙ e) in
            rw (lookup-push fp k n index, hit)
              (In-append_right (lookup fp index) (subst (λ t. In j (t ∷ [])) same here))
      ]

  push-IsBuilt :
      (n : ℕ) (index : Index)
      → IsBuilt base n index
      → IsBuilt base (n + 1) (push (fnv1a (slice base n 16)) n index)
  push-IsBuilt n index b = record {
    sound = push_sound n index b;
    complete = push_complete n index b;
  }

  build_loop-IsBuilt :
      (rounds n : ℕ) (index : Index)
      → IsBuilt base n index
      → IsBuilt base (n + rounds) (build_loop rounds n base index)
  unfolding build_loop
  build_loop-IsBuilt zero n index b = let z : n + 0 ≡ n = omega arith in rw z b
  build_loop-IsBuilt (suc rounds) n index b =
      let z : n + suc rounds ≡ n + 1 + rounds = omega arith in
      rw z (build_loop-IsBuilt rounds (n + 1) _ (push-IsBuilt n index b))

  empty-IsBuilt : IsBuilt base 0 []
  unfolding lookup
  empty-IsBuilt = record {
    sound = λ fp j m. absurd (In-lookup_empty fp j m);
    complete = λ fp j h. absurd (omega arith);
  }

  -- The offsets that the index of `base` holds for a fingerprint are exactly those at which a whole
  -- block of the base with that fingerprint starts; so no slice of a candidate leaves the base.
  pub In-build_index :
      (fp j : ℕ)
      → In j (lookup fp (build_index base))
        ↔ ((j + 16 ≤ length base) × (fnv1a (slice base j 16) ≡ fp))
  unfolding build_index
  In-build_index fp j = elim (Bool-cases (leb 16 (length base))) [
    | inl long ↦
        let b = build_loop-IsBuilt (length base - 16 + 1) 0 [] empty-IsBuilt in
        rw long (
          (λ m. let (lt, e) = b.sound fp j m in (ground arith, e)),
          (λ (fits, e). b.complete fp j (ground arith, e)),
        )
    | inr short ↦
        rw short ((λ m. absurd (In-lookup_empty fp j m)), (λ (fits, e). absurd (ground arith)))
  ]
