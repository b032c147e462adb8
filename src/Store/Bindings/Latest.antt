-- ===== src/Store/Bindings/Latest.antt =====
-- The bindings of every identifier stand latest first, one for each target.
use kappa_registry.Prelude.{ℕ, ◌≤◌, leb, ◌≢◌, arith, Bool-cases, inl, inr, Option-cases}
use kappa_registry.Prelude.{List, [], ◌∷◌, Bytes, bytes_eq, bytes_eq_iff, All, subst, sym}
use kappa_registry.Dict.{get, bytes_key, AllValues, AllValues-get, AllValues-insert}
use kappa_registry.Dict.{AllValues-remove}
use kappa_registry.Store.Bindings.{IdentityBinding, Bindings, bindings_of, same_metadata, place}
use kappa_registry.Store.Bindings.{insert_sorted, sort_latest, without_target}
use kappa_registry.Store.Bindings.{identity_binding_put, identity_binding_delete, keep_nonempty}

abbrev pub Descending : List IdentityBinding → Type 0
Descending [] = Unit {0}
Descending (b ∷ bs) =
    All (λ (x : IdentityBinding). x.verified_at_ms ≤ b.verified_at_ms) bs × Descending bs

abbrev pub Distinct : List IdentityBinding → Type 0
Distinct [] = Unit {0}
Distinct (b ∷ bs) = All (λ (x : IdentityBinding). x.target ≢ b.target) bs × Distinct bs

-- Latest first, and no target twice.
abbrev pub IsLatest : List IdentityBinding → Type 0
IsLatest bs = Descending bs × Distinct bs

module _ (P : IdentityBinding → Type 0) where
  All-insert_sorted :
      (b : IdentityBinding) (xs : List IdentityBinding)
      → P b
      → All P xs
      → All P (insert_sorted b xs)
  unfolding insert_sorted
  All-insert_sorted b [] p h = (p, tt)
  All-insert_sorted b (x ∷ xs) p (q, qs) =
      elim (Bool-cases (leb x.verified_at_ms b.verified_at_ms)) [
        | inl e ↦ rw e (p, (q, qs))
        | inr e ↦ rw e (q, All-insert_sorted b xs p qs)
      ]

  All-sort_latest : (xs : List IdentityBinding) → All P xs → All P (sort_latest xs)
  unfolding sort_latest
  All-sort_latest [] h = tt
  All-sort_latest (x ∷ xs) (q, qs) = All-insert_sorted x (sort_latest xs) q (All-sort_latest xs qs)

  All-place :
      (b : IdentityBinding) (xs : List IdentityBinding) → P b → All P xs → All P (place b xs)
  unfolding place
  All-place b [] p h = (p, tt)
  All-place b (x ∷ xs) p (q, qs) = elim (Bool-cases (bytes_eq x.target b.target)) [
    | inl e ↦ elim (Bool-cases (same_metadata x b)) [
      | inl f ↦ rw (e, f) (q, qs)
      | inr f ↦ rw (e, f) (p, qs)
    ]
    | inr e ↦ rw e (q, All-place b xs p qs)
  ]

  All-without_target :
      (target : Bytes) (xs : List IdentityBinding) → All P xs → All P (without_target target xs)
  unfolding without_target
  All-without_target target [] h = tt
  All-without_target target (x ∷ xs) (q, qs) = elim (Bool-cases (bytes_eq x.target target)) [
    | inl e ↦ rw e (All-without_target target xs qs)
    | inr e ↦ rw e (q, All-without_target target xs qs)
  ]

weaken :
    {m n : ℕ} (xs : List IdentityBinding)
    → m ≤ n
    → All (λ (x : IdentityBinding). x.verified_at_ms ≤ m) xs
    → All (λ (x : IdentityBinding). x.verified_at_ms ≤ n) xs
weaken [] l h = tt
weaken (x ∷ xs) l (q, qs) = (omega arith, weaken xs l qs)

Descending-insert_sorted :
    (b : IdentityBinding) (xs : List IdentityBinding)
    → Descending xs
    → Descending (insert_sorted b xs)
unfolding insert_sorted
Descending-insert_sorted b [] h = (tt, tt)
Descending-insert_sorted b (x ∷ xs) (h, hs) =
    elim (Bool-cases (leb x.verified_at_ms b.verified_at_ms)) [
      | inl e ↦ rw e ((ground arith, weaken xs (ground arith) h), (h, hs))
      | inr e ↦ rw e (
        All-insert_sorted (λ y. y.verified_at_ms ≤ x.verified_at_ms) b xs (ground arith) h,
        Descending-insert_sorted b xs hs,
      )
    ]

Descending-sort_latest : (xs : List IdentityBinding) → Descending (sort_latest xs)
unfolding sort_latest
Descending-sort_latest [] = tt
Descending-sort_latest (x ∷ xs) =
    Descending-insert_sorted x (sort_latest xs) (Descending-sort_latest xs)

Distinct-insert_sorted :
    (b : IdentityBinding) (xs : List IdentityBinding)
    → All (λ (x : IdentityBinding). x.target ≢ b.target) xs
    → Distinct xs
    → Distinct (insert_sorted b xs)
unfolding insert_sorted
Distinct-insert_sorted b [] n h = (tt, tt)
Distinct-insert_sorted b (x ∷ xs) (n, ns) (h, hs) =
    elim (Bool-cases (leb x.verified_at_ms b.verified_at_ms)) [
      | inl e ↦ rw e ((n, ns), (h, hs))
      | inr e ↦ rw e (
        All-insert_sorted (λ y. y.target ≢ x.target) b xs (λ f. n (sym f)) h,
        Distinct-insert_sorted b xs ns hs,
      )
    ]

Distinct-sort_latest : (xs : List IdentityBinding) → Distinct xs → Distinct (sort_latest xs)
unfolding sort_latest
Distinct-sort_latest [] h = tt
Distinct-sort_latest (x ∷ xs) (h, hs) =
    Distinct-insert_sorted x (sort_latest xs) (All-sort_latest (λ y. y.target ≢ x.target) xs h)
      (Distinct-sort_latest xs hs)

Distinct-place :
    (b : IdentityBinding) (xs : List IdentityBinding) → Distinct xs → Distinct (place b xs)
unfolding place
Distinct-place b [] h = (tt, tt)
Distinct-place b (x ∷ xs) (h, hs) = elim (Bool-cases (bytes_eq x.target b.target)) [
  | inl e ↦
      let same = (bytes_eq_iff x.target b.target).0 e in
      elim (Bool-cases (same_metadata x b)) [
        | inl f ↦ rw (e, f) (h, hs)
        | inr f ↦ rw (e, f) (subst (λ t. All (λ (y : IdentityBinding). y.target ≢ t) xs) same h, hs)
      ]
  | inr e ↦ rw e (
    All-place (λ y. y.target ≢ x.target) b xs
        (λ f. absurd (ground (arith, bytes_eq_iff x.target b.target))) h,
    Distinct-place b xs hs,
  )
]

IsLatest-without_target :
    (target : Bytes) (xs : List IdentityBinding) → IsLatest xs → IsLatest (without_target target xs)
unfolding without_target
IsLatest-without_target target [] h = h
IsLatest-without_target target (x ∷ xs) ((d, ds), (n, ns)) =
    let (rest_d, rest_n) = IsLatest-without_target target xs (ds, ns) in
    elim (Bool-cases (bytes_eq x.target target)) [
      | inl e ↦ rw e (rest_d, rest_n)
      | inr e ↦ rw e (
        (All-without_target (λ y. y.verified_at_ms ≤ x.verified_at_ms) target xs d, rest_d),
        (All-without_target (λ y. y.target ≢ x.target) target xs n, rest_n),
      )
    ]

bindings_Distinct :
    (table : Bindings) (source : Bytes)
    → AllValues IsLatest table
    → Distinct (bindings_of (get table source))
unfolding bindings_of
bindings_Distinct table source h = elim (Option-cases (get table source)) [
  | inl e ↦ rw e tt
  | inr (bs, e) ↦ rw e (AllValues-get IsLatest table source bs h e).1
]

keep_IsLatest :
    (subject : Bytes) (bs : List IdentityBinding) (table : Bindings)
    → IsLatest bs
    → AllValues IsLatest table
    → AllValues IsLatest (keep_nonempty subject bs table)
unfolding keep_nonempty
keep_IsLatest subject [] table l h = AllValues-remove IsLatest table subject h
keep_IsLatest subject (b ∷ bs) table l h = AllValues-insert IsLatest table subject (b ∷ bs) l h

-- If the bindings of every identifier stand latest first with no target twice, then so they do after
-- a put and after a delete.
pub bindings_keep_IsLatest :
    (kappa_from_value : IdentityBinding → Bytes) (b : IdentityBinding) (subject target : Bytes)
    (table : Bindings)
    → AllValues IsLatest table
    → AllValues IsLatest (identity_binding_put kappa_from_value b table).0
      × AllValues IsLatest (identity_binding_delete subject target table).0
unfolding identity_binding_put identity_binding_delete
bindings_keep_IsLatest kappa_from_value b subject target table h =
    let old = bindings_of (get table b.source) in
    (
      AllValues-insert IsLatest table b.source (sort_latest (place b old))
          (
            Descending-sort_latest (place b old),
            Distinct-sort_latest (place b old)
                (Distinct-place b old (bindings_Distinct table b.source h)),
          )
          h,
      elim (Option-cases (get table subject)) [
        | inl e ↦ rw (e, identity_binding_delete) h
        | inr (bs, e) ↦
            rw (e, identity_binding_delete)
              (keep_IsLatest subject (without_target target bs) table
                (IsLatest-without_target target bs (AllValues-get IsLatest table subject bs h e)) h)
      ],
    )
