-- ===== src/Kappa/Compute/Multi/Names.antt =====
-- Which axes the hashers and the results of a pass for several axes stand for.
use kappa_registry.Prelude.{◌≡◌, ◌≢◌, ◌⊎◌, sym, ap, ◌∙◌, subst, arith, true}
use kappa_registry.Prelude.{
  Option, none, some, List, [], ◌∷◌, Bytes, bytes_eq, bytes_eq→eq, bytes_eq_refl, In, In-cons, here,
  there, Option-cases, Bool-cases, inl, inr,
}
use kappa_registry.Kappa.Label.{Axis, sha1, axis_str, axis_parse}
use kappa_registry.Kappa.Label.{sha256, blake3, sha512, sha3_256, keccak256}
use kappa_registry.Kappa.Label.{ok}
use kappa_registry.Kappa.Label.Grammar.{axis_parse-some}
use kappa_registry.Kappa.Compute.{Hashers, label_text}
use kappa_registry.Kappa.Compute.Verify.{Result-cases}
use kappa_registry.Kappa.Compute.Multi.{
  Initialized, initialize, init_hashers, finalize, final_order, finalize_all, remove_named,
}

-- A hasher that the names ask for is there.
pub init_hashers-kept :
    (axes : List Bytes) (hashers after : Initialized) (x : Axis)
    → hashers x ≡ true
    → init_hashers axes hashers ≡ ok after
    → after x ≡ true
unfolding init_hashers initialize
init_hashers-kept [] hashers after x h e = let same : hashers ≡ after = cc e in rw (← same) h
init_hashers-kept (name ∷ axes) hashers after x h e = elim (Option-cases (axis_parse name)) [
  | inl n ↦ absurd (ground arith)
  | inr (a, n) ↦ init_hashers-kept axes (initialize a hashers) after x (ground arith) (ground arith)
]

-- Every name that was asked for is of an axis whose hasher is there.
pub init_hashers-named :
    (axes : List Bytes) (hashers after : Initialized) (n : Bytes)
    → init_hashers axes hashers ≡ ok after
    → In n axes
    → (a : Axis) × (n ≡ axis_str a) × (after a ≡ true)
unfolding init_hashers initialize
init_hashers-named [] hashers after n e m = elim m [ ]
init_hashers-named (name ∷ axes) hashers after n e m = elim (Option-cases (axis_parse name)) [
  | inl u ↦ absurd (ground arith)
  | inr (a, u) ↦ elim (In-cons m) [
    | inl same ↦
        let set : initialize a hashers a ≡ true = ground (arith, bytes_eq_refl (axis_str a)) in
        (
          a,
          sym same ∙ axis_parse-some name a u,
          init_hashers-kept axes (initialize a hashers) after a set (ground arith),
        )
    | inr later ↦ init_hashers-named axes (initialize a hashers) after n (ground arith) later
  ]
]

-- A hasher that is there was there before or is asked for by a name.
pub init_hashers-asked :
    (axes : List Bytes) (hashers after : Initialized) (x : Axis)
    → init_hashers axes hashers ≡ ok after
    → after x ≡ true
    → (hashers x ≡ true) ⊎ In (axis_str x) axes
unfolding init_hashers initialize
init_hashers-asked [] hashers after x e h = let same : hashers ≡ after = cc e in inl (rw same h)
init_hashers-asked (name ∷ axes) hashers after x e h = elim (Option-cases (axis_parse name)) [
  | inl n ↦ absurd (ground arith)
  | inr (a, n) ↦ elim (init_hashers-asked axes (initialize a hashers) after x (ground arith) h) [
    | inr later ↦ inr (there later)
    | inl now ↦ elim (Bool-cases (bytes_eq (axis_str a) (axis_str x))) [
      | inr other ↦ inl (ground arith)
      | inl same ↦
          let it : name ≡ axis_str x =
            axis_parse-some name a n ∙ bytes_eq→eq (axis_str a) (axis_str x) same in
          inr (subst (λ y. In (axis_str x) (y ∷ axes)) (sym it) here)
    ]
  ]
]

pub finalize_all-named :
    (h : Hashers) (hashers : Initialized) (chunks : List Bytes) (order : List Axis)
    (results : List (Bytes × Bytes)) (a : Axis)
    → hashers a ≡ true
    → In a order
    → finalize_all h hashers chunks order ≡ ok results
    → remove_named (axis_str a) results ≢ none
unfolding finalize_all remove_named
finalize_all-named h hashers chunks [] results a on m f g = elim m [ ]
finalize_all-named h hashers chunks (x ∷ order) results a on m f g = elim (Bool-cases (hashers x)) [
  | inr off ↦ elim (In-cons m) [
    | inl same ↦ absurd (cc (same, on, off))
    | inr later ↦ finalize_all-named h hashers chunks order results a on later (ground arith) g
  ]
  | inl used ↦ elim (Option-cases (finalize h x chunks)) [
    | inl n ↦ absurd (ground arith)
    | inr (hash, n) ↦ elim (Result-cases (finalize_all h hashers chunks order)) [
      | inl (e, q) ↦ absurd (ground arith)
      | inr (more, q) ↦
          let made : ◌≡◌ {A = List (Bytes × Bytes)} results
              ((axis_str x, label_text (axis_str x) hash) ∷ more) =
            ground arith in
          let g' : remove_named (axis_str a) ((axis_str x, label_text (axis_str x) hash) ∷ more)
              ≡ none =
            ap (remove_named (axis_str a)) (sym made) ∙ g in
          elim (In-cons m) [
            | inl same ↦
                let equal : bytes_eq (axis_str x) (axis_str a) ≡ true =
                  rw same (bytes_eq_refl (axis_str a)) in
                absurd (ground arith)
            | inr later ↦ finalize_all-named h hashers chunks order more a on later q (ground arith)
          ]
    ]
  ]
]

pub every_axis : (a : Axis) → In a final_order
every_axis sha256 = here
every_axis sha512 = there here
every_axis blake3 = there (there here)
every_axis sha3_256 = there (there (there here))
every_axis keccak256 = there (there (there (there here)))
every_axis sha1 = there (there (there (there (there here))))

-- A hasher that is there gives a label.
pub finalize_all-In :
    (h : Hashers) (hashers : Initialized) (chunks : List Bytes) (order : List Axis)
    (results : List (Bytes × Bytes)) (a : Axis)
    → hashers a ≡ true
    → In a order
    → finalize_all h hashers chunks order ≡ ok results
    → (kappa : Bytes) × In (axis_str a, kappa) results
unfolding finalize_all
finalize_all-In h hashers chunks [] results a on m f = elim m [ ]
finalize_all-In h hashers chunks (x ∷ order) results a on m f = elim (Bool-cases (hashers x)) [
  | inr off ↦ elim (In-cons m) [
    | inl same ↦ absurd (cc (same, on, off))
    | inr later ↦ finalize_all-In h hashers chunks order results a on later (ground arith)
  ]
  | inl used ↦ elim (Option-cases (finalize h x chunks)) [
    | inl n ↦ absurd (ground arith)
    | inr (hash, n) ↦ elim (Result-cases (finalize_all h hashers chunks order)) [
      | inl (e, q) ↦ absurd (ground arith)
      | inr (more, q) ↦
          let made : ◌≡◌ {A = List (Bytes × Bytes)}
              ((axis_str x, label_text (axis_str x) hash) ∷ more) results =
            ground arith in
          elim (In-cons m) [
            | inl same ↦ (label_text (axis_str x) hash, rw (← made, ← same) here)
            | inr later ↦
                let (kappa, found) = finalize_all-In h hashers chunks order more a on later q in
                (kappa, rw (← made) (there found))
          ]
    ]
  ]
]

-- A label is of an axis whose hasher is there.
pub finalize_all-used :
    (h : Hashers) (hashers : Initialized) (chunks : List Bytes) (order : List Axis)
    (results : List (Bytes × Bytes)) (n kappa : Bytes)
    → finalize_all h hashers chunks order ≡ ok results
    → In (n, kappa) results
    → (a : Axis) × (n ≡ axis_str a) × (hashers a ≡ true)
unfolding finalize_all
finalize_all-used h hashers chunks [] results n kappa f m =
    let none_left : results ≡ [] = cc f in absurd (elim (subst (In (n, kappa)) none_left m) [ ])
finalize_all-used h hashers chunks (x ∷ order) results n kappa f m = elim (Bool-cases (hashers x)) [
  | inr off ↦ finalize_all-used h hashers chunks order results n kappa (ground arith) m
  | inl used ↦ elim (Option-cases (finalize h x chunks)) [
    | inl e ↦ absurd (ground arith)
    | inr (hash, e) ↦ elim (Result-cases (finalize_all h hashers chunks order)) [
      | inl (e', q) ↦ absurd (ground arith)
      | inr (more, q) ↦
          let made : ◌≡◌ {A = List (Bytes × Bytes)} results
              ((axis_str x, label_text (axis_str x) hash) ∷ more) =
            ground arith in
          elim (In-cons (subst (In (n, kappa)) made m)) [
            | inl same ↦ (x, ap (λ p. p.0) (sym same), used)
            | inr later ↦ finalize_all-used h hashers chunks order more n kappa q later
          ]
    ]
  ]
]

-- What is left after a removal was there, and what was there is left or has the name.
pub remove_named-In :
    (name : Bytes) (results rest : List (Bytes × Bytes)) (kappa : Bytes) (p : Bytes × Bytes)
    → remove_named name results ≡ some (kappa, rest)
    → (In p rest → In p results) × (In p results → (p.0 ≡ name) ⊎ In p rest)
unfolding remove_named
remove_named-In name [] rest kappa p f = absurd (cc f)
remove_named-In name ((a, k) ∷ results) rest kappa p f = elim (Bool-cases (bytes_eq a name)) [
  | inl same ↦
      let made : ◌≡◌ {A = Option (Bytes × List (Bytes × Bytes))} (some (k, results))
          (some (kappa, rest)) =
        ground arith in
      let others : results ≡ rest = cc made in
      (
        λ m. there (subst (In p) (sym others) m),
        λ m. elim (In-cons m) [
          | inl it ↦ inl (ap (λ q. q.0) (sym it) ∙ bytes_eq→eq a name same)
          | inr later ↦ inr (subst (In p) others later)
        ],
      )
  | inr other ↦ elim (Option-cases (remove_named name results)) [
    | inl n ↦ absurd (ground arith)
    | inr ((k', rest'), n) ↦
        let made : ◌≡◌ {A = Option (Bytes × List (Bytes × Bytes))} (some (k', (a, k) ∷ rest'))
            (some (kappa, rest)) =
          ground arith in
        let others : ◌≡◌ {A = List (Bytes × Bytes)} ((a, k) ∷ rest') rest = cc made in
        let (back, forth) = remove_named-In name results rest' k' p n in
        (
          λ m. elim (In-cons (subst (In p) (sym others) m)) [
            | inl it ↦ subst (λ q. In q ((a, k) ∷ results)) it here
            | inr later ↦ there (back later)
          ],
          λ m. elim (In-cons m) [
            | inl it ↦ inr (subst (In p) others (subst (λ q. In q ((a, k) ∷ rest')) it here))
            | inr later ↦ elim (forth later) [
              | inl named ↦ inl named
              | inr left ↦ inr (subst (In p) others (there left))
            ]
          ],
        )
  ]
]
