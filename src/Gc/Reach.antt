-- ===== src/Gc/Reach.antt =====
-- `compute_reachable` ends, and collects exactly what the edges lead to from the roots.
use kappa_registry.Prelude.{ℕ, zero, suc, ◌≤◌, ◌≡◌, ◌↔◌, ◌⊎◌, inl, inr, arith}
use kappa_registry.Prelude.{true, some, List, []}
use kappa_registry.Prelude.{◌∷◌, ◌++◌, String, str_eq, str_eq_iff, str_eq_refl, In, here, there}
use kappa_registry.Prelude.{In-append, In-append_left, In-append_right, Bool-cases, length}
use kappa_registry.Prelude.{subst}
use kappa_registry.Gc.{contains, unseen, visit, reach_loop, compute_reachable}

contains→In : (xs : List String) (x : String) → contains xs x ≡ true → In x xs
unfolding contains
contains→In [] x h = cc
contains→In (y ∷ ys) x h = elim (Bool-cases (str_eq y x)) [
  | inl same ↦ subst (λ t. In t (y ∷ ys)) ((str_eq_iff y x).0 same) here
  | inr differ ↦ there (contains→In ys x (ground arith))
]

In→contains : {x : String} {xs : List String} → In x xs → contains xs x ≡ true
unfolding contains
In→contains {x} here = rw (str_eq_refl x)
In→contains (there m) = ground (arith, In→contains m)

pub contains_iff : (xs : List String) (x : String) → (contains xs x ≡ true) ↔ In x xs
contains_iff xs x = (contains→In xs x, λ m. In→contains m)

In-cons_map :
    {x t : String} {xs ys : List String} → In x (t ∷ xs) → (In x xs → In x ys) → In x (t ∷ ys)
In-cons_map here k = here
In-cons_map (there later) k = there (k later)

pub unseen-In :
    {x : String} (seen targets : List String) → In x (unseen seen targets) → In x targets
unfolding unseen
unseen-In seen [] m = m
unseen-In {x} seen (t ∷ ts) m = elim (Bool-cases (contains seen t)) [
  | inl old ↦ there (unseen-In seen ts (rw old at m))
  | inr new ↦ In-cons_map (rw new at m) (λ later. unseen-In seen ts later)
]

In-unseen :
    {x : String} (seen targets : List String)
    → In x targets
    → In x seen ⊎ In x (unseen seen targets)
unfolding unseen
In-unseen seen [] m = elim m [ ]
In-unseen {x} seen (t ∷ ts) here = elim (Bool-cases (contains seen t)) [
  | inl old ↦ inl (contains→In seen t old)
  | inr new ↦ inr (rw new here)
]
In-unseen seen (t ∷ ts) (there m) = elim (In-unseen seen ts m) [
  | inl old ↦ inl old
  | inr later ↦ elim (Bool-cases (contains seen t)) [
    | inl skip ↦ inr (rw skip later)
    | inr keep ↦ inr (rw keep (there later))
  ]
]

pub length-unseen : (seen targets : List String) → length (unseen seen targets) ≤ length targets
unfolding unseen
length-unseen seen [] = omega arith
length-unseen seen (t ∷ ts) = ground (arith, length-unseen seen ts)

module _ (resolve_edges : String → List String) where
  -- What a path of edges leads to from a root.
  pub data Reaches (roots : List String) : String → Type 0 where
    root : {x : String} → In x roots → Reaches roots x
    edge : {x y : String} → Reaches roots x → In y (resolve_edges x) → Reaches roots y

  -- Queue and set hold only what is reached, the roots among them, and the targets of the set.
  record Walks (roots queue reachable : List String) : Type 0 where
    sound_queue : (x : String) → In x queue → Reaches roots x
    sound : (x : String) → In x reachable → Reaches roots x
    roots_in : (x : String) → In x roots → In x reachable ⊎ In x queue
    closed : (x y : String) → In x reachable → In y (resolve_edges x) → In y reachable ⊎ In y queue

  old_Walks :
      (roots queue reachable : List String) (k : String)
      → In k reachable
      → Walks roots (k ∷ queue) reachable
      → Walks roots queue reachable
  old_Walks roots queue reachable k m w = record {
    sound_queue = λ x h. w.sound_queue x (there h);
    sound = w.sound;
    roots_in = λ x h. settle x (w.roots_in x h);
    closed = λ x y h e. settle y (w.closed x y h e);
  }
    where
      settle : (x : String) → In x reachable ⊎ In x (k ∷ queue) → In x reachable ⊎ In x queue
      settle x (inl h) = inl h
      settle x (inr here) = inl m
      settle x (inr (there h)) = inr h

  new_Walks :
      (roots queue reachable : List String) (k : String)
      → Walks roots (k ∷ queue) reachable
      → Walks roots (queue ++ unseen (k ∷ reachable) (resolve_edges k)) (k ∷ reachable)
  new_Walks roots queue reachable k w = record {
    sound_queue = λ x h. from_queue x (In-append queue h);
    sound = λ x h. from_set x h;
    roots_in = λ x h. settle x (w.roots_in x h);
    closed = λ x y h e. close x y h e;
  }
    where
      fresh : List String
      fresh = unseen (k ∷ reachable) (resolve_edges k)

      from_queue : (x : String) → In x queue ⊎ In x fresh → Reaches roots x
      from_queue x (inl h) = w.sound_queue x (there h)
      from_queue x (inr h) = edge (w.sound_queue k here) (unseen-In _ _ h)

      from_set : (x : String) → In x (k ∷ reachable) → Reaches roots x
      from_set x here = w.sound_queue x here
      from_set x (there h) = w.sound x h

      settle :
          (x : String)
          → In x reachable ⊎ In x (k ∷ queue)
          → In x (k ∷ reachable) ⊎ In x (queue ++ fresh)
      settle x (inl h) = inl (there h)
      settle x (inr here) = inl here
      settle x (inr (there h)) = inr (In-append_left _ h)

      fresh_edge :
          (y : String)
          → In y (k ∷ reachable) ⊎ In y fresh
          → In y (k ∷ reachable) ⊎ In y (queue ++ fresh)
      fresh_edge y (inl h) = inl h
      fresh_edge y (inr h) = inr (In-append_right queue h)

      close :
          (x y : String)
          → In x (k ∷ reachable)
          → In y (resolve_edges x)
          → In y (k ∷ reachable) ⊎ In y (queue ++ fresh)
      close x y here e = fresh_edge y (In-unseen (k ∷ reachable) (resolve_edges k) e)
      close x y (there h) e = settle y (w.closed x y h e)

  visit-Walks :
      (roots queue reachable : List String) (k : String)
      → Walks roots (k ∷ queue) reachable
      → Walks roots
          (visit resolve_edges k queue reachable).0
          (visit resolve_edges k queue reachable).1
  unfolding visit
  visit-Walks roots queue reachable k w = elim (Bool-cases (contains reachable k)) [
    | inl old ↦ rw old (old_Walks roots queue reachable k (contains→In reachable k old) w)
    | inr new ↦ rw new (new_Walks roots queue reachable k w)
  ]

  reach_loop-Walks :
      (fuel : ℕ) (roots queue reachable result : List String)
      → Walks roots queue reachable
      → reach_loop resolve_edges fuel queue reachable ≡ some result
      → Walks roots [] result
  unfolding reach_loop
  reach_loop-Walks fuel roots [] reachable result w e =
      let same : reachable ≡ result = cc in subst (Walks roots []) same w
  reach_loop-Walks zero roots (k ∷ queue) reachable result w e = cc
  reach_loop-Walks (suc fuel) roots (k ∷ queue) reachable result w e =
      reach_loop-Walks fuel roots _ _ result (visit-Walks roots queue reachable k w) e

  Walks-complete :
      (roots result : List String) (x : String)
      → Walks roots [] result
      → Reaches roots x
      → In x result
  Walks-complete roots result x w (root h) = elim (w.roots_in x h) [
    | inl m ↦ m
    | inr m ↦ elim m [ ]
  ]
  Walks-complete roots result x w (edge {x = y} r e) =
      elim (w.closed y x (Walks-complete roots result y w r) e) [ inl m ↦ m | inr m ↦ elim m [ ] ]

  -- Whatever fuel it ends with, `compute_reachable` returns exactly the kappas that edges lead to from
  -- the roots, the roots included.
  pub compute_reachable_iff :
      (fuel : ℕ) (roots result : List String)
      → compute_reachable resolve_edges fuel roots ≡ some result
      → (x : String) → In x result ↔ Reaches roots x
  unfolding compute_reachable
  compute_reachable_iff fuel roots result e x =
      let start : Walks roots roots [] = record {
        sound_queue = λ y h. root h;
        sound = λ y h. absurd (elim h [ ]);
        roots_in = λ y h. inr h;
        closed = λ y z h g. absurd (elim h [ ]);
      } in
      let w = reach_loop-Walks fuel roots roots [] result start e in
      (w.sound x, λ r. Walks-complete roots result x w r)
