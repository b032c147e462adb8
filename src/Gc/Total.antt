-- ===== src/Gc/Total.antt =====
-- Over a finite part of the store that the edges do not leave, `compute_reachable` ends.
use kappa_registry.Prelude.{ℕ, zero, suc, ◌+◌, ◌≤◌, ◌≡◌, ◌↔◌, inl, inr, refl, arith}
use kappa_registry.Prelude.{false, if◌then◌else◌, some, List, [], ◌∷◌, String}
use kappa_registry.Prelude.{str_eq_refl, In, here, there, Bool-cases, length}
use kappa_registry.Prelude.{length-append}
use kappa_registry.Gc.{contains, unseen, visit, reach_loop, compute_reachable}
use kappa_registry.Gc.Reach.{Reaches, length-unseen, unseen-In, compute_reachable_iff}
use kappa_registry.Prelude.{In-append}

module _ (resolve_edges : String → List String) where
  -- The edges that leave the kappas of `universe` that were not visited.
  pub edges_left : List String → List String → ℕ
  edges_left visited [] = 0
  edges_left visited (x ∷ xs) =
      (if contains visited x then 0 else length (resolve_edges x)) + edges_left visited xs

  edges_left-cons :
      (k : String) (visited universe : List String)
      → edges_left (k ∷ visited) universe ≤ edges_left visited universe
  unfolding edges_left contains
  edges_left-cons k visited [] = omega arith
  edges_left-cons k visited (x ∷ xs) = ground (arith, edges_left-cons k visited xs)

  edges_left-visit :
      {k : String} (visited : List String) {universe : List String}
      → In k universe
      → contains visited k ≡ false
      → edges_left (k ∷ visited) universe + length (resolve_edges k) ≤ edges_left visited universe
  unfolding edges_left contains
  edges_left-visit {k} visited (here {xs = xs}) new =
      ground (arith, str_eq_refl k, edges_left-cons k visited xs)
  edges_left-visit {k} visited (there {x = x} {xs = xs} m) new =
      ground (arith, edges_left-visit visited m new)

  -- The kappas of the queue lie in the universe.
  abbrev Inside : List String → List String → Type 0
  Inside universe xs = (x : String) → In x xs → In x universe

  module _ (universe : List String)
      (closed : (x y : String) → In x universe → In y (resolve_edges x) → In y universe) where
    visit-Inside :
        (k : String) (queue reachable : List String)
        → Inside universe (k ∷ queue)
        → Inside universe (visit resolve_edges k queue reachable).0
    unfolding visit
    visit-Inside k queue reachable h = elim (Bool-cases (contains reachable k)) [
      | inl old ↦ rw old (λ x m. h x (there m))
      | inr new ↦ rw new (λ x m. elim (In-append queue m) [
        | inl waiting ↦ h x (there waiting)
        | inr fresh ↦ closed k x (h k here) (unseen-In _ _ fresh)
      ])
    ]

    visit-shrinks :
        (k : String) (queue reachable : List String)
        → In k universe
        → length (visit resolve_edges k queue reachable).0
            + edges_left (visit resolve_edges k queue reachable).1 universe
          ≤ length queue + edges_left reachable universe
    unfolding visit
    visit-shrinks k queue reachable m = elim (Bool-cases (contains reachable k)) [
      | inl old ↦ rw old (omega arith)
      | inr new ↦
          let fresh = unseen (k ∷ reachable) (resolve_edges k) in
          rw new (
            omega (
              arith,
              length-append queue fresh,
              length-unseen (k ∷ reachable) (resolve_edges k),
              edges_left-visit reachable m new,
            ))
    ]

    reach_loop_total :
        (fuel : ℕ) (queue reachable : List String)
        → Inside universe queue
        → length queue + edges_left reachable universe ≤ fuel
        → (result : List String) × (reach_loop resolve_edges fuel queue reachable ≡ some result)
    unfolding reach_loop
    reach_loop_total fuel [] reachable h f = (reachable, refl)
    reach_loop_total zero (k ∷ queue) reachable h f = absurd (omega arith)
    reach_loop_total (suc fuel) (k ∷ queue) reachable h f =
        reach_loop_total fuel _ _ (visit-Inside k queue reachable h)
          (omega (arith, visit-shrinks k queue reachable (h k here)))

    -- If the roots lie in a finite list of kappas that no edge leaves, then `compute_reachable` ends
    -- within as many rounds as there are roots and edges, and returns exactly what edges lead to from
    -- the roots.
    pub compute_reachable_total :
        (roots : List String)
        → ((x : String) → In x roots → In x universe)
        → (result : List String) × (compute_reachable resolve_edges
              (length roots + edges_left [] universe)
              roots
            ≡ some result)
          × ((x : String) → In x result ↔ Reaches resolve_edges roots x)
    unfolding compute_reachable
    compute_reachable_total roots h =
        let (result, e) =
          reach_loop_total (length roots + edges_left [] universe) roots [] h (omega arith) in
        (result, e, compute_reachable_iff resolve_edges _ roots result e)
