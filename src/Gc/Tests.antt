-- ===== src/Gc/Tests.antt =====
-- The walk over a small store with a cycle, and the theorems at it.
use kappa_registry.Prelude.{
  ◌+◌, ◌≡◌, ◌↔◌, refl, some, List, [], ◌∷◌, String, str_eq, In, here, there,
}
use kappa_registry.Prelude.{length, if◌then◌else◌}
use kappa_registry.Gc.{contains, unseen, visit, reach_loop, compute_reachable}
use kappa_registry.Gc.Reach.{Reaches}
use kappa_registry.Gc.Total.{edges_left, compute_reachable_total}

abbrev lone : List String
lone = "d" ∷ []

abbrev targets_of : String → List String
targets_of kappa =
    if str_eq kappa "a" then "b" ∷ "c" ∷ [] else if str_eq kappa "b" then "a" ∷ [] else []

abbrev walked : List String
walked = "c" ∷ "b" ∷ "a" ∷ []

walk_run : compute_reachable targets_of 5 ("a" ∷ []) ≡ some walked
unfolding compute_reachable reach_loop visit unseen contains
walk_run = refl

alone : (x y : String) → In x lone → In y (targets_of x) → In y lone
alone x y here e = elim e [ ]
alone x y (there m) e = elim m [ ]

compute_reachable_total_example :
    (result : List String) × (compute_reachable targets_of
        (length lone + edges_left targets_of [] lone)
        lone
      ≡ some result)
    × ((x : String) → In x result ↔ Reaches targets_of lone x)
compute_reachable_total_example = compute_reachable_total targets_of lone alone lone (λ x m. m)
