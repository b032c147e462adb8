-- ===== src/Gc.antt =====
-- crates/kappa-core/src/gc.rs: the walk over the content-addressed store that garbage collection
-- makes. A kappa is a text; a `HashSet` is the list of what was inserted, latest first.
pub mod Reach
pub mod Total
mod Tests
use kappa_registry.Prelude.{ℕ, zero, suc, Bool, true, false, not, ◌||◌, if◌then◌else◌}
use kappa_registry.Prelude.{Option, none, some, List, [], ◌∷◌, ◌++◌, String, str_eq}

-- `reachable.contains(&kappa)`
unfoldable pub contains : List String → String → Bool
contains [] kappa = false
contains (x ∷ xs) kappa = str_eq x kappa || contains xs kappa

-- The targets that `for target in resolve_edges(&kappa)` pushes, in order.
unfoldable pub unseen : List String → List String → List String
unseen reachable [] = []
unseen reachable (target ∷ targets) =
    let rest = unseen reachable targets in if contains reachable target then rest else target ∷ rest

module _ (resolve_edges : String → List String) where
  -- One round, at the front `kappa` of the queue: the queue and the set after it.
  unfoldable pub visit : String → List String → List String → List String × List String
  visit kappa queue reachable =
      if contains reachable kappa
      then (queue, reachable)
      else (queue ++ unseen (kappa ∷ reachable) (resolve_edges kappa), kappa ∷ reachable)

  -- `while let Some(kappa) = queue.pop_front()`; `none` means that the fuel ran out.
  unfoldable pub reach_loop : ℕ → List String → List String → Option (List String)
  reach_loop fuel [] reachable = some reachable
  reach_loop zero (kappa ∷ queue) reachable = none
  reach_loop (suc fuel) (kappa ∷ queue) reachable =
      let next = visit kappa queue reachable in reach_loop fuel next.0 next.1

  unfoldable pub compute_reachable : ℕ → List String → Option (List String)
  compute_reachable fuel root_kappas = reach_loop fuel root_kappas []
