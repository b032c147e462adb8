-- ===== src/Store/Succession.antt =====
-- Identity succession in `InMemoryStore` (crates/kappa-core/src/store/memory/mod.rs): which anchor
-- succeeds which. `visited` is a list with the same elements as the `HashSet`, so that its length is
-- the set's: a text is added only after the test that it is not there.
pub mod Resolve
use kappa_registry.Prelude.{ℕ, zero, suc, ltb, leb, Bool, true, false, if◌then◌else◌, List, []}
use kappa_registry.Prelude.{◌∷◌, ◌++◌, Option, none, some, Bytes, bytes_eq, length}
use kappa_registry.Dict.{Dict, get, bytes_key}
use kappa_registry.Store.Types.{Result, ok, err, rejected}

abbrev pub Successions : Type 0
Successions = Dict Bytes Bytes

unfoldable pub visited_has : List Bytes → Bytes → Bool
visited_has [] x = false
visited_has (v ∷ visited) x = if bytes_eq v x then true else visited_has visited x

-- The tests of one hop: a cycle, then the bound.
unfoldable pub check_hop : List Bytes → Bytes → Result (Unit {0})
check_hop visited next =
    if visited_has visited next
    then err rejected
    else if leb 10 (length visited)
    then err rejected
    else ok tt

-- The `loop`. `none` is fuel that ran out.
unfoldable pub resolve_loop : ℕ → Successions → Bytes → List Bytes → Option (Result Bytes)
resolve_loop zero table current visited = none
resolve_loop (suc fuel) table current visited = elim (get table current) [
  | none ↦ some (ok current)
  | some next ↦ elim (check_hop visited next) [
    | err e ↦ some (err e)
    | ok _ ↦ resolve_loop fuel table next (next ∷ visited)
  ]
]

-- A hop adds to `visited`, which holds ten at most: ten rounds go on, and an eleventh ends.
unfoldable pub identity_succession_resolve : Successions → Bytes → Option (Result Bytes)
identity_succession_resolve table anchor = resolve_loop 11 table anchor (anchor ∷ [])

unfoldable pub chain_loop :
    ℕ → Successions → Bytes → List Bytes → List Bytes → Option (Result (List Bytes))
chain_loop zero table current visited chain = none
chain_loop (suc fuel) table current visited chain = elim (get table current) [
  | none ↦ some (ok chain)
  | some next ↦ elim (check_hop visited next) [
    | err e ↦ some (err e)
    | ok _ ↦ chain_loop fuel table next (next ∷ visited) (chain ++ (next ∷ []))
  ]
]

unfoldable pub identity_succession_chain : Successions → Bytes → Option (Result (List Bytes))
identity_succession_chain table anchor = chain_loop 11 table anchor (anchor ∷ []) (anchor ∷ [])
