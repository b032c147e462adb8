-- ===== src/Store/Succession/Resolve.antt =====
-- Resolution ends; what it returns is the end of a chain of at most nine successions.
use kappa_registry.Prelude.{ℕ, zero, suc, ◌+◌, ◌≤◌, ◌<◌, ◌≡◌, ◌≢◌, ◌↔◌, refl, arith, ap, inl, inr}
use kappa_registry.Prelude.{true, false, List, [], ◌∷◌, Option, none}
use kappa_registry.Prelude.{
  some, Bytes, bytes_eq, bytes_eq_iff, length, Option-cases, Bool-cases, subst,
}
use kappa_registry.Dict.{get, bytes_key}
use kappa_registry.Store.Types.{Result, ok, err, StoreError, Result-cases}
use kappa_registry.Store.Succession.{Successions, visited_has, check_hop, resolve_loop}
use kappa_registry.Store.Succession.{identity_succession_resolve}

check_hop-length :
    (visited : List Bytes) (next : Bytes) → check_hop visited next ≡ ok tt → length visited < 10
unfolding check_hop
check_hop-length visited next h = ground arith

-- `end` is reached from `start` by `hops` successions, and nothing succeeds it.
pub data Succeeds (table : Successions) : Bytes → ℕ → Bytes → Type 0 where
  stop : {x : Bytes} → get table x ≡ none → Succeeds table x 0 x
  hop :
      {x y z : Bytes} {n : ℕ}
      → get table x ≡ some y
      → Succeeds table y n z
      → Succeeds table x (suc n) z

-- What `resolve_loop` may return: an answer with its chain, or a refusal.
data Resolves (table : Successions) (current : Bytes) (room : ℕ)
    : Option (Result Bytes) → Type 0 where
  found :
      {z : Bytes} (n : ℕ)
      → Succeeds table current n z
      → n ≤ room
      → Resolves table current room (some (ok z))
  refused : {e : StoreError} → Resolves table current room (some (err e))

Resolves-hop :
    (table : Successions) (x y : Bytes) (room : ℕ) (r : Option (Result Bytes))
    → get table x ≡ some y
    → Resolves table y room r
    → Resolves table x (suc room) r
Resolves-hop table x y room r e (found n c l) = found (suc n) (hop e c) (omega arith)
Resolves-hop table x y room r e refused = refused

resolve_loop-Resolves :
    (fuel : ℕ) (table : Successions) (current : Bytes) (visited : List Bytes) (room : ℕ)
    → length visited + room ≡ 10
    → room < fuel
    → Resolves table current room (resolve_loop fuel table current visited)
unfolding resolve_loop
resolve_loop-Resolves zero table current visited room l f = absurd (omega arith)
resolve_loop-Resolves (suc fuel) table current visited zero l f =
    elim (Option-cases (get table current)) [
      | inl e ↦ rw (e, resolve_loop) (found 0 (stop e) (omega arith))
      | inr (next, e) ↦ elim (Result-cases (check_hop visited next)) [
        | inl (_, c) ↦ absurd (omega (arith, check_hop-length visited next c))
        | inr (x, c) ↦ rw (e, c, resolve_loop) refused
      ]
    ]
resolve_loop-Resolves (suc fuel) table current visited (suc room) l f =
    elim (Option-cases (get table current)) [
      | inl e ↦ rw (e, resolve_loop) (found 0 (stop e) (omega arith))
      | inr (next, e) ↦ elim (Result-cases (check_hop visited next)) [
        | inl (_, c) ↦
            rw (e, c, resolve_loop)
              (Resolves-hop table current next room _ e (
                resolve_loop-Resolves fuel table next (next ∷ visited) room (omega arith)
                  (omega arith)))
        | inr (x, c) ↦ rw (e, c, resolve_loop) refused
      ]
    ]

-- A chain's length is decided by its start.
Succeeds-unique :
    (table : Successions) {x y z : Bytes} {n m : ℕ}
    → Succeeds table x n y
    → Succeeds table x m z
    → n ≡ m
Succeeds-unique table (stop e) (stop f) = refl
Succeeds-unique table (stop e) (hop f d) = cc
Succeeds-unique table (hop e c) (stop f) = cc
Succeeds-unique table (hop {y = u} e c) (hop {y = v} {z = w} {n = k} f d) =
    let same : v ≡ u = cc in
    ap suc (Succeeds-unique table c (subst (λ t. Succeeds table t k w) same d))

-- Every visited anchor stands at `n` hops or more before the end.
Behind : Successions → List Bytes → ℕ → Type 0
Behind table visited n =
    (v : Bytes)
    → visited_has visited v ≡ true
    → (m : ℕ) × (z : Bytes) × Succeeds table v m z × (n ≤ m)

not_visited :
    (table : Successions) (visited : List Bytes) (next z : Bytes) (n : ℕ)
    → Behind table visited (suc n)
    → Succeeds table next n z
    → visited_has visited next ≡ false
unfolding Behind
not_visited table visited next z n b c = elim (Bool-cases (visited_has visited next)) [
  | inl seen ↦ let (m, w, d, le) = b next seen in absurd (omega (arith, Succeeds-unique table c d))
  | inr new ↦ new
]

Behind-next :
    (table : Successions) (visited : List Bytes) (next z : Bytes) (n : ℕ)
    → Behind table visited (suc n)
    → Succeeds table next n z
    → Behind table (next ∷ visited) n
unfolding Behind visited_has
Behind-next table visited next z n b c v seen = elim (Bool-cases (bytes_eq next v)) [
  | inl same ↦
      (n, z, subst (λ t. Succeeds table t n z) ((bytes_eq_iff next v).0 same) c, omega arith)
  | inr differ ↦ let (m, w, d, le) = b v (rw differ at seen) in (m, w, d, omega arith)
]

resolve_loop-Succeeds :
    (fuel : ℕ) (table : Successions) {current z : Bytes} {n : ℕ} (visited : List Bytes)
    → Succeeds table current n z
    → n < fuel
    → length visited + n ≤ 10
    → Behind table visited n
    → resolve_loop fuel table current visited ≡ some (ok z)
unfolding resolve_loop
resolve_loop-Succeeds zero table visited c f l b = absurd (omega arith)
resolve_loop-Succeeds (suc fuel) table visited (stop e) f l b = rw (e, resolve_loop)
resolve_loop-Succeeds (suc fuel) table {z = z} visited (hop {y = next} {n = n} e c) f l b =
    let new = not_visited table visited next z n b c in
    let open_hop : check_hop visited next ≡ ok tt = unfold check_hop in ground arith in
    rw (e, open_hop, resolve_loop)
      (resolve_loop-Succeeds fuel table (next ∷ visited) c (omega arith) (omega arith)
        (Behind-next table visited next z n b c))

Behind-start :
    (table : Successions) (x z : Bytes) (n : ℕ) → Succeeds table x n z → Behind table (x ∷ []) n
unfolding Behind visited_has
Behind-start table x z n c v seen =
    let same : x ≡ v = (bytes_eq_iff x v).0 (ground arith) in
    (n, z, subst (λ t. Succeeds table t n z) same c, omega arith)

resolve_found :
    (table : Successions) (anchor z : Bytes) (r : Option (Result Bytes))
    → Resolves table anchor 9 r
    → r ≡ some (ok z)
    → (n : ℕ) × (n ≤ 9) × Succeeds table anchor n z
resolve_found table anchor z r (found {z = w} n c l) e =
    let same : w ≡ z = cc in (n, l, subst (Succeeds table anchor n) same c)
resolve_found table anchor z r refused e = cc

Resolves-answers :
    (table : Successions) (anchor : Bytes) (room : ℕ) (r : Option (Result Bytes))
    → Resolves table anchor room r
    → r ≢ none
Resolves-answers table anchor room r (found n c l) e = cc
Resolves-answers table anchor room r refused e = cc

-- Resolution always ends, and it returns an anchor exactly when a chain of at most nine successions
-- leads from the given anchor to it and nothing succeeds it.
pub resolve_iff :
    (table : Successions) (anchor z : Bytes)
    → (identity_succession_resolve table anchor ≢ none)
      × ((identity_succession_resolve table anchor ≡ some (ok z))
          ↔ ((n : ℕ) × (n ≤ 9) × Succeeds table anchor n z))
unfolding identity_succession_resolve
resolve_iff table anchor z =
    let r = resolve_loop-Resolves 11 table anchor (anchor ∷ []) 9 (omega arith) (omega arith) in
    (
      Resolves-answers table anchor 9 _ r,
      (
        resolve_found table anchor z _ r,
        (λ (n, l, c).
            resolve_loop-Succeeds 11 table (anchor ∷ []) c (omega arith) (omega arith)
              (Behind-start table anchor z n c)),
      ),
    )
