-- ===== src/Store/Namespaces/Errors.antt =====
-- What a failed call changes, and who may make a successful one.
use kappa_registry.Prelude.{ℕ, ◌≡◌, arith, false, ◌⊎◌, inl, inr}
use kappa_registry.Prelude.{Option, some, Bytes, bytes_eq, bytes_eq_iff, Option-cases, Bool-cases}
use kappa_registry.Dict.{get, bytes_key}
use kappa_registry.Store.Types.{Result, ok, err, StoreError, Result-cases}
use kappa_registry.Store.Namespaces.{Namespaces, NamespaceRecord, alias_key, move_alias}
use kappa_registry.Store.Namespaces.{rename_record, namespace_create, namespace_rename}
use kappa_registry.Store.Namespaces.{namespace_add_alias, namespace_transfer, namespace_delete}

-- A create, rename, add-alias, transfer or delete that returns an error leaves the alias table and
-- the records as they were.
pub error_changes_nothing :
    (resolve : Bytes → Result Bytes) (a b actor uuid : Bytes) (protocol : Option Bytes) (now_ms : ℕ)
    (e : StoreError) (s : Namespaces)
    → ((namespace_create a actor protocol uuid now_ms s).1 ≡ err e
        → (namespace_create a actor protocol uuid now_ms s).0 ≡ s)
      × ((namespace_rename a b actor protocol s).1 ≡ err e
          → (namespace_rename a b actor protocol s).0 ≡ s)
      × ((namespace_add_alias uuid a actor protocol s).1 ≡ err e
          → (namespace_add_alias uuid a actor protocol s).0 ≡ s)
      × ((namespace_transfer resolve uuid b actor s).1 ≡ err e
          → (namespace_transfer resolve uuid b actor s).0 ≡ s)
      × ((namespace_delete a actor protocol s).1 ≡ err e
          → (namespace_delete a actor protocol s).0 ≡ s)
unfolding namespace_create namespace_rename rename_record move_alias namespace_add_alias
    namespace_transfer namespace_delete
error_changes_nothing resolve a b actor uuid protocol now_ms e s = (
  (λ h. ground arith),
  (λ h. ground arith),
  (λ h. ground arith),
  (λ h. ground arith),
  (λ h. ground arith),
)

-- A successful add-alias or delete was made by the owner in the record, and a successful transfer by
-- that owner or by the anchor that the owner's successions resolve to.
pub success_is_authorized :
    (resolve : Bytes → Result Bytes) (a b actor uuid : Bytes) (protocol : Option Bytes)
    (s : Namespaces)
    → ((namespace_add_alias uuid a actor protocol s).1 ≡ ok tt
        → (r : NamespaceRecord) × (get s.ns_records uuid ≡ some r) × (r.owner ≡ actor))
      × ((namespace_transfer resolve uuid b actor s).1 ≡ ok tt
          → (r : NamespaceRecord) × (get s.ns_records uuid ≡ some r)
            × ((r.owner ≡ actor) ⊎ (resolve r.owner ≡ ok actor)))
      × ((namespace_delete a actor protocol s).1 ≡ ok tt
          → (u : Bytes) × (r : NamespaceRecord) × (get s.ns_aliases (alias_key a protocol) ≡ some u)
            × (get s.ns_records u ≡ some r)
            × (r.owner ≡ actor))
unfolding namespace_add_alias namespace_transfer namespace_delete
success_is_authorized resolve a b actor uuid protocol s = (
  (λ h. elim (Option-cases (get s.ns_records uuid)) [
    | inl missing ↦ absurd (ground arith)
    | inr (r, found) ↦ (r, found, ground (arith, bytes_eq_iff r.owner actor))
  ]),
  (λ h. elim (Option-cases (get s.ns_records uuid)) [
    | inl missing ↦ absurd (ground arith)
    | inr (r, found) ↦ (
      r,
      found,
      elim (Bool-cases (bytes_eq r.owner actor)) [
        | inl own ↦ inl ((bytes_eq_iff r.owner actor).0 own)
        | inr other ↦ inr (successor r found other h)
      ],
    )
  ]),
  (λ h. elim (Option-cases (get s.ns_aliases (alias_key a protocol))) [
    | inl unnamed ↦ absurd (ground arith)
    | inr (u, named) ↦ elim (Option-cases (get s.ns_records u)) [
      | inl missing ↦ absurd (ground arith)
      | inr (r, found) ↦ (u, r, named, found, ground (arith, bytes_eq_iff r.owner actor))
    ]
  ]),
)
  where
    successor :
        (r : NamespaceRecord)
        → get s.ns_records uuid ≡ some r
        → bytes_eq r.owner actor ≡ false
        → (namespace_transfer resolve uuid b actor s).1 ≡ ok tt
        → resolve r.owner ≡ ok actor
    successor r found other h = elim (Result-cases (resolve r.owner)) [
      | inl (t, e) ↦ ground (arith, bytes_eq_iff t actor)
      | inr (x, e) ↦ absurd (ground arith)
    ]
