-- ===== src/Store/Tags/Batch.antt =====
-- A batch of tag updates is all or nothing, and is what setting its tags in turn does.
use kappa_registry.Prelude.{ℕ, ◌≡◌, ◌≢◌, ◌↔◌, refl, arith, Bool-cases, inl, inr}
use kappa_registry.Prelude.{true, some, List, [], ◌∷◌, Bytes, Option-cases}
use kappa_registry.Prelude.{All, bytes_eq_refl}
use kappa_registry.Dict.{get, insert, contains_key, bytes_key, pair_key}
use kappa_registry.Store.Types.{ok, err, conflict, Result-cases}
use kappa_registry.Store.Namespaces.{NamespaceRef, Namespaces, ensure_namespace, add_named}
use kappa_registry.Store.Namespaces.{name_or_empty}
use kappa_registry.Store.Tags.{TagUpdate, TagTable, TagStore, item_hash, version_or_zero}
use kappa_registry.Store.Tags.{version_agrees, check_updates, apply_updates, tag_set}
use kappa_registry.Store.Tags.{tag_set_batch}

add_named_has :
    (uuid name : Bytes) (s : Namespaces)
    → contains_key (add_named uuid name s).ns_records uuid ≡ true
unfolding add_named contains_key get insert
add_named_has uuid [] s = rw (contains_key, get, bytes_eq_refl uuid)
add_named_has uuid (c ∷ name) s = rw (contains_key, get, bytes_eq_refl uuid)

-- A namespace is ensured once.
ensure-ensure_namespace :
    (ns : NamespaceRef) (s : Namespaces)
    → ensure_namespace ns (ensure_namespace ns s) ≡ ensure_namespace ns s
unfolding ensure_namespace
ensure-ensure_namespace ns s =
    ground (arith, add_named_has ns.uuid (name_or_empty ns.display_name) s)

module _ (blake3 : Bytes → Bytes) where
  -- Every tag of the list set in turn.
  abbrev pub tag_set_each : NamespaceRef → List TagUpdate → TagStore → TagStore
  tag_set_each ns [] s = record s { namespaces = ensure_namespace ns s.namespaces }
  tag_set_each ns (u ∷ updates) s = tag_set_each ns updates (tag_set blake3 ns u.name u.kappa s).0

  tag_set_each_tags :
      (ns : NamespaceRef) (updates : List TagUpdate) (s : TagStore)
      → tag_set_each ns updates s ≡ record s {
        namespaces = ensure_namespace ns s.namespaces;
        tags = apply_updates blake3 ns.uuid updates s.tags;
      }
  unfolding apply_updates tag_set
  tag_set_each_tags ns [] s = refl
  tag_set_each_tags ns (u ∷ updates) s = rw (
    tag_set_each_tags ns updates (tag_set blake3 ns u.name u.kappa s).0,
    ensure-ensure_namespace ns s.namespaces,
  )

  -- The version that an update expects, if any, is that of the tag, zero for a tag that is not there.
  abbrev pub Expects : NamespaceRef → TagStore → TagUpdate → Type 0
  Expects ns s u =
      (v : ℕ)
      → u.expected_version ≡ some v
      → v ≡ version_or_zero (get s.tags (ns.uuid, item_hash blake3 u.name))

  version_agrees_iff :
      (ns : NamespaceRef) (s : TagStore) (u : TagUpdate)
      → (version_agrees blake3 ns.uuid u s.tags ≡ true) ↔ Expects ns s u
  unfolding version_agrees
  version_agrees_iff ns s u = elim (Option-cases u.expected_version) [
    | inl e ↦ ((λ h v f. cc), (λ h. rw (e, version_agrees)))
    | inr (w, e) ↦ ((λ h v f. ground arith), (λ h. let same = h w e in ground arith))
  ]

  check_updates_iff :
      (ns : NamespaceRef) (s : TagStore) (updates : List TagUpdate)
      → (check_updates blake3 ns.uuid updates s.tags ≡ ok tt) ↔ All (Expects ns s) updates
  unfolding check_updates
  check_updates_iff ns s [] = (λ h. tt, λ h. refl)
  check_updates_iff ns s (u ∷ updates) =
      let first = version_agrees_iff ns s u in
      let later = check_updates_iff ns s updates in
      elim (Bool-cases (version_agrees blake3 ns.uuid u s.tags)) [
        | inl agrees ↦ (
          (λ h. (first.0 agrees, later.0 (ground arith))),
          (λ (x, xs). let rest = later.1 xs in ground arith),
        )
        | inr differs ↦
            ((λ h. absurd (ground arith)), (λ (x, xs). let agrees = first.1 x in absurd cc))
      ]

  check_updates_err :
      (uuid : Bytes) (tags : TagTable) (updates : List TagUpdate)
      → (check_updates blake3 uuid updates tags ≢ ok tt)
      → check_updates blake3 uuid updates tags ≡ err conflict
  unfolding check_updates
  check_updates_err uuid tags [] h = absurd (h refl)
  check_updates_err uuid tags (u ∷ updates) h = ground (arith, check_updates_err uuid tags updates)

  -- A batch succeeds exactly when every version that it expects is that of the tag before the batch,
  -- and then does what setting its tags in turn does. Otherwise it returns a conflict and every tag
  -- is as it was.
  pub tag_set_batch_lem :
      (ns : NamespaceRef) (updates : List TagUpdate) (s : TagStore)
      → (((tag_set_batch blake3 ns updates s).1 ≡ ok tt) ↔ All (Expects ns s) updates)
        × ((tag_set_batch blake3 ns updates s).1 ≡ ok tt
            → (tag_set_batch blake3 ns updates s).0 ≡ tag_set_each ns updates s)
        × ((tag_set_batch blake3 ns updates s).1 ≢ ok tt
            → ((tag_set_batch blake3 ns updates s).1 ≡ err conflict)
              × ((tag_set_batch blake3 ns updates s).0.tags ≡ s.tags))
  unfolding tag_set_batch
  tag_set_batch_lem ns updates s =
      let checked = check_updates_iff ns s updates in
      elim (Result-cases (check_updates blake3 ns.uuid updates s.tags)) [
        | inl (_, e) ↦ (
          ((λ h. checked.0 e), (λ h. rw (checked.1 h, tag_set_batch))),
          (λ h. rw (e, tag_set_batch, tag_set_each_tags ns updates s)),
          (λ h. absurd (h (rw (e, tag_set_batch)))),
        )
        | inr (x, e) ↦
            let failed = check_updates_err ns.uuid s.tags updates (λ h. absurd cc) in
            (
              ((λ h. absurd cc), (λ h. rw (checked.1 h, tag_set_batch))),
              (λ h. absurd cc),
              (λ h. (rw (failed, tag_set_batch), rw (e, tag_set_batch))),
            )
      ]
