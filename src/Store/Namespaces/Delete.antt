-- ===== src/Store/Namespaces/Delete.antt =====
-- Deleting a namespace of a protocol also removes the alias without a protocol of the same name,
-- whichever namespace that alias names.
use kappa_registry.Prelude.{◌≡◌, ◌≢◌, arith, true, false, inl, inr, ap}
use kappa_registry.Prelude.{none, some, [], ◌∷◌, ◌++◌, Bytes, bytes_eq}
use kappa_registry.Prelude.{bytes_eq_iff, bytes_eq_refl, length, length-append, Bool-cases}
use kappa_registry.Dict.{Dict, get, insert, remove, bytes_key, get-remove, get-insert}
use kappa_registry.Store.Types.{ok, err, not_found}
use kappa_registry.Store.Namespaces.{Namespaces, NamespaceRecord, alias_key}
use kappa_registry.Store.Namespaces.{namespace_resolve, namespace_delete}
use kappa_registry.Store.Namespaces.{remove_aliases}

-- A scoped key is longer than its name.
scoped_ne : (name p : Bytes) → bytes_eq (alias_key name (some p)) name ≡ false
unfolding alias_key
scoped_ne name p = elim (Bool-cases (bytes_eq (p ++ (b':' ∷ name)) name)) [
  | inl same ↦
      let e = (bytes_eq_iff (p ++ (b':' ∷ name)) name).0 same in
      absurd (omega (arith, ap length e, length-append p (b':' ∷ name)))
  | inr differ ↦ differ
]

scoped_ne_rev : (name p : Bytes) → bytes_eq name (alias_key name (some p)) ≡ false
scoped_ne_rev name p = ground (
  arith,
  scoped_ne name p,
  bytes_eq_iff (alias_key name (some p)) name,
  bytes_eq_iff name (alias_key name (some p)),
)

-- What `namespace_delete` does to a namespace that is found and owned.
delete_owned :
    (s : Namespaces) (name actor p u : Bytes) (r : NamespaceRecord)
    → get s.ns_aliases (alias_key name (some p)) ≡ some u
    → get s.ns_records u ≡ some r
    → r.owner ≡ actor
    → namespace_delete name actor (some p) s ≡ (
      record {
        ns_aliases = remove_aliases r.protocol r.aliases s.ns_aliases;
        ns_records = insert s.ns_records u (record r { tombstoned = true });
      },
      ok tt,
    )
unfolding namespace_delete
delete_owned s name actor p u r named found own = ground (arith, bytes_eq_iff r.owner actor)

removed_plain :
    (table : Dict Bytes Bytes) (name p : Bytes)
    → get (remove_aliases (some p) (name ∷ []) table) name ≡ none
unfolding remove_aliases
removed_plain table name p = ground (
  arith,
  get-remove (remove table name) (alias_key name (some p)) name,
  get-remove table name name,
  scoped_ne name p,
  bytes_eq_refl name,
)

module _ (s : Namespaces) (name actor p u v : Bytes) (r : NamespaceRecord)
    (named : get s.ns_aliases (alias_key name (some p)) ≡ some u)
    (found : get s.ns_records u ≡ some r) (own : r.owner ≡ actor) (scoped : r.protocol ≡ some p)
    (only : r.aliases ≡ name ∷ []) (plain : get s.ns_aliases name ≡ some v) (other : v ≢ u) where
  -- Take a namespace whose one alias is scoped to a protocol, and another namespace that the same
  -- name without a protocol resolves to. When the owner of the first deletes it, the name without a
  -- protocol resolves to nothing, though the record of the second is unchanged.
  pub delete_takes_plain_alias :
      (namespace_resolve name none s ≡ ok (record { uuid = v; display_name = some name }))
      × ((namespace_delete name actor (some p) s).1 ≡ ok tt)
      × (namespace_resolve name none (namespace_delete name actor (some p) s).0 ≡ err not_found)
      × (get (namespace_delete name actor (some p) s).0.ns_records v ≡ get s.ns_records v)
  unfolding namespace_resolve alias_key
  delete_takes_plain_alias =
      let e = delete_owned s name actor p u r named found own in
      let gone : get (remove_aliases r.protocol r.aliases s.ns_aliases) name ≡ none =
        rw (scoped, only) (removed_plain s.ns_aliases name p) in
      (
        rw (plain, namespace_resolve),
        rw e,
        rw e (rw (gone, namespace_resolve)),
        rw e (
            ground (
              arith,
              get-insert s.ns_records u v (record r { tombstoned = true }),
              bytes_eq_iff u v,
            )),
      )
