-- ===== src/Store/Tests.antt =====
-- Runs on a store with two namespaces of one name and on a chain of successions, and the theorems at
-- these inputs.
use kappa_registry.Prelude.{ℕ, ◌≤◌, ◌≡◌, ◌≢◌, ◌↔◌, ◌⊎◌, refl, arith, false, if◌then◌else◌}
use kappa_registry.Prelude.{some, none, [], ◌∷◌, Bytes, bytes_eq, codes}
use kappa_registry.Dict.{get, insert, remove, contains_key, bytes_key}
use kappa_registry.Store.Types.{Result, ok, err, conflict, not_found}
use kappa_registry.Store.Namespaces.{NamespaceRecord, Namespaces, alias_key}
use kappa_registry.Store.Namespaces.{namespace_create, namespace_resolve, namespace_rename}
use kappa_registry.Store.Namespaces.{rename_record, move_alias, namespace_add_alias}
use kappa_registry.Store.Namespaces.{namespace_transfer, namespace_delete}
use kappa_registry.Store.Namespaces.Errors.{error_changes_nothing, success_is_authorized}
use kappa_registry.Store.Namespaces.Rename.{namespace_rename-aliases}
use kappa_registry.Store.Namespaces.Delete.{delete_takes_plain_alias}
use kappa_registry.Store.Succession.{Successions, identity_succession_resolve}
use kappa_registry.Store.Succession.Resolve.{Succeeds, resolve_iff}

abbrev name : Bytes
name = codes "n"

abbrev proto : Bytes
proto = codes "p"

abbrev alice : Bytes
alice = codes "alice"

abbrev scoped_record : NamespaceRecord
scoped_record = record {
  owner = alice;
  created_at_ms = 2;
  protocol = some proto;
  aliases = name ∷ [];
  tombstoned = false;
}

abbrev plain_record : NamespaceRecord
plain_record = record {
  owner = codes "bob";
  created_at_ms = 1;
  protocol = none;
  aliases = name ∷ [];
  tombstoned = false;
}

abbrev two : Namespaces
two = record {
  ns_aliases = (codes "p:n", 2 ∷ []) ∷ (name, 1 ∷ []) ∷ [];
  ns_records = (2 ∷ [], scoped_record) ∷ (1 ∷ [], plain_record) ∷ [];
}

abbrev nobody : Bytes → Result Bytes
nobody anchor = ok anchor

created_run :
    (namespace_create name alice
      (some proto)
      (2 ∷ [])
      2
      (namespace_create name
        (codes "bob")
        none
        (1 ∷ [])
        1
        (record { ns_aliases = []; ns_records = [] })).0).0
    ≡ two
unfolding namespace_create alias_key contains_key get insert remove
created_run = refl

error_changes_nothing_example :
    ((namespace_create name alice none (3 ∷ []) 3 two).1 ≡ err conflict
      → (namespace_create name alice none (3 ∷ []) 3 two).0 ≡ two)
    × ((namespace_rename name (codes "m") alice none two).1 ≡ err conflict
        → (namespace_rename name (codes "m") alice none two).0 ≡ two)
    × ((namespace_add_alias (3 ∷ []) name alice none two).1 ≡ err conflict
        → (namespace_add_alias (3 ∷ []) name alice none two).0 ≡ two)
    × ((namespace_transfer nobody (3 ∷ []) (codes "m") alice two).1 ≡ err conflict
        → (namespace_transfer nobody (3 ∷ []) (codes "m") alice two).0 ≡ two)
    × ((namespace_delete name alice none two).1 ≡ err conflict
        → (namespace_delete name alice none two).0 ≡ two)
error_changes_nothing_example =
    error_changes_nothing nobody name (codes "m") alice (3 ∷ []) none 3 conflict two

success_is_authorized_example :
    ((namespace_add_alias (2 ∷ []) name alice (some proto) two).1 ≡ ok tt
      → (r : NamespaceRecord) × (get two.ns_records (2 ∷ []) ≡ some r) × (r.owner ≡ alice))
    × ((namespace_transfer nobody (2 ∷ []) (codes "m") alice two).1 ≡ ok tt
        → (r : NamespaceRecord) × (get two.ns_records (2 ∷ []) ≡ some r)
          × ((r.owner ≡ alice) ⊎ (nobody r.owner ≡ ok alice)))
    × ((namespace_delete name alice (some proto) two).1 ≡ ok tt
        → (u : Bytes) × (r : NamespaceRecord) × (get two.ns_aliases (alias_key name (some proto))
            ≡ some u)
          × (get two.ns_records u ≡ some r)
          × (r.owner ≡ alice))
success_is_authorized_example =
    success_is_authorized nobody name (codes "m") alice (2 ∷ []) (some proto) two

rename_run : (namespace_rename name (codes "m") alice (some proto) two).1 ≡ ok tt
unfolding namespace_rename rename_record move_alias alias_key contains_key get insert remove
rename_run = refl

namespace_rename-aliases_example :
    (uuid : Bytes) × (get two.ns_aliases (alias_key name (some proto)) ≡ some uuid)
    × (get two.ns_aliases (alias_key (codes "m") (some proto)) ≡ none)
    × (get (namespace_rename name (codes "m") alice (some proto) two).0.ns_aliases name ≡ (
        if bytes_eq (alias_key (codes "m") (some proto)) name
        then some uuid
        else if bytes_eq (alias_key name (some proto)) name
        then none
        else get two.ns_aliases name))
namespace_rename-aliases_example =
    namespace_rename-aliases name (codes "m") alice name (some proto) two rename_run

scoped_named : get two.ns_aliases (alias_key name (some proto)) ≡ some (2 ∷ [])
unfolding get alias_key
scoped_named = refl

scoped_found : get two.ns_records (2 ∷ []) ≡ some scoped_record
unfolding get
scoped_found = refl

plain_named : get two.ns_aliases name ≡ some (1 ∷ [])
unfolding get
plain_named = refl

delete_takes_plain_alias_example :
    (namespace_resolve name none two ≡ ok (record { uuid = 1 ∷ []; display_name = some name }))
    × ((namespace_delete name alice (some proto) two).1 ≡ ok tt)
    × (namespace_resolve name none (namespace_delete name alice (some proto) two).0 ≡ err not_found)
    × (get (namespace_delete name alice (some proto) two).0.ns_records (1 ∷ [])
        ≡ get two.ns_records (1 ∷ []))
delete_takes_plain_alias_example =
    delete_takes_plain_alias two name alice proto (2 ∷ []) (1 ∷ []) scoped_record scoped_named
      scoped_found refl refl refl plain_named (λ e. ground arith)

-- The anchors 0 to 10, each succeeded by the next.
abbrev chained : Successions
chained =
    (0 ∷ [], 1 ∷ [])
    ∷ (1 ∷ [], 2 ∷ [])
    ∷ (2 ∷ [], 3 ∷ [])
    ∷ (3 ∷ [], 4 ∷ [])
    ∷ (4 ∷ [], 5 ∷ [])
    ∷ (5 ∷ [], 6 ∷ [])
    ∷ (6 ∷ [], 7 ∷ [])
    ∷ (7 ∷ [], 8 ∷ [])
    ∷ (8 ∷ [], 9 ∷ [])
    ∷ (9 ∷ [], 10 ∷ [])
    ∷ []

resolve_iff_example :
    (identity_succession_resolve chained (1 ∷ []) ≢ none)
    × ((identity_succession_resolve chained (1 ∷ []) ≡ some (ok (10 ∷ [])))
        ↔ ((n : ℕ) × (n ≤ 9) × Succeeds chained (1 ∷ []) n (10 ∷ [])))
resolve_iff_example = resolve_iff chained (1 ∷ []) (10 ∷ [])
