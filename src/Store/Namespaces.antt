-- ===== src/Store/Namespaces.antt =====
-- The namespace methods of `InMemoryStore` (crates/kappa-core/src/store/memory/mod.rs): the alias
-- table and the records. A fresh uuid and the time come in as arguments. A record is kept under its
-- uuid, so the hex copy of the uuid inside it is left out, and so is the protocol hint of a reference,
-- which these methods neither read nor set.
pub mod Errors
pub mod Rename
pub mod Delete
use kappa_registry.Prelude.{ℕ, Bool, true, false, not, if◌then◌else◌, Option, none, some, List, []}
use kappa_registry.Prelude.{◌∷◌, ◌++◌, Bytes, bytes_eq}
use kappa_registry.Dict.{Dict, get, insert, remove, contains_key, bytes_key}
use kappa_registry.Store.Types.{Result, ok, err, not_found, conflict, rejected}

pub record NamespaceRef : Type 0 where
  pub uuid : Bytes
  pub display_name : Option Bytes

pub record NamespaceRecord : Type 0 where
  pub owner : Bytes
  pub created_at_ms : ℕ
  pub protocol : Option Bytes
  pub aliases : List Bytes
  pub tombstoned : Bool

pub record Namespaces : Type 0 where
  pub ns_aliases : Dict Bytes Bytes
  pub ns_records : Dict Bytes NamespaceRecord

unfoldable pub alias_key : Bytes → Option Bytes → Bytes
alias_key name (some p) = p ++ (b':' ∷ name)
alias_key name none = name

unfoldable pub name_or_empty : Option Bytes → Bytes
name_or_empty none = []
name_or_empty (some name) = name

-- The record and the alias that `ensure_namespace` makes of a name, if it is not empty.
unfoldable pub add_named : Bytes → Bytes → Namespaces → Namespaces
add_named uuid [] s = record s {
  ns_records =
      insert s.ns_records uuid (record {
        owner = [];
        created_at_ms = 0;
        protocol = none;
        aliases = [];
        tombstoned = false;
      });
}
add_named uuid (c ∷ name) s = record {
  ns_aliases = insert s.ns_aliases (c ∷ name) uuid;
  ns_records = insert s.ns_records uuid (record {
    owner = [];
    created_at_ms = 0;
    protocol = none;
    aliases = (c ∷ name) ∷ [];
    tombstoned = false;
  });
}

unfoldable pub ensure_namespace : NamespaceRef → Namespaces → Namespaces
ensure_namespace ns s =
    if contains_key s.ns_records ns.uuid
    then s
    else add_named ns.uuid (name_or_empty ns.display_name) s

abbrev pub Outcome : Type 0 → Type 0
Outcome A = Namespaces × Result A

unfoldable pub namespace_create :
    Bytes → Bytes → Option Bytes → Bytes → ℕ → Namespaces → Outcome NamespaceRef
namespace_create name owner protocol uuid now_ms s =
    if contains_key s.ns_aliases (alias_key name protocol) then (s, err conflict) else (
      record {
        ns_aliases = insert s.ns_aliases (alias_key name protocol) uuid;
        ns_records = insert s.ns_records uuid (record {
          owner = owner;
          created_at_ms = now_ms;
          protocol = protocol;
          aliases = name ∷ [];
          tombstoned = false;
        });
      },
      ok (record { uuid = uuid; display_name = some name }),
    )

unfoldable pub namespace_resolve : Bytes → Option Bytes → Namespaces → Result NamespaceRef
namespace_resolve name protocol s = elim (get s.ns_aliases (alias_key name protocol)) [
  | none ↦ err not_found
  | some uuid ↦ ok (record { uuid = uuid; display_name = some name })
]

-- `Ok(ns)` is returned, `NotFound` creates, and a `Conflict` of the creation resolves again.
unfoldable pub namespace_resolve_or_create :
    Bytes → Bytes → Option Bytes → Bytes → ℕ → Namespaces → Outcome NamespaceRef
namespace_resolve_or_create name owner protocol uuid now_ms s =
    elim (namespace_resolve name protocol s) [
      | ok ns ↦ (s, ok ns)
      | err not_found ↦
          let made = namespace_create name owner protocol uuid now_ms s in
          elim made.1 [ err conflict ↦ (made.0, namespace_resolve name protocol made.0) | _ ↦ made ]
      | err e ↦ (s, err e)
    ]

unfoldable pub namespace_exists : Bytes → Option Bytes → Namespaces → Bool
namespace_exists name protocol s = contains_key s.ns_aliases (alias_key name protocol)

-- `aliases.retain(|a| a != name)`
unfoldable pub without_name : Bytes → List Bytes → List Bytes
without_name name [] = []
without_name name (a ∷ aliases) =
    let rest = without_name name aliases in if bytes_eq a name then rest else a ∷ rest

-- The alias table of a rename, after the record was changed or found missing.
unfoldable pub move_alias : Bytes → Bytes → Bytes → Namespaces → Outcome (Unit {0})
move_alias old_key new_key uuid s =
    (record s { ns_aliases = insert (remove s.ns_aliases old_key) new_key uuid }, ok tt)

unfoldable pub rename_record :
    Bytes → Bytes → Bytes → Bytes → Bytes → Bytes → Namespaces → Outcome (Unit {0})
rename_record old_name new_name actor old_key new_key uuid s = elim (get s.ns_records uuid) [
  | none ↦ move_alias old_key new_key uuid s
  | some r ↦
      if bytes_eq r.owner actor
      then move_alias old_key new_key uuid (record s {
        ns_records =
            insert s.ns_records uuid
              (record r { aliases = without_name old_name r.aliases ++ (new_name ∷ []) });
      })
      else (s, err rejected)
]

unfoldable pub namespace_rename :
    Bytes → Bytes → Bytes → Option Bytes → Namespaces → Outcome (Unit {0})
namespace_rename old_name new_name actor protocol s =
    let old_key = alias_key old_name protocol in
    let new_key = alias_key new_name protocol in
    elim (get s.ns_aliases old_key) [
      | none ↦ (s, err not_found)
      | some uuid ↦
          if contains_key s.ns_aliases new_key
          then (s, err conflict)
          else rename_record old_name new_name actor old_key new_key uuid s
    ]

-- `aliases.contains(&alias)`
unfoldable pub has_name : Bytes → List Bytes → Bool
has_name name [] = false
has_name name (a ∷ aliases) = if bytes_eq a name then true else has_name name aliases

unfoldable pub namespace_add_alias :
    Bytes → Bytes → Bytes → Option Bytes → Namespaces → Outcome (Unit {0})
namespace_add_alias uuid alias actor protocol s =
    let key = alias_key alias protocol in
    if contains_key s.ns_aliases key then (s, err conflict) else elim (get s.ns_records uuid) [
      | none ↦ (s, err not_found)
      | some r ↦
          if bytes_eq r.owner actor
          then (
            record {
              ns_aliases = insert s.ns_aliases key uuid;
              ns_records = insert s.ns_records uuid (record r {
                aliases = if has_name alias r.aliases then r.aliases else r.aliases ++ (alias ∷ []);
              });
            },
            ok tt,
          )
          else (s, err rejected)
    ]

-- `resolve` is `identity_succession_resolve` of the same store.
unfoldable pub namespace_transfer :
    (Bytes → Result Bytes) → Bytes → Bytes → Bytes → Namespaces → Outcome (Unit {0})
namespace_transfer resolve uuid new_owner actor s = elim (get s.ns_records uuid) [
  | none ↦ (s, err not_found)
  | some r ↦
      let moved : Outcome (Unit {0}) = (
        record s { ns_records = insert s.ns_records uuid (record r { owner = new_owner }) },
        ok tt,
      ) in
      if bytes_eq r.owner actor then moved else elim (resolve r.owner) [
        | err e ↦ (s, err e)
        | ok successor ↦ if bytes_eq successor actor then moved else (s, err rejected)
      ]
]

unfoldable pub namespace_info : Bytes → Option Bytes → Namespaces → Result NamespaceRecord
namespace_info name protocol s = elim (get s.ns_aliases (alias_key name protocol)) [
  | none ↦ err not_found
  | some uuid ↦ elim (get s.ns_records uuid) [ none ↦ err not_found | some r ↦ ok r ]
]

-- `for alias_name in record.aliases.clone()`
unfoldable pub remove_aliases : Option Bytes → List Bytes → Dict Bytes Bytes → Dict Bytes Bytes
remove_aliases protocol [] table = table
remove_aliases none (name ∷ aliases) table = remove_aliases none aliases (remove table name)
remove_aliases (some p) (name ∷ aliases) table =
    remove_aliases (some p) aliases (remove (remove table name) (alias_key name (some p)))

unfoldable pub namespace_delete : Bytes → Bytes → Option Bytes → Namespaces → Outcome (Unit {0})
namespace_delete name actor protocol s = elim (get s.ns_aliases (alias_key name protocol)) [
  | none ↦ (s, err not_found)
  | some uuid ↦ elim (get s.ns_records uuid) [
    | none ↦ (s, err not_found)
    | some r ↦
        if bytes_eq r.owner actor
        then (
          record {
            ns_aliases = remove_aliases r.protocol r.aliases s.ns_aliases;
            ns_records = insert s.ns_records uuid (record r { tombstoned = true });
          },
          ok tt,
        )
        else (s, err rejected)
  ]
]
