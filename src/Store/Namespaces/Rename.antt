-- ===== src/Store/Namespaces/Rename.antt =====
-- A successful rename moves one alias.
use kappa_registry.Prelude.{◌≡◌, arith, inl, inr, if◌then◌else◌}
use kappa_registry.Prelude.{Option, none, some, Bytes, bytes_eq, Option-cases}
use kappa_registry.Dict.{Dict, get, insert, remove, contains_key, bytes_key, get-remove, get-insert}
use kappa_registry.Store.Types.{ok}
use kappa_registry.Store.Namespaces.{Namespaces, alias_key, move_alias}
use kappa_registry.Store.Namespaces.{rename_record, namespace_rename}

moved-get :
    (old_key new_key uuid j : Bytes) (table : Dict Bytes Bytes)
    → get (insert (remove table old_key) new_key uuid) j
      ≡ (if bytes_eq new_key j then some uuid else if bytes_eq old_key j then none else get table j)
moved-get old_key new_key uuid j table =
    ground (arith, get-insert (remove table old_key) new_key j uuid, get-remove table old_key j)

-- After a rename that succeeds the new alias names the namespace that the old alias named, the old
-- alias names none, and every other alias names what it named.
pub namespace_rename-aliases :
    (old_name new_name actor j : Bytes) (protocol : Option Bytes) (s : Namespaces)
    → (namespace_rename old_name new_name actor protocol s).1 ≡ ok tt
    → (uuid : Bytes) × (get s.ns_aliases (alias_key old_name protocol) ≡ some uuid)
      × (get s.ns_aliases (alias_key new_name protocol) ≡ none)
      × (get (namespace_rename old_name new_name actor protocol s).0.ns_aliases j ≡ (
          if bytes_eq (alias_key new_name protocol) j
          then some uuid
          else if bytes_eq (alias_key old_name protocol) j
          then none
          else get s.ns_aliases j))
unfolding namespace_rename rename_record move_alias contains_key
namespace_rename-aliases old_name new_name actor j protocol s h =
    elim (Option-cases (get s.ns_aliases (alias_key old_name protocol))) [
      | inl missing ↦ absurd (ground arith)
      | inr (uuid, found) ↦
          let old_key = alias_key old_name protocol in
          let new_key = alias_key new_name protocol in
          let after = (namespace_rename old_name new_name actor protocol s).0.ns_aliases in
          let table : after ≡ insert (remove s.ns_aliases old_key) new_key uuid = ground arith in
          (uuid, found, ground arith, rw table (moved-get old_key new_key uuid j s.ns_aliases))
    ]
