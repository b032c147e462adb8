-- ===== src/Store/Tags.antt =====
-- Tags and sequences of `InMemoryStore` (crates/kappa-core/src/store/memory/mod.rs), with `item_hash`
-- and `namespace_hash` of crates/kappa-core/src/types.rs. BLAKE3 is the parameter `blake3` (the
-- crate blake3). Versions and counters are
-- 64-bit numbers, which wrap around.
pub mod Laws
pub mod Batch
mod Tests
use kappa_registry.Prelude.{
  ℕ, zero, suc, ◌+◌, ◌*◌, ◌%◌, ◌^◌, ◌==◌, Bool, true, false, if◌then◌else◌,
}
use kappa_registry.Prelude.{Option, none, some, List, [], ◌∷◌, Bytes, take}
use kappa_registry.Dict.{Dict, get, insert, remove, pair_key}
use kappa_registry.Store.Types.{Result, ok, err, not_found, conflict}
use kappa_registry.Store.Namespaces.{NamespaceRef, Namespaces, ensure_namespace}

pub record TagEntry : Type 0 where
  pub name : Bytes
  pub kappa : Bytes
  pub version : ℕ

pub record TagUpdate : Type 0 where
  pub name : Bytes
  pub kappa : Bytes
  pub expected_version : Option ℕ

abbrev pub TagTable : Type 0
TagTable = Dict (Bytes × ℕ) TagEntry

-- The part of the store that these methods read and write.
pub record TagStore : Type 0 where
  pub namespaces : Namespaces
  pub tags : TagTable
  pub sequences : Dict (Bytes × ℕ) ℕ

-- `u64::from_le_bytes`
unfoldable pub from_le_bytes : Bytes → ℕ
from_le_bytes [] = 0
from_le_bytes (b ∷ bytes) = b + 256 * from_le_bytes bytes

-- `.map(|e| e.version).unwrap_or(0)`
unfoldable pub version_or_zero : Option TagEntry → ℕ
version_or_zero none = 0
version_or_zero (some e) = e.version

-- `.map(|e| e.version + 1).unwrap_or(1)`
unfoldable pub next_version : Option TagEntry → ℕ
next_version none = 1
next_version (some e) = (e.version + 1) % 2 ^ 64

-- The counter of a sequence, zero when it was never drawn from.
unfoldable pub sequence_value : Option ℕ → ℕ
sequence_value none = 0
sequence_value (some n) = n

module _ (blake3 : Bytes → Bytes) where
  unfoldable pub namespace_hash : Bytes → ℕ
  namespace_hash ns = from_le_bytes (take 8 (blake3 ns))

  unfoldable pub item_hash : Bytes → ℕ
  item_hash name = namespace_hash name

  -- `tags.insert(key, TagEntry { .. })`
  unfoldable pub put_tag : Bytes → Bytes → Bytes → TagTable → TagTable
  put_tag uuid name kappa tags =
      insert tags (uuid, item_hash name)
        (record {
          name = name;
          kappa = kappa;
          version = next_version (get tags (uuid, item_hash name));
        })

  unfoldable pub tag_set : NamespaceRef → Bytes → Bytes → TagStore → TagStore × Result ℕ
  tag_set ns name kappa s = (
    record s {
      namespaces = ensure_namespace ns s.namespaces;
      tags = put_tag ns.uuid name kappa s.tags;
    },
    ok (next_version (get s.tags (ns.uuid, item_hash name))),
  )

  unfoldable pub tag_get : NamespaceRef → Bytes → TagStore → Result TagEntry
  tag_get ns name s = elim (get s.tags (ns.uuid, item_hash name)) [
    | none ↦ err not_found
    | some e ↦ ok e
  ]

  unfoldable pub tag_delete : NamespaceRef → Bytes → TagStore → TagStore × Result (Unit {0})
  tag_delete ns name s = (record s { tags = remove s.tags (ns.uuid, item_hash name) }, ok tt)

  -- `expected != current`, where a version is expected.
  unfoldable pub version_agrees : Bytes → TagUpdate → TagTable → Bool
  version_agrees uuid u tags = elim u.expected_version [
    | none ↦ true
    | some expected ↦ expected == version_or_zero (get tags (uuid, item_hash u.name))
  ]

  -- The first loop of `tag_set_batch`, which only reads.
  unfoldable pub check_updates : Bytes → List TagUpdate → TagTable → Result (Unit {0})
  check_updates uuid [] tags = ok tt
  check_updates uuid (u ∷ updates) tags =
      let rest = check_updates uuid updates tags in
      if version_agrees uuid u tags then rest else err conflict

  -- The second loop.
  unfoldable pub apply_updates : Bytes → List TagUpdate → TagTable → TagTable
  apply_updates uuid [] tags = tags
  apply_updates uuid (u ∷ updates) tags =
      apply_updates uuid updates (put_tag uuid u.name u.kappa tags)

  unfoldable pub tag_set_batch :
      NamespaceRef → List TagUpdate → TagStore → TagStore × Result (Unit {0})
  tag_set_batch ns updates s =
      let ready : TagStore = record s { namespaces = ensure_namespace ns s.namespaces } in
      elim (check_updates ns.uuid updates s.tags) [
        | err e ↦ (ready, err e)
        | ok _ ↦ (record ready { tags = apply_updates ns.uuid updates s.tags }, ok tt)
      ]

  unfoldable pub sequence_current : NamespaceRef → Bytes → TagStore → ℕ
  sequence_current ns name s = sequence_value (get s.sequences (ns.uuid, item_hash name))

  unfoldable pub sequence_next : NamespaceRef → Bytes → TagStore → TagStore × ℕ
  sequence_next ns name s =
      let n = (sequence_value (get s.sequences (ns.uuid, item_hash name)) + 1) % 2 ^ 64 in
      (
        record s {
          namespaces = ensure_namespace ns s.namespaces;
          sequences = insert s.sequences (ns.uuid, item_hash name) n;
        },
        n,
      )
