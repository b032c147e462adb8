-- ===== src/Store/Tags/Laws.antt =====
-- What setting and deleting a tag does to every tag, and drawing from a sequence to every sequence.
use kappa_registry.Prelude.{ℕ, ◌+◌, ◌%◌, ◌^◌, ◌≡◌, arith, if◌then◌else◌, Bytes}
use kappa_registry.Dict.{get, get-remove, get-insert, pair_key, pair_eq}
use kappa_registry.Store.Types.{ok, err, not_found}
use kappa_registry.Store.Namespaces.{NamespaceRef}
use kappa_registry.Store.Tags.{TagStore, next_version, item_hash, put_tag, tag_set}
use kappa_registry.Store.Tags.{tag_get, tag_delete, sequence_next, sequence_current, sequence_value}

module _ (blake3 : Bytes → Bytes) where
  -- The key of a tag or a sequence.
  abbrev item_key : NamespaceRef → Bytes → Bytes × ℕ
  item_key ns name = (ns.uuid, item_hash blake3 name)

  -- After a `tag_set`, reading a name whose hash in its namespace is that of the tag gives the new
  -- entry, with the version that `tag_set` returned; reading any other name gives what it gave before.
  pub tag_get-tag_set :
      (ns ns' : NamespaceRef) (name name' kappa : Bytes) (s : TagStore) (version : ℕ)
      → (tag_set blake3 ns name kappa s).1 ≡ ok version
      → tag_get blake3 ns' name' (tag_set blake3 ns name kappa s).0 ≡ (
          if pair_eq (item_key ns name) (item_key ns' name')
          then ok (record { name = name; kappa = kappa; version = version })
          else tag_get blake3 ns' name' s)
  unfolding tag_get tag_set put_tag
  tag_get-tag_set ns ns' name name' kappa s version h = ground (
    arith,
    get-insert s.tags (item_key ns name) (item_key ns' name') (record {
      name = name;
      kappa = kappa;
      version = next_version (get s.tags (item_key ns name));
    }),
  )

  -- After a `tag_delete`, reading a name whose hash in its namespace is that of the tag finds nothing,
  -- and reading any other name gives what it gave before.
  pub tag_get-tag_delete :
      (ns ns' : NamespaceRef) (name name' : Bytes) (s : TagStore)
      → tag_get blake3 ns' name' (tag_delete blake3 ns name s).0 ≡ (
          if pair_eq (item_key ns name) (item_key ns' name')
          then err not_found
          else tag_get blake3 ns' name' s)
  unfolding tag_get tag_delete
  tag_get-tag_delete ns ns' name name' s =
      ground (arith, get-remove s.tags (item_key ns name) (item_key ns' name'))

  -- `sequence_next` returns one more than the sequence stood at, modulo 2 ^ 64, and leaves it there;
  -- a sequence of another key stands where it stood.
  pub sequence_current-sequence_next :
      (ns ns' : NamespaceRef) (name name' : Bytes) (s : TagStore)
      → ((sequence_next blake3 ns name s).1 ≡ (sequence_current blake3 ns name s + 1) % 2 ^ 64)
        × (sequence_current blake3 ns' name' (sequence_next blake3 ns name s).0 ≡ (
            if pair_eq (item_key ns name) (item_key ns' name')
            then (sequence_next blake3 ns name s).1
            else sequence_current blake3 ns' name' s))
  unfolding sequence_current sequence_next sequence_value
  sequence_current-sequence_next ns ns' name name' s = (
    ground arith,
    ground (
      arith,
      get-insert s.sequences (item_key ns name) (item_key ns' name')
          ((sequence_value (get s.sequences (item_key ns name)) + 1) % 2 ^ 64),
    ),
  )
