-- ===== src/Store/Tags/Tests.antt =====
-- A batch of two tags and a sequence over a toy digest, and the theorems at these inputs.
use kappa_registry.Prelude.{◌≡◌, ◌≢◌, ◌↔◌, refl, if◌then◌else◌, some, none, List}
use kappa_registry.Prelude.{[], ◌∷◌, Bytes, codes, replicate, All}
use kappa_registry.Dict.{get, insert, remove, pair_eq, bytes_key, pair_key}
use kappa_registry.Store.Types.{ok, err, conflict}
use kappa_registry.Store.Namespaces.{NamespaceRef}
use kappa_registry.Store.Tags.{TagUpdate, TagStore, item_hash, tag_set, tag_get}
use kappa_registry.Store.Tags.{tag_set_batch, next_version}
use kappa_registry.Store.Tags.{namespace_hash, from_le_bytes, put_tag, check_updates}
use kappa_registry.Store.Tags.{version_agrees, version_or_zero}
use kappa_registry.Store.Tags.Laws.{tag_get-tag_set}
use kappa_registry.Store.Tags.Batch.{tag_set_each, Expects, tag_set_batch_lem}

abbrev toy : Bytes → Bytes
toy [] = replicate 32 0
toy (b ∷ bs) = replicate 32 b

abbrev here_ns : NamespaceRef
here_ns = record { uuid = 1 ∷ []; display_name = none }

abbrev stored : TagStore
stored = record {
  namespaces = record { ns_aliases = []; ns_records = [] };
  tags =
      (
        (1 ∷ [], item_hash toy (codes "a")),
        record { name = codes "a"; kappa = codes "k"; version = 4 },
      )
      ∷ [];
  sequences = [];
}

abbrev both : List TagUpdate
both =
    record { name = codes "a"; kappa = codes "l"; expected_version = some 4 }
    ∷ record { name = codes "b"; kappa = codes "m"; expected_version = some 0 }
    ∷ []

batch_run : (tag_set_batch toy here_ns both stored).1 ≡ ok tt
unfolding tag_set_batch check_updates version_agrees version_or_zero get item_hash namespace_hash
    from_le_bytes
batch_run = refl

stale_run :
    (tag_set_batch toy here_ns both (tag_set toy here_ns (codes "b") (codes "n") stored).0).1
    ≡ err conflict
unfolding tag_set_batch check_updates version_agrees version_or_zero get item_hash namespace_hash
    from_le_bytes tag_set put_tag next_version insert remove
stale_run = refl

set_run : (tag_set toy here_ns (codes "a") (codes "l") stored).1 ≡ ok 5
unfolding tag_set get item_hash namespace_hash from_le_bytes next_version
set_run = refl

tag_get-tag_set_example :
    tag_get toy here_ns (codes "b") (tag_set toy here_ns (codes "a") (codes "l") stored).0 ≡ (
      if pair_eq (1 ∷ [], item_hash toy (codes "a")) (1 ∷ [], item_hash toy (codes "b"))
      then ok (record { name = codes "a"; kappa = codes "l"; version = 5 })
      else tag_get toy here_ns (codes "b") stored)
tag_get-tag_set_example =
    tag_get-tag_set toy here_ns here_ns (codes "a") (codes "b") (codes "l") stored 5 set_run

tag_set_batch_lem_example :
    (((tag_set_batch toy here_ns both stored).1 ≡ ok tt) ↔ All (Expects toy here_ns stored) both)
    × ((tag_set_batch toy here_ns both stored).1 ≡ ok tt
        → (tag_set_batch toy here_ns both stored).0 ≡ tag_set_each toy here_ns both stored)
    × ((tag_set_batch toy here_ns both stored).1 ≢ ok tt
        → ((tag_set_batch toy here_ns both stored).1 ≡ err conflict)
          × ((tag_set_batch toy here_ns both stored).0.tags ≡ stored.tags))
tag_set_batch_lem_example = tag_set_batch_lem toy here_ns both stored
