-- ===== src/Kappa/Path/Tests.antt =====
-- The paths of two texts, and the theorems at one.
use kappa_registry.Prelude.{◌≡◌, ◌↔◌, refl, List, [], ◌∷◌, Bytes, codes}
use kappa_registry.Kappa.Label.{is_hex, position_colon}
use kappa_registry.Kappa.Path.{split_kappa, only_hex, shard_path, blob_path_for}
use kappa_registry.Kappa.Path.Layout.{IsSharded, blob_path_for_iff}
use kappa_registry.Store.Types.{ok, err, rejected}

abbrev text : Bytes
text = codes "sha1:da39a3"

abbrev path : List Bytes
path = codes "sha1" ∷ codes "da" ∷ codes "39" ∷ codes "da39a3" ∷ []

path_run : blob_path_for text ≡ ok path
unfolding blob_path_for split_kappa shard_path only_hex is_hex position_colon
path_run = refl

parent_run :
    blob_path_for (codes "../x:da39a3")
    ≡ ok (codes "../x" ∷ codes "da" ∷ codes "39" ∷ codes "da39a3" ∷ [])
unfolding blob_path_for split_kappa shard_path only_hex is_hex position_colon
parent_run = refl

dots_run : blob_path_for (codes "sha1:..9a3") ≡ err rejected
unfolding blob_path_for split_kappa shard_path only_hex is_hex position_colon
dots_run = refl

blob_path_for_iff_example : (blob_path_for text ≡ ok path) ↔ IsSharded text path
blob_path_for_iff_example = blob_path_for_iff text path
