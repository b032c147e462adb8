-- ===== src/Store/Blobs.antt =====
-- The blob methods of crates/kappa-core/src/store/memory/mod.rs. The disk is a table from paths, as
-- lists of parts below the root, to contents; a file that is there can be read. What the disk does on a
-- write is an argument: it works, or one of its three steps fails.
pub mod Sound
use kappa_registry.Prelude.{ℕ, ◌≡◌, ◌↔◌, refl, arith, Bool, true, false, ◌&&◌, if◌then◌else◌}
use kappa_registry.Prelude.{
  Option, none, some, List, [], ◌∷◌, ◌++◌, Bytes, bytes_eq, bytes_eq_iff, codes, length,
}
use kappa_registry.Dict.{Eq, Dict, get, insert, remove, contains_key}
use kappa_registry.Kappa.Label.{as_str}
use kappa_registry.Kappa.Path.{blob_path_for}
use kappa_registry.Kappa.Verified.{VerifiedContent}
use kappa_registry.Store.Types.{Result, ok, err, ◌>>=◌, io, not_found}

abbrev pub paths_eq : List Bytes → List Bytes → Bool
paths_eq [] [] = true
paths_eq [] (y ∷ ys) = false
paths_eq (x ∷ xs) [] = false
paths_eq (x ∷ xs) (y ∷ ys) = bytes_eq x y && paths_eq xs ys

pub paths_eq_iff : (xs ys : List Bytes) → (paths_eq xs ys ≡ true) ↔ (xs ≡ ys)
paths_eq_iff [] [] = (λ h. refl, λ h. refl)
paths_eq_iff [] (y ∷ ys) = ground arith
paths_eq_iff (x ∷ xs) [] = ground arith
paths_eq_iff (x ∷ xs) (y ∷ ys) = ground (arith, bytes_eq_iff x y, paths_eq_iff xs ys)

instance abbrev pub path_key : Eq (List Bytes)
path_key = record { beq = paths_eq; beq_iff = paths_eq_iff }

abbrev pub Disk : Type 0
Disk = Dict (List Bytes) Bytes

-- What the disk does while a blob is written; a write that fails leaves some bytes.
pub data Fault : Type 0 where
  no_fault create_dir_fails rename_fails : Fault
  write_fails : Bytes → Fault

-- `path.with_extension("tmp")`, where the file name has no dot.
unfoldable pub tmp_path : List Bytes → List Bytes
tmp_path [] = []
tmp_path (name ∷ []) = (name ++ codes ".tmp") ∷ []
tmp_path (part ∷ next ∷ parts) = part ∷ tmp_path (next ∷ parts)

unfoldable pub rename : Disk → List Bytes → List Bytes → Disk
rename disk from to = elim (get disk from) [
  | none ↦ disk
  | some content ↦ insert (remove disk from) to content
]

unfoldable pub write_blob : Fault → Disk → List Bytes → Bytes → Disk × Result Bool
write_blob no_fault disk path content =
    (rename (insert disk (tmp_path path) content) (tmp_path path) path, ok true)
write_blob create_dir_fails disk path content = (disk, err io)
write_blob (write_fails written) disk path content = (insert disk (tmp_path path) written, err io)
write_blob rename_fails disk path content = (insert disk (tmp_path path) content, err io)

unfoldable pub blob_put_verified : Fault → Disk → VerifiedContent → Disk × Result Bool
blob_put_verified fault disk verified = elim (blob_path_for (as_str verified.label)) [
  | err e ↦ (disk, err e)
  | ok path ↦
      if contains_key disk path
      then (disk, ok false)
      else write_blob fault disk path verified.content
]

-- `fs::read`
unfoldable pub read_file : Disk → List Bytes → Result Bytes
read_file disk path = elim (get disk path) [ none ↦ err not_found | some content ↦ ok content ]

unfoldable pub blob_get : Disk → Bytes → Result Bytes
blob_get disk kappa = blob_path_for kappa >>= λ path. read_file disk path

unfoldable pub blob_exists : Disk → Bytes → Result Bool
blob_exists disk kappa = blob_path_for kappa >>= λ path. ok (contains_key disk path)

unfoldable pub blob_size : Disk → Bytes → Result ℕ
blob_size disk kappa =
    blob_path_for kappa >>= λ path. read_file disk path >>= λ content. ok (length content)

-- The removal of a file that is not there is no error; `fails` says that the removal fails otherwise.
unfoldable pub blob_delete : Bool → Disk → Bytes → Disk × Result (Unit {0})
blob_delete fails disk kappa = elim (blob_path_for kappa) [
  | err e ↦ (disk, err e)
  | ok path ↦ if fails then (disk, err io) else (remove disk path, ok tt)
]
