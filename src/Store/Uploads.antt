-- ===== src/Store/Uploads.antt =====
-- Upload sessions of `InMemoryStore` (crates/kappa-core/src/store/memory/mod.rs). The fresh id and
-- the time, in nanoseconds, are arguments; MD5 is the parameter `md5` (the crate md5). Of
-- `upload_complete` only the part that takes the session out of the table is modelled.
pub mod Sessions
pub mod Content
mod Tests
use kappa_registry.Prelude.{
  ℕ, zero, suc, ◌+◌, ◌-◌, ◌*◌, ◌%◌, ◌^◌, ◌==◌, ltb, Bool, true, false, ◌&&◌,
}
use kappa_registry.Prelude.{if◌then◌else◌, Option, none, some, List, [], ◌∷◌, ◌++◌, Bytes, length}
use kappa_registry.Dict.{Dict, get, insert, remove, bytes_key}
use kappa_registry.Store.Types.{Result, ok, err, not_found, conflict, rejected}

-- A part's number, its MD5 and its size.
pub record PartDigest : Type 0 where
  pub part_number : ℕ
  pub md5_bytes : Bytes
  pub size : ℕ

pub record UploadSession : Type 0 where
  pub namespace : Bytes
  pub data_bytes : Bytes
  pub max_size : ℕ
  pub created_at : ℕ
  pub part_digests : List PartDigest

abbrev pub Uploads : Type 0
Uploads = Dict Bytes UploadSession

-- `session.created_at.elapsed() > Duration::from_secs(timeout)`
unfoldable pub is_expired : ℕ → ℕ → UploadSession → Bool
is_expired timeout now session = ltb (timeout * 10 ^ 9) (now - session.created_at)

-- The same where a timeout is set (`upload_timeout_secs`).
unfoldable pub has_expired : Option ℕ → ℕ → UploadSession → Bool
has_expired none now session = false
has_expired (some timeout) now session = is_expired timeout now session

unfoldable pub upload_begin : Bytes → Bytes → ℕ → ℕ → Uploads → Uploads × Result Bytes
upload_begin id namespace max_size now uploads = (
  insert uploads id (record {
    namespace = namespace;
    data_bytes = [];
    max_size = max_size;
    created_at = now;
    part_digests = [];
  }),
  ok id,
)

-- `part_number`, its MD5 and its size, after `count` parts.
unfoldable pub new_part : (Bytes → Bytes) → ℕ → Bytes → PartDigest
new_part md5 count part = record {
  part_number = (count % 2 ^ 32 + 1) % 2 ^ 32;
  md5_bytes = md5 part;
  size = length part;
}

unfoldable pub append_part : (Bytes → Bytes) → Bytes → UploadSession → UploadSession
append_part md5 part session = record session {
  data_bytes = session.data_bytes ++ part;
  part_digests = session.part_digests ++ (new_part md5 (length session.part_digests) part ∷ []);
}

-- The tests of a part, and the session after it.
unfoldable pub put_part : (Bytes → Bytes) → ℕ → Bytes → UploadSession → Result UploadSession
put_part md5 offset part session =
    if offset == length session.data_bytes
    then (if ltb 0 session.max_size
          && ltb session.max_size (length session.data_bytes + length part)
        then err rejected
        else ok (append_part md5 part session))
    else err conflict

unfoldable pub upload_put_part :
    (Bytes → Bytes) → Option ℕ → ℕ → Bytes → ℕ → Bytes → Uploads → Uploads × Result ℕ
upload_put_part md5 timeout now id offset part uploads = elim (get uploads id) [
  | none ↦ (uploads, err not_found)
  | some session ↦
      if has_expired timeout now session
      then (remove uploads id, err not_found)
      else elim (put_part md5 offset part session) [
        | err e ↦ (uploads, err e)
        | ok session' ↦ (insert uploads id session', ok (length session'.data_bytes))
      ]
]

-- The block at the start of `upload_complete`: the session leaves the table, expired or not.
unfoldable pub take_content : Option ℕ → ℕ → Bytes → Uploads → Uploads × Result Bytes
take_content timeout now id uploads = elim (get uploads id) [
  | none ↦ (uploads, err not_found)
  | some session ↦ (
    remove uploads id,
    (if has_expired timeout now session then err not_found else ok session.data_bytes),
  )
]

unfoldable pub upload_abort : Bytes → Uploads → Uploads × Result (Unit {0})
upload_abort id uploads = (remove uploads id, ok tt)

-- What `upload_bytes_received` and `upload_namespace` do first.
unfoldable pub drop_expired : Option ℕ → ℕ → Bytes → Uploads → Uploads
drop_expired timeout now id uploads = elim (get uploads id) [
  | none ↦ uploads
  | some session ↦ if has_expired timeout now session then remove uploads id else uploads
]

unfoldable pub upload_bytes_received : Option ℕ → ℕ → Bytes → Uploads → Uploads × Option ℕ
upload_bytes_received timeout now id uploads =
    let uploads' = drop_expired timeout now id uploads in
    (
      uploads',
      elim (get uploads' id) [ none ↦ none | some session ↦ some (length session.data_bytes) ],
    )

unfoldable pub upload_namespace : Option ℕ → ℕ → Bytes → Uploads → Uploads × Option Bytes
upload_namespace timeout now id uploads =
    let uploads' = drop_expired timeout now id uploads in
    (uploads', elim (get uploads' id) [ none ↦ none | some session ↦ some session.namespace ])

-- `uploads.retain(..)`
unfoldable pub retain_fresh : ℕ → ℕ → Uploads → Uploads
retain_fresh timeout now [] = []
retain_fresh timeout now ((id, session) ∷ uploads) =
    let rest = retain_fresh timeout now uploads in
    if is_expired timeout now session then rest else (id, session) ∷ rest

unfoldable pub upload_evict_expired : ℕ → ℕ → Uploads → Uploads × ℕ
upload_evict_expired timeout now uploads =
    let uploads' = retain_fresh timeout now uploads in (uploads', length uploads - length uploads')
