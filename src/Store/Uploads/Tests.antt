-- ===== src/Store/Uploads/Tests.antt =====
-- An upload of two parts, and the theorems at it.
use kappa_registry.Prelude.{◌+◌, ◌≡◌, refl, false, some, [], ◌∷◌, ◌++◌, Bytes, codes, length}
use kappa_registry.Dict.{get, insert, remove, bytes_key}
use kappa_registry.Store.Types.{ok, err, rejected}
use kappa_registry.Store.Uploads.{UploadSession, Uploads, has_expired, is_expired}
use kappa_registry.Store.Uploads.{append_part, new_part, put_part, upload_put_part, take_content}
use kappa_registry.Store.Uploads.{upload_begin}
use kappa_registry.Store.Uploads.Sessions.{IsSession, begin, put, start, step}
use kappa_registry.Store.Uploads.Sessions.{Reached-IsSession}
use kappa_registry.Store.Uploads.Content.{take_content-upload_put_part}

abbrev toy : Bytes → Bytes
toy bytes = 0 ∷ []

abbrev id : Bytes
id = codes "u"

abbrev last : Bytes
last = 3 ∷ []

abbrev empty : Uploads
empty = []

abbrev session : UploadSession
session = record {
  namespace = codes "n";
  data_bytes = 1 ∷ 2 ∷ [];
  max_size = 4;
  created_at = 10;
  part_digests = record { part_number = 1; md5_bytes = 0 ∷ []; size = 2 } ∷ [];
}

abbrev begun : Uploads
begun = (upload_begin id (codes "n") 4 10 empty).0

abbrev table : Uploads
table = (upload_put_part toy (some 1) 20 id 0 (1 ∷ 2 ∷ []) begun).0

table_run : get table id ≡ some session
unfolding upload_put_part upload_begin get insert remove has_expired is_expired put_part append_part
    new_part
table_run = refl

put_run : (upload_put_part toy (some 1) 30 id 2 last table).1 ≡ ok 3
unfolding upload_put_part upload_begin get insert remove has_expired is_expired put_part append_part
    new_part
put_run = refl

over_run : (upload_put_part toy (some 1) 30 id 2 (3 ∷ 4 ∷ 5 ∷ []) table).1 ≡ err rejected
unfolding upload_put_part upload_begin get insert remove has_expired is_expired put_part append_part
    new_part
over_run = refl

fresh_run : has_expired (some 1) 40 session ≡ false
unfolding has_expired is_expired
fresh_run = refl

Reached-IsSession_example : IsSession session
Reached-IsSession_example =
    Reached-IsSession {md5 = toy} {timeout = some 1} {u = table} id session
      (step (step start (begin id (codes "n") 4 10)) (put id (1 ∷ 2 ∷ []) 0 20)) table_run

take_content-upload_put_part_example :
    (2 ≡ length session.data_bytes)
    × (3 ≡ length session.data_bytes + length last)
    × ((take_content (some 1) 40 id (upload_put_part toy (some 1) 30 id 2 last table).0).1
        ≡ ok (session.data_bytes ++ last))
take_content-upload_put_part_example =
    take_content-upload_put_part toy (some 1) 30 40 2 3 id last table session table_run put_run
      fresh_run
