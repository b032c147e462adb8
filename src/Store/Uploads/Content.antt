-- ===== src/Store/Uploads/Content.antt =====
-- What a part that is accepted adds to the upload.
use kappa_registry.Prelude.{ℕ, ◌+◌, ◌≡◌, refl, arith, ap, Bool-cases, inl, inr, false}
use kappa_registry.Prelude.{Option, none, some, ◌++◌, Bytes, bytes_eq_refl}
use kappa_registry.Prelude.{length, length-append}
use kappa_registry.Dict.{get, insert, bytes_key, get-insert}
use kappa_registry.Store.Types.{ok, Result-cases}
use kappa_registry.Store.Uploads.{UploadSession, Uploads, has_expired, is_expired, append_part}
use kappa_registry.Store.Uploads.{put_part, upload_put_part, take_content}

get_inserted : (u : Uploads) (id : Bytes) (s : UploadSession) → get (insert u id s) id ≡ some s
get_inserted u id s = rw (get-insert u id id s, bytes_eq_refl id)

created_part :
    (md5 : Bytes → Bytes) (timeout : Option ℕ) (now : ℕ) (part : Bytes) (s : UploadSession)
    → has_expired timeout now (append_part md5 part s) ≡ has_expired timeout now s
unfolding has_expired is_expired append_part
created_part md5 none now part s = refl
created_part md5 (some t) now part s = refl

put_part_ok :
    (md5 : Bytes → Bytes) (offset : ℕ) (part : Bytes) (s s' : UploadSession)
    → put_part md5 offset part s ≡ ok s'
    → (offset ≡ length s.data_bytes) × (s' ≡ append_part md5 part s)
unfolding put_part
put_part_ok md5 offset part s s' h = (ground arith, ground arith)

accepted :
    (md5 : Bytes → Bytes) (timeout : Option ℕ) (now offset n : ℕ) (id part : Bytes) (u : Uploads)
    (s : UploadSession)
    → get u id ≡ some s
    → (upload_put_part md5 timeout now id offset part u).1 ≡ ok n
    → (offset ≡ length s.data_bytes)
      × (n ≡ length (s.data_bytes ++ part))
      × ((upload_put_part md5 timeout now id offset part u).0
          ≡ insert u id (append_part md5 part s))
unfolding upload_put_part append_part
accepted md5 timeout now offset n id part u s e h = elim (Bool-cases (has_expired timeout now s)) [
  | inl old ↦ absurd (ground arith)
  | inr fresh ↦ elim (Result-cases (put_part md5 offset part s)) [
    | inl (s', p) ↦
        let (at, made) = put_part_ok md5 offset part s s' p in
        (at, ground arith, rw (e, fresh, p, upload_put_part) (ap (insert u id) made))
    | inr (x, p) ↦ absurd (ground arith)
  ]
]

-- A part that is accepted for an upload came at the end of the data received so far, the size that is
-- returned is that of the data with the part, and completing the upload next, before it expires, takes
-- that data.
pub take_content-upload_put_part :
    (md5 : Bytes → Bytes) (timeout : Option ℕ) (now later offset n : ℕ) (id part : Bytes)
    (u : Uploads) (s : UploadSession)
    → get u id ≡ some s
    → (upload_put_part md5 timeout now id offset part u).1 ≡ ok n
    → has_expired timeout later s ≡ false
    → (offset ≡ length s.data_bytes)
      × (n ≡ length s.data_bytes + length part)
      × ((take_content timeout later id (upload_put_part md5 timeout now id offset part u).0).1
          ≡ ok (s.data_bytes ++ part))
unfolding take_content
take_content-upload_put_part md5 timeout now later offset n id part u s e h fresh =
    let (at, size, table) = accepted md5 timeout now offset n id part u s e h in
    let found = get_inserted u id (append_part md5 part s) in
    let open_still = created_part md5 timeout later part s in
    (
      at,
      omega (arith, size, length-append s.data_bytes part),
      rw (table, found, open_still, fresh, take_content) (unfold append_part in refl),
    )
