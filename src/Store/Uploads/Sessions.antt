-- ===== src/Store/Uploads/Sessions.antt =====
-- Every sequence of upload calls keeps the sessions well formed, and a part is appended whole.
use kappa_registry.Prelude.{ℕ, ◌+◌, ◌%◌, ◌^◌, ◌≤◌, ◌≡◌, ◌⊎◌, inl, inr, refl, arith}
use kappa_registry.Prelude.{Option, some}
use kappa_registry.Prelude.{List, [], ◌∷◌, ◌++◌, Bytes, length, length-append, Option-cases}
use kappa_registry.Prelude.{Bool-cases}
use kappa_registry.Dict.{get, bytes_key, AllValues}
use kappa_registry.Dict.{AllValues-get, AllValues-remove, AllValues-insert}
use kappa_registry.Store.Types.{ok, Result-cases}
use kappa_registry.Store.Uploads.{PartDigest, UploadSession, Uploads, is_expired, has_expired}
use kappa_registry.Store.Uploads.{
  upload_begin, append_part, new_part, put_part, upload_put_part, take_content,
}
use kappa_registry.Store.Uploads.{upload_abort, drop_expired, upload_bytes_received}
use kappa_registry.Store.Uploads.{upload_namespace, retain_fresh, upload_evict_expired}

abbrev pub total_size : List PartDigest → ℕ
total_size [] = 0
total_size (p ∷ parts) = p.size + total_size parts

total_size-append :
    (xs ys : List PartDigest) → total_size (xs ++ ys) ≡ total_size xs + total_size ys
total_size-append [] ys = omega arith
total_size-append (p ∷ xs) ys = omega (arith, total_size-append xs ys)

-- The parts are numbered from `n + 1` on, in 32 bits.
abbrev pub Numbered : ℕ → List PartDigest → Type 0
Numbered n [] = Unit {0}
Numbered n (p ∷ parts) = (p.part_number ≡ (n % 2 ^ 32 + 1) % 2 ^ 32) × Numbered (n + 1) parts

Numbered-append :
    (n : ℕ) (xs : List PartDigest) (p : PartDigest)
    → Numbered n xs
    → p.part_number ≡ ((n + length xs) % 2 ^ 32 + 1) % 2 ^ 32
    → Numbered n (xs ++ (p ∷ []))
Numbered-append n [] p h e = (omega (arith, e), tt)
Numbered-append n (x ∷ xs) p (h, hs) e = (h, Numbered-append (n + 1) xs p hs (omega (arith, e)))

-- The sizes of the parts add up to the data, which a limit other than 0 bounds.
pub record IsSession (s : UploadSession) : Type 0 where
  pub sizes : total_size s.part_digests ≡ length s.data_bytes
  pub numbers : Numbered 0 s.part_digests
  pub bounded : (s.max_size ≡ 0) ⊎ (length s.data_bytes ≤ s.max_size)

append_part-IsSession :
    (md5 : Bytes → Bytes) (part : Bytes) (s : UploadSession)
    → (s.max_size ≡ 0) ⊎ (length s.data_bytes + length part ≤ s.max_size)
    → IsSession s
    → IsSession (append_part md5 part s)
unfolding append_part new_part
append_part-IsSession md5 part s fits i =
    let added = new_part md5 (length s.part_digests) part in
    record {
      sizes = omega (
        arith,
        length-append s.data_bytes part,
        total_size-append s.part_digests (added ∷ []),
        i.sizes,
      );
      numbers = Numbered-append 0 s.part_digests added i.numbers (omega arith);
      bounded = ground (arith, length-append s.data_bytes part);
    }

put_part-IsSession :
    (md5 : Bytes → Bytes) (offset : ℕ) (part : Bytes) (s s' : UploadSession)
    → put_part md5 offset part s ≡ ok s'
    → IsSession s
    → (offset ≡ length s.data_bytes) × (s' ≡ append_part md5 part s) × IsSession s'
unfolding put_part
put_part-IsSession md5 offset part s s' h i =
    let made : s' ≡ append_part md5 part s = ground arith in
    let fits : (s.max_size ≡ 0) ⊎ (length s.data_bytes + length part ≤ s.max_size) = ground arith in
    (ground arith, made, rw made (append_part-IsSession md5 part s fits i))

-- One call on the table, whatever it returns.
pub data Call (md5 : Bytes → Bytes) (timeout : Option ℕ) (u : Uploads) : Uploads → Type 0 where
  begin :
      (id namespace : Bytes) (max_size now : ℕ)
      → Call md5 timeout u (upload_begin id namespace max_size now u).0
  put :
      (id part : Bytes) (offset now : ℕ)
      → Call md5 timeout u (upload_put_part md5 timeout now id offset part u).0
  complete : (id : Bytes) (now : ℕ) → Call md5 timeout u (take_content timeout now id u).0
  abort : (id : Bytes) → Call md5 timeout u (upload_abort id u).0
  received : (id : Bytes) (now : ℕ) → Call md5 timeout u (upload_bytes_received timeout now id u).0
  named : (id : Bytes) (now : ℕ) → Call md5 timeout u (upload_namespace timeout now id u).0
  evict : (secs now : ℕ) → Call md5 timeout u (upload_evict_expired secs now u).0

-- The tables that calls make of the empty one.
pub data Reached (md5 : Bytes → Bytes) (timeout : Option ℕ) : Uploads → Type 0 where
  start : Reached md5 timeout []
  step : {u v : Uploads} → Reached md5 timeout u → Call md5 timeout u v → Reached md5 timeout v

drop_expired-IsSession :
    (timeout : Option ℕ) (now : ℕ) (id : Bytes) (u : Uploads)
    → AllValues IsSession u
    → AllValues IsSession (drop_expired timeout now id u)
unfolding drop_expired
drop_expired-IsSession timeout now id u h = elim (Option-cases (get u id)) [
  | inl e ↦ rw (e, drop_expired) h
  | inr (s, e) ↦ elim (Bool-cases (has_expired timeout now s)) [
    | inl old ↦ rw (e, old, drop_expired) (AllValues-remove IsSession u id h)
    | inr fresh ↦ rw (e, fresh, drop_expired) h
  ]
]

put-IsSession :
    (md5 : Bytes → Bytes) (timeout : Option ℕ) (now : ℕ) (id : Bytes) (offset : ℕ) (part : Bytes)
    (u : Uploads)
    → AllValues IsSession u
    → AllValues IsSession (upload_put_part md5 timeout now id offset part u).0
unfolding upload_put_part
put-IsSession md5 timeout now id offset part u h = elim (Option-cases (get u id)) [
  | inl e ↦ rw (e, upload_put_part) h
  | inr (s, e) ↦ elim (Bool-cases (has_expired timeout now s)) [
    | inl old ↦ rw (e, old, upload_put_part) (AllValues-remove IsSession u id h)
    | inr fresh ↦ elim (Result-cases (put_part md5 offset part s)) [
      | inl (s', p) ↦
          let kept =
            put_part-IsSession md5 offset part s s' p (AllValues-get IsSession u id s h e) in
          rw (e, fresh, p, upload_put_part) (AllValues-insert IsSession u id s' kept.2 h)
      | inr (x, p) ↦ rw (e, fresh, p, upload_put_part) h
    ]
  ]
]

take-IsSession :
    (timeout : Option ℕ) (now : ℕ) (id : Bytes) (u : Uploads)
    → AllValues IsSession u
    → AllValues IsSession (take_content timeout now id u).0
unfolding take_content
take-IsSession timeout now id u h = elim (Option-cases (get u id)) [
  | inl e ↦ rw (e, take_content) h
  | inr (s, e) ↦ rw (e, take_content) (AllValues-remove IsSession u id h)
]

retain-IsSession :
    (secs now : ℕ) (u : Uploads)
    → AllValues IsSession u
    → AllValues IsSession (retain_fresh secs now u)
unfolding retain_fresh
retain-IsSession secs now [] h = h
retain-IsSession secs now ((id, s) ∷ u) (p, ps) = elim (Bool-cases (is_expired secs now s)) [
  | inl old ↦ rw old (retain-IsSession secs now u ps)
  | inr fresh ↦ rw fresh (p, retain-IsSession secs now u ps)
]

Call-IsSession :
    {md5 : Bytes → Bytes} {timeout : Option ℕ} {u v : Uploads}
    → AllValues IsSession u
    → Call md5 timeout u v
    → AllValues IsSession v
unfolding upload_begin upload_abort upload_bytes_received upload_namespace upload_evict_expired
Call-IsSession {u = u} h (begin id namespace max_size now) =
    AllValues-insert IsSession u id _
      (record { sizes = refl; numbers = tt; bounded = ground arith }) h
Call-IsSession {md5} {timeout} {u} h (put id part offset now) =
    put-IsSession md5 timeout now id offset part u h
Call-IsSession {timeout = timeout} {u = u} h (complete id now) = take-IsSession timeout now id u h
Call-IsSession {u = u} h (abort id) = AllValues-remove IsSession u id h
Call-IsSession {timeout = timeout} {u = u} h (received id now) =
    drop_expired-IsSession timeout now id u h
Call-IsSession {timeout = timeout} {u = u} h (named id now) =
    drop_expired-IsSession timeout now id u h
Call-IsSession {u = u} h (evict secs now) = retain-IsSession secs now u h

Reached-AllValues :
    {md5 : Bytes → Bytes} {timeout : Option ℕ} {u : Uploads}
    → Reached md5 timeout u
    → AllValues IsSession u
Reached-AllValues start = tt
Reached-AllValues (step r c) = Call-IsSession (Reached-AllValues r) c

-- After any calls on the empty table, whatever they returned, the parts of every session are numbered
-- from 1 on (in 32 bits), their sizes add up to the data received, and a limit other than 0 bounds
-- the data.
pub Reached-IsSession :
    {md5 : Bytes → Bytes} {timeout : Option ℕ} {u : Uploads} (id : Bytes) (s : UploadSession)
    → Reached md5 timeout u
    → get u id ≡ some s
    → IsSession s
Reached-IsSession {u = u} id s r e = AllValues-get IsSession u id s (Reached-AllValues r) e
