-- ===== src/Bundle/Verified.antt =====
-- Every entry that `decode` returns verifies.
use kappa_registry.Prelude.{
  ℕ, zero, suc, ◌+◌, ◌-◌, ◌≤◌, ◌≡◌, refl, ap, ◌∙◌, take-drop-take, arith, Bool, true, false,
}
use kappa_registry.Prelude.{
  Option, none, some, List, [], ◌∷◌, Bytes, length, take, drop, All, inl, inr, ◌⊎◌,
}
use kappa_registry.Dict.{Dict, insert, bytes_key}
use kappa_registry.Kappa.Label.{Result as LabelResult}
use kappa_registry.Kappa.Label.{ok as label_ok, err as label_err}
use kappa_registry.Kappa.Compute.{Digests, verify_kappa}
use kappa_registry.Kappa.Compute.Verify.{IsDigests, Verifies, verify_kappa_iff}
use kappa_registry.Bundle.{
  BundleEntry, BundleError, Result, ok, err, panic, decode_max_bytes, check_match,
  verify_entry_kappa,
}
use kappa_registry.Bundle.{
  saturating_add, admit, read_entry, decode_entries, decode_payload, decode, from_be_bytes,
}

pub Result-cases :
    {A : Type 0} (r : Result A)
    → ((a : A) × (r ≡ ok a)) ⊎ ((r ≡ panic) ⊎ ((e : BundleError) × (r ≡ err e)))
Result-cases (ok a) = inl (a, refl)
Result-cases (err e) = inr (inr (e, refl))
Result-cases panic = inr (inl refl)

-- The sizes of the contents.
abbrev pub total_of : List BundleEntry → ℕ
total_of [] = 0
total_of (e ∷ entries) = length e.content + total_of entries

module _ (d : Digests) (utf8 : Bytes → Bool) (resolve_base : Option (Bytes → Option Bytes))
    (digests : IsDigests d) where
  check_match-ok :
      (kappa : Bytes) (r : Option (LabelResult Bool))
      → check_match kappa r ≡ ok tt
      → r ≡ some (label_ok true)
  unfolding check_match
  check_match-ok kappa none h = absurd (cc h)
  check_match-ok kappa (some (label_err e)) h = absurd (cc h)
  check_match-ok kappa (some (label_ok false)) h = absurd (cc h)
  check_match-ok kappa (some (label_ok true)) h = refl

  admit-Verifies :
      (total total' : ℕ) (e : BundleEntry)
      → admit d utf8 resolve_base total e ≡ ok total'
      → Verifies d e.kappa e.content
        × (total' ≡ total + length e.content)
        × (total' ≤ decode_max_bytes)
  unfolding admit verify_entry_kappa saturating_add
  admit-Verifies total total' e h =
      let r = verify_entry_kappa d e.kappa e.content in
      elim (Result-cases r) [
        | inl (u, c) ↦
            let found = check_match-ok e.kappa (verify_kappa d e.kappa e.content) c in
            ((verify_kappa_iff d e.kappa e.content digests).1.0 found, ground arith, ground arith)
        | inr (inl c) ↦ absurd (ground arith)
        | inr (inr (f, c)) ↦ absurd (ground arith)
      ]

  decode_entries-Verifies :
      (count flags : ℕ) (index : Dict Bytes Bytes) (total : ℕ) (p : Bytes) (pos : ℕ)
      (entries : List BundleEntry)
      → total ≤ decode_max_bytes
      → decode_entries d utf8 resolve_base count flags index total p pos ≡ ok entries
      → All (λ e. Verifies d e.kappa e.content) entries
        × (length entries ≡ count)
        × (total + total_of entries ≤ decode_max_bytes)
  unfolding decode_entries
  decode_entries-Verifies zero flags index total p pos entries b h =
      let e : [] ≡ entries = cc h in rw (← e) (tt, refl, omega arith)
  decode_entries-Verifies (suc count) flags index total p pos entries b h =
      elim (Result-cases (read_entry d utf8 resolve_base flags index p pos)) [
        | inr (inl c) ↦ absurd (ground arith)
        | inr (inr (f, c)) ↦ absurd (ground arith)
        | inl ((e, pos'), c) ↦ elim (Result-cases (admit d utf8 resolve_base total e)) [
          | inr (inl a) ↦ absurd (ground arith)
          | inr (inr (f, a)) ↦ absurd (ground arith)
          | inl (total', a) ↦
              let (v, sum, bound) = admit-Verifies total total' e a in
              let later =
                decode_entries d utf8 resolve_base count flags (insert index e.kappa e.content)
                  total' p pos' in
              elim (Result-cases later) [
                | inr (inl r) ↦ absurd (ground arith)
                | inr (inr (f, r)) ↦ absurd (ground arith)
                | inl (more, r) ↦
                    let made : e ∷ more ≡ entries = ground arith in
                    let (vs, n, t) =
                      decode_entries-Verifies count flags (insert index e.kappa e.content) total' p
                        pos' more bound r in
                    rw (← made) ((v, vs), ap suc n, omega (arith, t, sum))
              ]
        ]
      ]

-- Whatever the bytes are, and whatever `resolve_base` gives: each entry that `decode` returns has a
-- content that verifies against its label, there are as many as the header says, and their contents have
-- 268,435,456 bytes together at most.
pub decode-Verifies :
    (d : Digests) (utf8 : Bytes → Bool) (resolve_base : Option (Bytes → Option Bytes))
    (bytes : Bytes) (entries : List BundleEntry)
    → IsDigests d
    → decode d utf8 resolve_base bytes ≡ ok entries
    → All (λ e. Verifies d e.kappa e.content) entries
      × (length entries ≡ from_be_bytes 0 (take 4 (drop 6 bytes)))
      × (total_of entries ≤ decode_max_bytes)
unfolding decode decode_payload
decode-Verifies d utf8 resolve_base bytes entries digests h =
    let p = take (length bytes - 32) bytes in
    let long : 42 ≤ length bytes = ground arith in
    let count = take-drop-take 6 (length bytes - 32) 4 bytes (omega arith) in
    let run : decode_entries d utf8 resolve_base (from_be_bytes 0 (take 4 (drop 6 p)))
          (from_be_bytes 0 (take 1 (drop 5 p))) [] 0 p 10
        ≡ ok entries =
      ground arith in
    let (vs, n, t) =
      decode_entries-Verifies d utf8 resolve_base digests _ _ [] 0 p 10 entries (omega arith) run in
    (vs, n ∙ ap (from_be_bytes 0) count, omega (arith, t))
