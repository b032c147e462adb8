-- ===== src/Kappa/Verified.antt =====
-- crates/kappa-core/src/verified.rs: contents with the label that they were found to have. The private
-- field that keeps other crates from making one is left out: `compute` and `verify` make them.
use kappa_registry.Prelude.{
  ◌≡◌, refl, sym, ap, arith, Bool, true, false, Option, none, some, Option-cases, inl, inr,
}
use kappa_registry.Prelude.{Bytes}
use kappa_registry.Kappa.Label.{Axis, axis_str, KappaLabel, Result, ok, err, ◌>>=◌, digest_mismatch}
use kappa_registry.Kappa.Label.{parse, as_str, axis}
use kappa_registry.Kappa.Label.Grammar.{as_str-parse, label_of, as_str-label_of, length-IsLabel}
use kappa_registry.Kappa.Compute.{Digests, label_text, compute_kappa, verify_kappa}
use kappa_registry.Kappa.Compute.Verify.{IsDigests, digest_of, labelled, compute_kappa-axis_str}
use kappa_registry.Kappa.Compute.Verify.{
  label_text-IsLabel, Verifies, verify_kappa_iff, Result-cases,
}

pub record VerifiedContent : Type 0 where
  pub label : KappaLabel
  pub content : Bytes

unfoldable pub compute : Digests → Axis → Bytes → Result VerifiedContent
compute d axis content = compute_kappa d (axis_str axis) content >>= λ label.
    ok (record { label = label; content = content })

-- The error that names the label that was computed; `none` is the panic of `axis`.
unfoldable pub mismatch : Digests → Bytes → KappaLabel → Bytes → Option (Result VerifiedContent)
mismatch d claimed label content = elim (axis label) [
  | none ↦ none
  | some a ↦
      some (
        compute_kappa d a content >>= λ computed. err (digest_mismatch claimed (as_str computed) a))
]

-- What is returned at the result of `verify_kappa`.
unfoldable pub check_match :
    Digests → Bytes → KappaLabel → Bytes → Option (Result Bool) → Option (Result VerifiedContent)
check_match d claimed label content none = none
check_match d claimed label content (some (err e)) = some (err e)
check_match d claimed label content (some (ok true)) =
    some (ok (record { label = label; content = content }))
check_match d claimed label content (some (ok false)) = mismatch d claimed label content

-- `none` is a panic of `verify_kappa` or `axis`.
unfoldable pub verify : Digests → Bytes → Bytes → Option (Result VerifiedContent)
verify d claimed content = elim (parse claimed) [
  | err e ↦ some (err e)
  | ok label ↦ check_match d claimed label content (verify_kappa d claimed content)
]

mismatch-ne-ok :
    (d : Digests) (claimed : Bytes) (label : KappaLabel) (content : Bytes) (v : VerifiedContent)
    → mismatch d claimed label content ≡ some (ok v)
    → ⊥
unfolding mismatch
mismatch-ne-ok d claimed label content v h = elim (Option-cases (axis label)) [
  | inl e ↦ absurd (ground arith)
  | inr (a, e) ↦ elim (Result-cases (compute_kappa d a content)) [
    | inl (f, c) ↦ absurd (ground arith)
    | inr (k, c) ↦ absurd (ground arith)
  ]
]

check_match-ok :
    (d : Digests) (claimed : Bytes) (label : KappaLabel) (content : Bytes)
    (r : Option (Result Bool)) (v : VerifiedContent)
    → check_match d claimed label content r ≡ some (ok v)
    → (r ≡ some (ok true)) × (v.label ≡ label) × (v.content ≡ content)
unfolding check_match
check_match-ok d claimed label content none v h = absurd (cc h)
check_match-ok d claimed label content (some (err e)) v h = absurd (cc h)
check_match-ok d claimed label content (some (ok true)) v h =
    let made : record { label = label; content = content } ≡ v = cc h in
    (refl, sym (ap (λ u. u.label) made), sym (ap (λ u. u.content) made))
check_match-ok d claimed label content (some (ok false)) v h =
    absurd (mismatch-ne-ok d claimed label content v h)

-- What `verify` returns holds the claimed label and the content, which verifies against it.
pub verify-Verifies :
    (d : Digests) (claimed content : Bytes) (v : VerifiedContent)
    → IsDigests d
    → verify d claimed content ≡ some (ok v)
    → Verifies d claimed content × (as_str v.label ≡ claimed) × (v.content ≡ content)
unfolding verify
verify-Verifies d claimed content v i h = elim (Result-cases (parse claimed)) [
  | inl (e, p) ↦ absurd (ground arith)
  | inr (label, p) ↦
      let run : check_match d claimed label content (verify_kappa d claimed content) ≡ some (ok v) =
        ground arith in
      let (found, l, c) = check_match-ok d claimed label content _ v run in
      ((verify_kappa_iff d claimed content i).1.0 found, rw l (as_str-parse claimed label p).0, c)
]

-- What `compute` returns is the label of the digest under the axis.
pub compute-digest_of :
    (d : Digests) (a : Axis) (content : Bytes) (v : VerifiedContent)
    → IsDigests d
    → compute d a content ≡ ok v
    → ((hash : Bytes) × (digest_of d a content ≡ some hash)
        × (as_str v.label ≡ label_text (axis_str a) hash))
      × (v.content ≡ content)
unfolding compute labelled
compute-digest_of d a content v i h = elim (Option-cases (digest_of d a content)) [
  | inl e ↦ absurd (ground (arith, compute_kappa-axis_str d a content i))
  | inr (hash, e) ↦
      let made : compute_kappa d (axis_str a) content
          ≡ ok (label_of (label_text (axis_str a) hash)) =
        rw (compute_kappa-axis_str d a content i, e) refl in
      let run : ok (record { label = label_of (label_text (axis_str a) hash); content = content })
          ≡ ok v =
        ground (arith, made, h) in
      let l = label_text-IsLabel d a content hash i e in
      let same : record { label = label_of (label_text (axis_str a) hash); content = content } ≡ v =
        cc run in
      (
        (hash, e, rw (← ap (λ u. u.label) same) (as_str-label_of _ (length-IsLabel _ l).1)),
        sym (ap (λ u. u.content) same),
      )
]

pub compute-Verifies :
    (d : Digests) (a : Axis) (content : Bytes) (v : VerifiedContent)
    → IsDigests d
    → compute d a content ≡ ok v
    → Verifies d (as_str v.label) content × (v.content ≡ content)
compute-Verifies d a content v i h =
    let ((hash, e, t), same) = compute-digest_of d a content v i h in ((a, hash, e, t), same)
