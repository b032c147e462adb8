-- ===== src/Delta/Compute/Copy.antt =====
-- The COPY instruction, written by `emit_copy` and read by `apply_step`.
use kappa_registry.Prelude.{ℕ, ◌+◌, ◌*◌, ◌/◌, ◌%◌, ◌^◌, ◌≤◌, ◌<◌, ◌≡◌, refl, arith}
use kappa_registry.Prelude.{◌==◌, if◌then◌else◌, true, false, [], ◌∷◌, ◌++◌, Bytes}
use kappa_registry.Prelude.{length, append_assoc, ◌∙◌}
use mathlib.Core.Path.{ap₂}
use kappa_registry.Delta.Varint.{DeltaError, Result, ok}
use kappa_registry.Delta.Apply.{read_field, read_offset, read_size, copy_step, apply_step, slice}
use kappa_registry.Delta.Compute.{flag, field, copy_code, emit_copy}

-- A field is read back from the bytes that it pushed, when its flag is the one that is tested.
read_field-field :
    (test byte weight : ℕ) (e : DeltaError) (value : ℕ) (rest : Bytes)
    → test ≡ flag byte
    → read_field (test == 1) weight e value (field byte ++ rest) ≡ ok (value + byte * weight, rest)
unfolding read_field field flag
read_field-field test byte weight e value rest h = ground arith

flag-le : (byte : ℕ) → flag byte ≤ 1
unfolding flag
flag-le byte = ground arith

-- The seven fields of an instruction, and what follows it.
abbrev fields : ℕ → ℕ → ℕ → ℕ → ℕ → ℕ → ℕ → Bytes → Bytes
fields o1 o2 o3 o4 s1 s2 s3 rest =
    field o1
    ++ (field o2 ++ (field o3 ++ (field o4 ++ (field s1 ++ (field s2 ++ (field s3 ++ rest))))))

abbrev command : ℕ → ℕ → ℕ → ℕ → ℕ → ℕ → ℕ → ℕ
command o1 o2 o3 o4 s1 s2 s3 =
    0x80
    + flag o1 * 0x01
    + flag o2 * 0x02
    + flag o3 * 0x04
    + flag o4 * 0x08
    + flag s1 * 0x10
    + flag s2 * 0x20
    + flag s3 * 0x40

module _ (o1 o2 o3 o4 s1 s2 s3 : ℕ) where
  abbrev cmd : ℕ
  cmd = command o1 o2 o3 o4 s1 s2 s3

  record IsRead : Type 0 where
    r1 : cmd % 2 ≡ flag o1
    r2 : cmd / 0x02 % 2 ≡ flag o2
    r3 : cmd / 0x04 % 2 ≡ flag o3
    r4 : cmd / 0x08 % 2 ≡ flag o4
    r5 : cmd / 0x10 % 2 ≡ flag s1
    r6 : cmd / 0x20 % 2 ≡ flag s2
    r7 : cmd / 0x40 % 2 ≡ flag s3
    r8 : cmd / 0x80 % 2 ≡ 1

  command_flags : IsRead
  command_flags = record {
    r1 = omega (arith, flag-le);
    r2 = omega (arith, flag-le);
    r3 = omega (arith, flag-le);
    r4 = omega (arith, flag-le);
    r5 = omega (arith, flag-le);
    r6 = omega (arith, flag-le);
    r7 = omega (arith, flag-le);
    r8 = omega (arith, flag-le);
  }

read_offset_lem :
    (c o1 o2 o3 o4 : ℕ) (rest : Bytes)
    → c % 2 ≡ flag o1
    → c / 0x02 % 2 ≡ flag o2
    → c / 0x04 % 2 ≡ flag o3
    → c / 0x08 % 2 ≡ flag o4
    → read_offset c (field o1 ++ (field o2 ++ (field o3 ++ (field o4 ++ rest))))
      ≡ ok (0 + o1 * 1 + o2 * 0x100 + o3 * 0x1_0000 + o4 * 0x100_0000, rest)
unfolding read_offset
read_offset_lem c o1 o2 o3 o4 rest h1 h2 h3 h4 = rw (
  read_field-field (c % 2) o1 _ _ 0 _ h1,
  read_field-field (c / 0x02 % 2) o2 _ _ _ _ h2,
  read_field-field (c / 0x04 % 2) o3 _ _ _ _ h3,
  read_field-field (c / 0x08 % 2) o4 _ _ _ rest h4,
)

read_size_lem :
    (c s1 s2 s3 : ℕ) (rest : Bytes)
    → c / 0x10 % 2 ≡ flag s1
    → c / 0x20 % 2 ≡ flag s2
    → c / 0x40 % 2 ≡ flag s3
    → read_size c (field s1 ++ (field s2 ++ (field s3 ++ rest)))
      ≡ ok (0 + s1 * 1 + s2 * 0x100 + s3 * 0x1_0000, rest)
unfolding read_size
read_size_lem c s1 s2 s3 rest h1 h2 h3 = rw (
  read_field-field (c / 0x10 % 2) s1 _ _ 0 _ h1,
  read_field-field (c / 0x20 % 2) s2 _ _ _ _ h2,
  read_field-field (c / 0x40 % 2) s3 _ _ _ rest h3,
)

-- The test of each flag bit of a command, on a command that is kept abstract.
apply_step-fields :
    (base : Bytes) (c o1 o2 o3 o4 s1 s2 s3 : ℕ) (rest : Bytes)
    → c ≡ command o1 o2 o3 o4 s1 s2 s3
    → apply_step base c (fields o1 o2 o3 o4 s1 s2 s3 rest)
      ≡ copy_step base
          (0 + o1 * 1 + o2 * 0x100 + o3 * 0x1_0000 + o4 * 0x100_0000)
          (0 + s1 * 1 + s2 * 0x100 + s3 * 0x1_0000)
          rest
unfolding apply_step
apply_step-fields base c o1 o2 o3 o4 s1 s2 s3 rest e =
    let f = command_flags o1 o2 o3 o4 s1 s2 s3 in
    let zero_test : (c == 0) ≡ false = ground arith in
    let copy_test : (c / 0x80 % 2 == 1) ≡ true = rw e (rw (f.r8)) in
    rw (
      zero_test,
      copy_test,
      read_offset_lem c o1 o2 o3 o4 _ (rw e f.r1) (rw e f.r2) (rw e f.r3) (rw e f.r4),
      read_size_lem c s1 s2 s3 rest (rw e f.r5) (rw e f.r6) (rw e f.r7),
    )

copy_code-append :
    (off sz : ℕ) (rest : Bytes)
    → copy_code off sz ++ rest
      ≡ command
          (off % 256)
          (off / 0x100 % 256)
          (off / 0x1_0000 % 256)
          (off / 0x100_0000 % 256)
          (sz % 256)
          (sz / 0x100 % 256)
          (sz / 0x1_0000 % 256)
        ∷ fields
            (off % 256)
            (off / 0x100 % 256)
            (off / 0x1_0000 % 256)
            (off / 0x100_0000 % 256)
            (sz % 256)
            (sz / 0x100 % 256)
            (sz / 0x1_0000 % 256)
            rest
unfolding copy_code
copy_code-append off sz rest = simp append_assoc

offset_bytes :
    (off : ℕ)
    → 0
        + off % 256 * 1
        + off / 0x100 % 256 * 0x100
        + off / 0x1_0000 % 256 * 0x1_0000
        + off / 0x100_0000 % 256 * 0x100_0000
      ≡ off % 2 ^ 32
offset_bytes off = omega arith

size_bytes :
    (sz : ℕ)
    → 0 + sz % 256 * 1 + sz / 0x100 % 256 * 0x100 + sz / 0x1_0000 % 256 * 0x1_0000 ≡ sz % 2 ^ 24
size_bytes sz = omega arith

-- What `apply_step` does at a byte string that starts with an instruction.
abbrev pub step_at : Bytes → Bytes → Result (Bytes × Bytes)
step_at base [] = ok ([], [])
step_at base (c ∷ rest) = apply_step base c rest

pub step_at-copy_code :
    (base : Bytes) (off sz : ℕ) (rest : Bytes)
    → step_at base (copy_code off sz ++ rest) ≡ copy_step base (off % 2 ^ 32) (sz % 2 ^ 24) rest
step_at-copy_code base off sz rest = rw (copy_code-append off sz rest) (
    apply_step-fields base _ _ _ _ _ _ _ _ rest refl
    ∙ ap₂ (λ o s. copy_step base o s rest) (offset_bytes off) (size_bytes sz))

-- The size that a COPY instruction carries for a copy of `size` bytes.
abbrev pub carried : ℕ → ℕ
carried size =
    let s = (if size == 0x1_0000 then 0 else size % 2 ^ 32) % 2 ^ 24 in
    if s == 0 then 0x1_0000 else s

pub step_at-emit_copy :
    (base : Bytes) (offset size : ℕ) (rest : Bytes)
    → offset < 2 ^ 32
    → offset + carried size ≤ length base
    → step_at base (emit_copy [] offset size ++ rest) ≡ ok (slice base offset (carried size), rest)
unfolding emit_copy copy_step
step_at-emit_copy base offset size rest h fits =
    step_at-copy_code base (offset % 2 ^ 32) (if size == 0x1_0000 then 0 else size % 2 ^ 32) rest
    ∙ ground arith

-- Copies of fewer than 2 ^ 24 bytes, and at least one, are carried as they are.
pub carried_small : (size : ℕ) → 0 < size → size < 2 ^ 24 → carried size ≡ size
carried_small size h k = ground arith

pub carried-lt : (size : ℕ) → 2 ^ 24 ≤ size → carried size < size
carried-lt size h = ground arith
