-- ===== src/Delta/Compute.antt =====
-- `compute_delta` of crates/kappa-core/src/delta.rs: the search for copies from the base, and the
-- instructions that it writes. The scan's position is the list of the target's bytes from there on.
pub mod Copy
pub mod Match
pub mod Offsets
pub mod Oversize
pub mod Scan
pub mod RoundTrip
use Prim.Native.Nat.{bit_xor}
use kappa_registry.Prelude.{ℕ, zero, suc, ◌+◌, ◌-◌, ◌*◌, ◌/◌, ◌%◌, ◌^◌, ◌==◌, ltb, leb}
use kappa_registry.Prelude.{if◌then◌else◌, Bool, ◌||◌, Option, none, some, List, [], ◌∷◌, ◌++◌}
use kappa_registry.Prelude.{Bytes, bytes_eq, length, take, drop}
use kappa_registry.Delta.Varint.{encode_varint}
use kappa_registry.Delta.Apply.{slice}

abbrev pub block_size : ℕ
block_size = 16

abbrev pub threshold_percent : ℕ
threshold_percent = 75

unfoldable pub fnv1a_loop : ℕ → Bytes → ℕ
fnv1a_loop hash [] = hash
fnv1a_loop hash (b ∷ block) = fnv1a_loop ((bit_xor hash b * 0x100_0000_01b3) % 2 ^ 64) block

unfoldable pub fnv1a : Bytes → ℕ
fnv1a block = fnv1a_loop 0xcbf2_9ce4_8422_2325 block

-- The hash map from a fingerprint to the offsets, in the order in which they were pushed.
abbrev pub Index : Type 0
Index = List (ℕ × List ℕ)

unfoldable pub lookup : ℕ → Index → List ℕ
lookup fp [] = []
lookup fp ((k, offsets) ∷ index) = if k == fp then offsets else lookup fp index

-- `index.entry(fp).or_default().push(i)`
unfoldable pub push : ℕ → ℕ → Index → Index
push fp i [] = (fp, i ∷ []) ∷ []
push fp i ((k, offsets) ∷ index) =
    if k == fp then (k, offsets ++ (i ∷ [])) ∷ index else (k, offsets) ∷ push fp i index

-- `for i in 0..=(base.len() - BLOCK_SIZE)`, with the rounds that are left.
unfoldable pub build_loop : ℕ → ℕ → Bytes → Index → Index
build_loop zero i base index = index
build_loop (suc rounds) i base index =
    build_loop rounds (i + 1) base (push (fnv1a (slice base i block_size)) i index)

unfoldable pub build_index : Bytes → Index
build_index base =
    if leb block_size (length base) then build_loop (length base - block_size + 1) 0 base [] else []

-- `while .. base[base_off + len] == target[pos + len] { len += 1 }`, from where the blocks end.
unfoldable pub common_prefix : Bytes → Bytes → ℕ
common_prefix [] ys = 0
common_prefix (x ∷ xs) [] = 0
common_prefix (x ∷ xs) (y ∷ ys) = let more = suc (common_prefix xs ys) in if x == y then more else 0

-- One candidate of `for &base_off in offsets`; the pair is `(best_offset, best_len)`.
unfoldable pub consider : Bytes → Bytes → ℕ → ℕ × ℕ → ℕ × ℕ
consider base target base_off (best_offset, best_len) =
    let len =
      block_size + common_prefix (drop block_size (drop base_off base)) (drop block_size target) in
    if bytes_eq (slice base base_off block_size) (take block_size target)
    then (if ltb best_len len then (base_off, len) else (best_offset, best_len))
    else (best_offset, best_len)

unfoldable pub consider_all : Bytes → Bytes → List ℕ → ℕ × ℕ → ℕ × ℕ
consider_all base target [] best = best
consider_all base target (base_off ∷ offsets) best =
    consider_all base target offsets (consider base target base_off best)

unfoldable pub best_match : Bytes → Index → Bytes → ℕ × ℕ
best_match base index target =
    if leb block_size (length target)
    then consider_all base target (lookup (fnv1a (take block_size target)) index) (0, 0)
    else (0, 0)

-- `while !buf.is_empty()`, which leaves the buffer empty. The fuel is the buffer's length.
unfoldable pub flush_loop : ℕ → Bytes → Bytes → Bytes
flush_loop fuel instructions [] = instructions
flush_loop zero instructions (b ∷ buf) = instructions
flush_loop (suc fuel) instructions (b ∷ buf) =
    let n = if ltb (length (b ∷ buf)) 127 then length (b ∷ buf) else 127 in
    flush_loop fuel (instructions ++ (n ∷ take n (b ∷ buf))) (drop n (b ∷ buf))

unfoldable pub flush_inserts : Bytes → Bytes → Bytes
flush_inserts instructions buf = flush_loop (length buf) instructions buf

-- `if field & mask != 0 { cmd |= flag; extra.push(byte) }`: the flag's bit, and the bytes pushed.
unfoldable pub flag : ℕ → ℕ
flag byte = if byte == 0 then 0 else 1

unfoldable pub field : ℕ → Bytes
field byte = if byte == 0 then [] else byte ∷ []

-- The command byte and the bytes after it, for `off` and `sz` as 32-bit numbers.
unfoldable pub copy_code : ℕ → ℕ → Bytes
copy_code off sz =
    let o1 = off % 256 in
    let o2 = off / 0x100 % 256 in
    let o3 = off / 0x1_0000 % 256 in
    let o4 = off / 0x100_0000 % 256 in
    let s1 = sz % 256 in
    let s2 = sz / 0x100 % 256 in
    let s3 = sz / 0x1_0000 % 256 in
    (0x80
      + flag o1 * 0x01
      + flag o2 * 0x02
      + flag o3 * 0x04
      + flag o4 * 0x08
      + flag s1 * 0x10
      + flag s2 * 0x20
      + flag s3 * 0x40)
    ∷ (field o1 ++ (field o2 ++ (field o3 ++ (field o4 ++ (field s1 ++ (field s2 ++ field s3))))))

unfoldable pub emit_copy : Bytes → ℕ → ℕ → Bytes
emit_copy instructions offset size =
    instructions ++ copy_code (offset % 2 ^ 32) (if size == 0x1_0000 then 0 else size % 2 ^ 32)

pub record ScanState : Type 0 where
  pub instructions : Bytes
  pub insert_buf : Bytes
  pub target : Bytes

-- One round of `while pos < target.len()`, at the byte `b`.
unfoldable pub scan_step : Bytes → Index → Bytes → Bytes → ℕ → Bytes → ScanState
scan_step base index instructions buf b rest =
    let best = best_match base index (b ∷ rest) in
    let buf' = buf ++ (b ∷ []) in
    if leb block_size best.1
    then record {
      instructions = emit_copy (flush_inserts instructions buf) best.0 best.1;
      insert_buf = [];
      target = drop best.1 (b ∷ rest);
    }
    else if length buf' == 127
    then record { instructions = flush_inserts instructions buf'; insert_buf = []; target = rest }
    else record { instructions = instructions; insert_buf = buf'; target = rest }

-- The loop and the flush after it. Every round takes a byte of the target.
unfoldable pub scan_loop : ℕ → Bytes → Index → Bytes → Bytes → Bytes → Bytes
scan_loop fuel base index instructions buf [] = flush_inserts instructions buf
scan_loop zero base index instructions buf (b ∷ rest) = instructions
scan_loop (suc fuel) base index instructions buf (b ∷ rest) =
    let s = scan_step base index instructions buf b rest in
    scan_loop fuel base index s.instructions s.insert_buf s.target

unfoldable pub compute_delta : Bytes → Bytes → Option Bytes
compute_delta base target =
    if ((length base == 0) || (length target == 0)) || ltb (length target) block_size
    then none
    else (let instructions = scan_loop (length target) base (build_index base) [] [] target in
        let delta =
          encode_varint (length target) (encode_varint (length base) []) ++ instructions in
        if leb (length target * threshold_percent / 100) (length delta) then none else some delta)
