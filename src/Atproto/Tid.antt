-- ===== src/Atproto/Tid.antt =====
-- crates/kappa-module-atproto/src/tid.rs: identifiers of a time in microseconds and a clock, in an
-- alphabet of 32 characters that keeps their order. A text is its UTF-8 bytes. The system's time is
-- an argument, and so is the first byte of the SHA-256 of a node's anchor.
pub mod Digits
pub mod Order
pub mod RoundTrip
mod Tests
use kappa_registry.Prelude.{ℕ, zero, suc, ◌+◌, ◌-◌, ◌*◌, ◌/◌, ◌%◌, ◌^◌, ◌==◌, ltb, leb, ◌&&◌, ◌||◌}
use kappa_registry.Prelude.{Bool, true, false, if◌then◌else◌, List, [], ◌∷◌, ◌++◌, Bytes, length}
use kappa_registry.Prelude.{take, drop, replicate}

-- `S32_CHAR[c]`, for `c` below 32: "234567abcdefghijklmnopqrstuvwxyz".
unfoldable pub s32_char : ℕ → ℕ
s32_char c = if ltb c 6 then b'2' + c else b'a' + (c - 6)

abbrev pub tid_len : ℕ
tid_len = 13

-- `while n > 0`; a digit is pushed and the text reversed at the end, so that it goes to the front.
-- A u64 has 13 digits, the fuel that is given.
unfoldable pub s32_encode_loop : ℕ → ℕ → Bytes → Bytes
s32_encode_loop zero n s = s
s32_encode_loop (suc fuel) n s =
    let more = s32_encode_loop fuel (n / 32) (s32_char (n % 32) ∷ s) in if ltb 0 n then more else s

unfoldable pub s32_encode : ℕ → Bytes
s32_encode n = s32_encode_loop 13 n []

-- A text behind as many zero digits as bring it to `width`.
unfoldable pub padded : ℕ → Bytes → Bytes
padded width s = replicate (width - length s) (s32_char 0) ++ s

unfoldable pub tid_from_parts : ℕ → ℕ → Bytes
tid_from_parts timestamp clock_id =
    padded 11 (s32_encode timestamp) ++ padded 2 (s32_encode clock_id)

unfoldable pub s32_value : ℕ → ℕ
s32_value b =
    if leb b'2' b && leb b b'7'
    then b - b'2'
    else if leb b'a' b && leb b b'z'
    then b - b'a' + 6
    else 0

unfoldable pub s32_decode_loop : Bytes → ℕ → ℕ
s32_decode_loop [] n = n
s32_decode_loop (b ∷ bytes) n = s32_decode_loop bytes ((n * 32 + s32_value b) % 2 ^ 64)

unfoldable pub s32_decode : Bytes → ℕ
s32_decode s = s32_decode_loop s 0

-- `s.replace('-', "")`
unfoldable pub without_dashes : Bytes → Bytes
without_dashes [] = []
without_dashes (b ∷ s) = let rest = without_dashes s in if b == b'-' then rest else b ∷ rest

-- `panicked` is the panic of a slice that cuts a character.
pub data TidResult : Type 0 where
  ok : ℕ × ℕ → TidResult
  invalid_length : ℕ → TidResult
  panicked : TidResult

-- Whether the byte goes on a character of several bytes.
unfoldable pub is_continuation : ℕ → Bool
is_continuation b = leb 128 b && ltb b 192

unfoldable pub cuts_character : Bytes → Bool
cuts_character [] = false
cuts_character (b ∷ s) = is_continuation b

unfoldable pub parse_tid : Bytes → TidResult
parse_tid s =
    let clean = without_dashes s in
    if length clean == tid_len
    then (if cuts_character (drop 11 clean)
        then panicked
        else ok (s32_decode (take 11 clean), s32_decode (take 2 (drop 11 clean)) % 256))
    else invalid_length (length clean)

unfoldable pub all_s32 : Bytes → Bool
all_s32 [] = true
all_s32 (b ∷ s) =
    let rest = all_s32 s in
    if (leb b'2' b && leb b b'7') || (leb b'a' b && leb b b'z') then rest else false

unfoldable pub is_valid_tid : Bytes → Bool
is_valid_tid s =
    let clean = without_dashes s in if length clean == tid_len then all_s32 clean else false

pub record TidGenerator : Type 0 where
  pub clock_id : ℕ
  pub last_timestamp : ℕ

-- `TidGenerator::new`, at the first byte of the anchor's hash; `with_clock_id` is the same.
unfoldable pub with_clock_id : ℕ → TidGenerator
with_clock_id clock_id = record { clock_id = clock_id % 32; last_timestamp = 0 }

-- One call of `next`, at the round of its loop in which the exchange succeeds: the timestamp that is
-- read there is the one that is replaced, whatever other calls did since the time was taken.
unfoldable pub next : ℕ → TidGenerator → TidGenerator × Bytes
next now_us g =
    let candidate =
      if ltb g.last_timestamp now_us then now_us else (g.last_timestamp + 1) % 2 ^ 64 in
    (record g { last_timestamp = candidate }, tid_from_parts candidate g.clock_id)
