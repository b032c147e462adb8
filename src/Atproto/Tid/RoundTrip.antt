-- ===== src/Atproto/Tid/RoundTrip.antt =====
-- A TID is parsed back to its timestamp and its clock.
use kappa_registry.Prelude.{
  ℕ, zero, suc, ◌+◌, ◌*◌, ◌/◌, ◌%◌, ◌^◌, ◌<◌, ◌≡◌, refl, ap, subst, ◌∙◌, arith, leb,
}
use kappa_registry.Prelude.{◌&&◌, ◌||◌, ◌==◌, true, false, [], ◌∷◌, ◌++◌, Bytes, length}
use kappa_registry.Prelude.{length-append, take, drop, take-length_append, drop-length_append}
use kappa_registry.Prelude.{All, All-append, append-nil}
use kappa_registry.Atproto.Tid.{s32_char, s32_value, s32_decode, s32_decode_loop, tid_from_parts}
use kappa_registry.Atproto.Tid.{without_dashes, cuts_character, is_continuation, parse_tid, ok}
use kappa_registry.Atproto.Tid.{all_s32, is_valid_tid}
use kappa_registry.Atproto.Tid.Digits.{digits, length-digits, padded-s32_encode}

char_value : (c : ℕ) → c < 32 → s32_value (s32_char c) ≡ c
unfolding s32_value s32_char
char_value c h = ground arith

decode-snoc :
    (s : Bytes) (b n : ℕ)
    → s32_decode_loop (s ++ (b ∷ [])) n ≡ (s32_decode_loop s n * 32 + s32_value b) % 2 ^ 64
unfolding s32_decode_loop
decode-snoc [] b n = refl
decode-snoc (c ∷ s) b n = decode-snoc s b ((n * 32 + s32_value c) % 2 ^ 64)

decode-digits : (k n : ℕ) → n < 32 ^ k → n < 2 ^ 60 → s32_decode_loop (digits k n) 0 ≡ n
unfolding s32_decode_loop
decode-digits zero n h l = omega arith
decode-digits (suc k) n h l = omega (
  arith,
  decode-snoc (digits k (n / 32)) (s32_char (n % 32)) 0,
  decode-digits k (n / 32) (omega arith) (omega arith),
  char_value (n % 32) (omega arith),
)

-- A character of the alphabet.
abbrev IsS32 : ℕ → Type 0
IsS32 b = (c : ℕ) × (c < 32) × (b ≡ s32_char c)

digits-IsS32 : (k n : ℕ) → All IsS32 (digits k n)
digits-IsS32 zero n = tt
digits-IsS32 (suc k) n =
    All-append IsS32 (digits k (n / 32)) _ (digits-IsS32 k (n / 32))
      ((n % 32, omega arith, refl), tt)

char_plain :
    (c : ℕ)
    → c < 32
    → ((s32_char c == b'-') ≡ false)
      × (is_continuation (s32_char c) ≡ false)
      × (((leb b'2' (s32_char c) && leb (s32_char c) b'7')
            || (leb b'a' (s32_char c) && leb (s32_char c) b'z'))
          ≡ true)
unfolding s32_char is_continuation
char_plain c h = (ground arith, ground arith, ground arith)

without_dashes_plain : (s : Bytes) → All IsS32 s → without_dashes s ≡ s
unfolding without_dashes
without_dashes_plain [] h = refl
without_dashes_plain (b ∷ s) ((c, l, e), hs) =
    rw (e, (char_plain c l).0) (ap (λ t. s32_char c ∷ t) (without_dashes_plain s hs))

all_s32_plain : (s : Bytes) → All IsS32 s → all_s32 s ≡ true
unfolding all_s32
all_s32_plain [] h = refl
all_s32_plain (b ∷ s) ((c, l, e), hs) = rw (e, (char_plain c l).2) (all_s32_plain s hs)

cuts_plain : (s : Bytes) → All IsS32 s → cuts_character s ≡ false
unfolding cuts_character
cuts_plain [] h = refl
cuts_plain (b ∷ s) ((c, l, e), hs) = rw e (char_plain c l).1

abbrev pub tid_digits : ℕ → ℕ → Bytes
tid_digits timestamp clock_id = digits 11 timestamp ++ digits 2 clock_id

pub tid_from_parts-digits :
    (timestamp clock_id : ℕ)
    → timestamp < 2 ^ 55
    → clock_id < 2 ^ 10
    → tid_from_parts timestamp clock_id ≡ tid_digits timestamp clock_id
unfolding tid_from_parts
tid_from_parts-digits timestamp clock_id h l = rw (
  padded-s32_encode 11 timestamp (omega arith) (omega arith),
  padded-s32_encode 2 clock_id (omega arith) (omega arith),
)

parse_parts :
    (front back : Bytes)
    → length front ≡ 11
    → length back ≡ 2
    → All IsS32 front
    → All IsS32 back
    → (parse_tid (front ++ back) ≡ ok (s32_decode front, s32_decode back % 256))
      × (is_valid_tid (front ++ back) ≡ true)
unfolding parse_tid is_valid_tid
parse_parts front back lf lb hf hb =
    let plain = All-append IsS32 front back hf hb in
    let clean = without_dashes_plain (front ++ back) plain in
    let t : take 11 (front ++ back) ≡ front = rw (← lf) (take-length_append front back) in
    let d : drop 11 (front ++ back) ≡ back = rw (← lf) (drop-length_append front back) in
    let b : take 2 back ≡ back =
      rw (← lb)
        (subst (λ x. take (length back) x ≡ back) (append-nil back) (take-length_append back [])) in
    let n : length (front ++ back) ≡ 13 = omega (arith, length-append front back) in
    (
      rw (clean, n, d, t, b, cuts_plain back hb) refl,
      rw (clean, n, all_s32_plain (front ++ back) plain) refl,
    )

-- `parse_tid` reads back a timestamp below 2 ^ 55 and a clock id below 2 ^ 8 from what
-- `tid_from_parts` made of them, and `is_valid_tid` accepts that text.
pub parse_tid-tid_from_parts :
    (timestamp clock_id : ℕ)
    → timestamp < 2 ^ 55
    → clock_id < 2 ^ 8
    → (parse_tid (tid_from_parts timestamp clock_id) ≡ ok (timestamp, clock_id))
      × (is_valid_tid (tid_from_parts timestamp clock_id) ≡ true)
unfolding s32_decode
parse_tid-tid_from_parts timestamp clock_id h l =
    let (parsed, valid) =
      parse_parts (digits 11 timestamp) (digits 2 clock_id) (length-digits 11 timestamp)
        (length-digits 2 clock_id) (digits-IsS32 11 timestamp) (digits-IsS32 2 clock_id) in
    let ts = decode-digits 11 timestamp (omega arith) (omega arith) in
    let ck = decode-digits 2 clock_id (omega arith) (omega arith) in
    let small : clock_id % 256 ≡ clock_id = omega arith in
    rw (tid_from_parts-digits timestamp clock_id h (omega arith))
      ((parsed ∙ rw (ts, ck, small) refl), valid)
