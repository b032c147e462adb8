-- ===== src/Atproto/Tid/Tests.antt =====
-- TIDs of a few times, and the theorems at them.
use kappa_registry.Prelude.{ℕ, ◌%◌, ◌≡◌, refl, arith, true, List, []}
use kappa_registry.Prelude.{◌∷◌, ◌++◌, codes, map}
use kappa_registry.Atproto.Tid.{s32_char, s32_encode, s32_encode_loop, padded, tid_from_parts}
use kappa_registry.Atproto.Tid.{
  parse_tid, is_valid_tid, ok, panicked, invalid_length, with_clock_id,
}
use kappa_registry.Atproto.Tid.{without_dashes, cuts_character, is_continuation}
use kappa_registry.Atproto.Tid.Order.{tids, Ascending, with_clock_id-Ascending}
use kappa_registry.Atproto.Tid.RoundTrip.{parse_tid-tid_from_parts}

abbrev below_32 : List ℕ
below_32 =
    0 ∷ 1 ∷ 2 ∷ 3 ∷ 4 ∷ 5 ∷ 6 ∷ 7 ∷ 8 ∷ 9 ∷ 10 ∷ 11 ∷ 12 ∷ 13 ∷ 14 ∷ 15 ∷ 16 ∷ 17 ∷ 18 ∷ 19 ∷ 20
    ∷ 21 ∷ 22 ∷ 23 ∷ 24 ∷ 25 ∷ 26 ∷ 27 ∷ 28 ∷ 29 ∷ 30 ∷ 31 ∷ []

alphabet_run : map s32_char below_32 ≡ codes "234567abcdefghijklmnopqrstuvwxyz"
unfolding s32_char
alphabet_run = refl

text_run : tid_from_parts 1700000000000000 3 ≡ codes "3ke6kg3wk2225"
unfolding tid_from_parts s32_encode s32_encode_loop padded s32_char
text_run = refl

-- Thirteen bytes, of which the eleventh and the twelfth are one character.
cut_run : parse_tid (codes "2222222222" ++ (195 ∷ 169 ∷ b'2' ∷ [])) ≡ panicked
unfolding parse_tid without_dashes cuts_character is_continuation
cut_run = refl

short_run : parse_tid (codes "222-222") ≡ invalid_length 6
unfolding parse_tid without_dashes
short_run = refl

parse_tid-tid_from_parts_example :
    (parse_tid (tid_from_parts 1700000000000000 3) ≡ ok (1700000000000000, 3))
    × (is_valid_tid (tid_from_parts 1700000000000000 3) ≡ true)
parse_tid-tid_from_parts_example =
    parse_tid-tid_from_parts 1700000000000000 3 (omega arith) (omega arith)

abbrev times : List ℕ
times = 1700000000000000 ∷ 1700000000000000 ∷ 5 ∷ []

with_clock_id-Ascending_example :
    Ascending (tid_from_parts 0 (3 % 32)) (tids times (with_clock_id 3))
with_clock_id-Ascending_example =
    with_clock_id-Ascending times 3 (omega arith, (omega arith, (omega arith, tt))) (omega arith)
