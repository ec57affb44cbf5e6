-- ===== src/MultiPrecision/Cut.antt =====
-- mp_get_sw of code/pepper/lib_gpu/mp_modexp.cpp, which cuts an exponent into windows, with the
-- technique that mp_modexp.h selects (MP_USE_CLNW: windows of constant length).
pub mod Bits
pub mod Pieces
pub mod Windows
mod Tests
use ginger_zaatar_allspice.Prelude.{
  ℕ, zero, suc, ◌+◌, ◌-◌, ◌*◌, ◌/◌, ◌%◌, ◌^◌, min, max, Option, none, some, List, [], ◌∷◌, map, ltb,
  leb, ◌==◌, ◌&&◌, if◌then◌else◌, length, get_or, set,
}
use ginger_zaatar_allspice.MultiPrecision.{word}
use ginger_zaatar_allspice.MultiPrecision.Montgomery.{◌>>=◌}
use ginger_zaatar_allspice.MultiPrecision.Power.{MpSw, sw_max_num_frags, sw_max_fragment}

abbrev pub bits_per_word : ℕ
bits_per_word = 64

unfoldable pub get_bit : List ℕ → ℕ → ℕ
get_bit a i = word a (i / bits_per_word) / 2 ^ (i % bits_per_word) % 2

-- The window length d.
unfoldable pub window_length : ℕ → ℕ
window_length num_bits =
    if ltb num_bits 256
    then 4
    else if ltb num_bits 768
    then 5
    else if ltb num_bits 1792
    then 6
    else 7

-- How far the loop over zero bits goes from bit i, with `rest` bits left.
unfoldable pub zero_bits : List ℕ → ℕ → ℕ → ℕ
unfolding get_bit
zero_bits a zero i = 0
zero_bits a (suc rest) i =
    let more = zero_bits a rest (suc i) in if get_bit a i == 0 then suc more else 0

-- The fragment of `count` bits from bit i; the OR of different bits is their sum.
unfoldable pub read_window : List ℕ → ℕ → ℕ → ℕ
unfolding get_bit
read_window a zero i = 0
read_window a (suc count) i = get_bit a i + 2 * read_window a count (suc i)

-- A fragment and its length: an entry of the two arrays.
pub record Entry : Type 0 where
  pub fragment : ℕ
  pub size : ℕ

-- One entry for the zero bits, if there are any, and one for the window after them.
abbrev pub entries : ℕ → Entry → List Entry → List Entry
entries zeros window pieces =
    if zeros == 0 then window ∷ pieces else record { fragment = 0; size = zeros } ∷ window ∷ pieces

-- The entries that the loop appends from bit i on, with `rest` bits left. The fuel is the number of
-- bits.
unfoldable pub cut_loop : List ℕ → ℕ → ℕ → ℕ → ℕ → Option (List Entry)
unfolding zero_bits read_window
cut_loop a d fuel zero i = some []
cut_loop a d zero (suc rest) i = none
cut_loop a d (suc fuel) (suc rest) i =
    let zeros = zero_bits a (suc rest) i in
    let left = suc rest - zeros in
    let count = min d left in
    let window : Entry = record { fragment = read_window a count (i + zeros); size = count } in
    cut_loop a d fuel (left - count) (i + zeros + count) >>= λ pieces.
    some (entries zeros window pieces)

abbrev pub fragments : List Entry → List ℕ
fragments pieces = map (λ (p : Entry). p.fragment) pieces

abbrev pub sizes : List Entry → List ℕ
sizes pieces = map (λ (p : Entry). p.size) pieces

-- max_fragment, after all the windows.
unfoldable pub max_of : List Entry → ℕ
max_of [] = 0
max_of (p ∷ pieces) = max p.fragment (max_of pieces)

-- `while (n > 0 && ret->fragment[n - 1] == 0) n--`
unfoldable pub trim : List ℕ → ℕ → ℕ
trim fragment zero = 0
trim fragment (suc n) =
    let less = trim fragment n in if get_or fragment n 0 == 0 then less else suc n

-- The sum of the first n entries.
unfoldable pub sum_first : List ℕ → ℕ → ℕ
sum_first xs zero = 0
sum_first [] (suc n) = 0
sum_first (x ∷ xs) (suc n) = x + sum_first xs n

-- The end of mp_get_clnw. The assertions fail with none, and so does the write to length[n - 1]
-- for n = 0, which is out of range. The number of fragments only grows in the loop, so that its
-- assertion is the one on the last number. The lengths, which have 16 bits, stay below the number of
-- bits, and their assertions hold for fewer than 2^10 words.
unfoldable pub make_sw : ℕ → List Entry → Option MpSw
unfolding max_of trim sum_first
make_sw num_bits pieces =
    let n = trim (fragments pieces) (length pieces) in
    if leb (length pieces) sw_max_num_frags
      && ltb (max_of pieces) sw_max_fragment
      && max_of pieces % 2 == 1
      && ltb 0 n
    then some (record {
      fragment = fragments pieces;
      shift = set (sizes pieces) (n - 1) (num_bits - sum_first (sizes pieces) (n - 1));
      num_fragments = n;
      max_fragment = max_of pieces;
    })
    else none

unfoldable pub mp_get_sw : List ℕ → ℕ → Option MpSw
unfolding cut_loop make_sw window_length
mp_get_sw a word_len =
    let num_bits = word_len * bits_per_word in
    cut_loop a (window_length num_bits) num_bits num_bits 0 >>= make_sw num_bits
