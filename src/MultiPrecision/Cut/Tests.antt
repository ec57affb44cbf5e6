-- ===== src/MultiPrecision/Cut/Tests.antt =====
-- A run of mp_get_sw, and the witness of the theorem about it.
use ginger_zaatar_allspice.Prelude.{ℕ, zero, suc, ◌<◌, some, none, [], ◌∷◌, ◌≡◌, refl, arith}
use ginger_zaatar_allspice.MultiPrecision.{word_mod, value}
use ginger_zaatar_allspice.MultiPrecision.Value.{IsWords, IsBelow}
use ginger_zaatar_allspice.MultiPrecision.Cut.{
  get_bit, window_length, zero_bits, read_window, cut_loop, max_of, trim, sum_first, make_sw,
  mp_get_sw,
}
use ginger_zaatar_allspice.MultiPrecision.Cut.Windows.{IsCut, mp_get_sw-IsCut}

-- 200 is 9 * 2^3 + 1 * 2^7.
cuts :
    mp_get_sw (200 ∷ []) 1
    ≡ some (record {
      fragment = 0 ∷ 9 ∷ 1 ∷ 0 ∷ 0 ∷ [];
      shift = 3 ∷ 4 ∷ 57 ∷ 53 ∷ 0 ∷ [];
      num_fragments = 3;
      max_fragment = 9;
    })
unfolding mp_get_sw make_sw cut_loop zero_bits read_window get_bit window_length max_of trim
    sum_first
cuts = refl

-- The exponent 0 has no fragment for the last write to length.
cuts_zero : mp_get_sw (0 ∷ []) 1 ≡ none
unfolding mp_get_sw make_sw cut_loop zero_bits read_window get_bit window_length max_of trim
    sum_first
cuts_zero = refl

word-IsWords : (x : ℕ) → x < word_mod → IsWords (x ∷ [])
unfolding IsBelow
word-IsWords x h zero = h
word-IsWords x h (suc i) = omega arith

mp_get_sw-IsCut_example : IsCut (value (200 ∷ [])) (mp_get_sw (200 ∷ []) 1)
unfolding value
mp_get_sw-IsCut_example =
    mp_get_sw-IsCut (200 ∷ []) (word-IsWords 200 (omega arith)) (omega arith) positive
  where
    positive : 0 < value (200 ∷ [])
    positive = omega arith
