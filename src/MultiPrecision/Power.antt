-- ===== src/MultiPrecision/Power.antt =====
-- The modular exponentiations of code/pepper/lib_gpu/mp_modexp_cpu.cpp, on Montgomery products.
pub mod Represents
pub mod Window
pub mod Cached
pub mod Batch
mod Tests
use ginger_zaatar_allspice.Prelude.{
  ℕ, zero, suc, ◌+◌, ◌-◌, ◌*◌, ◌/◌, ◌%◌, ◌^◌, Bool, true, false, List, [], ◌∷◌, ltb, ◌==◌,
  if◌then◌else◌, get_or, get_elem?, set, replicate, take, drop, Option, none, some,
}
use ginger_zaatar_allspice.MultiPrecision.{word}
use ginger_zaatar_allspice.MultiPrecision.Montgomery.{mp_montmul_cpu, ◌>>=◌}

-- struct mp_sw: an exponent cut into fragments, the lowest first, which are zero or odd; the other
-- array says by how many bits the fragments above are shifted.
pub record MpSw : Type 0 where
  pub fragment : List ℕ
  pub shift : List ℕ
  pub num_fragments : ℕ
  pub max_fragment : ℕ

abbrev pub sw_max_num_frags : ℕ
sw_max_num_frags = 512

abbrev pub sw_max_fragment : ℕ
sw_max_fragment = 32

-- The entries of the table of odd powers.
abbrev pub ar_pow_size : ℕ
ar_pow_size = sw_max_fragment / 2

abbrev pub make_one : ℕ → List ℕ
make_one len = set (replicate len 0) 0 1

-- `1 << WINDOW_SIZE`
abbrev pub window_mod : ℕ
window_mod = 2 ^ 8

abbrev pub windows_per_word : ℕ
windows_per_word = 64 / 8

-- WINDOW(word, n)
abbrev pub window : ℕ → ℕ → ℕ
window w n = w / 2 ^ (8 * n) % window_mod

module _ (len : ℕ) (n np : List ℕ) where
  abbrev pub montmul : List ℕ → List ℕ → Option (List ℕ)
  montmul a b = mp_montmul_cpu len a b n np

  -- ar_pow from entry k on, which holds `power`: the odd powers. A write past the end of the array
  -- is `none`.
  unfoldable pub odd_powers : List ℕ → List ℕ → ℕ → ℕ → Option (List (List ℕ))
  odd_powers ar_sqr power k zero = some (power ∷ [])
  odd_powers ar_sqr power k (suc rounds) = elim (ltb (suc k) ar_pow_size) [
    | false ↦ none
    | true ↦ montmul power ar_sqr >>= λ next.
        odd_powers ar_sqr next (suc k) rounds >>= λ powers. some (power ∷ powers)
  ]

  unfoldable pub squares : ℕ → List ℕ → Option (List ℕ)
  squares zero ret = some ret
  squares (suc rounds) ret = montmul ret ret >>= squares rounds

  -- `if (sw->fragment[k]) mp_montmul_cpu(ret, ret, ar_pow[sw->fragment[k] >> 1])`
  unfoldable pub multiply_fragment : List (List ℕ) → ℕ → List ℕ → Option (List ℕ)
  multiply_fragment ar_pow fragment ret =
      if fragment == 0
      then some ret
      else get_elem? ar_pow (fragment / 2) >>= λ power. montmul ret power

  -- The fragments below k, from the top down.
  unfoldable pub fragment_loop : List (List ℕ) → MpSw → ℕ → List ℕ → Option (List ℕ)
  unfolding squares multiply_fragment
  fragment_loop ar_pow sw zero ret = some ret
  fragment_loop ar_pow sw (suc k) ret =
      squares (get_or sw.shift k 0) ret
      >>= multiply_fragment ar_pow (get_or sw.fragment k 0)
      >>= fragment_loop ar_pow sw k

  unfoldable pub mp_modexp_cpu : List ℕ → MpSw → Option (List ℕ)
  unfolding odd_powers fragment_loop
  mp_modexp_cpu ar sw = montmul ar ar >>= λ ar_sqr.
      odd_powers ar_sqr ar 0 ((sw.max_fragment - 1) / 2) >>= λ ar_pow.
      get_elem? ar_pow (get_or sw.fragment (sw.num_fragments - 1) 0 / 2)
      >>= fragment_loop ar_pow sw (sw.num_fragments - 1)

  unfoldable pub mp_modexp_mont_cpu : List ℕ → MpSw → List ℕ → Option (List ℕ)
  unfolding mp_modexp_cpu
  mp_modexp_mont_cpu a sw r_sq =
      if sw.num_fragments == 0
      then some (make_one len)
      else (montmul a r_sq >>= λ s_a. mp_modexp_cpu s_a sw >>= λ ret. montmul ret (make_one len))

  unfoldable pub mp_montgomerize_cpu : List ℕ → List ℕ → Option (List ℕ)
  mp_montgomerize_cpu a r_sq = montmul a r_sq

  -- The loop over the windows of a word, and the loop over words; the table moves on by the
  -- `window_mod - 1` numbers of a window each time.
  unfoldable pub multiply_window : List (List ℕ) → ℕ → List ℕ → Option (List ℕ)
  multiply_window powm_cache w ret =
      if ltb 0 w then (get_elem? powm_cache (w - 1) >>= λ power. montmul ret power) else some ret

  unfoldable pub window_loop : ℕ → ℕ → ℕ → List (List ℕ) → List ℕ → Option (List (List ℕ) × List ℕ)
  unfolding multiply_window
  window_loop e j zero powm_cache ret = some (powm_cache, ret)
  window_loop e j (suc rounds) powm_cache ret =
      multiply_window powm_cache (window e j) ret
      >>= window_loop e (suc j) rounds (drop (window_mod - 1) powm_cache)

  unfoldable pub word_loop : List ℕ → ℕ → ℕ → List (List ℕ) → List ℕ → Option (List ℕ)
  unfolding window_loop
  word_loop e i zero powm_cache ret = some ret
  word_loop e i (suc rounds) powm_cache ret =
      window_loop (word e i) 0 windows_per_word powm_cache ret >>= λ r.
      word_loop e (suc i) rounds r.0 r.1

  unfoldable pub mp_modexp_cached_cpu : List ℕ → List (List ℕ) → List ℕ → Option (List ℕ)
  unfolding word_loop
  mp_modexp_cached_cpu e powm_cache r_sq =
      montmul (make_one len) r_sq >>= word_loop e 0 len powm_cache >>= λ ret.
      montmul ret (make_one len)
