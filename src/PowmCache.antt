-- ===== src/PowmCache.antt =====
-- code/pepper/crypto/powm_cache.cpp: the table of powers that fixed-base exponentiation reads.
-- Chunk i of the table holds the multiples of b^(2^(w * i)), and its last entry is the first of
-- the next chunk. Sizes are numbers below 2^31, so the source's size_t and int do not wrap.
pub mod Chunks
pub mod Powers
pub mod Extend
mod Tests
use ginger_zaatar_allspice.Prelude.{
  ℕ, zero, suc, ◌+◌, ◌-◌, ◌*◌, ◌/◌, ◌^◌, Bool, List, [], ◌∷◌, ◌++◌, Option, none, some, ltb, leb,
  ◌==◌, if◌then◌else◌, get_or, set, replicate,
}
use ginger_zaatar_allspice.Prelude.Int.{ℤ, pos}
use ginger_zaatar_allspice.Gmp.{Gmp}

unfoldable pub get_num_chunks : ℕ → ℕ → ℕ
get_num_chunks max_exp_bits window_size =
    if window_size == 0 then 0 else (max_exp_bits + window_size - 1) / window_size

unfoldable pub get_num_pow_per_chunk : ℕ → ℕ
get_num_pow_per_chunk window_size = 2 ^ window_size - 1

unfoldable pub get_cache_size : ℕ → ℕ → ℕ
unfolding get_num_pow_per_chunk
get_cache_size num_chunks window_size = num_chunks * get_num_pow_per_chunk window_size + 1

pub record PowmCache : Type 0 where
  pub prime : ℤ
  pub cache : List ℤ
  pub window_size : ℕ
  pub num_chunks : ℕ
  pub cache_size : ℕ

-- The old table in front of the new one.
abbrev pub copy : List ℤ → List ℤ → List ℤ
copy new [] = new
copy [] (x ∷ old) = []
copy (y ∷ new) (x ∷ old) = x ∷ copy new old

module _ (g : Gmp) where
  open g use {mpz_mul, mpz_mod}

  -- cache_base[j] = cache_base[0] * cache_base[j - 1], for `rounds` values of j.
  abbrev pub chunk_step : ℤ → List ℤ → ℕ → ℕ → List ℤ
  chunk_step prime cache base j =
      set cache (base + j)
        (mpz_mod (mpz_mul (get_or cache base (pos 0)) (get_or cache (base + j - 1) (pos 0))) prime)

  unfoldable pub chunk_loop : ℤ → List ℤ → ℕ → ℕ → ℕ → List ℤ
  chunk_loop prime cache base j zero = cache
  chunk_loop prime cache base j (suc rounds) =
      chunk_loop prime (chunk_step prime cache base j) base (suc j) rounds

  -- The chunks i, i + 1, …, with `rounds` left; `per_chunk` powers each.
  unfoldable pub compute_cache : ℤ → List ℤ → ℕ → ℕ → ℕ → List ℤ
  unfolding chunk_loop
  compute_cache prime cache per_chunk i zero = cache
  compute_cache prime cache per_chunk i (suc rounds) =
      compute_cache prime (chunk_loop prime cache (i * per_chunk) 1 per_chunk) per_chunk (suc i)
        rounds

  -- The constructor.
  unfoldable pub make_cache : ℤ → ℤ → ℕ → ℕ → PowmCache
  unfolding get_num_chunks get_cache_size get_num_pow_per_chunk compute_cache
  make_cache b p max_exp_bits win_size =
      let chunks = get_num_chunks max_exp_bits win_size in
      let size = get_cache_size chunks win_size in
      record {
        prime = p;
        cache =
            compute_cache p (set (replicate size (pos 0)) 0 b) (get_num_pow_per_chunk win_size) 0
              chunks;
        window_size = win_size;
        num_chunks = chunks;
        cache_size = size;
      }

  unfoldable pub extend_cache : PowmCache → ℕ → PowmCache
  unfolding get_num_chunks get_cache_size get_num_pow_per_chunk compute_cache
  extend_cache c max_exp_bits =
      let per_chunk = get_num_pow_per_chunk c.window_size in
      let new_num_chunks = get_num_chunks max_exp_bits c.window_size in
      let new_cache_size = get_cache_size new_num_chunks c.window_size in
      if per_chunk == 0 then c else if leb new_num_chunks c.num_chunks then c else record c {
        cache =
            compute_cache c.prime (copy (replicate new_cache_size (pos 0)) c.cache) per_chunk
              c.num_chunks (new_num_chunks - c.num_chunks);
        cache_size = new_cache_size;
        num_chunks = new_num_chunks;
      }

-- The assertion on the index fails as `none`.
unfoldable pub get_item : PowmCache → ℕ → ℕ → Option ℤ
unfolding get_num_pow_per_chunk
get_item c chunk chunk_value =
    let idx = chunk * get_num_pow_per_chunk c.window_size + chunk_value in
    if ltb idx c.cache_size then some (get_or c.cache idx (pos 0)) else none
