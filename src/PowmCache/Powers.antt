-- ===== src/PowmCache/Powers.antt =====
-- The entries of the table (code/pepper/crypto/powm_cache.cpp) are the powers that they stand for.
use native.Mathlib.Nat.{mod-eq_of_lt}
use ginger_zaatar_allspice.Prelude.{
  lt→ltb, ℕ, suc, ◌+◌, ◌-◌, ◌*◌, ◌%◌, ◌^◌, ◌<◌, ◌≤◌, ◌≡◌, sym, ◌∙◌, ap, some, get_or, set,
  replicate, length-set, get_or-set_self, length-replicate, arith,
}
use ginger_zaatar_allspice.Prelude.Int.{ℤ, pos}
use ginger_zaatar_allspice.Prelude.Pow.{entry_exponent}
use ginger_zaatar_allspice.Gmp.{Gmp}
use ginger_zaatar_allspice.PowmCache.{
  get_num_chunks, get_num_pow_per_chunk, get_cache_size, compute_cache, make_cache, get_item,
}
use ginger_zaatar_allspice.PowmCache.Chunks.{chunk_after, compute_cache_at}

module _ (g : Gmp) (q : ℕ) where
  -- The entries of the table that the constructor computes, for chunks of n powers.
  pub table_entry :
      (β chunks n i j : ℕ)
      → β < suc q
      → i < chunks
      → j ≤ n
      → get_or
          (compute_cache g
            (pos (suc q))
            (set (replicate (chunks * n + 1) (pos 0)) 0 (pos β))
            n
            0
            chunks)
          (i * n + j)
          (pos 0)
        ≡ pos ((β ^ (suc n ^ i)) ^ suc j % suc q)
  table_entry β chunks n i j h₁ h₂ h₃ =
      ap
        (λ (k : ℕ).
          get_or
            (compute_cache g (pos (suc q)) (set (replicate (chunks * n + 1) (pos 0)) 0 (pos β)) n 0
              chunks)
            (k * n + j) (pos 0))
        {y = 0 + i} (omega arith)
      ∙ compute_cache_at g q (set (replicate (chunks * n + 1) (pos 0)) 0 (pos β)) n 0 chunks β i j
          (ap (λ (k : ℕ). get_or (set (replicate (chunks * n + 1) (pos 0)) 0 (pos β)) k (pos 0))
              {y = 0} (omega arith)
            ∙ get_or-set_self (replicate (chunks * n + 1) (pos 0)) 0 (pos β) (pos 0)
                (omega (arith, length-replicate (chunks * n + 1) (pos 0)))
            ∙ ap pos (sym (mod-eq_of_lt h₁)))
          (omega (
            arith,
            length-set (replicate (chunks * n + 1) (pos 0)) 0 (pos β),
            length-replicate (chunks * n + 1) (pos 0),
          ))
          h₂ h₃

pub chunk_below : (i chunks n : ℕ) → i < chunks → i * n + n ≤ chunks * n
chunk_below i chunks n h = omega (
  arith,
  chunk_after i (chunks - suc i) n,
  ap (λ (k : ℕ). k * n) {x = i + suc (chunks - suc i)} {y = chunks} (omega arith),
)

-- The item of a chunk and a position in it is the power that it stands for: the table of base β for
-- exponents of max bits, with windows of w > 0 bits, holds β^((j + 1) * 2^(w * i)) modulo the prime
-- at chunk i and position j, for every chunk of the table and every j up to 2^w - 1. The base is below
-- the prime, since the table's first entry is the base as it was given.
pub get_item-make_cache :
    (g : Gmp) (q β max w i j : ℕ)
    → 0 < w
    → β < suc q
    → i < get_num_chunks max w
    → j ≤ 2 ^ w - 1
    → get_item (make_cache g (pos β) (pos (suc q)) max w) i j
      ≡ some (pos (β ^ (suc j * 2 ^ (w * i)) % suc q))
unfolding get_item make_cache get_num_pow_per_chunk get_cache_size
get_item-make_cache g q β max w i j h₀ h₁ h₂ h₃ =
    rw
      (lt→ltb (i * (2 ^ w - 1) + j) (get_num_chunks max w * (2 ^ w - 1) + 1)
        (omega (arith, chunk_below i (get_num_chunks max w) (2 ^ w - 1) h₂)))
      (ap (λ (v : ℤ). some v)
        (table_entry g q β (get_num_chunks max w) (2 ^ w - 1) i j h₁ h₂ h₃
          ∙ ap (λ (k : ℕ). pos (k % suc q)) (entry_exponent β w i j)))
