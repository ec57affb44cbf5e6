-- ===== src/PowmCache/Chunks.antt =====
-- computeCache (code/pepper/crypto/powm_cache.cpp): the chunks of the table, one after the other.
use native.Mathlib.Nat.{add-mul, suc-mul, pow-zero, pow-suc, mod-mod, mul_comm}
use ginger_zaatar_allspice.Prelude.{
  ℕ, zero, suc, ◌+◌, ◌-◌, ◌*◌, ◌%◌, ◌^◌, ◌<◌, ◌≤◌, ◌≡◌, refl, sym, ◌∙◌, ap, ap₂, List, length,
  get_or, length-set, get_or-set_self, get_or-set_ne, arith, ℕ_discrete,
}
use ginger_zaatar_allspice.Prelude.Int.{ℤ, pos}
use ginger_zaatar_allspice.Prelude.Congr.{%ℤ-pos, mul-mod}
use ginger_zaatar_allspice.Prelude.Pow.{pow-one, pow_chunk}
use ginger_zaatar_allspice.Gmp.{Gmp}
use ginger_zaatar_allspice.Field.{modmult}
use ginger_zaatar_allspice.Field.Modular.{modmult_lem}
use ginger_zaatar_allspice.PowmCache.{chunk_step, chunk_loop, compute_cache}

-- Where a chunk lies in the table.
pub chunk_after : (i c n : ℕ) → (i + suc c) * n ≡ i * n + n + c * n
chunk_after i c n = add-mul i (suc c) n ∙ ap (λ (k : ℕ). i * n + k) (suc-mul c n) ∙ omega arith

module _ (g : Gmp) (q : ℕ) where
  length-chunk_loop :
      (cache : List ℤ) (base j rounds : ℕ)
      → length (chunk_loop g (pos (suc q)) cache base j rounds) ≡ length cache
  unfolding chunk_loop
  length-chunk_loop cache base j zero = refl
  length-chunk_loop cache base j (suc rounds) =
      length-chunk_loop (chunk_step g (pos (suc q)) cache base j) base (suc j) rounds
      ∙ length-set cache (base + j) _

  chunk_loop_before :
      (cache : List ℤ) (base j rounds k : ℕ)
      → k < base + j
      → get_or (chunk_loop g (pos (suc q)) cache base j rounds) k (pos 0) ≡ get_or cache k (pos 0)
  unfolding chunk_loop
  chunk_loop_before cache base j zero k h = refl
  chunk_loop_before cache base j (suc rounds) k h =
      chunk_loop_before (chunk_step g (pos (suc q)) cache base j) base (suc j) rounds k
        (omega arith)
      ∙ get_or-set_ne cache (base + j) k _ (pos 0) (omega arith)

  -- One entry: x^t times x.
  chunk_value :
      (x t : ℕ)
      → g.mpz_mod (g.mpz_mul (pos (x % suc q)) (pos (x ^ t % suc q))) (pos (suc q))
        ≡ pos (x ^ suc t % suc q)
  unfolding modmult
  chunk_value x t =
      modmult_lem g q (pos (x % suc q)) (pos (x ^ t % suc q))
      ∙ ap pos (
          rw
            (
              %ℤ-pos q (x % suc q),
              %ℤ-pos q (x ^ t % suc q),
              mod-mod x (suc q),
              mod-mod (x ^ t) (suc q),
              ← mul-mod x (x ^ t) (suc q),
            )
            (ap (λ (y : ℕ). y % suc q) (mul_comm x (x ^ t) ∙ sym (pow-suc x t))))

  chunk_loop_at :
      (cache : List ℤ) (base j rounds x t : ℕ)
      → 0 < j
      → get_or cache base (pos 0) ≡ pos (x % suc q)
      → get_or cache (base + j - 1) (pos 0) ≡ pos (x ^ j % suc q)
      → base + j + rounds ≤ length cache
      → j ≤ suc t
      → suc t ≤ j + rounds
      → get_or (chunk_loop g (pos (suc q)) cache base j rounds) (base + t) (pos 0)
        ≡ pos (x ^ suc t % suc q)
  unfolding chunk_loop
  chunk_loop_at cache base j zero x t h₀ first last fits h₁ h₂ =
      ap (λ (k : ℕ). get_or cache k (pos 0)) {y = base + j - 1} (omega arith)
      ∙ last
      ∙ ap (λ (k : ℕ). pos (x ^ k % suc q)) (omega arith)
  chunk_loop_at cache base j (suc rounds) x t h₀ first last fits h₁ h₂ =
      elim (ℕ_discrete j (suc t)) [
        | yes same ↦
            ap
              (λ (k : ℕ).
                get_or
                  (chunk_loop g (pos (suc q)) (chunk_step g (pos (suc q)) cache base j) base (suc j)
                    rounds)
                  k (pos 0))
              {y = base + j - 1} (omega arith)
            ∙ chunk_loop_before (chunk_step g (pos (suc q)) cache base j) base (suc j) rounds
                (base + j - 1) (omega arith)
            ∙ get_or-set_ne cache (base + j) (base + j - 1) _ (pos 0) (omega arith)
            ∙ last
            ∙ ap (λ (k : ℕ). pos (x ^ k % suc q)) same
        | no later ↦
            chunk_loop_at (chunk_step g (pos (suc q)) cache base j) base (suc j) rounds x t
              (omega arith) (get_or-set_ne cache (base + j) base _ (pos 0) (omega arith) ∙ first)
              (ap (λ (k : ℕ). get_or (chunk_step g (pos (suc q)) cache base j) k (pos 0))
                  {y = base + j} (omega arith)
                ∙ get_or-set_self cache (base + j) _ (pos 0) (omega arith)
                ∙ ap₂ (λ a b. g.mpz_mod (g.mpz_mul a b) (pos (suc q))) first last
                ∙ chunk_value x j)
              (omega (
                arith,
                length-set cache (base + j) (
                    g.mpz_mod
                      (g.mpz_mul (get_or cache base (pos 0)) (get_or cache (base + j - 1) (pos 0)))
                      (pos (suc q))),
              ))
              (omega arith) (omega arith)
      ]

  pub length-compute_cache :
      (cache : List ℤ) (n i rounds : ℕ)
      → length (compute_cache g (pos (suc q)) cache n i rounds) ≡ length cache
  unfolding compute_cache
  length-compute_cache cache n i zero = refl
  length-compute_cache cache n i (suc rounds) =
      length-compute_cache (chunk_loop g (pos (suc q)) cache (i * n) 1 n) n (suc i) rounds
      ∙ length-chunk_loop cache (i * n) 1 n

  pub compute_cache_before :
      (cache : List ℤ) (n i rounds k : ℕ)
      → k ≤ i * n
      → get_or (compute_cache g (pos (suc q)) cache n i rounds) k (pos 0) ≡ get_or cache k (pos 0)
  unfolding compute_cache
  compute_cache_before cache n i zero k h = refl
  compute_cache_before cache n i (suc rounds) k h =
      compute_cache_before (chunk_loop g (pos (suc q)) cache (i * n) 1 n) n (suc i) rounds k
        (omega arith)
      ∙ chunk_loop_before cache (i * n) 1 n k (omega arith)

  -- Chunk i, just computed.
  chunk_value_at :
      (cache : List ℤ) (n i rounds x t : ℕ)
      → get_or cache (i * n) (pos 0) ≡ pos (x % suc q)
      → (i + suc rounds) * n + 1 ≤ length cache
      → t ≤ n
      → get_or (chunk_loop g (pos (suc q)) cache (i * n) 1 n) (i * n + t) (pos 0)
        ≡ pos (x ^ suc t % suc q)
  chunk_value_at cache n i rounds x t first fits h =
      chunk_loop_at cache (i * n) 1 n x t (omega arith) first
        (ap (λ (k : ℕ). get_or cache k (pos 0)) {y = i * n} (omega arith)
          ∙ first
          ∙ ap (λ (k : ℕ). pos (k % suc q)) (sym (pow-one x)))
        (omega (arith, chunk_after i rounds n)) (omega arith) (omega arith)

  -- Chunk i + c, with x the entry that chunk i starts from.
  pub compute_cache_at :
      (cache : List ℤ) (n i rounds x c t : ℕ)
      → get_or cache (i * n) (pos 0) ≡ pos (x % suc q)
      → (i + rounds) * n + 1 ≤ length cache
      → c < rounds
      → t ≤ n
      → get_or (compute_cache g (pos (suc q)) cache n i rounds) ((i + c) * n + t) (pos 0)
        ≡ pos ((x ^ (suc n ^ c)) ^ suc t % suc q)
  unfolding compute_cache
  compute_cache_at cache n i zero x c t first fits h₁ h₂ = absurd (omega arith)
  compute_cache_at cache n i (suc rounds) x zero t first fits h₁ h₂ =
      ap
        (λ (k : ℕ).
          get_or
            (compute_cache g (pos (suc q)) (chunk_loop g (pos (suc q)) cache (i * n) 1 n) n (suc i)
              rounds)
            k (pos 0))
        {y = i * n + t} (omega arith)
      ∙ compute_cache_before (chunk_loop g (pos (suc q)) cache (i * n) 1 n) n (suc i) rounds
          (i * n + t) (omega arith)
      ∙ chunk_value_at cache n i rounds x t first fits h₂
      ∙ ap (λ (y : ℕ). pos (y ^ suc t % suc q))
          (sym (ap (λ (k : ℕ). x ^ k) (pow-zero (suc n)) ∙ pow-one x))
  compute_cache_at cache n i (suc rounds) x (suc c) t first fits h₁ h₂ =
      ap
        (λ (k : ℕ).
          get_or
            (compute_cache g (pos (suc q)) (chunk_loop g (pos (suc q)) cache (i * n) 1 n) n (suc i)
              rounds)
            k (pos 0))
        {y = (suc i + c) * n + t} (ap (λ (k : ℕ). k * n + t) (omega arith))
      ∙ compute_cache_at (chunk_loop g (pos (suc q)) cache (i * n) 1 n) n (suc i) rounds (x ^ suc n)
          c t
          (ap (λ (k : ℕ). get_or (chunk_loop g (pos (suc q)) cache (i * n) 1 n) k (pos 0))
              {y = i * n + n} (omega arith)
            ∙ chunk_value_at cache n i rounds x n first fits (omega arith))
          (omega (arith, chunk_after i rounds n, length-chunk_loop cache (i * n) 1 n)) (omega arith)
          h₂
      ∙ ap (λ (y : ℕ). pos (y ^ suc t % suc q)) (pow_chunk x n c)
