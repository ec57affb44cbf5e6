-- ===== src/PowmCache/Extend.antt =====
-- extendCache (code/pepper/crypto/powm_cache.cpp): the larger table holds the powers as well.
use native.Mathlib.Nat.{pow-zero, pow-suc, one-le-pow, mod-eq_of_lt}
use ginger_zaatar_allspice.Prelude.{
  ℕ, zero, suc, ◌+◌, ◌-◌, ◌*◌, ◌%◌, ◌^◌, ◌<◌, ◌≤◌, ◌≡◌, refl, sym, ◌∙◌, ap, List, [], ◌∷◌, some,
  true, false, leb, lt→ltb, ◌==◌, length, get_or, set, replicate, length-set, length-replicate,
  get_or-set_self, arith, dec_lt, max, inl, inr, Bool-cases, tests,
}
use ginger_zaatar_allspice.Prelude.Int.{ℤ, pos}
use ginger_zaatar_allspice.Prelude.Pow.{pow-one, pow-add, pow-mul, entry_exponent}
use ginger_zaatar_allspice.Gmp.{Gmp}
use ginger_zaatar_allspice.PowmCache.{
  get_num_chunks, get_num_pow_per_chunk, get_cache_size, PowmCache, compute_cache, make_cache, copy,
  extend_cache, get_item,
}
use ginger_zaatar_allspice.PowmCache.Chunks.{
  length-compute_cache, compute_cache_before, compute_cache_at,
}
use ginger_zaatar_allspice.PowmCache.Powers.{table_entry, chunk_below, get_item-make_cache}

length-copy : (new old : List ℤ) → length old ≤ length new → length (copy new old) ≡ length new
length-copy new [] h = refl
length-copy [] (x ∷ old) h = refl
length-copy (y ∷ new) (x ∷ old) h = omega (arith, length-copy new old (omega arith))

get_or-copy :
    (new old : List ℤ) (k : ℕ)
    → length old ≤ length new
    → k < length old
    → get_or (copy new old) k (pos 0) ≡ get_or old k (pos 0)
get_or-copy new [] k h hk = absurd (omega arith)
get_or-copy [] (x ∷ old) k h hk = absurd (omega arith)
get_or-copy (y ∷ new) (x ∷ old) zero h hk = refl
get_or-copy (y ∷ new) (x ∷ old) (suc k) h hk = get_or-copy new old k (omega arith) (omega arith)

module _ (g : Gmp) (q β n : ℕ) (small : β < suc q) where
  -- The table for `chunks` chunks of n powers.
  abbrev table : ℕ → List ℤ
  table chunks =
      compute_cache g (pos (suc q)) (set (replicate (chunks * n + 1) (pos 0)) 0 (pos β)) n 0 chunks

  length-table : (chunks : ℕ) → length (table chunks) ≡ chunks * n + 1
  length-table chunks =
      length-compute_cache g q (set (replicate (chunks * n + 1) (pos 0)) 0 (pos β)) n 0 chunks
      ∙ length-set (replicate (chunks * n + 1) (pos 0)) 0 (pos β)
      ∙ length-replicate (chunks * n + 1) (pos 0)

  -- The last entry of a table is the first of the chunk after it.
  table_last :
      (chunks : ℕ) → get_or (table chunks) (chunks * n) (pos 0) ≡ pos (β ^ (suc n ^ chunks) % suc q)
  unfolding compute_cache
  table_last zero =
      ap (λ (k : ℕ). get_or (set (replicate (0 * n + 1) (pos 0)) 0 (pos β)) k (pos 0)) {y = 0}
        (omega arith)
      ∙ get_or-set_self (replicate (0 * n + 1) (pos 0)) 0 (pos β) (pos 0)
          (omega (arith, length-replicate (0 * n + 1) (pos 0)))
      ∙ ap pos (
          sym (mod-eq_of_lt small)
          ∙ ap (λ (k : ℕ). k % suc q)
              (sym (pow-one β) ∙ ap (λ (k : ℕ). β ^ k) (sym (pow-zero (suc n)))))
  table_last (suc chunks) =
      ap (λ (k : ℕ). get_or (table (suc chunks)) k (pos 0)) {y = chunks * n + n} (omega arith)
      ∙ table_entry g q β (suc chunks) n chunks n small (omega arith) (omega arith)
      ∙ ap (λ (k : ℕ). pos (k % suc q))
          (pow-mul β (suc n ^ chunks) (suc n)
            ∙ ap (λ (k : ℕ). β ^ k) (sym (pow-suc (suc n) chunks)))

  room : (c₁ c₂ : ℕ) → c₁ < c₂ → length (table c₁) ≤ length (replicate (c₂ * n + 1) (pos 0))
  room c₁ c₂ h =
      omega (arith, length-table c₁, length-replicate (c₂ * n + 1) (pos 0), chunk_below c₁ c₂ n h)

  extended_entry :
      (c₁ c₂ i j : ℕ)
      → c₁ < c₂
      → i < c₂
      → j ≤ n
      → get_or
          (compute_cache g
            (pos (suc q))
            (copy (replicate (c₂ * n + 1) (pos 0)) (table c₁))
            n
            c₁
            (c₂ - c₁))
          (i * n + j)
          (pos 0)
        ≡ pos ((β ^ (suc n ^ i)) ^ suc j % suc q)
  extended_entry c₁ c₂ i j h₁ h₂ h₃ = elim (dec_lt i c₁) [
    | yes old ↦
        compute_cache_before g q (copy (replicate (c₂ * n + 1) (pos 0)) (table c₁)) n c₁ (c₂ - c₁)
          (i * n + j) (omega (arith, chunk_below i c₁ n old))
        ∙ get_or-copy (replicate (c₂ * n + 1) (pos 0)) (table c₁) (i * n + j) (room c₁ c₂ h₁)
            (omega (arith, length-table c₁, chunk_below i c₁ n old))
        ∙ table_entry g q β c₁ n i j small old h₃
    | no new ↦
        ap
          (λ (k : ℕ).
            get_or
              (compute_cache g (pos (suc q)) (copy (replicate (c₂ * n + 1) (pos 0)) (table c₁)) n c₁
                (c₂ - c₁))
              (k * n + j) (pos 0))
          {y = c₁ + (i - c₁)} (omega arith)
        ∙ compute_cache_at g q (copy (replicate (c₂ * n + 1) (pos 0)) (table c₁)) n c₁ (c₂ - c₁)
            (β ^ (suc n ^ c₁)) (i - c₁) j
            (get_or-copy (replicate (c₂ * n + 1) (pos 0)) (table c₁) (c₁ * n) (room c₁ c₂ h₁)
                (omega (arith, length-table c₁))
              ∙ table_last c₁)
            (omega (
              arith,
              length-copy (replicate (c₂ * n + 1) (pos 0)) (table c₁) (room c₁ c₂ h₁),
              length-replicate (c₂ * n + 1) (pos 0),
              ap (λ (k : ℕ). k * n) {x = c₁ + (c₂ - c₁)} {y = c₂} (omega arith),
            ))
            (omega arith) h₃
        ∙ ap (λ (k : ℕ). pos (k ^ suc j % suc q))
            (pow-mul β (suc n ^ c₁) (suc n ^ (i - c₁))
              ∙ ap (λ (k : ℕ). β ^ k)
                  (sym (pow-add (suc n) c₁ (i - c₁))
                    ∙ ap (λ (k : ℕ). suc n ^ k) {x = c₁ + (i - c₁)} (omega arith)))
  ]

two_le-pow : (w : ℕ) → 0 < w → 2 ≤ 2 ^ w
two_le-pow zero h = absurd (omega arith)
two_le-pow (suc w) h = omega (arith, one-le-pow w 2 (omega arith))

extend_cache_kept :
    (g : Gmp) (c : PowmCache) (max : ℕ)
    → leb (get_num_chunks max c.window_size) c.num_chunks ≡ true
    → extend_cache g c max ≡ c
unfolding extend_cache
extend_cache_kept g c max h = elim (Bool-cases (get_num_pow_per_chunk c.window_size == 0)) [
  | inl e ↦ rw e refl
  | inr e ↦ rw (e, h) refl
]

-- After extendCache, the item of a chunk and a position is the power that it stands for, in every chunk
-- of the old table and of a table made for the new number of bits: β^((j + 1) * 2^(w * i)) modulo
-- the prime for a base β below it, windows of w > 0 bits and j up to 2^w - 1.
pub get_item-extend_cache :
    (g : Gmp) (q β max₁ max₂ w i j : ℕ)
    → 0 < w
    → β < suc q
    → i < max (get_num_chunks max₁ w) (get_num_chunks max₂ w)
    → j ≤ 2 ^ w - 1
    → get_item (extend_cache g (make_cache g (pos β) (pos (suc q)) max₁ w) max₂) i j
      ≡ some (pos (β ^ (suc j * 2 ^ (w * i)) % suc q))
unfolding get_item make_cache extend_cache get_num_pow_per_chunk get_cache_size
get_item-extend_cache g q β max₁ max₂ w i j h₀ h₁ h₂ h₃ =
    let c₁ : ℕ = get_num_chunks max₁ w in
    let c₂ : ℕ = get_num_chunks max₂ w in
    elim (Bool-cases (leb (get_num_chunks max₂ w) (get_num_chunks max₁ w))) [
      | inl kept ↦
          ap (λ c. get_item c i j)
            (extend_cache_kept g (make_cache g (pos β) (pos (suc q)) max₁ w) max₂ kept)
          ∙ get_item-make_cache g q β max₁ w i j h₀ h₁ (omega tests) h₃
      | inr grows ↦
          let larger : c₁ < c₂ = ground (arith, grows) in
          let some_powers : (2 ^ w - 1 == 0) ≡ false = ground (arith, two_le-pow w h₀) in
          rw
            (
              some_powers,
              grows,
              lt→ltb (i * (2 ^ w - 1) + j) (c₂ * (2 ^ w - 1) + 1)
                  (omega (arith, chunk_below i c₂ (2 ^ w - 1) (omega arith))),
            )
            (ap (λ (v : ℤ). some v)
              (extended_entry g q β (2 ^ w - 1) h₁ c₁ c₂ i j larger (omega arith) h₃
                ∙ ap (λ (k : ℕ). pos (k % suc q)) (entry_exponent β w i j)))
    ]
