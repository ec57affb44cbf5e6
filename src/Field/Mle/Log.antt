-- ===== src/Field/Mle/Log.antt =====
-- log2i is the ceiling of the binary logarithm (code/pepper/cmtgkr/cmtgkr_env.cpp).
use native.Mathlib.Nat.{pow-suc}
use ginger_zaatar_allspice.Prelude.{
  ℕ, zero, suc, ◌+◌, ◌/◌, ◌^◌, ◌<◌, ◌≤◌, arith, inl, inr, leb, Bool-cases,
}
use ginger_zaatar_allspice.Field.Mle.{ceil_log2, log2i}

ceil_log2_covers : (f n : ℕ) → n ≤ f → n ≤ 2 ^ ceil_log2 f n
unfolding ceil_log2
ceil_log2_covers zero n h = omega arith
ceil_log2_covers (suc f) n h = elim (Bool-cases (leb n 1)) [
  | inl small ↦ rw small (ground arith)
  | inr large ↦
      rw large
        (ground (arith, pow-suc 2 (ceil_log2 f ((n + 1) / 2)), ceil_log2_covers f ((n + 1) / 2)))
]

ceil_log2_least : (f n j : ℕ) → n ≤ 2 ^ j → ceil_log2 f n ≤ j
unfolding ceil_log2
ceil_log2_least zero n j h = omega arith
ceil_log2_least (suc f) n zero h = ground arith
ceil_log2_least (suc f) n (suc j) h = elim (Bool-cases (leb n 1)) [
  | inl small ↦ rw small (omega arith)
  | inr large ↦ rw large (omega (arith, pow-suc 2 j, ceil_log2_least f ((n + 1) / 2) j))
]

ceil_log2_positive : (f n : ℕ) → 0 < f → 1 < n → 0 < ceil_log2 f n
unfolding ceil_log2
ceil_log2_positive zero n h k = absurd (omega arith)
ceil_log2_positive (suc f) n h k = ground arith

-- A cube of log2i n variables has at least n corners.
pub log2i_covers : (n : ℕ) → n ≤ 2 ^ log2i n
unfolding log2i
log2i_covers n = ground (arith, ceil_log2_covers n n)

-- For a layer of n gates, n > 0, log2i n is the least number of variables, of at least one, whose cube
-- has at least n corners: it is positive, its cube has, and a cube of j > 0 variables that has n
-- corners has at least as many variables. So it is 1 for one gate.
pub log2i_least :
    (n j : ℕ) → 0 < n → 0 < j → n ≤ 2 ^ j → (0 < log2i n) × (n ≤ 2 ^ log2i n) × (log2i n ≤ j)
unfolding log2i
log2i_least n j h i k = (
  ground (arith, ceil_log2_positive n n h),
  log2i_covers n,
  ground (arith, ceil_log2_least n n j),
)
