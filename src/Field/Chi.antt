-- ===== src/Field/Chi.antt =====
-- computeChiAll against chi (code/pepper/cmtgkr/cmtgkr_env.cpp).
mod Loops
use mathlib.Core.List.{append_assoc, append-nil}
use native.Mathlib.Nat.{pow-suc}
use ginger_zaatar_allspice.Prelude.{
  ℕ, zero, suc, ◌+◌, ◌-◌, ◌*◌, ◌^◌, ◌≤◌, ◌<◌, min, ◌≡◌, refl, sym, ◌∙◌, ap, true, false, List, [],
  ◌∷◌, ◌++◌, if◌then◌else◌, length, get_or, take, arith, length-append, take-length, dec_lt,
}
use ginger_zaatar_allspice.Prelude.Int.{ℤ, pos}
use ginger_zaatar_allspice.Gmp.{Gmp}
use ginger_zaatar_allspice.Field.{
  bit, modmult, one_sub, mul_chi_loop, mul_chi, chi, upper_loop, lower_loop, chi_all_loop,
  compute_chi_all,
}
use Loops.{
  bit_low, bit_high, mul_chi_loop-append, mul_chi_loop-add_pow, length-upper_loop, upper_loop_other,
  upper_loop_hit, length-lower_loop, lower_loop_after, lower_loop_hit,
}

pow-length-snoc : (r : List ℤ) (x : ℤ) → 2 ^ length (r ++ x ∷ []) ≡ 2 * 2 ^ length r
pow-length-snoc r x =
    ap (λ (n : ℕ). 2 ^ n) {y = suc (length r)} (omega (arith, length-append r (x ∷ [])))
    ∙ omega (arith, pow-suc 2 (length r))

module _ (g : Gmp) (prime : ℤ) where
  abbrev chi_all_step : List ℤ → ℕ → ℤ → List ℤ
  chi_all_step rop base x =
      lower_loop g (upper_loop g rop base 0 (min (2 * base) (length rop) - base) x prime) 0
        (min base (length rop)) (one_sub g x) prime

  length-chi_all_step :
      (rop : List ℤ) (base : ℕ) (x : ℤ) → length (chi_all_step rop base x) ≡ length rop
  length-chi_all_step rop base x =
      length-lower_loop g prime _ 0 (min base (length rop)) (one_sub g x)
      ∙ length-upper_loop g prime rop base 0 _ x

  step_low :
      (rop : List ℤ) (base : ℕ) (x : ℤ) (k : ℕ)
      → k < base
      → k < length rop
      → get_or (chi_all_step rop base x) k (pos 0)
        ≡ modmult g (get_or rop k (pos 0)) (one_sub g x) prime
  step_low rop base x k h₁ h₂ =
      lower_loop_hit g prime _ 0 (min base (length rop)) (one_sub g x) k (omega arith) (omega arith)
        (omega (arith, length-upper_loop g prime rop base 0 (min (2 * base) (length rop) - base) x))
      ∙ ap (λ y. modmult g y (one_sub g x) prime)
          (upper_loop_other g prime rop base 0 _ x k (omega arith))

  step_high :
      (rop : List ℤ) (base : ℕ) (x : ℤ) (j : ℕ)
      → j < base
      → base + j < length rop
      → get_or (chi_all_step rop base x) (base + j) (pos 0)
        ≡ modmult g (get_or rop j (pos 0)) x prime
  step_high rop base x j h₁ h₂ =
      lower_loop_after g prime _ 0 (min base (length rop)) (one_sub g x) (base + j) (omega arith)
      ∙ upper_loop_hit g prime rop base 0 (min (2 * base) (length rop) - base) x j (omega arith)
          (omega arith) (omega arith) (omega arith)

  chi-low :
      (r : List ℤ) (x : ℤ) (k : ℕ)
      → k < 2 ^ length r
      → mul_chi_loop g (pos 1) k 0 (r ++ x ∷ []) prime
        ≡ modmult g (mul_chi_loop g (pos 1) k 0 r prime) (one_sub g x) prime
  chi-low r x k h =
      mul_chi_loop-append g prime (pos 1) k 0 r x
      ∙ ap
          (λ b. modmult g (mul_chi_loop g (pos 1) k 0 r prime) (if b then x else one_sub g x) prime)
          (ap (bit k) (omega arith) ∙ bit_low k (length r) h)

  chi-high :
      (r : List ℤ) (x : ℤ) (j : ℕ)
      → j < 2 ^ length r
      → mul_chi_loop g (pos 1) (j + 2 ^ length r) 0 (r ++ x ∷ []) prime
        ≡ modmult g (mul_chi_loop g (pos 1) j 0 r prime) x prime
  chi-high r x j h =
      mul_chi_loop-append g prime (pos 1) (j + 2 ^ length r) 0 r x
      ∙ ap
          (λ b.
            modmult g (mul_chi_loop g (pos 1) (j + 2 ^ length r) 0 r prime)
              (if b then x else one_sub g x) prime)
          (ap (bit (j + 2 ^ length r)) (omega arith) ∙ bit_high j (length r) h)
      ∙ ap (λ y. modmult g y x prime)
          (mul_chi_loop-add_pow g prime (pos 1) j (length r) 0 r (omega arith))

  -- The first 2^|r| entries hold chi over the variables `r`.
  abbrev Filled : List ℤ → List ℤ → Type 0
  Filled rop r =
      (k : ℕ)
      → k < length rop
      → k < 2 ^ length r
      → get_or rop k (pos 0) ≡ mul_chi_loop g (pos 1) k 0 r prime

  chi_all_step-Filled :
      (rop r : List ℤ) (x : ℤ)
      → Filled rop r
      → Filled (chi_all_step rop (2 ^ length r) x) (r ++ x ∷ [])
  chi_all_step-Filled rop r x h k k<n k<2^ = elim (dec_lt k (2 ^ length r)) [
    | yes low ↦
        let k<rop : k < length rop = omega (arith, length-chi_all_step rop (2 ^ length r) x) in
        step_low rop (2 ^ length r) x k low k<rop
        ∙ ap (λ y. modmult g y (one_sub g x) prime) (h k k<rop low)
        ∙ sym (chi-low r x k low)
    | no high ↦
        let base : ℕ = 2 ^ length r in
        let split : k ≡ base + (k - base) = omega arith in
        let k<rop : k < length rop = omega (arith, length-chi_all_step rop base x) in
        let j<base : k - base < base =
          omega (arith, length-append r (x ∷ []), pow-length-snoc r x) in
        ap (λ i. get_or (chi_all_step rop base x) i (pos 0)) split
        ∙ step_high rop base x (k - base) j<base (omega arith)
        ∙ ap (λ y. modmult g y x prime) (h (k - base) (omega arith) j<base)
        ∙ sym (chi-high r x (k - base) j<base)
        ∙ ap (λ i. mul_chi_loop g (pos 1) i 0 (r ++ x ∷ []) prime) (omega arith)
  ]

  chi_all_loop-Filled :
      (rop r rest : List ℤ) (logi : ℕ)
      → logi ≡ length r
      → Filled rop r
      → Filled (chi_all_loop g rop logi rest prime) (r ++ rest)
  unfolding chi_all_loop
  chi_all_loop-Filled rop r [] logi e h = rw (append-nil r) h
  chi_all_loop-Filled rop r (x ∷ rest) logi e h =
      rw (e, ← append_assoc r (x ∷ []) rest)
        (chi_all_loop-Filled (chi_all_step rop (2 ^ length r) x) (r ++ x ∷ []) rest (suc (length r))
          (omega (arith, length-append r (x ∷ []))) (chi_all_step-Filled rop r x h))

  length-chi_all_loop :
      (rop r : List ℤ) (logi : ℕ) → length (chi_all_loop g rop logi r prime) ≡ length rop
  unfolding chi_all_loop
  length-chi_all_loop rop [] logi = refl
  length-chi_all_loop rop (x ∷ r) logi =
      length-chi_all_loop (chi_all_step rop (2 ^ logi) x) r (suc logi)
      ∙ length-chi_all_step rop (2 ^ logi) x

  -- computeChiAll keeps the vector's length.
  pub length-compute_chi_all :
      (rop r : List ℤ) → length (compute_chi_all g rop r prime) ≡ length rop
  unfolding compute_chi_all
  length-compute_chi_all [] r = refl
  length-compute_chi_all (x ∷ rop) r = length-chi_all_loop (pos 1 ∷ rop) r 0

  start-Filled : (rop : List ℤ) → Filled (pos 1 ∷ rop) []
  unfolding mul_chi_loop
  start-Filled rop zero h₁ h₂ = refl
  start-Filled rop (suc k) h₁ h₂ = absurd (omega arith)

  -- Every entry k of a vector that computeChiAll fills is what chi computes for k at the same
  -- point, where the vector has at most 2^|r| entries.
  pub compute_chi_all-chi :
      (rop r : List ℤ) (k : ℕ)
      → length rop ≤ 2 ^ length r
      → k < length rop
      → get_or (compute_chi_all g rop r prime) k (pos 0) ≡ chi g k r (length r) prime
  unfolding compute_chi_all chi
  compute_chi_all-chi [] r k fits h = absurd (omega arith)
  compute_chi_all-chi (x ∷ rop) r k fits h =
      chi_all_loop-Filled (pos 1 ∷ rop) [] r 0 refl (start-Filled rop) k
        (omega (arith, length-chi_all_loop (pos 1 ∷ rop) r 0)) (omega arith)
      ∙ ap (λ s. mul_chi_loop g (pos 1) k 0 s prime) (sym (take-length r))
