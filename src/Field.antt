-- ===== src/Field.antt =====
-- code/pepper/cmtgkr/cmtgkr_env.cpp: the arithmetic of the sum-check protocol modulo a prime, and
-- the multilinear extensions that are built on it. A function that writes through `rop` returns
-- the new value; one that reads its old value takes it as the argument of that name. A vector of
-- `mpz_t` is a list, and a raw pointer with a length is the list's first elements.
pub mod Chi
pub mod Modular
pub mod Residue
pub mod Extrapolate
pub mod Mle
mod Tests
use ginger_zaatar_allspice.Prelude.{
  ℕ, zero, suc, ◌+◌, ◌-◌, ◌*◌, ◌/◌, ◌%◌, ◌^◌, min, Bool, List, [], ◌∷◌, ◌==◌, if◌then◌else◌, length,
  get_or, set, take,
}
use ginger_zaatar_allspice.Prelude.Int.{ℤ, pos, ltb_ℤ}
use ginger_zaatar_allspice.Gmp.{Gmp}

-- x^b in 64 bits.
unfoldable pub powi : ℕ → ℕ → ℕ
powi x zero = 1
powi x (suc b) = (powi x b * x) % 2 ^ 64

-- v >> i, and the lowest bit of that.
unfoldable pub shr : ℕ → ℕ → ℕ
shr v zero = v
shr v (suc i) = shr (v / 2) i

abbrev pub bit : ℕ → ℕ → Bool
bit v i = shr v i % 2 == 1

module _ (g : Gmp) where
  open g use {mpz_add, mpz_sub, mpz_mul, mpz_addmul, mpz_mod, mpz_tdiv_q_2exp, mpz_sgn, mpz_cmp}

  unfoldable pub modmult : ℤ → ℤ → ℤ → ℤ
  modmult op1 op2 prime = mpz_mod (mpz_mul op1 op2) prime

  unfoldable pub addmodmult : ℤ → ℤ → ℤ → ℤ → ℤ
  addmodmult rop op1 op2 prime = mpz_mod (mpz_addmul rop op1 op2) prime

  unfoldable pub modadd : ℤ → ℤ → ℤ → ℤ
  modadd op1 op2 prime = mpz_mod (mpz_add op1 op2) prime

  unfoldable pub modsub : ℤ → ℤ → ℤ → ℤ
  modsub op1 op2 prime = mpz_mod (mpz_sub op1 op2) prime

  unfoldable pub one_sub : ℤ → ℤ
  one_sub op = mpz_sub (pos 1) op

  -- The representative of `a` in the signed range about 0.
  unfoldable pub to_true_number : ℤ → ℤ → ℤ → ℤ
  to_true_number a half_prime prime =
      if ltb_ℤ (mpz_cmp half_prime a) (pos 0) then mpz_sub a prime else a

  -- `i` is the loop's variable; the list holds r[i], …, r[n - 1].
  unfoldable pub mul_chi_loop : ℤ → ℕ → ℕ → List ℤ → ℤ → ℤ
  mul_chi_loop rop v i [] prime = rop
  mul_chi_loop rop v i (x ∷ r) prime =
      mul_chi_loop (modmult rop (if bit v i then x else one_sub x) prime) v (suc i) r prime

  unfoldable pub mul_chi : ℤ → ℕ → List ℤ → ℕ → ℤ → ℤ
  unfolding mul_chi_loop
  mul_chi rop v r n prime = mul_chi_loop rop v 0 (take n r) prime

  unfoldable pub chi : ℕ → List ℤ → ℕ → ℤ → ℤ
  unfolding mul_chi
  chi v r n prime = mul_chi (pos 1) v r n prime

  -- The bodies of the two inner loops of `computeChiAll`: rop[i] = rop[i - base] * r, and
  -- rop[i] = rop[i] * (1 - r).
  abbrev pub upper_step : List ℤ → ℕ → ℕ → ℤ → ℤ → List ℤ
  upper_step rop base i r prime = set rop i (modmult (get_or rop (i - base) (pos 0)) r prime)

  abbrev pub lower_step : List ℤ → ℕ → ℤ → ℤ → List ℤ
  lower_step rop i one_sub_r prime = set rop i (modmult (get_or rop i (pos 0)) one_sub_r prime)

  -- The loops, from i = base + done and from i = done, with `rounds` rounds left.
  unfoldable pub upper_loop : List ℤ → ℕ → ℕ → ℕ → ℤ → ℤ → List ℤ
  upper_loop rop base done zero r prime = rop
  upper_loop rop base done (suc rounds) r prime =
      upper_loop (upper_step rop base (base + done) r prime) base (suc done) rounds r prime

  unfoldable pub lower_loop : List ℤ → ℕ → ℕ → ℤ → ℤ → List ℤ
  lower_loop rop done zero one_sub_r prime = rop
  lower_loop rop done (suc rounds) one_sub_r prime =
      lower_loop (lower_step rop done one_sub_r prime) (suc done) rounds one_sub_r prime

  unfoldable pub chi_all_loop : List ℤ → ℕ → List ℤ → ℤ → List ℤ
  unfolding upper_loop lower_loop
  chi_all_loop rop logi [] prime = rop
  chi_all_loop rop logi (x ∷ r) prime =
      let base = 2 ^ logi in
      let n = length rop in
      let rop' = upper_loop rop base 0 (min (2 * base) n - base) x prime in
      chi_all_loop (lower_loop rop' 0 (min base n) (one_sub x) prime) (suc logi) r prime

  unfoldable pub compute_chi_all : List ℤ → List ℤ → ℤ → List ℤ
  unfolding chi_all_loop
  compute_chi_all [] r prime = []
  compute_chi_all (x ∷ rop) r prime = chi_all_loop (pos 1 ∷ rop) 0 r prime
