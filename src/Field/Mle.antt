-- ===== src/Field/Mle.antt =====
-- code/pepper/cmtgkr/cmtgkr_env.cpp: multilinear extensions of one variable, of a vector of gate
-- values, and the polynomial beta; the barycentric weights of the three-point round polynomials.
pub mod Boolean
pub mod Log
pub mod Values
use ginger_zaatar_allspice.Prelude.{
  ℕ, zero, suc, ◌+◌, ◌-◌, ◌/◌, ◌^◌, List, [], ◌∷◌, leb, ◌==◌, if◌then◌else◌, length, get_or, take,
  drop,
}
use ginger_zaatar_allspice.Prelude.Int.{ℤ, pos, negsuc}
use ginger_zaatar_allspice.Gmp.{Gmp, is_zero}
use ginger_zaatar_allspice.Field.{modmult, addmodmult, one_sub, chi}

-- ceil(log2(n)) for n ≥ 1, with fuel n.
unfoldable pub ceil_log2 : ℕ → ℕ → ℕ
ceil_log2 zero n = 0
ceil_log2 (suc f) n = let rest = ceil_log2 f ((n + 1) / 2) in if leb n 1 then 0 else suc rest

unfoldable pub log2i : ℕ → ℕ
unfolding ceil_log2
log2i n = if n == 1 then 1 else ceil_log2 n n

module _ (g : Gmp) where
  open g use {mpz_add, mpz_sub, mpz_mul, mpz_addmul, mpz_mod, mpz_tdiv_q_2exp, mpz_sgn}

  unfoldable pub mulmle : ℤ → ℤ → ℤ → ℤ → ℤ → ℤ
  mulmle rop pt val0 val1 prime =
      modmult g rop (mpz_addmul (mpz_mul (one_sub g pt) val0) pt val1) prime

  unfoldable pub mle : ℤ → ℤ → ℤ → ℤ → ℤ
  unfolding mulmle
  mle pt val0 val1 prime = mulmle (pos 1) pt val0 val1 prime

  -- Over the variables of `z` and `r` that are left.
  unfoldable pub beta_loop : ℤ → List ℤ → List ℤ → ℤ → ℤ
  beta_loop prod [] r prime = prod
  beta_loop prod (x ∷ z) [] prime = prod
  beta_loop prod (x ∷ z) (y ∷ r) prime = beta_loop (mulmle prod x (one_sub g y) y prime) z r prime

  unfoldable pub evaluate_beta : List ℤ → List ℤ → ℕ → ℤ → ℤ
  unfolding beta_loop
  evaluate_beta z r n prime = beta_loop (pos 1) (take n z) (take n r) prime

  -- Over the gate values that are left, the next of them being gate `i`.
  unfoldable pub v_chis_loop : ℤ → ℕ → List ℤ → List ℤ → ℤ
  v_chis_loop ans i [] chis = ans
  v_chis_loop ans i (z ∷ level) chis =
      v_chis_loop (if is_zero (mpz_sgn z) then ans else mpz_addmul ans z (get_or chis i (pos 0)))
        (suc i) level chis

  unfoldable pub evaluate_v_chis : List ℤ → List ℤ → ℤ → ℤ
  unfolding v_chis_loop
  evaluate_v_chis level chis prime = mpz_mod (v_chis_loop (pos 0) 0 level chis) prime

  unfoldable pub v_i_loop : ℤ → ℕ → List ℤ → List ℤ → ℕ → ℤ → ℤ
  v_i_loop ans k [] r n prime = ans
  v_i_loop ans k (z ∷ level) r n prime =
      v_i_loop (addmodmult g ans z (chi g k r n prime) prime) (suc k) level r n prime

  unfoldable pub evaluate_v_i : List ℤ → List ℤ → ℤ → ℤ
  unfolding v_i_loop log2i
  evaluate_v_i level r prime = v_i_loop (pos 0) 0 level r (log2i (length level)) prime
