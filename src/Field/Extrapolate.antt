-- ===== src/Field/Extrapolate.antt =====
-- bary_precompute_weights3, bary_extrap and extrap3 of code/pepper/cmtgkr/cmtgkr_env.cpp: the value
-- of a polynomial of degree two from its values at 0, 1 and 2.
pub mod Quadratic
use ginger_zaatar_allspice.Prelude.{
  ℕ, zero, suc, ◌+◌, ◌%◌, List, [], ◌∷◌, map, get_or, set, length, drop,
}
use ginger_zaatar_allspice.Prelude.Int.{ℤ, pos, negsuc}
use ginger_zaatar_allspice.Gmp.{Gmp}
use ginger_zaatar_allspice.Field.{modmult}

module _ (g : Gmp) where
  open g use {mpz_add, mpz_sub, mpz_mul, mpz_mod, mpz_tdiv_q_2exp}

  -- The inverse of 2 modulo an odd prime.
  abbrev pub half_of : ℤ → ℤ
  half_of prime = mpz_tdiv_q_2exp (mpz_add prime (pos 1)) 1

  abbrev pub weight_product : ℤ → ℕ → ℤ
  weight_product r i = mpz_mul (mpz_sub r (pos ((i + 1) % 3))) (mpz_sub r (pos ((i + 2) % 3)))

  unfoldable pub bary_precompute_weights3 : ℤ → ℤ → List ℤ
  unfolding modmult
  bary_precompute_weights3 r prime =
      modmult g (weight_product r 0) (half_of prime) prime
      ∷ modmult g (weight_product r 1) (negsuc 0) prime
      ∷ modmult g (weight_product r 2) (half_of prime) prime
      ∷ []

  -- The inner loop, over the weights that are left and the values beside them.
  unfoldable pub weigh : ℤ → List ℤ → List ℤ → ℤ
  weigh rop [] y = rop
  weigh rop (w ∷ weights) [] = rop
  weigh rop (w ∷ weights) (v ∷ y) = weigh (mpz_add rop (mpz_mul w v)) weights y

  -- The loop over the entries of rop, of which `count` are left.
  unfoldable pub bary_extrap : ℕ → List ℤ → List ℤ → ℤ → List ℤ
  unfolding weigh
  bary_extrap zero vec weights prime = []
  bary_extrap (suc count) vec weights prime =
      mpz_mod (weigh (pos 0) weights vec) prime
      ∷ bary_extrap count (drop (length weights) vec) weights prime

  unfoldable pub extrap3 : List ℤ → ℤ → ℤ → ℤ
  extrap3 vec r prime =
      let tmp1 = mpz_sub r (pos 1) in
      let tmp2 = mpz_sub r (pos 2) in
      let rop = mpz_mul (mpz_mul tmp1 tmp2) (get_or vec 0 (pos 0)) in
      let tmp2 = mpz_mul (mpz_mul tmp2 (pos 2)) (get_or vec 1 (pos 0)) in
      let tmp1 = mpz_mul tmp1 (get_or vec 2 (pos 0)) in
      let tmp1 = mpz_mul (mpz_sub tmp1 tmp2) r in
      mpz_mod (mpz_mul (mpz_add rop tmp1) (half_of prime)) prime
