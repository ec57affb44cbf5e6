-- ===== src/Gmp.antt =====
-- The interface to GMP, which the repository calls and does not contain: the `mpz` functions that
-- the modelled code uses, as parameters, each with the behaviour that GMP's manual documents.
pub mod Reference
pub mod Compare
use ginger_zaatar_allspice.Prelude.{ℕ, suc, ◌≡◌, Bool, true, false, ◌^◌, ◌/◌}
use ginger_zaatar_allspice.Prelude.Int.{ℤ, pos, negsuc, ◌+ℤ◌, ◌-ℤ◌, ◌*ℤ◌, ◌%ℤ◌}

-- -1, 0 or 1.
unfoldable pub sign : ℤ → ℤ
sign (pos ℕ.zero) = pos 0
sign (pos (suc n)) = pos 1
sign (negsuc n) = negsuc 0

-- The test `x == 0` on a result.
abbrev pub is_zero : ℤ → Bool
is_zero (pos ℕ.zero) = true
is_zero _ = false

-- A function that stores its result in `rop` returns it here. The laws about `mpz_mod` and
-- `mpz_tdiv_q_2exp` speak of the arguments that the code passes: a positive modulus, and a
-- dividend that is not negative.
pub record Gmp : Type 0 where
  pub mpz_add : ℤ → ℤ → ℤ
  pub mpz_sub : ℤ → ℤ → ℤ
  pub mpz_mul : ℤ → ℤ → ℤ
  -- `mpz_addmul(rop, a, b)` adds a * b to `rop`.
  pub mpz_addmul : ℤ → ℤ → ℤ → ℤ
  pub mpz_mod : ℤ → ℤ → ℤ
  pub mpz_tdiv_q_2exp : ℤ → ℕ → ℤ
  pub mpz_sgn : ℤ → ℤ
  pub mpz_cmp : ℤ → ℤ → ℤ
  pub mpz_add_lem : (a b : ℤ) → mpz_add a b ≡ a +ℤ b
  pub mpz_sub_lem : (a b : ℤ) → mpz_sub a b ≡ a -ℤ b
  pub mpz_mul_lem : (a b : ℤ) → mpz_mul a b ≡ a *ℤ b
  pub mpz_addmul_lem : (r a b : ℤ) → mpz_addmul r a b ≡ r +ℤ a *ℤ b
  pub mpz_mod_lem : (a : ℤ) (q : ℕ) → mpz_mod a (pos (suc q)) ≡ pos (a %ℤ suc q)
  pub mpz_tdiv_q_2exp_lem : (n k : ℕ) → mpz_tdiv_q_2exp (pos n) k ≡ pos (n / 2 ^ k)
  pub mpz_sgn_lem : (a : ℤ) → mpz_sgn a ≡ sign a
  pub mpz_cmp_lem : (a b : ℤ) → sign (mpz_cmp a b) ≡ sign (a -ℤ b)
