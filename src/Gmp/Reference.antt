-- ===== src/Gmp/Reference.antt =====
-- A reference implementation of the interface, which shows that its laws can hold together.
use ginger_zaatar_allspice.Prelude.{ℕ, zero, suc, ◌≡◌, refl, ◌^◌, ◌/◌, ◌+◌, ap, arith}
use ginger_zaatar_allspice.Prelude.Int.{ℤ, pos, negsuc, pos_part, neg_part, ◌+ℤ◌, ◌-ℤ◌, ◌*ℤ◌, ◌%ℤ◌}
use ginger_zaatar_allspice.Gmp.{Gmp, sign}

pub sign-sign : (a : ℤ) → sign (sign a) ≡ sign a
unfolding sign
sign-sign (pos zero) = refl
sign-sign (pos (suc n)) = refl
sign-sign (negsuc n) = refl

unfoldable pub mod_pos : ℤ → ℤ → ℤ
mod_pos a m = pos (a %ℤ (pos_part m + neg_part m))

pub mod_pos_lem : (a : ℤ) (q : ℕ) → mod_pos a (pos (suc q)) ≡ pos (a %ℤ suc q)
unfolding mod_pos
mod_pos_lem a q = ap (λ (x : ℕ). pos (a %ℤ x)) (omega arith)

abbrev pub reference : Gmp
reference = record {
  mpz_add = ◌+ℤ◌;
  mpz_sub = ◌-ℤ◌;
  mpz_mul = ◌*ℤ◌;
  mpz_addmul = λ r a b. r +ℤ a *ℤ b;
  mpz_mod = mod_pos;
  mpz_tdiv_q_2exp = λ a k. pos (pos_part a / 2 ^ k);
  mpz_sgn = sign;
  mpz_cmp = λ a b. sign (a -ℤ b);
  mpz_add_lem = λ a b. refl;
  mpz_sub_lem = λ a b. refl;
  mpz_mul_lem = λ a b. refl;
  mpz_addmul_lem = λ r a b. refl;
  mpz_mod_lem = mod_pos_lem;
  mpz_tdiv_q_2exp_lem = λ n k. refl;
  mpz_sgn_lem = λ a. refl;
  mpz_cmp_lem = λ a b. sign-sign (a -ℤ b);
}
