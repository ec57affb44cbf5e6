-- ===== src/Gmp/Compare.antt =====
-- The tests of the form mpz_cmp(a, b) == 0.
use ginger_zaatar_allspice.Prelude.{zero, suc, true, ◌≡◌, refl, sym, ap, ◌∙◌, arith}
use ginger_zaatar_allspice.Prelude.Int.{ℤ, pos, negsuc, ◌-ℤ◌}
use ginger_zaatar_allspice.Gmp.{Gmp, sign, is_zero}

pub sign_zero : (c : ℤ) → is_zero (sign c) ≡ is_zero c
unfolding sign
sign_zero (pos zero) = refl
sign_zero (pos (suc n)) = refl
sign_zero (negsuc n) = refl

pub cmp_zero : (g : Gmp) (a b : ℤ) → is_zero (g.mpz_cmp a b) ≡ is_zero (a -ℤ b)
cmp_zero g a b =
    sym (sign_zero (g.mpz_cmp a b)) ∙ ap is_zero (g.mpz_cmp_lem a b) ∙ sign_zero (a -ℤ b)

minus_same : (a : ℤ) → is_zero (a -ℤ a) ≡ true
unfolding ◌-ℤ◌
minus_same a = ground arith

pub cmp_same : (g : Gmp) (a : ℤ) → is_zero (g.mpz_cmp a a) ≡ true
cmp_same g a = cmp_zero g a a ∙ minus_same a
