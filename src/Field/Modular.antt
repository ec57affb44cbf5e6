-- ===== src/Field/Modular.antt =====
-- The arithmetic of cmtgkr_env.cpp at a positive modulus q + 1, by remainders.
use native.Mathlib.Nat.{mod-eq_of_lt, add-mod-mod, zero-mod}
use ginger_zaatar_allspice.Prelude.{ℕ, suc, ◌+◌, ◌*◌, ◌%◌, ◌<◌, ◌≡◌, ap, ◌∙◌, arith}
use ginger_zaatar_allspice.Prelude.Int.{ℤ, pos, ◌-ℤ◌, ◌*ℤ◌, ◌%ℤ◌}
use ginger_zaatar_allspice.Prelude.Congr.{%ℤ-pos, %ℤ-+ℤ, %ℤ-*ℤ}
use ginger_zaatar_allspice.Gmp.{Gmp}
use ginger_zaatar_allspice.Field.{modmult, addmodmult, one_sub}

module _ (g : Gmp) (q : ℕ) where
  pub modmult_lem :
      (a b : ℤ) → modmult g a b (pos (suc q)) ≡ pos ((a %ℤ suc q * (b %ℤ suc q)) % suc q)
  unfolding modmult
  modmult_lem a b =
      g.mpz_mod_lem _ q ∙ ap (λ x. pos (x %ℤ suc q)) (g.mpz_mul_lem a b) ∙ ap pos (%ℤ-*ℤ q a b)

  pub addmul_lem :
      (r a b : ℤ) → g.mpz_addmul r a b %ℤ suc q ≡ (r %ℤ suc q + a %ℤ suc q * (b %ℤ suc q)) % suc q
  addmul_lem r a b =
      rw (g.mpz_addmul_lem r a b, %ℤ-+ℤ q r (a *ℤ b), %ℤ-*ℤ q a b)
        (add-mod-mod (r %ℤ suc q) (a %ℤ suc q * (b %ℤ suc q)) (suc q))

  pub addmodmult_lem :
      (r a b : ℤ)
      → addmodmult g r a b (pos (suc q)) ≡ pos ((r %ℤ suc q + a %ℤ suc q * (b %ℤ suc q)) % suc q)
  unfolding addmodmult
  addmodmult_lem r a b = g.mpz_mod_lem _ q ∙ ap pos (addmul_lem r a b)

  -- A product with a reduced factor and a one, or with a zero.
  pub modmult-one : (m : ℕ) → m < suc q → 0 < q → modmult g (pos m) (pos 1) (pos (suc q)) ≡ pos m
  modmult-one m h h₁ =
      modmult_lem (pos m) (pos 1)
      ∙ ap pos (
          rw
            (%ℤ-pos q m, %ℤ-pos q 1, mod-eq_of_lt h, mod-eq_of_lt {n = 1} {m = suc q} (omega arith))
            (ap (λ (x : ℕ). x % suc q) (omega arith) ∙ mod-eq_of_lt h))

  pub modmult-zero : (a : ℤ) → modmult g a (pos 0) (pos (suc q)) ≡ pos 0
  modmult-zero a =
      modmult_lem a (pos 0)
      ∙ ap pos (
          rw (%ℤ-pos q 0, zero-mod (suc q))
            (ap (λ (x : ℕ). x % suc q) {y = 0} (omega arith) ∙ zero-mod (suc q)))

  pub zero-modmult : (a : ℤ) → modmult g (pos 0) a (pos (suc q)) ≡ pos 0
  zero-modmult a =
      modmult_lem (pos 0) a
      ∙ ap pos (
          rw (%ℤ-pos q 0, zero-mod (suc q))
            (ap (λ (x : ℕ). x % suc q) {y = 0} (omega arith) ∙ zero-mod (suc q)))

  pub one_sub_lem : (a : ℤ) → one_sub g a ≡ pos 1 -ℤ a
  unfolding one_sub
  one_sub_lem a = g.mpz_sub_lem (pos 1) a
