-- ===== src/Field/Residue.antt =====
-- What the arithmetic of cmtgkr_env.cpp does to remainders: a value stands for a natural number
-- that is congruent to it modulo q + 1, where q takes the place of -1.
use native.Mathlib.Nat.{add-mod, mod-mod}
use ginger_zaatar_allspice.Prelude.{ℕ, suc, ◌+◌, ◌*◌, ◌%◌, ◌≡◌, sym, ap, ap₂, ◌∙◌}
use ginger_zaatar_allspice.Prelude.Int.{ℤ, pos, ◌*ℤ◌, ◌%ℤ◌}
use ginger_zaatar_allspice.Prelude.Congr.{
  %ℤ-pos, %ℤ-+ℤ, %ℤ-*ℤ, %ℤ--ℤ, ≈-%ℤ, mul-mod, mod-*-mod, add-congruent,
}
use ginger_zaatar_allspice.Gmp.{Gmp}
use ginger_zaatar_allspice.Field.{modmult}

module _ (g : Gmp) (q : ℕ) where
  unfoldable pub Stands : ℤ → ℕ → Type 0
  Stands v e = v %ℤ suc q ≡ e % suc q

  pub Stands-≡ : (v : ℤ) (e f : ℕ) → e % suc q ≡ f % suc q → Stands v e → Stands v f
  unfolding Stands
  Stands-≡ v e f h k = k ∙ h

  pub Stands-pos : (n : ℕ) → Stands (pos n) n
  unfolding Stands
  Stands-pos n = %ℤ-pos q n

  pub Stands-mpz_add :
      (v w : ℤ) (e f : ℕ) → Stands v e → Stands w f → Stands (g.mpz_add v w) (e + f)
  unfolding Stands
  Stands-mpz_add v w e f h k =
      ap (λ (x : ℤ). x %ℤ suc q) (g.mpz_add_lem v w)
      ∙ %ℤ-+ℤ q v w
      ∙ ap₂ (λ (x y : ℕ). (x + y) % suc q) h k
      ∙ sym (add-mod e f (suc q))

  pub Stands-mpz_mul :
      (v w : ℤ) (e f : ℕ) → Stands v e → Stands w f → Stands (g.mpz_mul v w) (e * f)
  unfolding Stands
  Stands-mpz_mul v w e f h k =
      ap (λ (x : ℤ). x %ℤ suc q) (g.mpz_mul_lem v w)
      ∙ %ℤ-*ℤ q v w
      ∙ ap₂ (λ (x y : ℕ). x * y % suc q) h k
      ∙ sym (mul-mod e f (suc q))

  pub Stands-mpz_sub :
      (v w : ℤ) (e f : ℕ) → Stands v e → Stands w f → Stands (g.mpz_sub v w) (e + q * f)
  unfolding Stands
  Stands-mpz_sub v w e f h k =
      ap (λ (x : ℤ). x %ℤ suc q) (g.mpz_sub_lem v w)
      ∙ %ℤ--ℤ q v w
      ∙ add-congruent (suc q) (v %ℤ suc q) e (q * (w %ℤ suc q)) (q * f)
          (ap (λ (x : ℕ). x % suc q) h ∙ mod-mod e (suc q))
          (ap (λ (x : ℕ). q * x % suc q) k ∙ mod-*-mod q f (suc q))

  pub Stands-mpz_addmul :
      (u v w : ℤ) (d e f : ℕ)
      → Stands u d
      → Stands v e
      → Stands w f
      → Stands (g.mpz_addmul u v w) (d + e * f)
  unfolding Stands
  Stands-mpz_addmul u v w d e f h k l =
      ap (λ (x : ℤ). x %ℤ suc q) (g.mpz_addmul_lem u v w)
      ∙ %ℤ-+ℤ q u (v *ℤ w)
      ∙ ap₂ (λ (x y : ℕ). (x + y) % suc q) h
          (%ℤ-*ℤ q v w ∙ ap₂ (λ (x y : ℕ). x * y % suc q) k l ∙ sym (mul-mod e f (suc q)))
      ∙ sym (add-mod d (e * f) (suc q))

  pub Stands-mpz_mod : (v : ℤ) (e : ℕ) → Stands v e → Stands (g.mpz_mod v (pos (suc q))) e
  unfolding Stands
  Stands-mpz_mod v e h = ap (λ (x : ℤ). x %ℤ suc q) (g.mpz_mod_lem v q) ∙ ≈-%ℤ q v ∙ h

  -- A reduced value is the remainder of what it stands for.
  pub mpz_mod-Stands : (v : ℤ) (e : ℕ) → Stands v e → g.mpz_mod v (pos (suc q)) ≡ pos (e % suc q)
  unfolding Stands
  mpz_mod-Stands v e h = g.mpz_mod_lem v q ∙ ap pos h

  pub Stands-modmult :
      (v w : ℤ) (e f : ℕ) → Stands v e → Stands w f → Stands (modmult g v w (pos (suc q))) (e * f)
  unfolding modmult
  Stands-modmult v w e f h k = Stands-mpz_mod (g.mpz_mul v w) (e * f) (Stands-mpz_mul v w e f h k)
