-- ===== src/Field/Mle/Boolean.antt =====
-- chi, beta and the extension of a vector at the points of the Boolean cube
-- (code/pepper/cmtgkr/cmtgkr_env.cpp).
use native.Mathlib.Nat.{pow-suc}
use ginger_zaatar_allspice.Prelude.{
  ℕ, zero, suc, ◌/◌, ◌%◌, ◌^◌, ◌<◌, ◌≡◌, ◌≢◌, refl, sym, ◌∙◌, ap, ap₂, List, [], ◌∷◌, ◌==◌,
  if◌then◌else◌, length, take, take-length, arith, ℕ_discrete,
}
use ginger_zaatar_allspice.Prelude.Int.{ℤ, pos, ◌+ℤ◌, ◌-ℤ◌, ◌*ℤ◌, *ℤ-one, *ℤ-zero, +ℤ-zero, zero-+ℤ}
use ginger_zaatar_allspice.Gmp.{Gmp}
use ginger_zaatar_allspice.Field.{shr, bit, modmult, one_sub, mul_chi_loop, chi}
use ginger_zaatar_allspice.Field.Modular.{modmult-one, modmult-zero, zero-modmult, one_sub_lem}
use ginger_zaatar_allspice.Field.Mle.{mulmle, beta_loop, evaluate_beta}

-- The corner of the cube at which variable i has the value of bit i of `b`.
abbrev pub corner : ℕ → ℕ → List ℤ
corner zero b = []
corner (suc n) b = pos (b % 2) ∷ corner n (b / 2)

pub shr-suc : (v i : ℕ) → shr v (suc i) ≡ shr v i / 2
unfolding shr
shr-suc v zero = refl
shr-suc v (suc i) = shr-suc (v / 2) i

pub take-corner : (n b : ℕ) → take n (corner n b) ≡ corner n b
take-corner zero b = refl
take-corner (suc n) b = ap (◌∷◌ (pos (b % 2))) (take-corner n (b / 2))

module _ (g : Gmp) (q : ℕ) (big : 0 < q) where
  -- The factor for a variable: 1 where the bit and the coordinate agree, 0 elsewhere.
  factor_same :
      (u b : ℕ) → u ≡ b → (if u % 2 == 1 then pos (b % 2) else one_sub g (pos (b % 2))) ≡ pos 1
  unfolding ◌-ℤ◌
  factor_same u b e = ground (arith, one_sub_lem g q (pos (b % 2)))

  factor_other :
      (u b : ℕ)
      → u % 2 ≢ b % 2
      → (if u % 2 == 1 then pos (b % 2) else one_sub g (pos (b % 2))) ≡ pos 0
  unfolding ◌-ℤ◌
  factor_other u b h = ground (arith, one_sub_lem g q (pos (b % 2)))

  chi_loop-zero : (v i : ℕ) (r : List ℤ) → mul_chi_loop g (pos 0) v i r (pos (suc q)) ≡ pos 0
  unfolding mul_chi_loop
  chi_loop-zero v i [] = refl
  chi_loop-zero v i (x ∷ r) = rw (zero-modmult g q) (chi_loop-zero v (suc i) r)

  -- One round whose factor is 1, and one whose factor is 0.
  chi_loop_one :
      (m v i : ℕ) (x : ℤ) (r : List ℤ)
      → m < suc q
      → (if bit v i then x else one_sub g x) ≡ pos 1
      → mul_chi_loop g (pos m) v i (x ∷ r) (pos (suc q))
        ≡ mul_chi_loop g (pos m) v (suc i) r (pos (suc q))
  unfolding mul_chi_loop
  chi_loop_one m v i x r h e =
      ap (λ y. mul_chi_loop g y v (suc i) r (pos (suc q)))
        (ap (λ y. modmult g (pos m) y (pos (suc q))) e ∙ modmult-one g q m h big)

  chi_loop_zero :
      (m v i : ℕ) (x : ℤ) (r : List ℤ)
      → (if bit v i then x else one_sub g x) ≡ pos 0
      → mul_chi_loop g (pos m) v i (x ∷ r) (pos (suc q)) ≡ pos 0
  unfolding mul_chi_loop
  chi_loop_zero m v i x r e =
      ap (λ y. mul_chi_loop g y v (suc i) r (pos (suc q)))
        (ap (λ y. modmult g (pos m) y (pos (suc q))) e ∙ modmult-zero g q (pos m))
      ∙ chi_loop-zero v (suc i) r

  chi_loop-corner_self :
      (m v i n b : ℕ)
      → m < suc q
      → shr v i ≡ b
      → mul_chi_loop g (pos m) v i (corner n b) (pos (suc q)) ≡ pos m
  unfolding mul_chi_loop
  chi_loop-corner_self m v i zero b h e = refl
  chi_loop-corner_self m v i (suc n) b h e =
      chi_loop_one m v i (pos (b % 2)) (corner n (b / 2)) h (factor_same (shr v i) b e)
      ∙ chi_loop-corner_self m v (suc i) n (b / 2) h (shr-suc v i ∙ ap (λ (x : ℕ). x / 2) e)

  chi_loop-corner_ne :
      (m v i n u b : ℕ)
      → m < suc q
      → shr v i ≡ u
      → u < 2 ^ n
      → b < 2 ^ n
      → u ≢ b
      → mul_chi_loop g (pos m) v i (corner n b) (pos (suc q)) ≡ pos 0
  unfolding mul_chi_loop
  chi_loop-corner_ne m v i zero u b h e hu hb ne = absurd (ne (omega arith))
  chi_loop-corner_ne m v i (suc n) u b h e hu hb ne = elim (ℕ_discrete (u % 2) (b % 2)) [
    | yes same ↦
        chi_loop_one m v i (pos (b % 2)) (corner n (b / 2)) h (
          ap (λ (x : ℕ). if x == 1 then pos (b % 2) else one_sub g (pos (b % 2)))
            (ap (λ (x : ℕ). x % 2) e ∙ same)
          ∙ factor_same b b refl)
        ∙ chi_loop-corner_ne m v (suc i) n (u / 2) (b / 2) h (shr-suc v i ∙ ap (λ (x : ℕ). x / 2) e)
            (omega (arith, pow-suc 2 n)) (omega (arith, pow-suc 2 n)) (λ d. ne (omega arith))
    | no other ↦
        chi_loop_zero m v i (pos (b % 2)) (corner n (b / 2))
          (factor_other (shr v i) b (λ d. other (ap (λ (x : ℕ). x % 2) (sym e) ∙ d)))
  ]

  -- Modulo a number above 1, chi_v over n variables is 1 at the corner of v and 0 at the other
  -- corners of the Boolean cube, for v below 2^n.
  pub chi-corner :
      (v b n : ℕ)
      → v < 2 ^ n
      → b < 2 ^ n
      → chi g v (corner n b) n (pos (suc q)) ≡ pos (if v == b then 1 else 0)
  unfolding chi shr
  chi-corner v b n hv hb = elim (ℕ_discrete v b) [
    | yes same ↦
        ap (λ r. mul_chi_loop g (pos 1) v 0 r (pos (suc q))) (take-corner n b)
        ∙ chi_loop-corner_self 1 v 0 n b (omega arith) same
        ∙ ap pos (ground arith)
    | no other ↦
        ap (λ r. mul_chi_loop g (pos 1) v 0 r (pos (suc q))) (take-corner n b)
        ∙ chi_loop-corner_ne 1 v 0 n v b (omega arith) refl hv hb other
        ∙ ap pos (ground arith)
  ]

  -- (1 - x)(1 - b) + x b is x for b = 1 and 1 - x for b = 0.
  select :
      (x : ℤ) (b : ℕ)
      → b < 2
      → g.mpz_addmul (g.mpz_mul (one_sub g x) (one_sub g (pos b))) x (pos b)
        ≡ (if b == 1 then x else one_sub g x)
  unfolding ◌-ℤ◌
  select x zero h =
      g.mpz_addmul_lem _ x (pos 0)
      ∙ ap (λ y. y +ℤ x *ℤ pos 0)
          (g.mpz_mul_lem (one_sub g x) (one_sub g (pos 0))
            ∙ ap (◌*ℤ◌ (one_sub g x)) (one_sub_lem g q (pos 0)))
      ∙ ap₂ ◌+ℤ◌ (*ℤ-one (one_sub g x)) (*ℤ-zero x)
      ∙ +ℤ-zero (one_sub g x)
  select x (suc zero) h =
      g.mpz_addmul_lem _ x (pos 1)
      ∙ ap (λ y. y +ℤ x *ℤ pos 1)
          (g.mpz_mul_lem (one_sub g x) (one_sub g (pos 1))
            ∙ ap (◌*ℤ◌ (one_sub g x)) (one_sub_lem g q (pos 1)))
      ∙ ap₂ ◌+ℤ◌ (*ℤ-zero (one_sub g x)) (*ℤ-one x)
      ∙ zero-+ℤ x
  select x (suc (suc b)) h = absurd (omega arith)

  -- One factor of beta at a corner is the factor of chi for that bit.
  mulmle-bit :
      (prod x : ℤ) (v i u : ℕ)
      → shr v i ≡ u
      → mulmle g prod x (one_sub g (pos (u % 2))) (pos (u % 2)) (pos (suc q))
        ≡ modmult g prod (if bit v i then x else one_sub g x) (pos (suc q))
  unfolding mulmle
  mulmle-bit prod x v i u e =
      ap (λ y. modmult g prod y (pos (suc q)))
        (select x (u % 2) (omega arith)
          ∙ ap (λ (k : ℕ). if k % 2 == 1 then x else one_sub g x) (sym e))

  beta_loop-corner :
      (z : List ℤ) (prod : ℤ) (v i u : ℕ)
      → shr v i ≡ u
      → beta_loop g prod z (corner (length z) u) (pos (suc q))
        ≡ mul_chi_loop g prod v i z (pos (suc q))
  unfolding beta_loop mul_chi_loop
  beta_loop-corner [] prod v i u e = refl
  beta_loop-corner (x ∷ z) prod v i u e =
      ap (λ y. beta_loop g y z (corner (length z) (u / 2)) (pos (suc q)))
        (mulmle-bit prod x v i u e)
      ∙ beta_loop-corner z _ v (suc i) (u / 2) (shr-suc v i ∙ ap (λ (k : ℕ). k / 2) e)

  -- Modulo a number above 1, evaluate_beta at z and the corner of k is what chi computes for k at
  -- z.
  pub evaluate_beta-corner :
      (z : List ℤ) (k : ℕ)
      → evaluate_beta g z (corner (length z) k) (length z) (pos (suc q))
        ≡ chi g k z (length z) (pos (suc q))
  unfolding evaluate_beta chi shr
  evaluate_beta-corner z k =
      rw (take-corner (length z) k, take-length z) (beta_loop-corner z (pos 1) k 0 k refl)
