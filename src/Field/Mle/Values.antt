-- ===== src/Field/Mle/Values.antt =====
-- The extension of a vector of gate values (code/pepper/cmtgkr/cmtgkr_env.cpp): by the table of
-- chis, gate by gate, and at the corners of the cube.
use native.Mathlib.Nat.{mod-eq_of_lt, mod-lt, zero-mod}
use ginger_zaatar_allspice.Prelude.{
  ℕ, zero, suc, ◌+◌, ◌-◌, ◌*◌, ◌%◌, ◌^◌, ◌<◌, ◌≤◌, ◌≡◌, ◌≢◌, refl, sym, ◌∙◌, ap, List, [], ◌∷◌,
  if◌then◌else◌, length, get_or, arith, ℕ_discrete,
}
use ginger_zaatar_allspice.Prelude.Int.{ℤ, pos, negsuc, ◌%ℤ◌}
use ginger_zaatar_allspice.Prelude.Congr.{%ℤ-pos, %ℤ-lt}
use ginger_zaatar_allspice.Gmp.{Gmp, sign, is_zero}
use ginger_zaatar_allspice.Field.{chi, addmodmult, compute_chi_all}
use ginger_zaatar_allspice.Field.Modular.{addmul_lem, addmodmult_lem}
use ginger_zaatar_allspice.Field.Chi.{compute_chi_all-chi}
use ginger_zaatar_allspice.Field.Mle.{log2i, v_chis_loop, evaluate_v_chis, v_i_loop, evaluate_v_i}
use ginger_zaatar_allspice.Field.Mle.Log.{log2i_covers}
use ginger_zaatar_allspice.Field.Mle.Boolean.{corner, chi-corner}

module _ (g : Gmp) (q : ℕ) where
  -- A zero gate value that the table's loop skips adds nothing.
  skip_lem :
      (ans z c : ℤ)
      → (if is_zero (g.mpz_sgn z) then ans else g.mpz_addmul ans z c) %ℤ suc q
        ≡ (ans %ℤ suc q + z %ℤ suc q * (c %ℤ suc q)) % suc q
  unfolding sign
  skip_lem ans (pos zero) c =
      rw (g.mpz_sgn_lem (pos zero), %ℤ-pos q 0, zero-mod (suc q))
        (sym (mod-eq_of_lt (%ℤ-lt q ans)) ∙ ap (λ (x : ℕ). x % suc q) (omega arith))
  skip_lem ans (pos (suc n)) c =
      rw (g.mpz_sgn_lem (pos (suc n))) (addmul_lem g q ans (pos (suc n)) c)
  skip_lem ans (negsuc n) c = rw (g.mpz_sgn_lem (negsuc n)) (addmul_lem g q ans (negsuc n) c)

  v_loops :
      (level chis r : List ℤ) (n i : ℕ) (ans : ℤ) (m : ℕ)
      → m < suc q
      → ans %ℤ suc q ≡ m
      → ((k : ℕ) → k < i + length level → get_or chis k (pos 0) ≡ chi g k r n (pos (suc q)))
      → pos (v_chis_loop g ans i level chis %ℤ suc q) ≡ v_i_loop g (pos m) i level r n (pos (suc q))
  unfolding v_chis_loop v_i_loop
  v_loops [] chis r n i ans m h e table = ap pos e
  v_loops (z ∷ level) chis r n i ans m h e table =
      let c : ℤ = chi g i r n (pos (suc q)) in
      v_loops level chis r n (suc i)
        (if is_zero (g.mpz_sgn z) then ans else g.mpz_addmul ans z (get_or chis i (pos 0)))
        ((m + z %ℤ suc q * (c %ℤ suc q)) % suc q)
        (mod-lt (m + z %ℤ suc q * (c %ℤ suc q)) (omega arith))
        (skip_lem ans z (get_or chis i (pos 0))
          ∙ ap (λ c'. (ans %ℤ suc q + z %ℤ suc q * (c' %ℤ suc q)) % suc q) (table i (omega arith))
          ∙ ap (λ (x : ℕ). (x + z %ℤ suc q * (c %ℤ suc q)) % suc q) e)
        (λ k hk. table k (omega arith))
      ∙ ap (λ y. v_i_loop g y (suc i) level r n (pos (suc q)))
          (ap (λ (x : ℕ). pos ((x + z %ℤ suc q * (c %ℤ suc q)) % suc q))
              (sym (%ℤ-pos q m ∙ mod-eq_of_lt h))
            ∙ sym (addmodmult_lem g q (pos m) z c))

  -- With the table that computeChiAll fills, evaluate_V_chis returns what evaluate_V_i computes
  -- without one, where the table is as long as the level, the point has as many coordinates as
  -- log2i says for the level, and the level has at most 2 to that number of gates.
  pub evaluate_v_chis-evaluate_v_i :
      (level rop r : List ℤ)
      → length rop ≡ length level
      → log2i (length level) ≡ length r
      → length level ≤ 2 ^ length r
      → evaluate_v_chis g level (compute_chi_all g rop r (pos (suc q))) (pos (suc q))
        ≡ evaluate_v_i g level r (pos (suc q))
  unfolding evaluate_v_chis evaluate_v_i
  evaluate_v_chis-evaluate_v_i level rop r same vars fits =
      g.mpz_mod_lem _ q
      ∙ v_loops level (compute_chi_all g rop r (pos (suc q))) r (log2i (length level)) 0 (pos 0) 0
          (omega arith) (%ℤ-pos q 0 ∙ zero-mod (suc q))
          (λ k h.
            compute_chi_all-chi g (pos (suc q)) rop r k (omega arith) (omega arith)
            ∙ ap (λ n. chi g k r n (pos (suc q))) (sym vars))

module _ (g : Gmp) (q : ℕ) (big : 0 < q) (n : ℕ) where
  -- At a corner a gate contributes its value if it is the corner's gate, and nothing otherwise.
  add_other :
      (m i b : ℕ) (z : ℤ)
      → m < suc q
      → i ≢ b
      → i < 2 ^ n
      → b < 2 ^ n
      → addmodmult g (pos m) z (chi g i (corner n b) n (pos (suc q))) (pos (suc q)) ≡ pos m
  add_other m i b z h ne hi hb =
      ap (λ c. addmodmult g (pos m) z c (pos (suc q)))
        (chi-corner g q big i b n hi hb ∙ ap pos (ground arith))
      ∙ addmodmult_lem g q (pos m) z (pos 0)
      ∙ ap pos (
          rw (%ℤ-pos q 0, zero-mod (suc q), %ℤ-pos q m, mod-eq_of_lt h)
            (ap (λ (x : ℕ). x % suc q) {y = m} (omega arith) ∙ mod-eq_of_lt h))

  add_same :
      (i b : ℕ) (z : ℤ)
      → i ≡ b
      → i < 2 ^ n
      → b < 2 ^ n
      → addmodmult g (pos 0) z (chi g i (corner n b) n (pos (suc q))) (pos (suc q))
        ≡ pos (z %ℤ suc q)
  add_same i b z e hi hb =
      ap (λ c. addmodmult g (pos 0) z c (pos (suc q)))
        (chi-corner g q big i b n hi hb ∙ ap pos (ground arith))
      ∙ addmodmult_lem g q (pos 0) z (pos 1)
      ∙ ap pos (
          rw
            (
              %ℤ-pos q 0,
              zero-mod (suc q),
              %ℤ-pos q 1,
              mod-eq_of_lt {n = 1} {m = suc q} (omega arith),
            )
            (ap (λ (x : ℕ). x % suc q) {y = z %ℤ suc q} (omega arith) ∙ mod-eq_of_lt (%ℤ-lt q z)))

  v_i_loop_past :
      (level : List ℤ) (b i m : ℕ)
      → m < suc q
      → b < i
      → b < 2 ^ n
      → i + length level ≤ 2 ^ n
      → v_i_loop g (pos m) i level (corner n b) n (pos (suc q)) ≡ pos m
  unfolding v_i_loop
  v_i_loop_past [] b i m h h₁ h₂ h₃ = refl
  v_i_loop_past (z ∷ level) b i m h h₁ h₂ h₃ =
      ap (λ y. v_i_loop g y (suc i) level (corner n b) n (pos (suc q)))
        (add_other m i b z h (omega arith) (omega arith) h₂)
      ∙ v_i_loop_past level b (suc i) m h (omega arith) h₂ (omega arith)

  v_i_loop_at :
      (level : List ℤ) (b i : ℕ)
      → i ≤ b
      → b < i + length level
      → i + length level ≤ 2 ^ n
      → v_i_loop g (pos 0) i level (corner n b) n (pos (suc q))
        ≡ pos (get_or level (b - i) (pos 0) %ℤ suc q)
  unfolding v_i_loop
  v_i_loop_at [] b i h₁ h₂ h₃ = absurd (omega arith)
  v_i_loop_at (z ∷ level) b i h₁ h₂ h₃ = elim (ℕ_discrete i b) [
    | yes here ↦
        ap (λ y. v_i_loop g y (suc i) level (corner n b) n (pos (suc q)))
          (add_same i b z here (omega arith) (omega arith))
        ∙ v_i_loop_past level b (suc i) (z %ℤ suc q) (%ℤ-lt q z) (omega arith) (omega arith)
            (omega arith)
        ∙ ap (λ (j : ℕ). pos (get_or (z ∷ level) j (pos 0) %ℤ suc q)) {x = 0} (omega arith)
    | no later ↦
        ap (λ y. v_i_loop g y (suc i) level (corner n b) n (pos (suc q)))
          (add_other 0 i b z (omega arith) later (omega arith) (omega arith))
        ∙ v_i_loop_at level b (suc i) (omega arith) (omega arith) (omega arith)
        ∙ ap (λ (j : ℕ). pos (get_or (z ∷ level) j (pos 0) %ℤ suc q)) {x = suc (b - suc i)}
            (omega arith)
  ]

-- At the corner of the cube that belongs to a gate of a level, evaluate_V_i returns that gate's
-- value modulo the prime, for any modulus above 1.
pub evaluate_v_i-corner :
    (g : Gmp) (q : ℕ) (level : List ℤ) (b : ℕ)
    → 0 < q
    → b < length level
    → evaluate_v_i g level (corner (log2i (length level)) b) (pos (suc q))
      ≡ pos (get_or level b (pos 0) %ℤ suc q)
unfolding evaluate_v_i
evaluate_v_i-corner g q level b big h =
    v_i_loop_at g q big (log2i (length level)) level b 0 (omega arith) (omega arith)
      (omega (arith, log2i_covers (length level)))
    ∙ ap (λ (j : ℕ). pos (get_or level j (pos 0) %ℤ suc q)) {x = b - 0} (omega arith)
