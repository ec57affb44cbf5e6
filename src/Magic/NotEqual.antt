-- ===== src/Magic/NotEqual.antt =====
-- The magic variable of an inequality (code/pepper/cmtgkr/circuit/magic_var_operation.cpp) makes the
-- constraints that the parser adds for it hold.
use native.Mathlib.Nat.{zero-mod}
use ginger_zaatar_allspice.Prelude.{
  ℕ, zero, suc, ◌*◌, ◌%◌, ◌≡◌, ◌≢◌, refl, ◌∙◌, ap, true, false, if◌then◌else◌, arith, inl, inr,
  Bool-cases,
}
use ginger_zaatar_allspice.Prelude.Int.{ℤ, pos, negsuc, ◌-ℤ◌, ◌%ℤ◌}
use ginger_zaatar_allspice.Prelude.Congr.{%ℤ-pos}
use ginger_zaatar_allspice.Gmp.Compare.{cmp_zero}
use ginger_zaatar_allspice.Gmp.{Gmp, is_zero}
use ginger_zaatar_allspice.Pws.Primitives.{GatePosition}
use ginger_zaatar_allspice.Magic.{Values, get_z, set_val, compute_not_equal}

pub get_z-set_val_self :
    (values : Values) (p : GatePosition) (v : ℤ) → get_z (set_val values p v) p ≡ v
unfolding set_val
get_z-set_val_self values p v = ground arith

is_zero_pos : (c : ℤ) → is_zero c ≡ true → c ≡ pos 0
is_zero_pos (pos zero) h = refl
is_zero_pos (pos (suc n)) h = absurd (grind arith)
is_zero_pos (negsuc n) h = absurd (grind arith)

not_zero : (c : ℤ) → is_zero c ≡ false → c ≢ pos 0
not_zero c h e = absurd (grind (arith, h, ap is_zero e))

not_equal_same :
    (g : Gmp) (invert : ℤ → ℤ → ℤ) (m x1 x2 : GatePosition) (prime : ℤ) (values : Values)
    → get_z values x1 -ℤ get_z values x2 ≡ pos 0
    → get_z (compute_not_equal g invert m x1 x2 prime values) m ≡ pos 0
unfolding compute_not_equal
not_equal_same g invert m x1 x2 prime values e =
    rw (cmp_zero g (get_z values x1) (get_z values x2), e) (get_z-set_val_self values m (pos 0))

not_equal_other :
    (g : Gmp) (invert : ℤ → ℤ → ℤ) (m x1 x2 : GatePosition) (prime : ℤ) (values : Values)
    → is_zero (get_z values x1 -ℤ get_z values x2) ≡ false
    → get_z (compute_not_equal g invert m x1 x2 prime values) m
      ≡ invert (get_z values x1 -ℤ get_z values x2) prime
unfolding compute_not_equal
not_equal_other g invert m x1 x2 prime values e =
    rw
      (
        cmp_zero g (get_z values x1) (get_z values x2),
        e,
        g.mpz_sub_lem (get_z values x1) (get_z values x2),
      )
      (get_z-set_val_self values m (invert (get_z values x1 -ℤ get_z values x2) prime))

-- M times X1 - X2, which is the output Y of the inequality, is 0 modulo the prime if the values of X1
-- and X2 are equal and 1 if they are not, where different values differ modulo the prime, and
-- mpz_invert returns an inverse of a number that is no multiple of the prime.
pub compute_not_equal_lem :
    (g : Gmp) (q : ℕ) (mpz_invert : ℤ → ℤ → ℤ) (m x1 x2 : GatePosition) (values : Values)
    → ((a : ℤ) → a %ℤ suc q ≢ 0 → (mpz_invert a (pos (suc q)) %ℤ suc q) * (a %ℤ suc q) % suc q ≡ 1)
    → (get_z values x1 -ℤ get_z values x2 ≢ pos 0
        → (get_z values x1 -ℤ get_z values x2) %ℤ suc q ≢ 0)
    → (get_z (compute_not_equal g mpz_invert m x1 x2 (pos (suc q)) values) m %ℤ suc q)
        * ((get_z values x1 -ℤ get_z values x2) %ℤ suc q)
        % suc q
      ≡ (if is_zero (get_z values x1 -ℤ get_z values x2) then 0 else 1)
compute_not_equal_lem g q mpz_invert m x1 x2 values inverts differ =
    elim (Bool-cases (is_zero (get_z values x1 -ℤ get_z values x2))) [
      | inl z ↦
          rw
            (
              z,
              not_equal_same g mpz_invert m x1 x2 (pos (suc q)) values (is_zero_pos _ z),
              %ℤ-pos q 0,
              zero-mod (suc q),
            )
            (ap (λ (k : ℕ). k % suc q) {y = 0} (omega arith) ∙ zero-mod (suc q))
      | inr z ↦
          rw (z, not_equal_other g mpz_invert m x1 x2 (pos (suc q)) values z)
            (inverts (get_z values x1 -ℤ get_z values x2) (differ (not_zero _ z)))
    ]
