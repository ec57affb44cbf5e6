-- ===== src/Magic.antt =====
-- code/pepper/cmtgkr/circuit/magic_var_operation.cpp: the operations that give the magic variables of a
-- comparison their values. The values of the gates are a function of layer and name, and only the
-- field elements (zValue) are kept: setVal writes the same number as a rational beside them.
pub mod NotEqual
pub mod LessThan
pub mod Comparison
pub mod Constraints
mod Tests
use ginger_zaatar_allspice.Prelude.{
  ℕ, suc, ◌^◌, ◌≡◌, Bool, true, false, ◌&&◌, List, [], ◌∷◌, ◌==◌, if◌then◌else◌, length,
}
use ginger_zaatar_allspice.Prelude.Int.{ℤ, pos, ltb_ℤ}
use ginger_zaatar_allspice.Gmp.{Gmp, is_zero}
use ginger_zaatar_allspice.Field.{bit, to_true_number}
use ginger_zaatar_allspice.Pws.Primitives.{GatePosition}

-- Bit functions of GMP, with what its manual says of them for the arguments that the code passes.
pub record GmpBits : Type 0 where
  pub mpz_tstbit : ℤ → ℕ → Bool
  pub mpz_setbit : ℤ → ℕ → ℤ
  pub mpz_tstbit_lem : (n i : ℕ) → mpz_tstbit (pos n) i ≡ bit n i
  pub mpz_setbit_lem : (i : ℕ) → mpz_setbit (pos 0) i ≡ pos (2 ^ i)

abbrev pub Values : Type 0
Values = ℕ → ℕ → ℤ

abbrev pub get_z : Values → GatePosition → ℤ
get_z values p = values p.layer p.name

abbrev pub same_place : GatePosition → ℕ → ℕ → Bool
same_place p l i = (p.layer == l) && (p.name == i)

unfoldable pub set_val : Values → GatePosition → ℤ → Values
set_val values p v l i = if same_place p l i then v else values l i

unfoldable pub compute_ms : GatePosition → GatePosition → GatePosition → ℤ → Values → Values
unfolding set_val
compute_ms m0 m1 m2 sgn values =
    if ltb_ℤ sgn (pos 0)
    then set_val (set_val (set_val values m0 (pos 1)) m1 (pos 0)) m2 (pos 0)
    else if is_zero sgn
    then set_val (set_val (set_val values m0 (pos 0)) m1 (pos 1)) m2 (pos 0)
    else set_val (set_val (set_val values m0 (pos 0)) m1 (pos 0)) m2 (pos 1)

module _ (g : Gmp) where
  open g use {mpz_add, mpz_sub, mpz_tdiv_q_2exp, mpz_cmp}

  -- NotEqualOperation::computeMagicGates, given mpz_invert.
  unfoldable pub compute_not_equal :
      (ℤ → ℤ → ℤ) → GatePosition → GatePosition → GatePosition → ℤ → Values → Values
  unfolding set_val
  compute_not_equal mpz_invert m x1 x2 prime values =
      if is_zero (mpz_cmp (get_z values x1) (get_z values x2))
      then set_val values m (pos 0)
      else set_val values m (mpz_invert (mpz_sub (get_z values x1) (get_z values x2)) prime)

  module _ (b : GmpBits) where
    open b use {mpz_tstbit, mpz_setbit}

    unfoldable pub bit_value : Bool → ℤ → ℕ → ℤ
    bit_value true_bits tmp i =
        if mpz_tstbit tmp i then if true_bits then pos 1 else mpz_setbit (pos 0) i else pos 0

    -- Over the gates that are left, the next of them being that of bit `i`.
    unfoldable pub bits_loop : Bool → ℤ → ℕ → List GatePosition → Values → Values
    unfolding bit_value set_val
    bits_loop true_bits tmp i [] values = values
    bits_loop true_bits tmp i (p ∷ bits) values =
        bits_loop true_bits tmp (suc i) bits (set_val values p (bit_value true_bits tmp i))

    unfoldable pub compute_bits : List GatePosition → ℤ → Bool → Values → Values
    unfolding bits_loop
    compute_bits bits sum true_bits values =
        bits_loop true_bits
          (if true_bits then sum else mpz_add sum (mpz_setbit (pos 0) (length bits))) 0 bits values

    -- LessThanIntOperation::computeMagicGates. The two operands are brought to the signed range in
    -- their gates.
    unfoldable pub compute_less_than_int :
        GatePosition
        → GatePosition
        → GatePosition
        → List GatePosition
        → GatePosition
        → GatePosition
        → ℤ
        → Values
        → Values
    unfolding set_val to_true_number compute_ms compute_bits
    compute_less_than_int m0 m1 m2 ns x1 x2 prime values =
        let half = mpz_tdiv_q_2exp prime 1 in
        let values₁ = set_val values x1 (to_true_number g (get_z values x1) half prime) in
        let values₂ = set_val values₁ x2 (to_true_number g (get_z values₁ x2) half prime) in
        let sgn = mpz_cmp (get_z values₂ x1) (get_z values₂ x2) in
        let values₃ = compute_ms m0 m1 m2 sgn values₂ in
        let diff =
          if ltb_ℤ sgn (pos 0)
          then mpz_sub (get_z values₃ x1) (get_z values₃ x2)
          else mpz_sub (get_z values₃ x2) (get_z values₃ x1) in
        compute_bits ns diff false values₃
