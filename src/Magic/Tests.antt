-- ===== src/Magic/Tests.antt =====
-- A comparison with two bits, and the witnesses of the theorems about
-- code/pepper/cmtgkr/circuit/magic_var_operation.cpp.
use ginger_zaatar_allspice.Prelude.{
  ℕ, zero, suc, ◌+◌, ◌*◌, ◌%◌, ◌^◌, ◌≤◌, ◌≡◌, ◌≢◌, refl, ap, [], ◌∷◌, ◌==◌, if◌then◌else◌, arith,
}
use ginger_zaatar_allspice.Prelude.Int.{ℤ, pos, pos_part, ◌-ℤ◌, ◌%ℤ◌}
use ginger_zaatar_allspice.Prelude.Congr.{%ℤ-lt}
use ginger_zaatar_allspice.Gmp.{sign}
use ginger_zaatar_allspice.Gmp.Reference.{reference}
use ginger_zaatar_allspice.Field.{bit, to_true_number}
use ginger_zaatar_allspice.Pws.Primitives.{GatePosition}
use ginger_zaatar_allspice.Magic.{GmpBits, Values, get_z, compute_not_equal, compute_less_than_int}
use ginger_zaatar_allspice.Magic.NotEqual.{compute_not_equal_lem}
use ginger_zaatar_allspice.Magic.LessThan.{total}
use ginger_zaatar_allspice.Magic.Comparison.{Layout, Flags, compute_less_than_int-Flags}
use ginger_zaatar_allspice.Magic.Constraints.{
  AreBits, IsSatisfied, compute_less_than_int-IsSatisfied,
}

zero_plus : (i : ℕ) → pos (0 + 2 ^ i) ≡ pos (2 ^ i)
zero_plus i = ap pos (omega arith)

abbrev bits : GmpBits
bits = record {
  mpz_tstbit = λ a i. bit (pos_part a) i;
  mpz_setbit = λ a i. pos (pos_part a + 2 ^ i);
  mpz_tstbit_lem = λ n i. refl;
  mpz_setbit_lem = zero_plus;
}

abbrev at : ℕ → GatePosition
at i = record { layer = 0; name = i }

-- The operands are 96, which stands for -1 modulo 97, and 1.
abbrev values : Values
values l i = if i == 5 then pos 96 else pos 1

layout : Layout (at 0) (at 1) (at 2) (at 3 ∷ at 4 ∷ []) (at 5) (at 6)
layout = record {
  apart_m0 = (refl, (refl, (refl, (refl, tt))));
  apart_m1 = (refl, (refl, (refl, tt)));
  apart_m2 = (refl, (refl, tt));
  apart_x1 = (refl, (refl, (refl, (refl, (refl, (refl, tt))))));
  apart_x2 = (refl, (refl, (refl, (refl, (refl, (refl, tt))))));
  distinct = ((refl, tt), (tt, tt));
}

compute_less_than_int-Flags_example :
    Flags
      (at 0)
      (at 1)
      (at 2)
      (compute_less_than_int reference bits
        (at 0)
        (at 1)
        (at 2)
        (at 3 ∷ at 4 ∷ [])
        (at 5)
        (at 6)
        (pos 97)
        values)
      1
      0
      0
unfolding to_true_number ◌-ℤ◌ sign
compute_less_than_int-Flags_example =
    compute_less_than_int-Flags reference bits (at 0) (at 1) (at 2) (at 3 ∷ at 4 ∷ []) (at 5) (at 6)
      (pos 97) values layout

abbrev compared : Values
compared =
    compute_less_than_int reference bits (at 0) (at 1) (at 2) (at 3 ∷ at 4 ∷ []) (at 5) (at 6)
      (pos 97) values

compute_less_than_int-IsSatisfied_example :
    AreBits 0 (at 3 ∷ at 4 ∷ []) compared
    × IsSatisfied
        (get_z compared (at 0))
        (get_z compared (at 1))
        (get_z compared (at 2))
        (total compared (at 3 ∷ at 4 ∷ []))
        (get_z compared (at 5))
        (get_z compared (at 6))
        2
unfolding to_true_number ◌-ℤ◌ sign
compute_less_than_int-IsSatisfied_example =
    compute_less_than_int-IsSatisfied reference bits (at 0) (at 1) (at 2) (at 3 ∷ at 4 ∷ []) (at 5)
      (at 6) (pos 97) values layout (omega arith)

-- Modulo 3 a number that is no multiple of 3 is its own inverse.
inverts : (a : ℤ) → a %ℤ 3 ≢ 0 → (a %ℤ 3) * (a %ℤ 3) % 3 ≡ 1
inverts a h = square (a %ℤ 3) (%ℤ-lt 2 a) h
  where
    square : (n : ℕ) → suc n ≤ 3 → n ≢ 0 → n * n % 3 ≡ 1
    square zero l n = absurd (n refl)
    square (suc zero) l n = refl
    square (suc (suc zero)) l n = refl
    square (suc (suc (suc n))) l m = absurd (omega arith)

compute_not_equal_lem_example :
    (get_z (compute_not_equal reference (λ a p. a) (at 0) (at 5) (at 6) (pos 3) values) (at 0) %ℤ 3)
      * ((pos 96 -ℤ pos 1) %ℤ 3)
      % 3
    ≡ 1
unfolding ◌-ℤ◌ ◌%ℤ◌
compute_not_equal_lem_example =
    compute_not_equal_lem reference 2 (λ a p. a) (at 0) (at 5) (at 6) values inverts
      (λ d e. absurd (grind arith))
