-- ===== src/Pws/Parse/Constraint.antt =====
-- code/pepper/cmtgkr/circuit/pws_circuit_parser.cpp: the polynomial constraint of a worksheet, and the
-- constraint that the comparisons share.
use ginger_zaatar_allspice.Prelude.{ℕ, [], none, some, if◌then◌else◌, get_elem?}
use ginger_zaatar_allspice.Prelude.Int.{ℤ}
use ginger_zaatar_allspice.Pws.Primitives.{codes, Primitive, is_variable, GatePosition, add, mul}
use ginger_zaatar_allspice.Pws.State.{M, fault, ◌>>=◌, ◌>>◌, pure}
use ginger_zaatar_allspice.Pws.Builder.{
  add_constant, get_gate, make_gate, bind_variable, bind_output_constant,
}
use ginger_zaatar_allspice.Pws.Parse.{Numbers, expect, parse_valid, parse_poly}

module _ (nums : Numbers) where
  open nums use {mpz_set_str, show, mpz_neg, mpz_mul_2exp, mpz_invert}

  unfoldable pub add_number : ℤ → M Primitive
  unfolding add_constant
  add_number n = add_constant (show n)

  -- The constraint var * (var - other) = 0.
  unfoldable pub make_zero_or_other_gate : Primitive → ℤ → M GatePosition
  unfolding add_number get_gate make_gate bind_output_constant
  make_zero_or_other_gate var other = do
    c ← add_number (mpz_neg other)
    other_const_gate ← get_gate c 0
    var_gate ← get_gate var 0
    nz_term ← make_gate add other_const_gate var_gate
    z_or_other_gate ← make_gate mul var_gate nz_term
    bind_output_constant z_or_other_gate (codes "0")
    pure z_or_other_gate

  -- bindOutputConstant(val, gate) for a primitive that is no variable.
  unfoldable pub bind_output_primitive : Primitive → GatePosition → M (Unit {0})
  unfolding bind_output_constant
  bind_output_primitive p g s = elim (get_elem? s.constants p.idx) [
    | none ↦ fault
    | some c ↦ bind_output_constant g c.value s
  ]

  -- P Y = polynomial E. The fuel is that of parse_poly.
  unfoldable pub parse_poly_constraint : ℕ → M (Unit {0})
  unfolding parse_valid expect parse_poly bind_variable bind_output_primitive is_variable
  parse_poly_constraint fuel = do
    p ← parse_valid nums
    expect (codes "=")
    gate ← parse_poly nums fuel (codes "E") []
    elim gate [
      | none ↦ pure tt
      | some g ↦ if is_variable p then bind_variable p g else bind_output_primitive p g
    ]
