-- ===== src/Pws/Parse/Statement.antt =====
-- code/pepper/cmtgkr/circuit/pws_circuit_parser.cpp: the inequality and the division of a worksheet.
use ginger_zaatar_allspice.Prelude.{◌+◌, none, some}
use ginger_zaatar_allspice.Prelude.Int.{ℤ}
use ginger_zaatar_allspice.Pws.Primitives.{Text, codes, Primitive, is_variable, add, mul, div_int}
use ginger_zaatar_allspice.Pws.State.{
  not_equal, M, ◌>>=◌, ◌>>◌, pure, early_return, or_return, get_state, modify,
}
use ginger_zaatar_allspice.Pws.Builder.{
  get_gate, make_gate, bind_variable, bind_output_constant, make_magic, add_magic_op, get_op_guard,
}
use ginger_zaatar_allspice.Pws.Parse.{Numbers, read_token, expect, parse_var, parse_valid}
use ginger_zaatar_allspice.Pws.Parse.Constraint.{add_number}
use ginger_zaatar_allspice.Pws.Parse.Comparison.{add_differences}

module _ (nums : Numbers) where
  open nums use {mpz_set_str, show, mpz_neg, mpz_mul_2exp, mpz_invert}

  unfoldable pub parse_not_equal : M (Unit {0})
  unfolding expect parse_valid make_magic get_gate add_differences make_gate bind_variable
      bind_output_constant add_magic_op get_op_guard
  parse_not_equal = do
    s ← get_state
    let guard = get_op_guard s
    expect (codes "M")
    m ← parse_valid nums
    expect (codes "X1")
    x1 ← parse_valid nums
    expect (codes "X2")
    x2 ← parse_valid nums
    expect (codes "Y")
    y ← parse_valid nums
    make_magic m
    m_gate ← get_gate m 0
    (x1_sub_x2, x2_sub_x1) ← add_differences nums x1 x2
    m_times_diff ← make_gate mul m_gate x1_sub_x2
    neg_m_times_diff ← make_gate mul m_times_diff x2_sub_x1
    check ← make_gate add neg_m_times_diff x1_sub_x2
    bind_variable y m_times_diff
    bind_output_constant check (codes "0")
    a ← get_gate x1 0
    b ← get_gate x2 0
    add_magic_op (not_equal m_gate a b) guard
    modify
        λ s'. record s' { op_count = record s'.op_count { num_ineqs = s'.op_count.num_ineqs + 1 } }

  -- The gate of the quotient; a divisor that is no integer adds none.
  unfoldable pub add_quotient : Primitive → Primitive → Text → ℤ → M (Unit {0})
  unfolding add_number get_gate make_gate bind_variable
  add_quotient p dividend divisor prime = elim (mpz_set_str divisor) [
    | none ↦ pure tt
    | some n ↦ (do
      c ← add_number nums (mpz_invert n prime)
      divisor_gate ← get_gate c 0
      dividend_gate ← get_gate dividend 0
      quotient ← make_gate div_int dividend_gate divisor_gate
      bind_variable p quotient)
  ]

  -- An exact division by an integer is a gate of its own kind.
  unfoldable pub parse_divide : ℤ → M (Unit {0})
  unfolding parse_valid is_variable expect read_token parse_var add_quotient
  parse_divide prime = do
    p ← parse_valid nums
    or_return (is_variable p)
    expect (codes "=")
    t ← read_token
    o ← parse_var t
    dividend ← elim o [ none ↦ early_return | some v ↦ pure v ]
    expect (codes "/")
    divisor ← read_token
    add_quotient p dividend divisor prime
    modify λ s. record s {
      op_count = record s.op_count { num_int_divs = s.op_count.num_int_divs + 1 };
    }
