-- ===== src/Pws/Parse/Comparison.antt =====
-- code/pepper/cmtgkr/circuit/pws_circuit_parser.cpp: the comparisons of a worksheet, of integers and of
-- rationals.
use ginger_zaatar_allspice.Prelude.{ℕ, zero, suc, ◌+◌, ◌-◌, List, [], ◌∷◌, ◌++◌}
use ginger_zaatar_allspice.Prelude.Int.{ℤ, pos, pos_part}
use ginger_zaatar_allspice.Gmp.{Gmp}
use ginger_zaatar_allspice.Field.{modmult}
use ginger_zaatar_allspice.Pws.Primitives.{codes, Primitive, GatePosition, add, mul, magic}
use ginger_zaatar_allspice.Pws.State.{
  less_than_int, less_than_float, M, fault, ◌>>=◌, ◌>>◌, pure, get_state, modify,
}
use ginger_zaatar_allspice.Pws.Builder.{
  add_variable, get_gate, make_gate, make_sub_gate, bind_variable, bind_output_constant, make_magic,
  add_magic_op, get_op_guard,
}
use ginger_zaatar_allspice.Pws.Reducer.{reduce}
use ginger_zaatar_allspice.Pws.Parse.{Numbers, expect, read_int, parse_valid}
use ginger_zaatar_allspice.Pws.Parse.Constraint.{add_number, make_zero_or_other_gate}

module _ (nums : Numbers) where
  open nums use {mpz_set_str, show, mpz_neg, mpz_mul_2exp, mpz_invert}

  -- The magic variables name, name + 1, … with Ni * (Ni - num * 2^i) = 0; the gates of the
  -- variables and the last `num`.
  unfoldable pub add_bit_variables : ℕ → ℕ → ℤ → M (List GatePosition × ℤ)
  unfolding add_variable make_magic make_zero_or_other_gate get_gate
  add_bit_variables name zero num = pure ([], num)
  add_bit_variables name (suc n) num = do
    ni ← add_variable magic name
    make_magic ni
    _ ← make_zero_or_other_gate nums ni num
    g ← get_gate ni 0
    (nis, last) ← add_bit_variables (suc name) n (mpz_mul_2exp num 1)
    pure (g ∷ nis, last)

  -- Mlt, Meq and Mgt are bits, and one of them is set: their gates.
  unfoldable pub add_flags : Primitive → Primitive → Primitive → M (List GatePosition)
  unfolding make_magic make_zero_or_other_gate get_gate reduce bind_output_constant
  add_flags mlt meq mgt = do
    make_magic mlt
    make_magic meq
    make_magic mgt
    _ ← make_zero_or_other_gate nums mlt (pos 1)
    _ ← make_zero_or_other_gate nums meq (pos 1)
    _ ← make_zero_or_other_gate nums mgt (pos 1)
    glt ← get_gate mlt 0
    geq ← get_gate meq 0
    ggt ← get_gate mgt 0
    sum ← reduce add (glt ∷ geq ∷ ggt ∷ [])
    bind_output_constant sum (codes "1")
    pure (glt ∷ geq ∷ ggt ∷ [])

  -- factor * (sum + diff) = 0.
  unfoldable pub add_product_constraint : GatePosition → GatePosition → GatePosition → M (Unit {0})
  unfolding make_gate bind_output_constant
  add_product_constraint factor sum diff = do
    total ← make_gate add sum diff
    product ← make_gate mul factor total
    bind_output_constant product (codes "0")

  -- X1 - X2 and X2 - X1.
  unfoldable pub add_differences : Primitive → Primitive → M (GatePosition × GatePosition)
  unfolding get_gate make_sub_gate
  add_differences x1 x2 = do
    a ← get_gate x1 0
    b ← get_gate x2 0
    x1_sub_x2 ← make_sub_gate a b
    c ← get_gate x2 0
    d ← get_gate x1 0
    x2_sub_x1 ← make_sub_gate c d
    pure (x1_sub_x2, x2_sub_x1)

  -- The constraints of a comparison, given the gate of the offset difference; `ms` holds the gates
  -- of Mlt, Meq and Mgt.
  unfoldable pub add_comparison :
      GatePosition
      → GatePosition
      → GatePosition
      → GatePosition
      → Primitive
      → Primitive
      → Primitive
      → M (Unit {0})
  unfolding add_differences add_product_constraint make_gate bind_output_constant bind_variable
  add_comparison glt geq ggt sum x1 x2 y = do
    (x1_sub_x2, x2_sub_x1) ← add_differences x1 x2
    add_product_constraint glt sum x2_sub_x1
    add_product_constraint ggt sum x1_sub_x2
    eq_check ← make_gate mul geq x1_sub_x2
    bind_output_constant eq_check (codes "0")
    bind_variable y glt

  abbrev count_cmp : M (Unit {0})
  count_cmp =
      modify λ s. record s { op_count = record s.op_count { num_cmps = s.op_count.num_cmps + 1 } }

  abbrev flags_done :
      List GatePosition → (GatePosition → GatePosition → GatePosition → M (Unit {0})) → M (Unit {0})
  flags_done (a ∷ b ∷ c ∷ []) k = k a b c
  flags_done _ k = λ s. fault

  unfoldable pub parse_less_than_int : M (Unit {0})
  unfolding expect parse_valid read_int add_bit_variables add_number get_gate add_flags reduce
      add_comparison add_magic_op get_op_guard
  parse_less_than_int = do
    s ← get_state
    let guard = get_op_guard s
    expect (codes "N_0")
    n0 ← parse_valid nums
    expect (codes "N")
    n ← read_int
    expect (codes "Mlt")
    mlt ← parse_valid nums
    expect (codes "Meq")
    meq ← parse_valid nums
    expect (codes "Mgt")
    mgt ← parse_valid nums
    expect (codes "X1")
    x1 ← parse_valid nums
    expect (codes "X2")
    x2 ← parse_valid nums
    expect (codes "Y")
    y ← parse_valid nums
    (nis, num) ← add_bit_variables n0.idx (pos_part n - 1) (pos 1)
    c ← add_number nums (mpz_neg num)
    offset ← get_gate c 0
    ms ← add_flags mlt meq mgt
    sum ← reduce add (nis ++ offset ∷ [])
    flags_done ms λ glt geq ggt. (do
      add_comparison glt geq ggt sum x1 x2 y
      a ← get_gate x1 0
      b ← get_gate x2 0
      add_magic_op (less_than_int ms nis a b) guard
      count_cmp)

  -- D0, D1, … are bits; the gates of the variables and those of Di / 2^i.
  unfoldable pub add_denominators :
      Gmp → ℤ → ℤ → ℕ → ℕ → ℤ → M (List GatePosition × List GatePosition)
  unfolding add_variable make_magic make_zero_or_other_gate add_number get_gate make_gate modmult
  add_denominators g prime inv name zero power = pure ([], [])
  add_denominators g prime inv name (suc n) power = do
    di ← add_variable magic name
    make_magic di
    _ ← make_zero_or_other_gate nums di (pos 1)
    c ← add_number nums power
    const_gate ← get_gate c 0
    di_gate ← get_gate di 0
    product ← make_gate mul const_gate di_gate
    (bits, dis) ← add_denominators g prime inv (suc name) n (modmult g power inv prime)
    pure (di_gate ∷ bits, product ∷ dis)

  unfoldable pub parse_less_than_float : Gmp → ℤ → M (Unit {0})
  unfolding expect parse_valid read_int add_bit_variables add_number get_gate reduce bind_variable
      add_denominators bind_output_constant make_gate add_flags add_comparison add_magic_op
      get_op_guard
  parse_less_than_float g prime = do
    s ← get_state
    let guard = get_op_guard s
    expect (codes "N_0")
    n0 ← parse_valid nums
    expect (codes "Na")
    na ← read_int
    expect (codes "N")
    n ← parse_valid nums
    expect (codes "D_0")
    d0 ← parse_valid nums
    expect (codes "Nb")
    nb ← read_int
    expect (codes "D")
    d ← parse_valid nums
    expect (codes "ND")
    nd ← parse_valid nums
    expect (codes "Mlt")
    mlt ← parse_valid nums
    expect (codes "Meq")
    meq ← parse_valid nums
    expect (codes "Mgt")
    mgt ← parse_valid nums
    expect (codes "X1")
    x1 ← parse_valid nums
    expect (codes "X2")
    x2 ← parse_valid nums
    expect (codes "Y")
    y ← parse_valid nums
    (nis, num) ← add_bit_variables n0.idx (pos_part na) (pos 1)
    c ← add_number nums (mpz_neg num)
    offset ← get_gate c 0
    n_gate ← reduce add (nis ++ offset ∷ [])
    bind_variable n n_gate
    (bits, dis) ←
        add_denominators g prime (mpz_invert (pos 2) prime) d0.idx (suc (pos_part nb)) (pos 1)
    unique ← reduce add bits
    bind_output_constant unique (codes "1")
    d_gate ← reduce add dis
    bind_variable d d_gate
    nd_gate ← make_gate mul n_gate d_gate
    bind_variable nd nd_gate
    ms ← add_flags mlt meq mgt
    flags_done ms λ glt geq ggt. (do
      add_comparison glt geq ggt nd_gate x1 x2 y
      a ← get_gate x1 0
      b ← get_gate x2 0
      add_magic_op (less_than_float ms nis bits a b) guard
      count_cmp)
