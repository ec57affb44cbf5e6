-- ===== src/Pws/Parse.antt =====
-- code/pepper/cmtgkr/circuit/pws_circuit_parser.cpp: the reading of a worksheet. Where the source
-- leaves the order of two calls in one argument list to the compiler, they run from left to right.
-- A count that is no decimal number is a fault here; the stream would be stuck on it.
pub mod Constraint
pub mod Comparison
pub mod Statement
use ginger_zaatar_allspice.Prelude.{
  ℕ, zero, suc, ◌+◌, ◌-◌, ◌*◌, Bool, true, false, ◌&&◌, ◌||◌, List, [], ◌∷◌, ◌++◌, Option, none,
  some, leb, ◌==◌, if◌then◌else◌, length,
}
use ginger_zaatar_allspice.Prelude.Int.{ℤ, pos, negsuc}
use ginger_zaatar_allspice.Pws.Primitives.{
  Text, codes, eq_text, is_empty, Primitive, is_variable, GatePosition, add, mul, VarType, input,
  output, magic, temp, PwsOpCount,
}
use ginger_zaatar_allspice.Pws.Tokenizer.{Tokenizer, has_next, next, rewind}
use ginger_zaatar_allspice.Pws.State.{
  Parser, M, Outcome, done, returned, fault, ◌>>=◌, ◌>>◌, pure, early_return, get_state, modify,
}
use ginger_zaatar_allspice.Pws.Builder.{
  add_variable, add_constant, to_primitive, get_gate, make_gate, negate_gate, bind_variable,
  bind_output_constant,
}
use ginger_zaatar_allspice.Pws.Reducer.{reduce}

-- What the parser takes from GMP: the test that mpq_set_str accepts a text, mpz_set_str, the text
-- of a number by gmp_asprintf, and three functions on numbers.
pub record Numbers : Type 0 where
  pub mpq_set_str : Text → Bool
  pub mpz_set_str : Text → Option ℤ
  pub show : ℤ → Text
  pub mpz_neg : ℤ → ℤ
  pub mpz_mul_2exp : ℤ → ℕ → ℤ
  pub mpz_invert : ℤ → ℤ → ℤ

-- atoi on the digits of a text.
abbrev pub is_digit : ℕ → Bool
is_digit c = leb b'0' c && leb c b'9'

unfoldable pub digits_loop : ℕ → Text → ℕ
digits_loop acc [] = acc
digits_loop acc (c ∷ t) = if is_digit c then digits_loop (acc * 10 + (c - b'0')) t else acc

abbrev pub negate_ℕ : ℕ → ℤ
negate_ℕ zero = pos 0
negate_ℕ (suc n) = negsuc n

unfoldable pub atoi : Text → ℤ
unfolding digits_loop
atoi [] = pos 0
atoi (c ∷ t) = if c == b'-' then negate_ℕ (digits_loop 0 t) else pos (digits_loop 0 (c ∷ t))

-- `pws >> token`, into the parser's token.
unfoldable pub read_token : M Text
unfolding next
read_token s = let (t, pws) = next s.token s.pws in done t (record s { token = t; pws = pws })

unfoldable pub rewind_token : M (Unit {0})
unfolding rewind
rewind_token = modify λ s. record s { pws = rewind s.pws }

-- `assert`, with its ASSERT_RETURN: the word goes to a local variable.
unfoldable pub expect : Text → M (Unit {0})
unfolding next eq_text
expect expected s =
    let (t, pws) = next [] s.pws in
    if eq_text t expected
    then done tt (record s { pws = pws })
    else returned (record s { pws = pws })

unfoldable pub read_int : M ℤ
unfolding next atoi
read_int s =
    let (t, pws) = next [] s.pws in
    elim t [
      | [] ↦ fault
      | c ∷ w ↦ if is_digit c then done (atoi (c ∷ w)) (record s { pws = pws }) else fault
    ]

unfoldable pub var_type_of : ℕ → Option VarType
var_type_of c =
    if c == b'I'
    then some input
    else if c == b'O'
    then some output
    else if c == b'V'
    then some temp
    else if c == b'M'
    then some magic
    else none

-- parseVar: a variable's name is the number after its letter.
unfoldable pub parse_var : Text → M (Option Primitive)
unfolding var_type_of atoi add_variable to_primitive
parse_var [] = pure none
parse_var (c ∷ t) = elim (var_type_of c) [
  | none ↦ pure none
  | some vt ↦ if is_empty t then pure none else elim (atoi t) [
    | negsuc n ↦ pure none
    | pos name ↦ (do r ← add_variable vt name; p ← to_primitive r; pure (some p))
  ]
]

abbrev pub starts_number : Text → Bool
starts_number [] = false
starts_number (c ∷ t) = is_digit c || c == b'-'

module _ (nums : Numbers) where
  unfoldable pub parse_const : Text → M (Option Primitive)
  unfolding add_constant
  parse_const t = if nums.mpq_set_str t then (do p ← add_constant t; pure (some p)) else pure none

  unfoldable pub parse_primitive : M (Option Primitive)
  unfolding read_token parse_const parse_var
  parse_primitive = do t ← read_token; if starts_number t then parse_const t else parse_var t

  -- A primitive whose absence ends the statement.
  unfoldable pub parse_valid : M Primitive
  unfolding parse_primitive
  parse_valid = do o ← parse_primitive; elim o [ none ↦ early_return | some p ↦ pure p ]

  unfoldable pub count_adds : ℕ → M (Unit {0})
  count_adds n =
      modify λ s. record s { op_count = record s.op_count { num_adds = s.op_count.num_adds + n } }

  unfoldable pub count_mults : ℕ → M (Unit {0})
  count_mults n =
      modify λ s. record s { op_count = record s.op_count { num_mults = s.op_count.num_mults + n } }

  -- The ends of parsePoly and parsePolyTerm, after their loops.
  unfoldable pub finish_poly : List GatePosition → M (Option GatePosition)
  unfolding count_adds reduce
  finish_poly [] = pure none
  finish_poly (p ∷ []) = pure (some p)
  finish_poly (p ∷ q ∷ ps) = do
    count_adds (suc (length ps))
    g ← reduce add (p ∷ q ∷ ps)
    pure (some g)

  unfoldable pub finish_term : List GatePosition → M (Option GatePosition)
  unfolding count_mults reduce
  finish_term [] = pure none
  finish_term (p ∷ []) = pure (some p)
  finish_term (p ∷ q ∷ ps) = do
    count_mults (suc (length ps))
    g ← reduce mul (p ∷ q ∷ ps)
    pure (some g)

  -- `vars.push_back(g)`, negated if a minus sign stands before it.
  unfoldable pub push_factor : Bool → List GatePosition → GatePosition → M (List GatePosition)
  unfolding negate_gate
  push_factor true vars g = do n ← negate_gate g; pure (vars ++ n ∷ [])
  push_factor false vars g = pure (vars ++ g ∷ [])

  -- After a `*` a minus sign that is pending negates the factor before it.
  unfoldable pub negate_last : Bool → List GatePosition → M (List GatePosition)
  unfolding negate_gate
  negate_last negate [] = pure []
  negate_last negate (p ∷ q ∷ ps) = do rest ← negate_last negate (q ∷ ps); pure (p ∷ rest)
  negate_last true (p ∷ []) = do n ← negate_gate p; pure (n ∷ [])
  negate_last false (p ∷ []) = pure (p ∷ [])

  -- parsePoly and parsePolyTerm, with their loops' variables; the fuel bounds the rounds of both
  -- loops and the nesting. Fuel that runs out is a fault.
  unfoldable mutual
    unfolding read_token rewind_token parse_primitive push_factor negate_last finish_poly
        finish_term get_gate

    pub parse_poly : ℕ → Text → List GatePosition → M (Option GatePosition)
    parse_poly zero end terms = λ s. fault
    parse_poly (suc f) end terms = do
      s ← get_state
      if has_next s.pws
          then (do
            t ← read_token
            if eq_text t (codes "+")
                then (if is_empty terms then pure none else parse_poly f end terms)
                else if eq_text t end
                then finish_poly terms
                else (do
                  rewind_token
                  o ← parse_poly_term f [] false
                  parse_poly f end (elim o [ none ↦ terms | some g ↦ terms ++ g ∷ [] ])))
          else finish_poly terms

    pub parse_poly_term : ℕ → List GatePosition → Bool → M (Option GatePosition)
    parse_poly_term zero vars negate = λ s. fault
    parse_poly_term (suc f) vars negate = do
      s ← get_state
      if has_next s.pws
          then (do
            t ← read_token
            if eq_text t (codes "(")
                then (do
                  o ← parse_poly f (codes ")") []
                  elim o [
                    | none ↦ pure none
                    | some g ↦ (do vars' ← push_factor negate vars g; parse_poly_term f vars' false)
                  ])
                else if eq_text t (codes "E") || eq_text t (codes ")")
                then (do rewind_token; finish_term vars)
                else if eq_text t (codes "*")
                then (if is_empty vars
                    then pure none
                    else (do vars' ← negate_last negate vars; parse_poly_term f vars' false))
                else if eq_text t (codes "+")
                then (if is_empty vars then pure none else (do rewind_token; finish_term vars))
                else if eq_text t (codes "-")
                then parse_poly_term f vars true
                else (do
                  rewind_token
                  o ← parse_primitive
                  elim o [
                    | none ↦ pure none
                    | some p ↦ (do
                      g ← get_gate p 0
                      vars' ← push_factor negate vars g
                      parse_poly_term f vars' false)
                  ]))
          else finish_term vars
