-- ===== src/Pws/Output.antt =====
-- code/pepper/cmtgkr/circuit/pws_circuit_parser.cpp: the loop over a worksheet's statements, and
-- what is done after it. The output layer is the highest that an output constant or a bound output
-- variable stands in; all of them are carried there, and the indexes of the circuit are made.
pub mod Clear
use ginger_zaatar_allspice.Prelude.{
  ℕ, zero, suc, ◌-◌, ◌^◌, max, min, Bool, false, ◌&&◌, List, [], ◌∷◌, ◌++◌, map, ◌==◌,
  if◌then◌else◌,
}
use ginger_zaatar_allspice.Prelude.Int.{ℤ}
use ginger_zaatar_allspice.Gmp.{Gmp}
use ginger_zaatar_allspice.Pws.Primitives.{
  Text, codes, eq_text, GatePosition, unbind, is_bound, CConst, CVar, is_output, is_input, is_magic,
  input_output, no_ops,
}
use ginger_zaatar_allspice.Pws.Tokenizer.{Piece, has_next, ignore_line}
use ginger_zaatar_allspice.Pws.State.{
  Parser, insert, M, fault, ◌>>=◌, ◌>>◌, pure, get_state, modify, call,
}
use ginger_zaatar_allspice.Pws.Builder.{promote_gate, promote_primitive}
use ginger_zaatar_allspice.Pws.Parse.{Numbers, read_token}
use ginger_zaatar_allspice.Pws.Parse.Statement.{parse_not_equal, parse_divide}
use ginger_zaatar_allspice.Pws.Parse.Comparison.{parse_less_than_int, parse_less_than_float}
use ginger_zaatar_allspice.Pws.Parse.Constraint.{parse_poly_constraint}

abbrev is_bound_output : CVar → Bool
is_bound_output v = is_output v && is_bound v.prim

unfoldable pub constants_layer : ℕ → List (GatePosition × Text) → ℕ
constants_layer m [] = m
constants_layer m ((p, t) ∷ ds) = constants_layer (max p.layer m) ds

-- The first output's name and the output layer, over the variables that are left.
unfoldable pub outputs_layer : ℕ → ℕ → List (ℕ × CVar) → ℕ × ℕ
unfolding is_output is_bound
outputs_layer begin layer [] = (begin, layer)
outputs_layer begin layer ((k, v) ∷ vs) =
    if is_bound_output v
    then outputs_layer (min begin v.name) (max v.prim.min_layer layer) vs
    else outputs_layer begin layer vs

-- outConstants[text].push_back(name). The map's order plays no part.
unfoldable pub push_out_constant : Text → ℕ → List (Text × List ℕ) → List (Text × List ℕ)
unfolding eq_text
push_out_constant t i [] = (t, i ∷ []) ∷ []
push_out_constant t i ((u, is) ∷ m) =
    if eq_text u t then (u, is ++ i ∷ []) ∷ m else (u, is) ∷ push_out_constant t i m

unfoldable pub promote_out_constants : ℕ → List (GatePosition × Text) → M (Unit {0})
unfolding promote_gate push_out_constant
promote_out_constants layer [] = pure tt
promote_out_constants layer ((p, t) ∷ ds) = do
  q ← promote_gate p layer
  modify (λ s. record s { out_constants = push_out_constant t q.name s.out_constants })
  promote_out_constants layer ds

unfoldable pub promote_outputs : ℕ → List (ℕ × CVar) → M (Unit {0})
unfolding promote_primitive is_output is_bound
promote_outputs layer [] = pure tt
promote_outputs layer ((k, v) ∷ vs) =
    if is_bound_output v
    then (do
      _ ← promote_primitive (record { p_type = input_output; idx = k }) layer
      promote_outputs layer vs)
    else promote_outputs layer vs

unfoldable pub make_output_layer : M (Unit {0})
unfolding constants_layer outputs_layer promote_out_constants promote_outputs
make_output_layer = do
  s ← get_state
  let (begin, layer) =
      outputs_layer (2 ^ 31 - 1) (constants_layer 0 s.out_constant_desc) s.in_out_vars_map
  modify (λ s'. record s' { output_gate_begin = begin })
  promote_out_constants layer s.out_constant_desc
  s'' ← get_state
  promote_outputs layer s''.in_out_vars_map

abbrev first_gate : List ℕ → ℕ
first_gate [] = 0
first_gate (i ∷ is) = i

abbrev last_gate : List ℕ → ℕ
last_gate [] = 0
last_gate (i ∷ []) = i
last_gate (i ∷ j ∷ is) = last_gate (j ∷ is)

unfoldable pub index_io : List (ℕ × CVar) → Parser → Parser
unfolding is_output is_input is_bound insert
index_io [] s = s
index_io ((k, v) ∷ vs) s = index_io vs (
    if is_bound v.prim
    then if is_output v
      then record s { out_gates = insert v.name (last_gate v.prim.gate_index) s.out_gates }
      else if is_input v
      then record s { in_gates = insert v.name (first_gate v.prim.gate_index) s.in_gates }
      else s
    else s)

unfoldable pub magic_indexes : List (ℕ × CVar) → List ℕ
unfolding is_magic is_bound
magic_indexes [] = []
magic_indexes ((k, v) ∷ vs) =
    if is_bound v.prim && is_magic v
    then first_gate v.prim.gate_index ∷ magic_indexes vs
    else magic_indexes vs

unfoldable pub constant_indexes : List CConst → List (Text × ℕ)
unfolding is_bound
constant_indexes [] = []
constant_indexes (c ∷ cs) =
    if is_bound c.prim
    then (c.value, first_gate c.prim.gate_index) ∷ constant_indexes cs
    else constant_indexes cs

unfoldable pub construct_inverted_indexes : Parser → Parser
unfolding index_io magic_indexes constant_indexes
construct_inverted_indexes s =
    let s' = index_io s.in_out_vars_map s in
    record s' {
      magic_gates = s'.magic_gates ++ magic_indexes s'.var_map;
      in_constants = s'.in_constants ++ constant_indexes s'.constants;
    }

-- clearPrivate, clearIndexes and clear. The token and the stream stay.
unfoldable pub clear_private : Parser → Parser
unfolding unbind
clear_private s = record s {
  var_map = [];
  in_out_vars_map = [];
  out_constant_desc = [];
  constants = [];
  const_map = [];
  circuit_desc = map (map unbind) s.circuit_desc;
}

unfoldable pub clear_indexes : Parser → Parser
clear_indexes s = record s {
  out_constants = [];
  in_constants = [];
  in_gates = [];
  out_gates = [];
  magic_gates = [];
}

unfoldable pub clear : Parser → Parser
unfolding clear_private clear_indexes no_ops
clear s = record (clear_indexes (clear_private s)) {
  circuit_desc = [];
  magic_ops = [];
  op_count = no_ops;
}

-- The first two bytes of a token are slashes.
abbrev is_comment : Text → Bool
is_comment (a ∷ b ∷ t) = (a == b'/') && (b == b'/')
is_comment _ = false

module _ (nums : Numbers) (g : Gmp) (prime : ℤ) where
  -- One round of parse's loop. `fuel` is that of the polynomials.
  unfoldable pub parse_statement : ℕ → M (Unit {0})
  unfolding read_token parse_poly_constraint parse_less_than_int parse_less_than_float
      parse_not_equal parse_divide eq_text ignore_line
  parse_statement fuel = do
    t ← read_token
    if eq_text t (codes "P")
        then call (parse_poly_constraint nums fuel)
        else if eq_text t (codes "<I")
        then call (parse_less_than_int nums)
        else if eq_text t (codes "<F")
        then call (parse_less_than_float nums g prime)
        else if eq_text t (codes "!=")
        then call (parse_not_equal nums)
        else if eq_text t (codes "/")
        then call (parse_divide nums prime)
        else if is_comment t
        then modify (λ s. record s { pws = ignore_line s.pws })
        else pure tt

  -- `rounds` bounds the statements; fuel that runs out is a fault.
  unfoldable pub parse_loop : ℕ → ℕ → M (Unit {0})
  unfolding parse_statement has_next
  parse_loop zero fuel = λ s. fault
  parse_loop (suc rounds) fuel = do
    s ← get_state
    if has_next s.pws then (do parse_statement fuel; parse_loop rounds fuel) else pure tt

  unfoldable pub parse : ℕ → List Piece → M (Unit {0})
  unfolding clear parse_loop make_output_layer construct_inverted_indexes clear_private
  parse fuel file = do
    modify (λ s. record (clear s) { pws = record { rest = file; last_pos = file; eof = false } })
    parse_loop fuel fuel
    make_output_layer
    modify construct_inverted_indexes
    modify clear_private
