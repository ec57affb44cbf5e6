-- ===== src/Pws/Builder.antt =====
-- code/pepper/cmtgkr/circuit/pws_circuit_parser.cpp: the operations that add gates to the circuit,
-- bind primitives to them, and carry values up the layers.
use ginger_zaatar_allspice.Prelude.{
  ℕ, zero, suc, ◌+◌, ◌-◌, max, List, [], ◌∷◌, ◌++◌, map, none, some, ltb, ◌==◌, if◌then◌else◌,
  length, get_elem?, set,
}
use ginger_zaatar_allspice.Pws.Primitives.{
  Text, codes, eq_text, constant, intermediate, input_output, Primitive, is_input_output,
  GatePosition, OpType, add, mul, constant_op, GateDescription, make_description, bind_gate, unbind,
  CPrimitive, unbound, is_bound, bind_primitive, VarType, CVar, magic, var_to_primitive,
  const_to_primitive,
}
use ginger_zaatar_allspice.Pws.State.{
  MagicVarOperation, LayerDescription, Parser, find, insert, find_text, M, done, fault, ◌>>=◌, ◌>>◌,
  pure, modify, read_primitive, write_primitive,
}

-- getLayer: the circuit grows to hold the layer.
unfoldable pub grow : ℕ → List LayerDescription → List LayerDescription
grow zero [] = [] ∷ []
grow zero (l ∷ ls) = l ∷ ls
grow (suc n) [] = [] ∷ grow n []
grow (suc n) (l ∷ ls) = l ∷ grow n ls

-- The gate that addGate appends to a layer, and its place.
unfoldable pub append_gate :
    OpType → ℕ → ℕ → ℕ → List LayerDescription → List LayerDescription × GatePosition
unfolding grow
append_gate op in1 in2 out_layer_num desc =
    let grown = grow out_layer_num desc in
    elim (get_elem? grown out_layer_num) [
      | none ↦ (grown, record { layer = out_layer_num; name = 0 })
      | some layer ↦ (
        set grown out_layer_num
            (layer ++ make_description op out_layer_num (length layer) in1 in2 ∷ []),
        record { layer = out_layer_num; name = length layer },
      )
    ]

unfoldable pub add_gate : OpType → ℕ → ℕ → ℕ → M GatePosition
unfolding append_gate
add_gate op in1 in2 out_layer_num s =
    let (desc, p) = append_gate op in1 in2 out_layer_num s.circuit_desc in
    done p (record s { circuit_desc = desc })

-- getGate(pos): the layer grows, an index past its gates is a fault.
unfoldable pub get_description : GatePosition → M GateDescription
unfolding grow
get_description p s =
    let grown = grow p.layer s.circuit_desc in
    elim (get_elem? grown p.layer) [
      | none ↦ fault
      | some layer ↦ elim (get_elem? layer p.name) [
        | none ↦ fault
        | some d ↦ done d (record s { circuit_desc = grown })
      ]
    ]

abbrev pub put_description : GatePosition → GateDescription → Parser → Parser
put_description p d s = elim (get_elem? s.circuit_desc p.layer) [
  | none ↦ s
  | some layer ↦ record s { circuit_desc = set s.circuit_desc p.layer (set layer p.name d) }
]

unfoldable pub get_circuit_primitive : Primitive → M CPrimitive
unfolding read_primitive
get_circuit_primitive p s = elim (read_primitive p s) [ none ↦ fault | some q ↦ done q s ]

-- CPrimitive::toPrimitive of the object that a reference leads to.
unfoldable pub to_primitive : Primitive → M Primitive
unfolding find var_to_primitive const_to_primitive
to_primitive p s = elim p.p_type [
  | constant ↦ elim (get_elem? s.constants p.idx) [
    | none ↦ fault
    | some c ↦ done (const_to_primitive c) s
  ]
  | intermediate ↦ elim (find p.idx s.var_map) [
    | none ↦ fault
    | some v ↦ done (var_to_primitive v) s
  ]
  | input_output ↦ elim (find p.idx s.in_out_vars_map) [
    | none ↦ fault
    | some v ↦ done (var_to_primitive v) s
  ]
]

-- The loop of bindVariable over the old gates. It reads each at the primitive's first layer.
unfoldable pub unbind_gates : ℕ → List ℕ → M (Unit {0})
unfolding get_description unbind
unbind_gates layer [] = pure tt
unbind_gates layer (i ∷ is) = do
  let p : GatePosition = record { layer = layer; name = i }
  d ← get_description p
  modify (put_description p (unbind d))
  unbind_gates layer is

unfoldable pub bind_variable : Primitive → GatePosition → M (Unit {0})
unfolding get_circuit_primitive unbind_gates is_bound write_primitive bind_primitive bind_gate
    get_description
bind_variable var gate = do
  v ← get_circuit_primitive var
  if is_bound v then unbind_gates v.min_layer v.gate_index else pure tt
  modify (write_primitive var (bind_primitive gate))
  d ← get_description gate
  modify (put_description gate (bind_gate d var))

unfoldable pub add_to_circuit : Primitive → M (Unit {0})
unfolding get_circuit_primitive is_bound to_primitive add_gate bind_variable
add_to_circuit p = do
  v ← get_circuit_primitive p
  if is_bound v
      then pure tt
      else (do q ← to_primitive p; gate ← add_gate constant_op 0 0 0; bind_variable q gate)

-- addVariable: the variable is made on its first mention only.
unfoldable pub add_variable : VarType → ℕ → M Primitive
unfolding find insert var_to_primitive is_input_output
add_variable t name s =
    let v : CVar = record { var_type = t; name = name; prim = unbound } in
    let p = var_to_primitive v in
    if is_input_output p
    then done p (elim (find name s.in_out_vars_map) [
      | none ↦ record s { in_out_vars_map = insert name v s.in_out_vars_map }
      | some w ↦ s
    ])
    else done p (elim (find name s.var_map) [
      | none ↦ record s { var_map = insert name v s.var_map }
      | some w ↦ s
    ])

unfoldable pub add_constant : Text → M Primitive
unfolding find_text eq_text
add_constant t s = elim (find_text t s.const_map) [
  | some i ↦ done (record { p_type = constant; idx = i }) s
  | none ↦
      let i = length s.constants in
      done (record { p_type = constant; idx = i })
        (record s {
          constants = s.constants ++ record { value = t; name = i; prim = unbound } ∷ [];
          const_map = s.const_map ++ (t, i) ∷ [];
        })
]

-- Where a primitive that reaches `layer` stands there; an index out of range is a fault.
abbrev pub gate_at : CPrimitive → ℕ → M GatePosition
gate_at v layer s =
    if ltb layer v.min_layer then fault else elim (get_elem? v.gate_index (layer - v.min_layer)) [
      | none ↦ fault
      | some i ↦ done (record { layer = layer; name = i }) s
    ]

-- getGate(CPrimitive&, layer), for a given promotePrimitive.
unfoldable pub get_gate_by : (Primitive → ℕ → M GatePosition) → Primitive → ℕ → M GatePosition
unfolding add_to_circuit get_circuit_primitive
get_gate_by promote p layer = do
  add_to_circuit p
  v ← get_circuit_primitive p
  promote p (if layer == 0 then v.min_layer else layer)

-- One round of promotePrimitive: makeGate(ADD, p, zero, p.maxLayer), bound to `p`.
unfoldable pub promote_round : (Primitive → ℕ → M GatePosition) → Primitive → ℕ → M (Unit {0})
unfolding add_constant get_gate_by add_gate get_description bind_gate to_primitive
    get_circuit_primitive write_primitive
promote_round promote p max_layer = do
  zero_const ← add_constant (codes "0")
  g1 ← get_gate_by promote p max_layer
  g2 ← get_gate_by promote zero_const max_layer
  g ← add_gate add g1.name g2.name (max_layer + 1)
  d ← get_description g
  q ← to_primitive p
  modify (put_description g (bind_gate d q))
  w ← get_circuit_primitive p
  modify (
      write_primitive p
        (record w { gate_index = w.gate_index ++ g.name ∷ []; max_layer = w.max_layer + 1 }))

-- promotePrimitive, with fuel for the rounds of its loop and for the calls inside them.
unfoldable pub promote_fuel : ℕ → Primitive → ℕ → M GatePosition
unfolding get_circuit_primitive promote_round
promote_fuel zero p layer = λ s. fault
promote_fuel (suc f) p layer = do
  v ← get_circuit_primitive p
  if ltb v.max_layer layer
      then (do promote_round (promote_fuel f) p v.max_layer; promote_fuel f p layer)
      else gate_at v layer

unfoldable pub promote_primitive : Primitive → ℕ → M GatePosition
unfolding promote_fuel
promote_primitive p layer = promote_fuel (layer + 4) p layer

unfoldable pub get_gate : Primitive → ℕ → M GatePosition
unfolding get_gate_by promote_primitive
get_gate p layer = do
  add_to_circuit p
  v ← get_circuit_primitive p
  promote_primitive p (if layer == 0 then v.min_layer else layer)

-- The loop of promoteGate on a gate that no primitive is bound to, `rounds` layers up.
unfoldable pub promote_loop : ℕ → GatePosition → M GatePosition
unfolding add_constant get_gate add_gate
promote_loop zero p = pure p
promote_loop (suc rounds) p = do
  zero_const ← add_constant (codes "0")
  zero_gate ← get_gate zero_const p.layer
  q ← add_gate add p.name zero_gate.name (p.layer + 1)
  promote_loop rounds q

unfoldable pub promote_gate : GatePosition → ℕ → M GatePosition
unfolding get_description promote_primitive promote_loop
promote_gate p layer = do
  d ← get_description p
  if d.bound_primitive.valid
      then promote_primitive d.bound_primitive.value layer
      else promote_loop (layer - p.layer) p

unfoldable pub make_gate : OpType → GatePosition → GatePosition → M GatePosition
unfolding promote_gate add_gate
make_gate op in1 in2 =
    if in1.layer == in2.layer then add_gate op in1.name in2.name (in1.layer + 1) else (do
      let layer = max in1.layer in2.layer
      gate1 ← promote_gate in1 layer
      gate2 ← promote_gate in2 layer
      add_gate op gate1.name gate2.name (layer + 1))

unfoldable pub negate_gate : GatePosition → M GatePosition
unfolding add_constant get_gate add_gate
negate_gate p = do
  neg1 ← add_constant (codes "-1")
  neg1_gate ← get_gate neg1 p.layer
  add_gate mul p.name neg1_gate.name (p.layer + 1)

unfoldable pub make_sub_gate : GatePosition → GatePosition → M GatePosition
unfolding negate_gate make_gate
make_sub_gate in1 in2 = do n ← negate_gate in2; make_gate add in1 n

unfoldable pub bind_output_constant : GatePosition → Text → M (Unit {0})
bind_output_constant p t =
    modify λ s. record s { out_constant_desc = s.out_constant_desc ++ (p, t) ∷ [] }

-- makeMagic on a variable.
abbrev set_magic : ℕ → List (ℕ × CVar) → List (ℕ × CVar)
set_magic k [] = []
set_magic k ((j, v) ∷ m) =
    if j == k then (j, record v { var_type = magic }) ∷ m else (j, v) ∷ set_magic k m

unfoldable pub make_magic : Primitive → M (Unit {0})
make_magic p s = elim p.p_type [
  | constant ↦ done tt s
  | intermediate ↦ done tt (record s { var_map = set_magic p.idx s.var_map })
  | input_output ↦ done tt (record s { in_out_vars_map = set_magic p.idx s.in_out_vars_map })
]

unfoldable pub add_magic_op : MagicVarOperation → List ℕ → M (Unit {0})
add_magic_op op guard = modify λ s. record s { magic_ops = s.magic_ops ++ (guard, op) ∷ [] }

unfoldable pub get_op_guard : Parser → List ℕ
get_op_guard s = map length s.circuit_desc
