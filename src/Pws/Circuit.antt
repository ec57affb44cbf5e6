-- ===== src/Pws/Circuit.antt =====
-- The circuit that code/pepper/cmtgkr/circuit/pws_circuit_parser.cpp builds, as a value: which
-- gates its wires reach, and what its gates compute. GateDescription::makeGate
-- (code/pepper/cmtgkr/circuit/pws_primitives.h) turns each gate of the description into a wiring.
pub mod Append
pub mod Reduce
pub mod Rounds
mod Tests
use ginger_zaatar_allspice.Prelude.{
  ℕ, zero, suc, ◌<◌, ◌≡◌, List, [], ◌∷◌, Option, none, some, length, get_elem?, get_or,
}
use ginger_zaatar_allspice.Pws.Primitives.{OpType, add, mul, div_int, constant_op, GateDescription}
use ginger_zaatar_allspice.Pws.State.{LayerDescription}

-- GateWiring::GateType.
pub data GateType : Type 0 where
  add_gate_type mul_gate_type div_int_gate_type : GateType

pub record GateWiring : Type 0 where
  pub type : GateType
  pub in1 : ℕ
  pub in2 : ℕ

unfoldable pub gate_type_of : OpType → GateType
gate_type_of add = add_gate_type
gate_type_of mul = mul_gate_type
gate_type_of div_int = div_int_gate_type
gate_type_of constant_op = add_gate_type

-- An input gate of the description gets the wiring of an addition, which is not evaluated.
unfoldable pub make_wiring : GateDescription → GateWiring
make_wiring d = record { type = gate_type_of d.op; in1 = d.in1; in2 = d.in2 }

abbrev pub layer_of : List LayerDescription → ℕ → LayerDescription
layer_of desc l = get_or desc l []

-- Every wire above the input layer leads to a gate of the layer below.
pub record IsWired (desc : List LayerDescription) : Type 0 where
  pub wires :
      (l i : ℕ) (d : GateDescription)
      → get_elem? (layer_of desc (suc l)) i ≡ some d
      → (d.in1 < length (layer_of desc l)) × (d.in2 < length (layer_of desc l))

-- The value of gate `i` of layer `l`, for sums and products of any kind; `rho` gives the input
-- layer its values, `junk` is the value of a gate that is not there.
module _ {ℓ} {V : Type ℓ} (plus times : V → V → V) (rho : ℕ → V) (junk : V) where
  abbrev pub gate_op : GateType → V → V → V
  gate_op add_gate_type = plus
  gate_op mul_gate_type = times
  gate_op div_int_gate_type = times

  unfoldable pub value : List LayerDescription → ℕ → ℕ → V
  unfolding make_wiring
  value desc zero i = rho i
  value desc (suc l) i = elim (get_elem? (layer_of desc (suc l)) i) [
    | none ↦ junk
    | some d ↦
        gate_op (make_wiring d).type (value desc l (make_wiring d).in1)
          (value desc l (make_wiring d).in2)
  ]
