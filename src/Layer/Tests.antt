-- ===== src/Layer/Tests.antt =====
-- A layer of two gates over three, and the witnesses of the theorems about
-- code/pepper/cmtgkr/circuit/circuit_layer.cpp.
use ginger_zaatar_allspice.Prelude.{ℕ, ◌+◌, ◌*◌, ◌%◌, ◌≡◌, refl, List, [], ◌∷◌, ◌++◌, none, arith}
use ginger_zaatar_allspice.Prelude.Int.{ℤ, pos, negsuc, ◌%ℤ◌}
use ginger_zaatar_allspice.Gmp.Reference.{reference}
use ginger_zaatar_allspice.Field.Mle.{log2i}
use ginger_zaatar_allspice.Field.Mle.Boolean.{corner}
use ginger_zaatar_allspice.Pws.Primitives.{mul, constant_op, make_description}
use ginger_zaatar_allspice.Pws.State.{LayerDescription}
use ginger_zaatar_allspice.Pws.Circuit.{
  add_gate_type, mul_gate_type, div_int_gate_type, GateWiring, value,
}
use ginger_zaatar_allspice.Layer.{
  should_be_treated_as, apply_gate_operation, compute_wire_predicates,
}
use ginger_zaatar_allspice.Layer.Gates.{apply_gate_operation_lem, value-residue}
use ginger_zaatar_allspice.Layer.Wires.{compute_wire_predicates-corner}

abbrev size : ℤ → ℕ
size a = 7

abbrev gates : List GateWiring
gates =
    record { type = add_gate_type; in1 = 0; in2 = 2 }
    ∷ record { type = div_int_gate_type; in1 = 1; in2 = 2 }
    ∷ []

abbrev circuit : List LayerDescription
circuit =
    (make_description constant_op 0 0 0 0 ∷ make_description constant_op 0 1 0 0 ∷ [])
    ∷ (make_description mul 1 0 0 1 ∷ [])
    ∷ []

abbrev rho : ℕ → ℤ
rho i = pos (i + 50)

apply_gate_operation_lem_example :
    apply_gate_operation reference size div_int_gate_type (negsuc 4) (pos 30) (pos 97) %ℤ 97
    ≡ (negsuc 4 %ℤ 97) * 30 % 97
unfolding ◌%ℤ◌
apply_gate_operation_lem_example =
    apply_gate_operation_lem reference size 96 div_int_gate_type (negsuc 4) (pos 30)

value-residue_example :
    value
        (λ a b. apply_gate_operation reference size add_gate_type a b (pos 97))
        (λ a b. apply_gate_operation reference size mul_gate_type a b (pos 97))
        rho
        (pos 0)
        circuit
        1
        0
      %ℤ 97
    ≡ value (λ x y. (x + y) % 97) (λ x y. x * y % 97) (λ k. rho k %ℤ 97) 0 circuit 1 0
value-residue_example = value-residue reference size 96 circuit rho 1 0

compute_wire_predicates-corner_example :
    compute_wire_predicates reference none none gates
      (corner (log2i 2) 1 ++ (corner (log2i 3) 1 ++ corner (log2i 3) 2))
      3
      (pos 97)
    ≡ (pos 0, pos 1)
unfolding should_be_treated_as
compute_wire_predicates-corner_example =
    compute_wire_predicates-corner reference 96 gates 3 1 1 2
      (record { type = div_int_gate_type; in1 = 1; in2 = 2 }) (omega arith) refl
      (omega arith, omega arith, (omega arith, omega arith, tt)) (omega arith) (omega arith)
