-- ===== src/Pws/Circuit/Tests.antt =====
-- A circuit of three inputs, and the witnesses of the theorems about the gates that are added.
use ginger_zaatar_allspice.Prelude.{
  ℕ, zero, suc, ◌+◌, ◌*◌, ◌<◌, ◌≡◌, refl, List, [], ◌∷◌, length, arith,
}
use native.Mathlib.Nat.{mul_assoc}
use ginger_zaatar_allspice.Pws.Primitives.{mul, constant_op, GatePosition, make_description}
use ginger_zaatar_allspice.Pws.State.{LayerDescription, Parser}
use ginger_zaatar_allspice.Pws.Builder.{append_gate}
use ginger_zaatar_allspice.Pws.Circuit.{IsWired, value, layer_of, gate_type_of}
use ginger_zaatar_allspice.Pws.Circuit.Append.{
  append_gate-IsWired, value-append_gate_old, value-append_gate,
}
use ginger_zaatar_allspice.Pws.Circuit.Reduce.{Passed, reduce_pairs-Passed}
use ginger_zaatar_allspice.Pws.Circuit.Rounds.{Reduced, reduce_loop-Reduced}
use ginger_zaatar_allspice.Pws.Evaluate.{eval_gates}
use ginger_zaatar_allspice.Pws.Evaluate.Order.{eval_gates-value}
use ginger_zaatar_allspice.Pws.Tests.{empty_parser}

abbrev inputs : List LayerDescription
inputs =
    (make_description constant_op 0 0 0 0
      ∷ make_description constant_op 0 1 0 0
      ∷ make_description constant_op 0 2 0 0
      ∷ [])
    ∷ []

inputs-IsWired : IsWired inputs
inputs-IsWired = record { wires = λ l i d h. absurd (grind arith) }

abbrev rho : ℕ → ℕ
rho i = i + 5

inputs_below :
    (m : ℕ) → 1 ≡ suc m → (0 < length (layer_of inputs m)) × (2 < length (layer_of inputs m))
inputs_below zero e = (omega arith, omega arith)
inputs_below (suc m) e = absurd (omega arith)

append_gate-IsWired_example : IsWired (append_gate mul 0 2 1 inputs).0
append_gate-IsWired_example = append_gate-IsWired mul 0 2 1 inputs inputs-IsWired inputs_below

value-append_gate_old_example :
    value ◌+◌ ◌*◌ rho 0 (append_gate mul 0 2 1 inputs).0 0 1 ≡ value ◌+◌ ◌*◌ rho 0 inputs 0 1
value-append_gate_old_example =
    value-append_gate_old ◌+◌ ◌*◌ rho 0 mul 0 2 1 inputs inputs-IsWired 0 1 (omega arith)

value-append_gate_example :
    value ◌+◌ ◌*◌ rho 0 (append_gate mul 0 2 1 inputs).0 1 (append_gate mul 0 2 1 inputs).1.name
    ≡ 35
unfolding gate_type_of value
value-append_gate_example =
    value-append_gate ◌+◌ ◌*◌ rho 0 mul 0 2 0 inputs inputs-IsWired (omega arith) (omega arith)

abbrev pair : List GatePosition
pair = record { layer = 0; name = 0 } ∷ record { layer = 0; name = 2 } ∷ []

abbrev start : Parser
start = record empty_parser { circuit_desc = inputs }

reduce_pairs-Passed_example : Passed ◌+◌ ◌*◌ rho 0 mul 0 pair start
unfolding gate_type_of
reduce_pairs-Passed_example =
    reduce_pairs-Passed ◌+◌ ◌*◌ rho 0 mul (λ a b c. mul_assoc a b c) 0 pair start inputs-IsWired
      (refl, omega arith, (refl, omega arith, tt)) tt

reduce_loop-Reduced_example : Reduced ◌+◌ ◌*◌ rho 0 mul 1 1 0 pair start
unfolding gate_type_of
reduce_loop-Reduced_example =
    reduce_loop-Reduced ◌+◌ ◌*◌ rho 0 mul (λ a b c. mul_assoc a b c) 1 1 0 pair start (omega arith)
      (omega arith) inputs-IsWired (refl, omega arith, (refl, omega arith, tt))

eval_gates-value_example :
    eval_gates ◌+◌ ◌*◌ rho 0 [] (append_gate mul 0 2 1 inputs).0 (λ l i. i + 5) 1 0
    ≡ value ◌+◌ ◌*◌ rho 0 (append_gate mul 0 2 1 inputs).0 1 0
unfolding append_gate
eval_gates-value_example =
    eval_gates-value ◌+◌ ◌*◌ rho 0 (append_gate mul 0 2 1 inputs).0 (λ l i. i + 5) 0 0
      append_gate-IsWired_example (λ j. refl) (omega arith)
