-- ===== src/Pws/Evaluate.antt =====
-- PWSCircuit::evalGates (code/pepper/cmtgkr/circuit/pws_circuit.cpp): the gates above the inputs, layer by
-- layer and from the first gate that is not evaluated yet, write their values. A store gives every
-- gate of every layer a value.
pub mod Order
use ginger_zaatar_allspice.Prelude.{
  ℕ, zero, suc, ◌&&◌, List, [], ◌∷◌, ◌==◌, if◌then◌else◌, get_or, drop,
}
use ginger_zaatar_allspice.Pws.Primitives.{GateDescription}
use ginger_zaatar_allspice.Pws.State.{LayerDescription}
use ginger_zaatar_allspice.Pws.Circuit.{make_wiring, gate_op}

module _ {ℓ} {V : Type ℓ} where
  unfoldable pub write : (ℕ → ℕ → V) → ℕ → ℕ → V → ℕ → ℕ → V
  write s l i v k j = if (l == k) && (i == j) then v else s k j

module _ {ℓ} {V : Type ℓ} (plus times : V → V → V) (rho : ℕ → V) (junk : V) where
  -- computeGateValue on the gates of the layer below.
  abbrev pub gate_value : ℕ → GateDescription → (ℕ → ℕ → V) → V
  gate_value l d s =
      gate_op plus times rho junk (make_wiring d).type (s l (make_wiring d).in1)
        (s l (make_wiring d).in2)

  -- The gates of layer l + 1 that are left, the next of them being gate `g_num`.
  unfoldable pub eval_layer : ℕ → ℕ → List GateDescription → (ℕ → ℕ → V) → ℕ → ℕ → V
  unfolding write make_wiring
  eval_layer l g_num [] s = s
  eval_layer l g_num (d ∷ ds) s =
      eval_layer l (suc g_num) ds (write s (suc l) g_num (gate_value l d s))

  -- The layers from l + 1 on.
  unfoldable pub eval_layers : List ℕ → ℕ → List LayerDescription → (ℕ → ℕ → V) → ℕ → ℕ → V
  unfolding eval_layer
  eval_layers start l [] s = s
  eval_layers start l (layer ∷ ls) s =
      let first = get_or start (suc l) 0 in
      eval_layers start (suc l) ls (eval_layer l first (drop first layer) s)

  unfoldable pub eval_gates : List ℕ → List LayerDescription → (ℕ → ℕ → V) → ℕ → ℕ → V
  unfolding eval_layers
  eval_gates start [] s = s
  eval_gates start (input ∷ ls) s = eval_layers start 0 ls s
