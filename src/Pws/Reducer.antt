-- ===== src/Pws/Reducer.antt =====
-- code/pepper/cmtgkr/circuit/pws_circuit_parser.cpp: reduce, which combines terms by a tree of gates.
use ginger_zaatar_allspice.Prelude.{
  ℕ, zero, suc, ◌+◌, ◌%◌, max, List, [], ◌∷◌, ◌==◌, if◌then◌else◌, length,
}
use ginger_zaatar_allspice.Pws.Primitives.{codes, GatePosition, OpType}
use ginger_zaatar_allspice.Pws.State.{M, fault, ◌>>=◌, pure}
use ginger_zaatar_allspice.Pws.Builder.{add_gate, add_constant, get_gate, promote_gate}

-- One pass of reduce's loop over the terms that are left, all in layer `layer`.
unfoldable pub reduce_pairs : OpType → ℕ → List GatePosition → M (List GatePosition)
unfolding add_gate
reduce_pairs op layer [] = pure []
reduce_pairs op layer (a ∷ []) = λ s. fault
reduce_pairs op layer (a ∷ b ∷ ps) = do
  g ← add_gate op a.name b.name (suc layer)
  rest ← reduce_pairs op layer ps
  pure (g ∷ rest)

abbrev pub reduce_pass : OpType → ℕ → List GatePosition → M (List GatePosition)
reduce_pass op layer [] = pure []
reduce_pass op layer (a ∷ ps) =
    if length (a ∷ ps) % 2 == 1
    then (do g ← promote_gate a (layer + 1); rest ← reduce_pairs op layer ps; pure (g ∷ rest))
    else reduce_pairs op layer (a ∷ ps)

-- The loop of reduce, with the number of terms as fuel: each pass halves them, rounded up.
unfoldable pub reduce_loop : ℕ → OpType → ℕ → List GatePosition → M GatePosition
unfolding reduce_pairs promote_gate
reduce_loop fuel op layer [] = λ s. fault
reduce_loop fuel op layer (a ∷ []) = pure a
reduce_loop zero op layer (a ∷ b ∷ ps) = λ s. fault
reduce_loop (suc fuel) op layer (a ∷ b ∷ ps) = do
  out ← reduce_pass op layer (a ∷ b ∷ ps)
  reduce_loop fuel op (layer + 1) out

unfoldable pub max_layer_of : ℕ → List GatePosition → ℕ
max_layer_of m [] = m
max_layer_of m (p ∷ ps) = max_layer_of (max m p.layer) ps

unfoldable pub promote_all : ℕ → List GatePosition → M (List GatePosition)
unfolding promote_gate
promote_all layer [] = pure []
promote_all layer (p ∷ ps) = do
  g ← promote_gate p layer
  rest ← promote_all layer ps
  pure (g ∷ rest)

unfoldable pub reduce : OpType → List GatePosition → M GatePosition
unfolding add_constant get_gate promote_all reduce_loop max_layer_of
reduce op [] = do z ← add_constant (codes "0"); get_gate z 0
reduce op (p ∷ []) = pure p
reduce op (p ∷ q ∷ ps) = do
  let in_layer = max_layer_of 0 (p ∷ q ∷ ps)
  in_gates ← promote_all in_layer (p ∷ q ∷ ps)
  reduce_loop (length in_gates) op in_layer in_gates
