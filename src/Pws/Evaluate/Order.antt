-- ===== src/Pws/Evaluate/Order.antt =====
-- evalGates (code/pepper/cmtgkr/circuit/pws_circuit.cpp) evaluates in an order that suits the wires.
use ginger_zaatar_allspice.Prelude.{
  ℕ, zero, suc, ◌+◌, ◌<◌, ◌≤◌, ◌≡◌, ◌≢◌, refl, sym, ◌∙◌, ap, ap₂, subst, List, [], ◌∷◌, Option,
  none, some, length, get_elem?, get_or, drop, arith,
}
use ginger_zaatar_allspice.Pws.Primitives.{GateDescription}
use ginger_zaatar_allspice.Pws.State.{LayerDescription}
use ginger_zaatar_allspice.Pws.Circuit.{
  make_wiring, gate_op, gate_type_of, layer_of, IsWired, value,
}
use ginger_zaatar_allspice.Pws.Circuit.Append.{value_some}
use ginger_zaatar_allspice.Pws.Evaluate.{write, gate_value, eval_layer, eval_layers, eval_gates}

get_elem?-there {ℓ} :
    {A : Type ℓ} (xs : List A) (i : ℕ) → i < length xs → (a : A) × (get_elem? xs i ≡ some a)
get_elem?-there [] i h = absurd (omega arith)
get_elem?-there (x ∷ xs) zero h = (x, refl)
get_elem?-there (x ∷ xs) (suc i) h = get_elem?-there xs i (omega arith)

module _ {ℓ} {V : Type ℓ} where
  write_self : (s : ℕ → ℕ → V) (l i : ℕ) (v : V) → write s l i v l i ≡ v
  unfolding write
  write_self s l i v = ground arith

  write_layer : (s : ℕ → ℕ → V) (l i k j : ℕ) (v : V) → l ≢ k → write s l i v k j ≡ s k j
  unfolding write
  write_layer s l i k j v h = ground arith

  write_gate : (s : ℕ → ℕ → V) (l i k j : ℕ) (v : V) → i ≢ j → write s l i v k j ≡ s k j
  unfolding write
  write_gate s l i k j v h = ground arith

module _ {ℓ} {V : Type ℓ} (plus times : V → V → V) (rho : ℕ → V) (junk : V) where
  eval_layer_other :
      (l n : ℕ) (ds : List GateDescription) (s : ℕ → ℕ → V) (k j : ℕ)
      → suc l ≢ k
      → eval_layer plus times rho junk l n ds s k j ≡ s k j
  unfolding eval_layer
  eval_layer_other l n [] s k j h = refl
  eval_layer_other l n (d ∷ ds) s k j h =
      eval_layer_other l (suc n) ds _ k j h ∙ write_layer s (suc l) n k j _ h

  eval_layer_before :
      (l n : ℕ) (ds : List GateDescription) (s : ℕ → ℕ → V) (j : ℕ)
      → j < n
      → eval_layer plus times rho junk l n ds s (suc l) j ≡ s (suc l) j
  unfolding eval_layer
  eval_layer_before l n [] s j h = refl
  eval_layer_before l n (d ∷ ds) s j h =
      eval_layer_before l (suc n) ds _ j (omega arith)
      ∙ write_gate s (suc l) n (suc l) j _ (λ (e : n ≡ j). absurd (omega arith))

  eval_layer_at :
      (l n : ℕ) (ds : List GateDescription) (s : ℕ → ℕ → V) (m : ℕ) (d : GateDescription)
      → get_elem? ds m ≡ some d
      → eval_layer plus times rho junk l n ds s (suc l) (n + m)
        ≡ gate_op plus times rho junk (gate_type_of d.op) (s l d.in1) (s l d.in2)
  unfolding eval_layer make_wiring
  eval_layer_at l n [] s m d h = absurd (grind arith)
  eval_layer_at l n (x ∷ ds) s zero d h =
      ap
        (λ (k : ℕ).
          eval_layer plus times rho junk l (suc n) ds
            (write s (suc l) n (gate_value plus times rho junk l x s)) (suc l) k)
        {y = n} (omega arith)
      ∙ eval_layer_before l (suc n) ds (write s (suc l) n (gate_value plus times rho junk l x s)) n
          (omega arith)
      ∙ write_self s (suc l) n (gate_value plus times rho junk l x s)
      ∙ ap
          (λ (e : GateDescription).
            gate_op plus times rho junk (gate_type_of e.op) (s l e.in1) (s l e.in2))
          (ap (λ (o : Option GateDescription). elim o [ none ↦ x | some y ↦ y ]) h)
  eval_layer_at l n (x ∷ ds) s (suc m) d h =
      ap
        (λ (k : ℕ).
          eval_layer plus times rho junk l (suc n) ds
            (write s (suc l) n (gate_value plus times rho junk l x s)) (suc l) k)
        {y = suc n + m} (omega arith)
      ∙ eval_layer_at l (suc n) ds (write s (suc l) n (gate_value plus times rho junk l x s)) m d h
      ∙ ap₂ (gate_op plus times rho junk (gate_type_of d.op))
          (write_layer s (suc l) n l d.in1 _ (λ (e : suc l ≡ l). absurd (omega arith)))
          (write_layer s (suc l) n l d.in2 _ (λ (e : suc l ≡ l). absurd (omega arith)))

  eval_layers_below :
      (start : List ℕ) (l : ℕ) (ls : List LayerDescription) (s : ℕ → ℕ → V) (k j : ℕ)
      → k ≤ l
      → eval_layers plus times rho junk start l ls s k j ≡ s k j
  unfolding eval_layers
  eval_layers_below start l [] s k j h = refl
  eval_layers_below start l (layer ∷ ls) s k j h =
      eval_layers_below start (suc l) ls _ k j (omega arith)
      ∙ eval_layer_other l (get_or start (suc l) 0) (drop (get_or start (suc l) 0) layer) s k j
          (λ (e : suc l ≡ k). absurd (omega arith))

  module _ (desc : List LayerDescription) (wired : IsWired desc) where
    abbrev val : ℕ → ℕ → V
    val = value plus times rho junk desc

    -- A layer that is evaluated over the right values of the one below has the right values.
    layer_values :
        (l : ℕ) (layer : LayerDescription) (s : ℕ → ℕ → V)
        → layer ≡ layer_of desc (suc l)
        → ((j : ℕ) → j < length (layer_of desc l) → s l j ≡ val l j)
        → (i : ℕ) → i < length (layer_of desc (suc l))
        → eval_layer plus times rho junk l 0 layer s (suc l) i ≡ val (suc l) i
    layer_values l layer s same below i h =
        let (d, there) = get_elem?-there (layer_of desc (suc l)) i h in
        let (w1, w2) = wired.wires l i d there in
        ap (λ (k : ℕ). eval_layer plus times rho junk l 0 layer s (suc l) k) {y = 0 + i}
          (omega arith)
        ∙ eval_layer_at l 0 layer s i d (ap (λ ds. get_elem? ds i) same ∙ there)
        ∙ ap₂ (gate_op plus times rho junk (gate_type_of d.op)) (below d.in1 w1) (below d.in2 w2)
        ∙ sym (value_some plus times rho junk desc l i d there)

    first_same :
        (l : ℕ) (layer : LayerDescription) (ls : List LayerDescription)
        → ((m : ℕ) → get_or (layer ∷ ls) m [] ≡ layer_of desc (suc l + m))
        → layer ≡ layer_of desc (suc l)
    first_same l layer ls same = same 0 ∙ ap (layer_of desc) (omega arith)

    layers_values :
        (ls : List LayerDescription) (l : ℕ) (s : ℕ → ℕ → V)
        → ((m : ℕ) → get_or ls m [] ≡ layer_of desc (suc l + m))
        → ((j : ℕ) → j < length (layer_of desc l) → s l j ≡ val l j)
        → (m i : ℕ) → i < length (layer_of desc (suc l + m))
        → eval_layers plus times rho junk [] l ls s (suc l + m) i ≡ val (suc l + m) i
    unfolding eval_layers
    layers_values [] l s same below m i h = absurd (omega (arith, ap length (same m)))
    layers_values (layer ∷ ls) l s same below zero i h =
        subst
          (λ (k : ℕ).
            i < length (layer_of desc k)
            → eval_layers plus times rho junk [] (suc l) ls
                (eval_layer plus times rho junk l 0 layer s) k i
              ≡ val k i)
          {x = suc l} {y = suc l + 0} (omega arith)
          (λ h'.
            eval_layers_below [] (suc l) ls (eval_layer plus times rho junk l 0 layer s) (suc l) i
              (omega arith)
            ∙ layer_values l layer s (first_same l layer ls same) below i h')
          h
    layers_values (layer ∷ ls) l s same below (suc m) i h =
        subst
          (λ (k : ℕ).
            i < length (layer_of desc k)
            → eval_layers plus times rho junk [] (suc l) ls
                (eval_layer plus times rho junk l 0 layer s) k i
              ≡ val k i)
          {x = suc (suc l) + m} {y = suc l + suc m} (omega arith)
          (layers_values ls (suc l) (eval_layer plus times rho junk l 0 layer s)
            (λ n. same (suc n) ∙ ap (layer_of desc) (omega arith))
            (layer_values l layer s (first_same l layer ls same) below) m i)
          h

  -- evalGates from the first gate of every layer on gives every gate above the inputs of a wired
  -- circuit the value that its wires define, where the store holds the values of the inputs.
  pub eval_gates-value :
      (desc : List LayerDescription) (s : ℕ → ℕ → V) (l i : ℕ)
      → IsWired desc
      → ((j : ℕ) → s 0 j ≡ rho j)
      → i < length (layer_of desc (suc l))
      → eval_gates plus times rho junk [] desc s (suc l) i
        ≡ value plus times rho junk desc (suc l) i
  unfolding eval_gates value
  eval_gates-value [] s l i wired inputs h = absurd (omega arith)
  eval_gates-value (input ∷ ls) s l i wired inputs h =
      ap (λ (k : ℕ). eval_layers plus times rho junk [] 0 ls s k i) {y = suc 0 + l} (omega arith)
      ∙ layers_values (input ∷ ls) wired ls 0 s
          (λ m. ap (layer_of (input ∷ ls)) {x = suc m} {y = suc 0 + m} (omega arith))
          (λ j h'. inputs j) l i
          (omega (
            arith,
            ap (λ (k : ℕ). length (layer_of (input ∷ ls) k)) {x = suc l} {y = suc 0 + l}
                (omega arith),
          ))
      ∙ ap (λ (k : ℕ). value plus times rho junk (input ∷ ls) k i) {x = suc 0 + l} {y = suc l}
          (omega arith)
