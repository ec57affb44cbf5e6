-- ===== src/Pws/Circuit/Reduce.antt =====
-- One pass of reduce (code/pepper/cmtgkr/circuit/pws_circuit_parser.cpp) over an even number of
-- terms: the gates that it adds hold the same sum or product.
use ginger_zaatar_allspice.Prelude.{
  ℕ, suc, ◌+◌, ◌<◌, ◌≡◌, refl, ◌∙◌, ap, ap₂, subst, List, [], ◌∷◌, length, arith,
}
use ginger_zaatar_allspice.Pws.Primitives.{OpType, GatePosition}
use ginger_zaatar_allspice.Pws.State.{LayerDescription, Parser, done}
use ginger_zaatar_allspice.Pws.Builder.{append_gate}
use ginger_zaatar_allspice.Pws.Reducer.{reduce_pairs}
use ginger_zaatar_allspice.Pws.Circuit.{gate_type_of, layer_of, IsWired, gate_op, value}
use ginger_zaatar_allspice.Pws.Circuit.Append.{
  append_gate-place, append_gate-IsWired, value-append_gate, value-append_gate_old, grows, place_lt,
}

-- Every position is that of a gate of layer `l`.
abbrev pub InLayer : List LayerDescription → ℕ → List GatePosition → Type 0
InLayer desc l [] = Unit
InLayer desc l (p ∷ ps) = (p.layer ≡ l) × (p.name < length (layer_of desc l)) × InLayer desc l ps

abbrev pub IsEven : List GatePosition → Type 0
IsEven [] = Unit
IsEven (p ∷ []) = ⊥
IsEven (p ∷ q ∷ ps) = IsEven ps

InLayer-grows :
    (desc desc' : List LayerDescription) (l : ℕ) (ps : List GatePosition)
    → ((k i : ℕ) → i < length (layer_of desc k) → i < length (layer_of desc' k))
    → InLayer desc l ps
    → InLayer desc' l ps
InLayer-grows desc desc' l [] g h = tt
InLayer-grows desc desc' l (p ∷ ps) g (a, b, c) =
    (a, g l p.name b, InLayer-grows desc desc' l ps g c)

module _ {ℓ} {V : Type ℓ} (plus times : V → V → V) (rho : ℕ → V) (junk : V) (op : OpType) where
  -- The values of gates of layer `l`, combined from the right, down to `e`.
  abbrev pub combined : List LayerDescription → ℕ → V → List GatePosition → V
  combined desc l e [] = e
  combined desc l e (p ∷ ps) =
      gate_op plus times rho junk (gate_type_of op) (value plus times rho junk desc l p.name)
        (combined desc l e ps)

  combined-keeps :
      (desc desc' : List LayerDescription) (l : ℕ) (e : V) (ps : List GatePosition)
      → ((k i : ℕ)
          → i < length (layer_of desc k)
          → value plus times rho junk desc' k i ≡ value plus times rho junk desc k i)
      → InLayer desc l ps
      → combined desc' l e ps ≡ combined desc l e ps
  combined-keeps desc desc' l e [] keep h = refl
  combined-keeps desc desc' l e (p ∷ ps) keep (a, b, c) =
      ap₂ (gate_op plus times rho junk (gate_type_of op)) (keep l p.name b)
        (combined-keeps desc desc' l e ps keep c)

  -- What a pass has done when it returns: it went through, added gates only, kept the circuit
  -- wired, and its results, half as many, in the layer above, combine to the same value.
  pub record Passed (l : ℕ) (ps : List GatePosition) (s : Parser) : Type ℓ where
    pub out : List GatePosition
    pub after : Parser
    pub returns : reduce_pairs op l ps s ≡ done out after
    pub halves : length out + length out ≡ length ps
    pub wired : IsWired after.circuit_desc
    pub grown :
        (k i : ℕ)
        → i < length (layer_of s.circuit_desc k)
        → i < length (layer_of after.circuit_desc k)
    pub keeps :
        (k i : ℕ)
        → i < length (layer_of s.circuit_desc k)
        → value plus times rho junk after.circuit_desc k i
          ≡ value plus times rho junk s.circuit_desc k i
    pub above : InLayer after.circuit_desc (suc l) out
    pub same : (e : V) → combined after.circuit_desc (suc l) e out ≡ combined s.circuit_desc l e ps

  -- Over an even number of gates of one layer of a wired circuit, a pass of reduce over the pairs
  -- goes through and leaves half as many gates, all in the layer above, which combine to the same
  -- value where the operation is associative; the circuit stays wired and no gate that was there
  -- changes its value.
  pub reduce_pairs-Passed :
      ((a b c : V)
        → gate_op plus times rho junk
            (gate_type_of op)
            (gate_op plus times rho junk (gate_type_of op) a b)
            c
          ≡ gate_op plus times rho junk
              (gate_type_of op)
              a
              (gate_op plus times rho junk (gate_type_of op) b c))
      → (l : ℕ) (ps : List GatePosition) (s : Parser) → IsWired s.circuit_desc
      → InLayer s.circuit_desc l ps
      → IsEven ps
      → Passed l ps s
  unfolding reduce_pairs
  reduce_pairs-Passed assoc l [] s wired inside even = record {
    out = [];
    after = s;
    returns = refl;
    halves = omega arith;
    wired = wired;
    grown = λ k i h. h;
    keeps = λ k i h. refl;
    above = tt;
    same = λ e. refl;
  }
  reduce_pairs-Passed assoc l (p ∷ []) s wired inside even = absurd even
  reduce_pairs-Passed assoc l (p ∷ q ∷ ps) s wired (_, hp, (_, hq, inside)) even =
      let desc : List LayerDescription = s.circuit_desc in
      let desc₁ : List LayerDescription = (append_gate op p.name q.name (suc l) desc).0 in
      let place : GatePosition = (append_gate op p.name q.name (suc l) desc).1 in
      let s₁ : Parser = record s { circuit_desc = desc₁ } in
      let wired₁ : IsWired desc₁ = append_gate-IsWired op p.name q.name (suc l) desc wired (λ m e.
        let e' : l ≡ m = omega arith in
        (
          subst (λ k. p.name < length (layer_of desc k)) e' hp,
          subst (λ k. q.name < length (layer_of desc k)) e' hq,
        )) in
      let there : place.name < length (layer_of desc₁ (suc l)) =
        place_lt op p.name q.name (suc l) desc in
      let kept = value-append_gate_old plus times rho junk op p.name q.name (suc l) desc wired in
      let rest : Passed l ps s₁ =
        reduce_pairs-Passed assoc l ps s₁ wired₁
          (InLayer-grows desc desc₁ l ps (grows op p.name q.name (suc l) desc) inside) even in
      record {
        out = place ∷ rest.out;
        after = rest.after;
        returns = rw rest.returns;
        halves = omega (arith, rest.halves);
        wired = rest.wired;
        grown = λ k i h. rest.grown k i (grows op p.name q.name (suc l) desc k i h);
        keeps = λ k i h. rest.keeps k i (grows op p.name q.name (suc l) desc k i h) ∙ kept k i h;
        above = (
          ap (λ (g : GatePosition). g.layer) (append_gate-place op p.name q.name (suc l) desc),
          rest.grown (suc l) place.name there,
          rest.above,
        );
        same = λ e.
            ap₂ (gate_op plus times rho junk (gate_type_of op))
              (rest.keeps (suc l) place.name there
                ∙ value-append_gate plus times rho junk op p.name q.name l desc wired hp hq)
              (rest.same e ∙ combined-keeps desc desc₁ l e ps kept inside)
            ∙ assoc _ _ _;
      }
