-- ===== src/Pws/Circuit/Rounds.antt =====
-- The rounds of reduce (code/pepper/cmtgkr/circuit/pws_circuit_parser.cpp) over 2^k terms of one
-- layer: they end after k rounds in one gate, which holds the combined value.
use native.Mathlib.Nat.{pow-zero, one-le-pow}
use ginger_zaatar_allspice.Prelude.{
  ℕ, zero, suc, ◌+◌, ◌-◌, ◌%◌, ◌^◌, ◌<◌, ◌≤◌, ◌≡◌, refl, ◌∙◌, ap, subst, List, [], ◌∷◌, false, ◌==◌,
  length, arith,
}
use ginger_zaatar_allspice.Pws.Primitives.{OpType, GatePosition}
use ginger_zaatar_allspice.Pws.State.{Parser, done}
use ginger_zaatar_allspice.Pws.Reducer.{reduce_pairs, reduce_loop}
use ginger_zaatar_allspice.Pws.Circuit.{gate_type_of, layer_of, IsWired, gate_op, value}
use ginger_zaatar_allspice.Pws.Circuit.Reduce.{
  InLayer, IsEven, combined, Passed, reduce_pairs-Passed,
}

double-IsEven : (m : ℕ) (ps : List GatePosition) → length ps ≡ m + m → IsEven ps
double-IsEven m [] h = tt
double-IsEven m (p ∷ []) h = absurd (omega arith)
double-IsEven zero (p ∷ q ∷ ps) h = absurd (omega arith)
double-IsEven (suc m) (p ∷ q ∷ ps) h = double-IsEven m ps (omega arith)

module _ {ℓ} {V : Type ℓ} (plus times : V → V → V) (rho : ℕ → V) (junk : V) (op : OpType) where
  -- What the rounds have done: they returned a gate `k` layers up, which combines with anything as
  -- the terms did, in a wired circuit whose older gates kept their values.
  pub record Reduced (fuel k l : ℕ) (ps : List GatePosition) (s : Parser) : Type ℓ where
    pub out : GatePosition
    pub after : Parser
    pub returns : reduce_loop fuel op l ps s ≡ done out after
    pub wired : IsWired after.circuit_desc
    pub keeps :
        (m i : ℕ)
        → i < length (layer_of s.circuit_desc m)
        → value plus times rho junk after.circuit_desc m i
          ≡ value plus times rho junk s.circuit_desc m i
    pub layer_up : out.layer ≡ l + k
    pub there : out.name < length (layer_of after.circuit_desc (l + k))
    pub same :
        (e : V)
        → gate_op plus times rho junk
            (gate_type_of op)
            (value plus times rho junk after.circuit_desc (l + k) out.name)
            e
          ≡ combined plus times rho junk op s.circuit_desc l e ps

  -- One term is returned as it is.
  one_term :
      (fuel l : ℕ) (p : GatePosition) (s : Parser)
      → IsWired s.circuit_desc
      → InLayer s.circuit_desc l (p ∷ [])
      → Reduced fuel 0 l (p ∷ []) s
  unfolding reduce_loop
  one_term fuel l p s wired (h₁, h₂, _) = record {
    out = p;
    after = s;
    returns = elim fuel [ zero ↦ refl | suc f ↦ refl ];
    wired = wired;
    keeps = λ m i h. refl;
    layer_up = omega arith;
    there =
        subst (λ m. p.name < length (layer_of s.circuit_desc m)) {x = l} {y = l + 0} (omega arith)
          h₂;
    same = λ e.
        ap
          (λ (m : ℕ).
            gate_op plus times rho junk (gate_type_of op)
              (value plus times rho junk s.circuit_desc m p.name) e)
          (omega arith);
  }

  round_returns :
      (fuel l : ℕ) (a b : GatePosition) (ps out : List GatePosition) (s after : Parser)
      → IsEven ps
      → (m : ℕ) → length ps ≡ m + m
      → reduce_pairs op l (a ∷ b ∷ ps) s ≡ done out after
      → reduce_loop (suc fuel) op l (a ∷ b ∷ ps) s ≡ reduce_loop fuel op (suc l) out after
  unfolding reduce_loop
  round_returns fuel l a b ps out s after even m h returns =
      let is_even : (length (a ∷ b ∷ ps) % 2 == 1) ≡ false = ground arith in
      rw (is_even, returns) (ap (λ (k : ℕ). reduce_loop fuel op k out after) (omega arith))

  -- A round that leaves a reducible list of terms is followed by its rounds.
  after_round :
      (fuel k l : ℕ) (a b : GatePosition) (ps : List GatePosition) (s : Parser)
      → (m : ℕ) → length ps ≡ m + m
      → (r : Passed plus times rho junk op l (a ∷ b ∷ ps) s) → Reduced fuel k (suc l) r.out r.after
      → Reduced (suc fuel) (suc k) l (a ∷ b ∷ ps) s
  after_round fuel k l a b ps s m h r rest = record {
    out = rest.out;
    after = rest.after;
    returns =
        round_returns fuel l a b ps r.out s r.after (double-IsEven m ps h) m h r.returns
        ∙ rest.returns;
    wired = rest.wired;
    keeps = λ j i hi. rest.keeps j i (r.grown j i hi) ∙ r.keeps j i hi;
    layer_up = rest.layer_up ∙ omega arith;
    there =
        subst (λ (j : ℕ). rest.out.name < length (layer_of rest.after.circuit_desc j))
          {x = suc l + k} {y = l + suc k} (omega arith) rest.there;
    same = λ e.
        ap
          (λ (j : ℕ).
            gate_op plus times rho junk (gate_type_of op)
              (value plus times rho junk rest.after.circuit_desc j rest.out.name) e)
          {x = l + suc k} {y = suc l + k} (omega arith)
        ∙ rest.same e
        ∙ r.same e;
  }

  -- Over 2^k gates of one layer of a wired circuit, and with fuel for k rounds, the loop of reduce
  -- returns one gate, k layers up: combined with any value by the operation, it gives what the terms
  -- combined with that value give, where the operation is associative. The circuit stays wired and
  -- its older gates keep their values.
  pub reduce_loop-Reduced :
      ((a b c : V)
        → gate_op plus times rho junk
            (gate_type_of op)
            (gate_op plus times rho junk (gate_type_of op) a b)
            c
          ≡ gate_op plus times rho junk
              (gate_type_of op)
              a
              (gate_op plus times rho junk (gate_type_of op) b c))
      → (k fuel l : ℕ) (ps : List GatePosition) (s : Parser) → k ≤ fuel
      → length ps ≡ 2 ^ k
      → IsWired s.circuit_desc
      → InLayer s.circuit_desc l ps
      → Reduced fuel k l ps s
  reduce_loop-Reduced assoc zero fuel l [] s hf h wired inside = absurd (omega (arith, pow-zero 2))
  reduce_loop-Reduced assoc zero fuel l (p ∷ []) s hf h wired inside =
      one_term fuel l p s wired inside
  reduce_loop-Reduced assoc zero fuel l (p ∷ q ∷ ps) s hf h wired inside =
      absurd (omega (arith, pow-zero 2))
  reduce_loop-Reduced assoc (suc k) zero l ps s hf h wired inside = absurd (omega arith)
  reduce_loop-Reduced assoc (suc k) (suc fuel) l [] s hf h wired inside =
      absurd (omega (arith, one-le-pow k 2 (omega arith)))
  reduce_loop-Reduced assoc (suc k) (suc fuel) l (p ∷ []) s hf h wired inside =
      absurd (omega (arith, one-le-pow k 2 (omega arith)))
  reduce_loop-Reduced assoc (suc k) (suc fuel) l (p ∷ q ∷ ps) s hf h wired inside =
      let pass : Passed plus times rho junk op l (p ∷ q ∷ ps) s =
        reduce_pairs-Passed plus times rho junk op assoc l (p ∷ q ∷ ps) s wired inside
          (double-IsEven (2 ^ k) (p ∷ q ∷ ps) (omega arith)) in
      after_round fuel k l p q ps s (2 ^ k - 1) (omega arith) pass (
        reduce_loop-Reduced assoc k fuel (suc l) pass.out pass.after (omega arith)
          (omega (arith, pass.halves)) pass.wired pass.above)
