-- ===== src/Pws/Circuit/Append.antt =====
-- addGate (code/pepper/cmtgkr/circuit/pws_circuit_parser.cpp) appends one gate: the circuit stays
-- wired, the gates that were there keep their values, and the new one computes its operation.
use ginger_zaatar_allspice.Prelude.{
  ℕ, zero, suc, ◌+◌, ◌<◌, ◌≡◌, ◌≢◌, refl, sym, ◌∙◌, ap, ap₂, subst, List, [], ◌∷◌, ◌++◌, none, some,
  inl, inr, ◌⊎◌, length, get_elem?, set, length-append, get_or-set_self, get_or-set_ne, arith, ◌==◌,
  if◌then◌else◌, ℕ_discrete, Option-cases,
}
use ginger_zaatar_allspice.Pws.Primitives.{OpType, GatePosition, GateDescription, make_description}
use ginger_zaatar_allspice.Pws.State.{LayerDescription}
use ginger_zaatar_allspice.Pws.Builder.{grow, append_gate}
use ginger_zaatar_allspice.Pws.Circuit.{
  gate_type_of, make_wiring, layer_of, IsWired, gate_op, value,
}

layer_of-grow :
    (n : ℕ) (desc : List LayerDescription) (l : ℕ) → layer_of (grow n desc) l ≡ layer_of desc l
unfolding grow
layer_of-grow zero [] zero = refl
layer_of-grow zero [] (suc l) = refl
layer_of-grow zero (x ∷ desc) l = refl
layer_of-grow (suc n) [] zero = refl
layer_of-grow (suc n) [] (suc l) = layer_of-grow n [] l
layer_of-grow (suc n) (x ∷ desc) zero = refl
layer_of-grow (suc n) (x ∷ desc) (suc l) = layer_of-grow n desc l

get_elem?-grow :
    (n : ℕ) (desc : List LayerDescription) → get_elem? (grow n desc) n ≡ some (layer_of desc n)
unfolding grow
get_elem?-grow zero [] = refl
get_elem?-grow zero (x ∷ desc) = refl
get_elem?-grow (suc n) [] = get_elem?-grow n []
get_elem?-grow (suc n) (x ∷ desc) = get_elem?-grow n desc

grow-length : (n : ℕ) (desc : List LayerDescription) → n < length (grow n desc)
unfolding grow
grow-length zero [] = omega arith
grow-length zero (x ∷ desc) = omega arith
grow-length (suc n) [] = omega (arith, grow-length n [])
grow-length (suc n) (x ∷ desc) = omega (arith, grow-length n desc)

get_elem?-append_old {ℓ} :
    {A : Type ℓ} (xs : List A) (a : A) (i : ℕ)
    → i < length xs
    → get_elem? (xs ++ a ∷ []) i ≡ get_elem? xs i
get_elem?-append_old [] a i h = elim h [ ]
get_elem?-append_old (x ∷ xs) a zero h = refl
get_elem?-append_old (x ∷ xs) a (suc i) h = get_elem?-append_old xs a i (omega arith)

get_elem?-append_last {ℓ} :
    {A : Type ℓ} (xs : List A) (a : A) → get_elem? (xs ++ a ∷ []) (length xs) ≡ some a
get_elem?-append_last [] a = refl
get_elem?-append_last (x ∷ xs) a = get_elem?-append_last xs a

get_elem?-lt {ℓ} :
    {A : Type ℓ} (xs : List A) (i : ℕ) (a : A) → get_elem? xs i ≡ some a → i < length xs
get_elem?-lt [] i a h = cc
get_elem?-lt (x ∷ xs) zero a h = omega arith
get_elem?-lt (x ∷ xs) (suc i) a h = omega (arith, get_elem?-lt xs i a h)

snoc_cases {ℓ} :
    {A : Type ℓ} (xs : List A) (a d : A) (i : ℕ)
    → get_elem? (xs ++ a ∷ []) i ≡ some d
    → (get_elem? xs i ≡ some d) ⊎ (a ≡ d)
snoc_cases [] a d zero h = inr (cc)
snoc_cases [] a d (suc i) h = cc
snoc_cases (x ∷ xs) a d zero h = inl h
snoc_cases (x ∷ xs) a d (suc i) h = snoc_cases xs a d i h

module _ (op : OpType) (in1 in2 out : ℕ) (desc : List LayerDescription) where
  abbrev new_gate : GateDescription
  new_gate = make_description op out (length (layer_of desc out)) in1 in2

  -- The circuit after the call, and the place of the gate.
  pub append_gate-circuit :
      (append_gate op in1 in2 out desc).0
      ≡ set (grow out desc) out (layer_of desc out ++ new_gate ∷ [])
  unfolding append_gate
  append_gate-circuit = rw (get_elem?-grow out desc, append_gate)

  pub append_gate-place :
      (append_gate op in1 in2 out desc).1
      ≡ record { layer = out; name = length (layer_of desc out) }
  unfolding append_gate
  append_gate-place = rw (get_elem?-grow out desc, append_gate)

  pub layer_of-append_gate_same :
      layer_of (append_gate op in1 in2 out desc).0 out ≡ layer_of desc out ++ new_gate ∷ []
  layer_of-append_gate_same =
      ap (λ c. layer_of c out) append_gate-circuit
      ∙ get_or-set_self (grow out desc) out _ [] (grow-length out desc)

  pub layer_of-append_gate_other :
      (l : ℕ) → out ≢ l → layer_of (append_gate op in1 in2 out desc).0 l ≡ layer_of desc l
  layer_of-append_gate_other l ne =
      ap (λ c. layer_of c l) append_gate-circuit
      ∙ get_or-set_ne (grow out desc) out l _ [] ne
      ∙ layer_of-grow out desc l

  -- Gates that were there stay where they are.
  gate-append_gate_same :
      (i : ℕ)
      → i < length (layer_of desc out)
      → get_elem? (layer_of (append_gate op in1 in2 out desc).0 out) i
        ≡ get_elem? (layer_of desc out) i
  gate-append_gate_same i h =
      ap (λ c. get_elem? c i) layer_of-append_gate_same
      ∙ get_elem?-append_old (layer_of desc out) new_gate i h

  pub gate-append_gate :
      (l i : ℕ)
      → i < length (layer_of desc l)
      → get_elem? (layer_of (append_gate op in1 in2 out desc).0 l) i ≡ get_elem? (layer_of desc l) i
  gate-append_gate l i h = elim (ℕ_discrete out l) [
    | yes same ↦
        subst
          (λ l'.
            i < length (layer_of desc l')
            → get_elem? (layer_of (append_gate op in1 in2 out desc).0 l') i
              ≡ get_elem? (layer_of desc l') i)
          same (gate-append_gate_same i) h
    | no other ↦ ap (λ c. get_elem? c i) (layer_of-append_gate_other l other)
  ]

  pub length-append_gate :
      (l : ℕ)
      → length (layer_of (append_gate op in1 in2 out desc).0 l)
        ≡ length (layer_of desc l) + (if out == l then 1 else 0)
  length-append_gate l = elim (ℕ_discrete out l) [
    | yes same ↦
        subst
          (λ l'.
            length (layer_of (append_gate op in1 in2 out desc).0 l')
            ≡ length (layer_of desc l') + (if out == l' then 1 else 0))
          same
          (ap length layer_of-append_gate_same
            ∙ length-append (layer_of desc out) (new_gate ∷ [])
            ∙ ap (λ (n : ℕ). length (layer_of desc out) + n) (ground arith))
    | no other ↦ ap length (layer_of-append_gate_other l other) ∙ ground arith
  ]

  -- A gate of the new circuit is an old one, or the new one.
  gate_cases :
      (l i : ℕ) (d : GateDescription)
      → get_elem? (layer_of (append_gate op in1 in2 out desc).0 l) i ≡ some d
      → (get_elem? (layer_of desc l) i ≡ some d) ⊎ ((out ≡ l) × (new_gate ≡ d))
  gate_cases l i d h = elim (ℕ_discrete out l) [
    | yes same ↦
        elim (snoc_cases (layer_of desc out) new_gate d i (
          ap (λ c. get_elem? c i) (sym layer_of-append_gate_same)
          ∙ ap (λ l'. get_elem? (layer_of (append_gate op in1 in2 out desc).0 l') i) same
          ∙ h)) [
            | inl old ↦ inl (ap (λ l'. get_elem? (layer_of desc l') i) (sym same) ∙ old)
            | inr new ↦ inr (same, new)
          ]
    | no other ↦ inl (sym (ap (λ c. get_elem? c i) (layer_of-append_gate_other l other)) ∙ h)
  ]

  pub grows :
      (l i : ℕ)
      → i < length (layer_of desc l)
      → i < length (layer_of (append_gate op in1 in2 out desc).0 l)
  grows l i h = omega (arith, length-append_gate l, h)

  pub place_lt :
      (append_gate op in1 in2 out desc).1.name
      < length (layer_of (append_gate op in1 in2 out desc).0 out)
  place_lt = omega (
    arith,
    ap (λ (p : GatePosition). p.name) append_gate-place,
    ap length layer_of-append_gate_same,
    length-append (layer_of desc out) (new_gate ∷ []),
  )

  -- addGate keeps a circuit wired if the inputs of the new gate are gates of the layer below it; on
  -- the input layer it keeps it wired in any case.
  pub append_gate-IsWired :
      IsWired desc
      → ((m : ℕ)
          → out ≡ suc m
          → (in1 < length (layer_of desc m)) × (in2 < length (layer_of desc m)))
      → IsWired (append_gate op in1 in2 out desc).0
  unfolding make_description
  append_gate-IsWired wired inputs = record {
    wires = λ l i d h. elim (gate_cases (suc l) i d h) [
      | inl old ↦ (grows l d.in1 (wired.wires l i d old).0, grows l d.in2 (wired.wires l i d old).1)
      | inr (same, new) ↦ (
        grows l d.in1
            (subst (λ n. n < length (layer_of desc l)) (ap (λ e. e.in1) new) (inputs l same).0),
        grows l d.in2
            (subst (λ n. n < length (layer_of desc l)) (ap (λ e. e.in2) new) (inputs l same).1),
      )
    ];
  }

module _ {ℓ} {V : Type ℓ} (plus times : V → V → V) (rho : ℕ → V) (junk : V) where
  pub value_some :
      (desc : List LayerDescription) (l i : ℕ) (d : GateDescription)
      → get_elem? (layer_of desc (suc l)) i ≡ some d
      → value plus times rho junk desc (suc l) i
        ≡ gate_op plus times rho junk
            (gate_type_of d.op)
            (value plus times rho junk desc l d.in1)
            (value plus times rho junk desc l d.in2)
  unfolding value make_wiring
  value_some desc l i d h = rw (h, value)

  value_none :
      (desc : List LayerDescription) (l i : ℕ)
      → get_elem? (layer_of desc (suc l)) i ≡ none
      → value plus times rho junk desc (suc l) i ≡ junk
  unfolding value
  value_none desc l i h = rw (h, value)

  -- addGate changes no value of a gate that was there, in a wired circuit.
  pub value-append_gate_old :
      (op : OpType) (in1 in2 out : ℕ) (desc : List LayerDescription)
      → IsWired desc
      → (l i : ℕ) → i < length (layer_of desc l)
      → value plus times rho junk (append_gate op in1 in2 out desc).0 l i
        ≡ value plus times rho junk desc l i
  unfolding value
  value-append_gate_old op in1 in2 out desc wired zero i h = refl
  value-append_gate_old op in1 in2 out desc wired (suc l) i h =
      elim (Option-cases (get_elem? (layer_of desc (suc l)) i)) [
        | inl gone ↦
            value_none _ l i (gate-append_gate op in1 in2 out desc (suc l) i h ∙ gone)
            ∙ sym (value_none desc l i gone)
        | inr (d, there) ↦
            value_some _ l i d (gate-append_gate op in1 in2 out desc (suc l) i h ∙ there)
            ∙ ap₂ (gate_op plus times rho junk (gate_type_of d.op))
                (value-append_gate_old op in1 in2 out desc wired l d.in1
                  (wired.wires l i d there).0)
                (value-append_gate_old op in1 in2 out desc wired l d.in2
                  (wired.wires l i d there).1)
            ∙ sym (value_some desc l i d there)
      ]

  -- In a wired circuit the gate that addGate returns, with inputs that are gates of the layer below
  -- it, has the value of its operation on the values of its inputs.
  pub value-append_gate :
      (op : OpType) (in1 in2 l : ℕ) (desc : List LayerDescription)
      → IsWired desc
      → in1 < length (layer_of desc l)
      → in2 < length (layer_of desc l)
      → value plus times rho junk
          (append_gate op in1 in2 (suc l) desc).0
          (suc l)
          (append_gate op in1 in2 (suc l) desc).1.name
        ≡ gate_op plus times rho junk
            (gate_type_of op)
            (value plus times rho junk desc l in1)
            (value plus times rho junk desc l in2)
  unfolding make_description
  value-append_gate op in1 in2 l desc wired h₁ h₂ =
      ap (λ i. value plus times rho junk (append_gate op in1 in2 (suc l) desc).0 (suc l) i)
        (ap (λ (p : GatePosition). p.name) (append_gate-place op in1 in2 (suc l) desc))
      ∙ value_some _ l (length (layer_of desc (suc l)))
          (make_description op (suc l) (length (layer_of desc (suc l))) in1 in2)
          (ap (λ c. get_elem? c (length (layer_of desc (suc l))))
              (layer_of-append_gate_same op in1 in2 (suc l) desc)
            ∙ get_elem?-append_last (layer_of desc (suc l)) _)
      ∙ ap₂ (gate_op plus times rho junk (gate_type_of op))
          (value-append_gate_old op in1 in2 (suc l) desc wired l in1 h₁)
          (value-append_gate_old op in1 in2 (suc l) desc wired l in2 h₂)
