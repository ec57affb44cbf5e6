-- ===== src/Layer/Gates.antt =====
-- The operation of a gate (code/pepper/cmtgkr/circuit/circuit_layer.cpp) against arithmetic modulo the
-- prime, and the values of a whole circuit.
use native.Mathlib.Nat.{mod-eq_of_lt}
use ginger_zaatar_allspice.Prelude.{
  ℕ, zero, suc, ◌+◌, ◌*◌, ◌-◌, ◌%◌, ◌≡◌, refl, sym, ◌∙◌, ap, ap₂, List, true, false, ◌||◌,
  if◌then◌else◌, leb, get_elem?, arith, inl, inr, Bool-cases, Option-cases, ◌⊎◌,
}
use ginger_zaatar_allspice.Prelude.Int.{
  ℤ, pos, negsuc, ◌+ℤ◌, ◌*ℤ◌, ◌%ℤ◌, zero-+ℤ, +ℤ-zero, *ℤ-zero, zero-*ℤ,
}
use ginger_zaatar_allspice.Prelude.Congr.{%ℤ-pos, %ℤ-lt, %ℤ-+ℤ, %ℤ-*ℤ}
use ginger_zaatar_allspice.Gmp.{Gmp, sign, is_zero}
use ginger_zaatar_allspice.Pws.State.{LayerDescription}
use ginger_zaatar_allspice.Pws.Circuit.{
  GateType, add_gate_type, mul_gate_type, div_int_gate_type, make_wiring, gate_op, value, layer_of,
}
use ginger_zaatar_allspice.Layer.{mod_if_needed, apply_gate_operation}

module _ (g : Gmp) (size_in_base2 : ℤ → ℕ) (q : ℕ) where
  mod_if_needed_lem :
      (v : ℤ) (slack : ℕ)
      → mod_if_needed g size_in_base2 v (pos (suc q)) slack %ℤ suc q ≡ v %ℤ suc q
  unfolding mod_if_needed
  mod_if_needed_lem v slack =
      elim (Bool-cases (leb (slack * size_in_base2 (pos (suc q)) - 1) (size_in_base2 v))) [
        | inl large ↦
            rw (large, g.mpz_mod_lem v q) (%ℤ-pos q (v %ℤ suc q) ∙ mod-eq_of_lt (%ℤ-lt q v))
        | inr small ↦ rw small refl
      ]

  sgn_cases :
      (a : ℤ) → ((is_zero (g.mpz_sgn a) ≡ true) × (a ≡ pos 0)) ⊎ (is_zero (g.mpz_sgn a) ≡ false)
  unfolding sign
  sgn_cases (pos zero) = inl (ap is_zero (g.mpz_sgn_lem (pos zero)), refl)
  sgn_cases (pos (suc n)) = inr (ap is_zero (g.mpz_sgn_lem (pos (suc n))))
  sgn_cases (negsuc n) = inr (ap is_zero (g.mpz_sgn_lem (negsuc n)))

  -- The shortcuts for zeros change nothing.
  add_shortcut :
      (a b : ℤ)
      → (if is_zero (g.mpz_sgn a) then b else if is_zero (g.mpz_sgn b) then a else g.mpz_add a b)
        ≡ a +ℤ b
  add_shortcut a b = elim (sgn_cases a) [
    | inl (z, e) ↦ rw z (sym (zero-+ℤ b) ∙ ap (λ x. x +ℤ b) (sym e))
    | inr n ↦ rw n (elim (sgn_cases b) [
      | inl (z, e) ↦ rw z (sym (+ℤ-zero a) ∙ ap (λ x. a +ℤ x) (sym e))
      | inr n' ↦ rw n' (g.mpz_add_lem a b)
    ])
  ]

  mul_shortcut :
      (a b : ℤ)
      → (if is_zero (g.mpz_sgn a) || is_zero (g.mpz_sgn b) then pos 0 else g.mpz_mul a b) ≡ a *ℤ b
  mul_shortcut a b = elim (sgn_cases a) [
    | inl (z, e) ↦ rw z (sym (zero-*ℤ b) ∙ ap (λ x. x *ℤ b) (sym e))
    | inr n ↦ rw n (elim (sgn_cases b) [
      | inl (z, e) ↦ rw z (sym (*ℤ-zero a) ∙ ap (λ x. a *ℤ x) (sym e))
      | inr n' ↦ rw n' (g.mpz_mul_lem a b)
    ])
  ]

  -- Sums and products of remainders.
  abbrev pub add_mod : ℕ → ℕ → ℕ
  add_mod x y = (x + y) % suc q

  abbrev pub mul_mod : ℕ → ℕ → ℕ
  mul_mod x y = x * y % suc q

  -- Modulo the prime, a gate computes the sum of its inputs if it is an addition, and their product
  -- if it is a multiplication or an exact division, which multiplies by an inverse: whether or not
  -- the result is reduced, and whichever shortcut is taken.
  pub apply_gate_operation_lem :
      (t : GateType) (a b : ℤ)
      → apply_gate_operation g size_in_base2 t a b (pos (suc q)) %ℤ suc q
        ≡ gate_op add_mod mul_mod (λ i. i) 0 t (a %ℤ suc q) (b %ℤ suc q)
  unfolding apply_gate_operation
  apply_gate_operation_lem add_gate_type a b =
      mod_if_needed_lem _ 2 ∙ ap (λ x. x %ℤ suc q) (add_shortcut a b) ∙ %ℤ-+ℤ q a b
  apply_gate_operation_lem mul_gate_type a b =
      mod_if_needed_lem _ 2 ∙ ap (λ x. x %ℤ suc q) (mul_shortcut a b) ∙ %ℤ-*ℤ q a b
  apply_gate_operation_lem div_int_gate_type a b =
      mod_if_needed_lem _ 2 ∙ ap (λ x. x %ℤ suc q) (mul_shortcut a b) ∙ %ℤ-*ℤ q a b

  abbrev pub apply_type : GateType → ℤ → ℤ → ℤ
  apply_type t a b = apply_gate_operation g size_in_base2 t a b (pos (suc q))

  gate_step :
      (rho : ℕ → ℤ) (t : GateType) (x y : ℤ)
      → gate_op (apply_type add_gate_type) (apply_type mul_gate_type) rho (pos 0) t x y %ℤ suc q
        ≡ gate_op add_mod mul_mod (λ k. rho k %ℤ suc q) 0 t (x %ℤ suc q) (y %ℤ suc q)
  gate_step rho add_gate_type x y = apply_gate_operation_lem add_gate_type x y
  gate_step rho mul_gate_type x y = apply_gate_operation_lem mul_gate_type x y
  gate_step rho div_int_gate_type x y = apply_gate_operation_lem mul_gate_type x y

  -- The values of a circuit under applyGateOperation are, modulo the prime, the values that the
  -- circuit has in the arithmetic modulo the prime for the residues of its inputs, at every gate.
  pub value-residue :
      (desc : List LayerDescription) (rho : ℕ → ℤ) (l i : ℕ)
      → value (apply_type add_gate_type) (apply_type mul_gate_type) rho (pos 0) desc l i %ℤ suc q
        ≡ value add_mod mul_mod (λ k. rho k %ℤ suc q) 0 desc l i
  unfolding value
  value-residue desc rho zero i = refl
  value-residue desc rho (suc l) i = elim (Option-cases (get_elem? (layer_of desc (suc l)) i)) [
    | inl gone ↦ rw (gone, value, %ℤ-pos q 0) (mod-eq_of_lt {n = 0} {m = suc q} (omega arith))
    | inr (d, there) ↦
        rw (there, value)
          (gate_step rho (make_wiring d).type _ _
            ∙ ap₂ (gate_op add_mod mul_mod (λ k. rho k %ℤ suc q) 0 (make_wiring d).type)
                (value-residue desc rho l (make_wiring d).in1)
                (value-residue desc rho l (make_wiring d).in2))
  ]
