-- ===== src/Layer.antt =====
-- code/pepper/cmtgkr/circuit/circuit_layer.cpp: the operation of a gate on field elements, and the
-- wire predicates of a layer. A wiring function of the layer, where one is set, is a parameter.
-- modIfNeeded (code/pepper/common/utility.cpp) measures its argument with mpz_sizeinbase.
pub mod Gates
pub mod Wires
mod Tests
use ginger_zaatar_allspice.Prelude.{
  ℕ, suc, ◌+◌, ◌-◌, ◌*◌, Bool, true, false, not, ◌&&◌, ◌||◌, List, [], ◌∷◌, Option, none, some, leb,
  if◌then◌else◌, length, get_or, take, drop, replicate,
}
use ginger_zaatar_allspice.Prelude.Int.{ℤ, pos}
use ginger_zaatar_allspice.Gmp.{Gmp, is_zero}
use ginger_zaatar_allspice.Field.{modmult, compute_chi_all}
use ginger_zaatar_allspice.Field.Mle.{log2i}
use ginger_zaatar_allspice.Pws.Circuit.{
  GateType, add_gate_type, mul_gate_type, div_int_gate_type, GateWiring,
}

-- gateType == type, for the enumeration.
abbrev pub same_type : GateType → GateType → Bool
same_type add_gate_type add_gate_type = true
same_type mul_gate_type mul_gate_type = true
same_type div_int_gate_type div_int_gate_type = true
same_type _ _ = false

unfoldable pub should_be_treated_as : GateWiring → GateType → Bool
should_be_treated_as w t =
    same_type t w.type
    || (same_type t mul_gate_type && same_type w.type div_int_gate_type)
    || (same_type t div_int_gate_type && same_type w.type mul_gate_type)

-- mle_fn: the vector of random values, then mi, mip1, ni, nip1 and the prime.
abbrev pub MleFn : Type 0
MleFn = List ℤ → ℕ → ℕ → ℕ → ℕ → ℤ → ℤ

module _ (g : Gmp) where
  open g use {mpz_add, mpz_mul, mpz_mod, mpz_sgn}

  unfoldable pub mod_if_needed : (ℤ → ℕ) → ℤ → ℤ → ℕ → ℤ
  mod_if_needed size_in_base2 val prime slack =
      if leb (slack * size_in_base2 prime - 1) (size_in_base2 val) then mpz_mod val prime else val

  unfoldable pub apply_gate_operation : (ℤ → ℕ) → GateType → ℤ → ℤ → ℤ → ℤ
  unfolding mod_if_needed
  apply_gate_operation size_in_base2 add_gate_type op1 op2 prime =
      mod_if_needed size_in_base2
        (if is_zero (mpz_sgn op1)
          then op2
          else if is_zero (mpz_sgn op2)
          then op1
          else mpz_add op1 op2)
        prime 2
  apply_gate_operation size_in_base2 mul_gate_type op1 op2 prime =
      mod_if_needed size_in_base2
        (if is_zero (mpz_sgn op1) || is_zero (mpz_sgn op2) then pos 0 else mpz_mul op1 op2) prime 2
  apply_gate_operation size_in_base2 div_int_gate_type op1 op2 prime =
      mod_if_needed size_in_base2
        (if is_zero (mpz_sgn op1) || is_zero (mpz_sgn op2) then pos 0 else mpz_mul op1 op2) prime 2

  -- chi_p(i) * chi_w1(in1) * chi_w2(in2), for gate `i`.
  unfoldable pub predicate_term : List ℤ → List ℤ → List ℤ → ℕ → GateWiring → ℤ → ℤ
  predicate_term p_chi w1_chi w2_chi i w prime =
      modmult g (mpz_mul (get_or p_chi i (pos 0)) (get_or w1_chi w.in1 (pos 0)))
        (get_or w2_chi w.in2 (pos 0)) prime

  -- One predicate's part of a round: nothing if a wiring function computed it.
  unfoldable pub predicate_step : Bool → GateType → ℤ → GateWiring → ℤ → ℤ
  unfolding should_be_treated_as
  predicate_step is_done t predr w term =
      if not is_done && should_be_treated_as w t then mpz_add predr term else predr

  -- Over the gates that are left, the next of them being gate `i`.
  unfoldable pub predicate_loop :
      Bool → Bool → List ℤ → List ℤ → List ℤ → ℤ → ℤ × ℤ → ℕ → List GateWiring → ℤ × ℤ
  unfolding predicate_term predicate_step
  predicate_loop add_done mul_done p_chi w1_chi w2_chi prime preds i [] = preds
  predicate_loop add_done mul_done p_chi w1_chi w2_chi prime (a, m) i (w ∷ gates) =
      let term = predicate_term p_chi w1_chi w2_chi i w prime in
      predicate_loop add_done mul_done p_chi w1_chi w2_chi prime
        (
          predicate_step add_done add_gate_type a w term,
          predicate_step mul_done mul_gate_type m w term,
        )
        (suc i) gates

  abbrev is_set : Option MleFn → Bool
  is_set none = false
  is_set (some f) = true

  abbrev apply_fn : Option MleFn → List ℤ → ℕ → ℕ → ℕ → ℕ → ℤ → ℤ
  apply_fn none rand mi mip1 ni nip1 prime = pos 0
  apply_fn (some f) rand mi mip1 ni nip1 prime = f rand mi mip1 ni nip1 prime

  unfoldable pub compute_wire_predicates :
      Option MleFn → Option MleFn → List GateWiring → List ℤ → ℕ → ℤ → ℤ × ℤ
  unfolding log2i compute_chi_all predicate_loop
  compute_wire_predicates add_fn mul_fn gates rand input_layer_size prime =
      let mi = log2i (length gates) in
      let ni = length gates in
      let mip1 = log2i input_layer_size in
      let nip1 = input_layer_size in
      let add_predr = apply_fn add_fn rand mi mip1 ni nip1 prime in
      let mul_predr = apply_fn mul_fn rand mi mip1 ni nip1 prime in
      if is_set add_fn && is_set mul_fn
      then (add_predr, mul_predr)
      else let p_chi = compute_chi_all g (replicate ni (pos 0)) (take mi rand) prime in
        let w1_chi = compute_chi_all g (replicate nip1 (pos 0)) (take mip1 (drop mi rand)) prime in
        let w2_chi =
          compute_chi_all g (replicate nip1 (pos 0)) (take mip1 (drop (mi + mip1) rand)) prime in
        let (a, m) =
          predicate_loop (is_set add_fn) (is_set mul_fn) p_chi w1_chi w2_chi prime
            (add_predr, mul_predr) 0 gates in
        (if is_set add_fn then a else mpz_mod a prime, if is_set mul_fn then m else mpz_mod m prime)
