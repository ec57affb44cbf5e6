-- ===== src/SumCheck.antt =====
-- The verifier's half of the sum-check protocol, code/pepper/cmtgkr/base/cmt_sumcheck_v.cpp.
pub mod Polynomial
pub mod Round
pub mod Honest
pub mod Forged
mod Tests
use ginger_zaatar_allspice.Prelude.{
  ℕ, zero, suc, ◌+◌, ◌-◌, ◌*◌, Bool, true, false, ◌&&◌, Option, List, [], ◌∷◌, ◌++◌, length, get_or,
  drop, replicate, if◌then◌else◌,
}
use ginger_zaatar_allspice.Prelude.Int.{ℤ, pos}
use ginger_zaatar_allspice.Gmp.{Gmp, is_zero}
use ginger_zaatar_allspice.Field.{modmult, modadd}
use ginger_zaatar_allspice.Field.Mle.{log2i, evaluate_beta}
use ginger_zaatar_allspice.Field.Extrapolate.{bary_precompute_weights3, bary_extrap}
use ginger_zaatar_allspice.Pws.Circuit.{GateWiring}
use ginger_zaatar_allspice.Layer.{MleFn, compute_wire_predicates}

-- The provers at the other end of the connections: what `gather` collects from them, for each
-- instance in turn, given the random numbers that they have been sent.
pub record Provers : Type 0 where
  pub poly : List ℤ → List ℤ
  pub vs : List ℤ → List ℤ

-- The layers enter by the members that the functions below read.
pub record CmtSumCheckVerifier : Type 0 where
  pub add_fn : Option MleFn
  pub mul_fn : Option MleFn
  pub out_layer : List GateWiring
  pub in_size : ℕ
  pub z : List ℤ
  pub true_sums : List ℤ
  pub prime : ℤ

-- `rand` holds the numbers drawn so far; `expected` is the local variable of `run`.
pub record Progress : Type 0 where
  pub success : Bool
  pub rand : List ℤ
  pub expected : List ℤ

pub record CmtSumCheckResults : Type 0 where
  pub success : Bool
  pub vs : List ℤ
  pub rand : List ℤ

abbrev pub poly_size : ℕ
poly_size = 3

unfoldable pub num_rounds : CmtSumCheckVerifier → ℕ
num_rounds v = log2i (length (v.out_layer)) + 2 * log2i (v.in_size)

module _ (g : Gmp) (v : CmtSumCheckVerifier) (provers : Provers) where
  open g use {mpz_add, mpz_mul, mpz_addmul, mpz_cmp}

  -- The loop over the instances, each with its three values in the message.
  unfoldable pub check_sums : List ℤ → List ℤ → Bool
  unfolding modadd
  check_sums [] round_poly = true
  check_sums (e ∷ expected) round_poly =
      let tmp = modadd g (get_or round_poly 0 (pos 0)) (get_or round_poly 1 (pos 0)) (v.prime) in
      is_zero (mpz_cmp e tmp) && check_sums expected (drop poly_size round_poly)

  -- `new_rand` is what `prng.get_random` stores; it goes out with the request for the polynomial.
  unfoldable pub do_round : ℤ → Progress → Progress
  unfolding check_sums bary_extrap bary_precompute_weights3
  do_round new_rand s =
      let rand = s.rand ++ (new_rand ∷ []) in
      let round_poly = provers.poly rand in
      if check_sums (s.expected) round_poly
      then record {
        success = true;
        rand = rand;
        expected =
            bary_extrap g (length (s.expected)) round_poly
              (bary_precompute_weights3 g new_rand (v.prime)) (v.prime);
      }
      else record { success = false; rand = rand; expected = s.expected }

  -- The loop over the rounds, of which `count` are left; `draw` is the generator's output.
  unfoldable pub do_rounds : (ℕ → ℤ) → ℕ → ℕ → Progress → Progress
  unfolding do_round
  do_rounds draw zero i s = s
  do_rounds draw (suc count) i s =
      do_rounds draw count (suc i) (if s.success then do_round (draw i) s else s)

  -- The sum that the final check compares with the expected value of an instance.
  unfoldable pub final_sum : ℤ → ℤ → ℤ → ℤ → ℤ → ℤ
  unfolding modmult
  final_sum v1 v2 add_predr mul_predr betar =
      let fz = mpz_addmul (pos 0) (mpz_add v1 v2) add_predr in
      let fz = mpz_addmul fz (mpz_mul v1 v2) mul_predr in modmult g fz betar (v.prime)

  -- The loop over the instances of the final check.
  unfoldable pub check_final : List ℤ → List ℤ → ℤ → ℤ → ℤ → Bool
  unfolding final_sum
  check_final [] vs add_predr mul_predr betar = true
  check_final (e ∷ expected) vs add_predr mul_predr betar =
      is_zero (
        mpz_cmp e (final_sum (get_or vs 0 (pos 0)) (get_or vs 1 (pos 0)) add_predr mul_predr betar))
      && check_final expected (drop 2 vs) add_predr mul_predr betar

  unfoldable pub do_final_check : List ℤ → List ℤ → List ℤ → Bool
  unfolding check_final compute_wire_predicates evaluate_beta
  do_final_check vs rand expected =
      let (add_predr, mul_predr) =
        compute_wire_predicates g (v.add_fn) (v.mul_fn) (v.out_layer) rand (v.in_size) (v.prime) in
      let betar = evaluate_beta g (v.z) rand (log2i (length (v.out_layer))) (v.prime) in
      check_final expected vs add_predr mul_predr betar

  unfoldable pub run : (ℕ → ℤ) → CmtSumCheckResults
  unfolding do_rounds do_final_check num_rounds
  run draw =
      let start : Progress = record { success = true; rand = []; expected = v.true_sums } in
      let s = do_rounds draw (num_rounds v) 0 start in
      if s.success
      then (let vs = provers.vs (s.rand) in
          record { success = do_final_check vs (s.rand) (s.expected); vs = vs; rand = s.rand })
      else record {
        success = false;
        vs = replicate (2 * length (v.true_sums)) (pos 0);
        rand = s.rand ++ replicate (num_rounds v - length (s.rand)) (pos 0);
      }
