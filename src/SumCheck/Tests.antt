-- ===== src/SumCheck/Tests.antt =====
-- Runs of cmt_sumcheck_v.cpp modulo 97 on a layer of one addition above two gates, and the
-- witnesses of the theorems about them.
use ginger_zaatar_allspice.Prelude.{ℕ, ◌+◌, ◌*◌, List, [], ◌∷◌, ◌≡◌, refl, true, none}
use ginger_zaatar_allspice.Prelude.Int.{ℤ, pos, ◌%ℤ◌, ◌+ℤ◌, ◌*ℤ◌, ◌-ℤ◌}
use ginger_zaatar_allspice.Gmp.Reference.{reference, mod_pos}
use ginger_zaatar_allspice.Field.Residue.{Stands}
use ginger_zaatar_allspice.Field.Extrapolate.Quadratic.{no_sample, one_sample}
use ginger_zaatar_allspice.Field.Mle.{log2i, ceil_log2, evaluate_beta, mulmle}
use ginger_zaatar_allspice.Field.{modmult, one_sub}
use ginger_zaatar_allspice.Layer.{compute_wire_predicates}
use ginger_zaatar_allspice.Pws.Circuit.{add_gate_type}
use ginger_zaatar_allspice.SumCheck.{Provers, CmtSumCheckVerifier, num_rounds, run}
use ginger_zaatar_allspice.SumCheck.Polynomial.{Multi, bind, total, round_poly}
use ginger_zaatar_allspice.SumCheck.Round.{layer_sum}
use ginger_zaatar_allspice.SumCheck.Honest.{IsHonest, run_complete}
use ginger_zaatar_allspice.SumCheck.Forged.{forgers, run-forged}

-- The gates below have the values 3 and 5, so that the gate has the value 8, and its extension is
-- 8 (1 - 7) at 7, which is 49.
abbrev verifier : ℤ → CmtSumCheckVerifier
verifier claimed = record {
  add_fn = none;
  mul_fn = none;
  out_layer = record { type = add_gate_type; in1 = 0; in2 = 1 } ∷ [];
  in_size = 2;
  z = pos 7 ∷ [];
  true_sums = claimed ∷ [];
  prime = pos 97;
}

abbrev drawn : ℕ → ℕ
drawn i = 5 + 6 * i

abbrev reply : List ℤ → List ℤ
reply (p ∷ []) = pos 49 ∷ pos 0 ∷ pos 34 ∷ []
reply (p ∷ x ∷ []) = pos 52 ∷ pos 0 ∷ pos 19 ∷ []
reply _ = pos 0 ∷ pos 87 ∷ pos 11 ∷ []

abbrev honest : Provers
honest = record { poly = reply; vs = λ sent. pos 25 ∷ pos 37 ∷ [] }

-- (13 p - 6) (1 - p) (1 - x) y (6 + 2 x + 2 y)
abbrev wiring : Multi 3
wiring = (
  ((0, 546, 182), (0, 8463, 8645), (0, 8645, 0)),
  ((0, 114, 38), (0, 1767, 1805), (0, 1805, 0)),
  ((0, 504, 168), (0, 7812, 7980), (0, 7980, 0)),
)

honest-IsHonest : IsHonest reference (verifier (pos 49)) honest 48 drawn 3 0 (wiring ∷ []) []
unfolding Stands ◌%ℤ◌ round_poly bind layer_sum compute_wire_predicates mod_pos ◌+ℤ◌ modmult ◌*ℤ◌
    one_sub ◌-ℤ◌ evaluate_beta mulmle
honest-IsHonest = (
  one_sample (record { at_0 = refl; at_1 = refl; at_2 = refl }) no_sample,
  (
    one_sample (record { at_0 = refl; at_1 = refl; at_2 = refl }) no_sample,
    (one_sample (record { at_0 = refl; at_1 = refl; at_2 = refl }) no_sample, (refl, tt)),
  ),
)

run_complete_example :
    (run reference (verifier (pos 49)) honest (λ i. pos (drawn i))).success ≡ true
unfolding num_rounds log2i ceil_log2 total
run_complete_example =
    run_complete reference (verifier (pos 49)) honest 48 drawn (wiring ∷ []) refl refl
      honest-IsHonest

-- The false claim that the gate has the value 50.
run-forged_example :
    (run reference
      (verifier (pos 50))
      (forgers 48 (λ r. 54) (50 ∷ []))
      (λ i. pos (drawn i))).success
    ≡ true
unfolding num_rounds log2i ceil_log2
run-forged_example =
    run-forged reference (verifier (pos 50)) 48 (λ r. 54) (50 ∷ []) drawn 2 refl refl refl refl
