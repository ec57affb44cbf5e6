-- ===== src/Field/Tests.antt =====
-- Runs of cmtgkr_env.cpp's functions modulo 97, and the witnesses of the theorems about them.
use ginger_zaatar_allspice.Prelude.{◌^◌, ◌≤◌, ◌<◌, ◌≡◌, refl, List, [], ◌∷◌, length, get_or, arith}
use ginger_zaatar_allspice.Prelude.Int.{ℤ, pos, negsuc, ◌%ℤ◌}
use ginger_zaatar_allspice.Gmp.Reference.{reference}
use ginger_zaatar_allspice.Field.Residue.{Stands}
use ginger_zaatar_allspice.Field.Extrapolate.{bary_precompute_weights3, bary_extrap, extrap3}
use ginger_zaatar_allspice.Field.Extrapolate.Quadratic.{
  Poly, quadratic, IsSample, no_sample, one_sample, bary_extrap-quadratic, extrap3-quadratic,
}
use ginger_zaatar_allspice.Field.{chi, compute_chi_all}
use ginger_zaatar_allspice.Field.Chi.{length-compute_chi_all, compute_chi_all-chi}
use ginger_zaatar_allspice.Field.Mle.{log2i, evaluate_beta, evaluate_v_chis, evaluate_v_i}
use ginger_zaatar_allspice.Field.Mle.Boolean.{corner, chi-corner, evaluate_beta-corner}
use ginger_zaatar_allspice.Field.Mle.Log.{log2i_least}
use ginger_zaatar_allspice.Field.Mle.Values.{evaluate_v_chis-evaluate_v_i, evaluate_v_i-corner}

abbrev point : List ℤ
point = pos 5 ∷ pos 11 ∷ []

abbrev table : List ℤ
table = pos 0 ∷ pos 0 ∷ pos 0 ∷ []

abbrev gates : List ℤ
gates = pos 7 ∷ negsuc 1 ∷ pos 0 ∷ []

log2i_gates : log2i 3 ≡ 2
unfolding log2i
log2i_gates = refl

length-compute_chi_all_example : length (compute_chi_all reference table point (pos 97)) ≡ 3
length-compute_chi_all_example = length-compute_chi_all reference (pos 97) table point

compute_chi_all-chi_example :
    get_or (compute_chi_all reference table point (pos 97)) 2 (pos 0)
    ≡ chi reference 2 point 2 (pos 97)
compute_chi_all-chi_example =
    compute_chi_all-chi reference (pos 97) table point 2 (omega arith) (omega arith)

chi-corner_example : chi reference 2 (corner 2 2) 2 (pos 97) ≡ pos 1
chi-corner_example = chi-corner reference 96 (omega arith) 2 2 2 (omega arith) (omega arith)

evaluate_beta-corner_example :
    evaluate_beta reference point (corner 2 3) 2 (pos 97) ≡ chi reference 3 point 2 (pos 97)
evaluate_beta-corner_example = evaluate_beta-corner reference 96 (omega arith) point 3

log2i_least_example : (0 < log2i 1) × (1 ≤ 2 ^ log2i 1) × (log2i 1 ≤ 1)
log2i_least_example = log2i_least 1 1 (omega arith) (omega arith) (omega arith)

evaluate_v_chis-evaluate_v_i_example :
    evaluate_v_chis reference gates (compute_chi_all reference table point (pos 97)) (pos 97)
    ≡ evaluate_v_i reference gates point (pos 97)
evaluate_v_chis-evaluate_v_i_example =
    evaluate_v_chis-evaluate_v_i reference 96 gates table point refl log2i_gates (omega arith)

evaluate_v_i-corner_example : evaluate_v_i reference gates (corner (log2i 3) 1) (pos 97) ≡ pos 95
unfolding ◌%ℤ◌
evaluate_v_i-corner_example = evaluate_v_i-corner reference 96 gates 1 (omega arith) (omega arith)

-- 3 + 95 x + 4 x² modulo 97, with a value at 1 that is not reduced.
abbrev sloped : Poly
sloped = record { c0 = 3; c1 = 95; c2 = 4 }

sloped-IsSample : IsSample reference 48 sloped (pos 3) (pos 102) (pos 15)
unfolding Stands ◌%ℤ◌
sloped-IsSample = record { at_0 = refl; at_1 = refl; at_2 = refl }

abbrev flat : Poly
flat = record { c0 = 6; c1 = 0; c2 = 0 }

flat-IsSample : IsSample reference 48 flat (pos 6) (pos 6) (pos 6)
unfolding Stands ◌%ℤ◌
flat-IsSample = record { at_0 = refl; at_1 = refl; at_2 = refl }

five : Stands reference 96 (pos 5) 5
unfolding Stands ◌%ℤ◌
five = refl

bary_extrap-quadratic_example :
    bary_extrap reference 2
      (pos 3 ∷ pos 102 ∷ pos 15 ∷ pos 6 ∷ pos 6 ∷ pos 6 ∷ [])
      (bary_precompute_weights3 reference (pos 5) (pos 97))
      (pos 97)
    ≡ pos 93 ∷ pos 6 ∷ []
unfolding quadratic
bary_extrap-quadratic_example =
    bary_extrap-quadratic reference 48 (sloped ∷ flat ∷ [])
      (pos 3 ∷ pos 102 ∷ pos 15 ∷ pos 6 ∷ pos 6 ∷ pos 6 ∷ []) (pos 5) 5 five
      (one_sample sloped-IsSample (one_sample flat-IsSample no_sample))

extrap3-quadratic_example :
    extrap3 reference (pos 3 ∷ pos 102 ∷ pos 15 ∷ []) (pos 5) (pos 97) ≡ pos 93
unfolding quadratic
extrap3-quadratic_example =
    extrap3-quadratic reference 48 sloped (pos 5) (pos 3) (pos 102) (pos 15) 5 five sloped-IsSample
