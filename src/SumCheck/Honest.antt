-- ===== src/SumCheck/Honest.antt =====
-- Provers that follow the protocol pass every check of cmt_sumcheck_v.cpp.
use ginger_zaatar_allspice.Prelude.{
  ℕ, zero, suc, ◌*◌, ◌%◌, true, List, [], ◌∷◌, ◌++◌, map, length, get_or, drop, ◌≡◌, refl, sym, ap,
  ap₂, subst,
}
use ginger_zaatar_allspice.Prelude.Int.{ℤ, pos}
use ginger_zaatar_allspice.Gmp.{Gmp}
use ginger_zaatar_allspice.Gmp.Compare.{cmp_same}
use ginger_zaatar_allspice.Field.Mle.{log2i, evaluate_beta}
use ginger_zaatar_allspice.Field.Extrapolate.Quadratic.{IsSampled, value}
use ginger_zaatar_allspice.Layer.{compute_wire_predicates}
use ginger_zaatar_allspice.SumCheck.{
  Provers, CmtSumCheckVerifier, Progress, num_rounds, do_round, do_rounds, check_final,
  do_final_check, run,
}
use ginger_zaatar_allspice.SumCheck.Round.{
  layer_sum, sum_claim, final_sum-layer_sum, do_round-sampled,
}
use ginger_zaatar_allspice.SumCheck.Polynomial.{
  Multi, bind, total, round_poly, total-bind, total-suc,
}

module _ (g : Gmp) (v : CmtSumCheckVerifier) (provers : Provers) (s : ℕ) where
  -- What an instance of a polynomial in n variables claims.
  abbrev claim : (n : ℕ) → Multi n → ℤ
  claim n m = pos (total n m % suc (2 * s))

  claims-sums :
      (n : ℕ) (ms : List (Multi (suc n)))
      → map (claim (suc n)) ms ≡ map (sum_claim g v provers s) (map (round_poly n) ms)
  claims-sums n [] = refl
  claims-sums n (m ∷ ms) =
      ap₂ (λ (x : ℤ) (xs : List ℤ). x ∷ xs) (ap (λ (k : ℕ). pos (k % suc (2 * s))) (total-suc n m))
        (claims-sums n ms)

  values-claims :
      (n r : ℕ) (ms : List (Multi (suc n)))
      → map (value g s r) (map (round_poly n) ms) ≡ map (claim n) (map (bind n r) ms)
  values-claims n r [] = refl
  values-claims n r (m ∷ ms) =
      ap₂ (λ (x : ℤ) (xs : List ℤ). x ∷ xs)
        (ap (λ (k : ℕ). pos (k % suc (2 * s))) (sym (total-bind n r m))) (values-claims n r ms)

  -- A round with an honest message turns the claims about sums into claims about the polynomials
  -- with their first variable bound.
  do_round-honest :
      (n r : ℕ) (ms : List (Multi (suc n))) (sent : List ℤ)
      → v.prime ≡ pos (suc (2 * s))
      → IsSampled g s (map (round_poly n) ms) (provers.poly (sent ++ (pos r ∷ [])))
      → do_round g v provers
          (pos r)
          (record { success = true; rand = sent; expected = map (claim (suc n)) ms })
        ≡ record {
          success = true;
          rand = sent ++ (pos r ∷ []);
          expected = map (claim n) (map (bind n r) ms);
        }
  do_round-honest n r ms sent h hs =
      rw (claims-sums n ms, sym (values-claims n r ms))
        (do_round-sampled g v provers s (map (round_poly n) ms) r sent h hs)

  -- The values that the provers give for the layer below lead to the values of the polynomials.
  abbrev pub IsFinal : List (Multi zero) → List ℤ → ℤ → ℤ → ℤ → Type 0
  IsFinal [] vs add_predr mul_predr betar = Unit
  IsFinal (m ∷ ms) vs add_predr mul_predr betar =
      (layer_sum g v provers s (get_or vs 0 (pos 0)) (get_or vs 1 (pos 0)) add_predr mul_predr betar
        ≡ m % suc (2 * s))
      × IsFinal ms (drop 2 vs) add_predr mul_predr betar

  -- The provers are honest about the polynomials from round i on, given what was sent: r holds the
  -- numbers that the verifier draws.
  abbrev pub IsHonest : (ℕ → ℕ) → (n i : ℕ) → List (Multi n) → List ℤ → Type 0
  IsHonest r zero i ms sent =
      let (add_predr, mul_predr) =
        compute_wire_predicates g (v.add_fn) (v.mul_fn) (v.out_layer) sent (v.in_size) (v.prime) in
      IsFinal ms (provers.vs sent) add_predr mul_predr
        (evaluate_beta g (v.z) sent (log2i (length (v.out_layer))) (v.prime))
  IsHonest r (suc n) i ms sent =
      IsSampled g s (map (round_poly n) ms) (provers.poly (sent ++ (pos (r i) ∷ [])))
      × IsHonest r n (suc i) (map (bind n (r i)) ms) (sent ++ (pos (r i) ∷ []))

  check_final_complete :
      (ms : List (Multi zero)) (vs : List ℤ) (add_predr mul_predr betar : ℤ)
      → v.prime ≡ pos (suc (2 * s))
      → IsFinal ms vs add_predr mul_predr betar
      → check_final g v provers (map (claim zero) ms) vs add_predr mul_predr betar ≡ true
  unfolding check_final total
  check_final_complete [] vs a m b h hf = refl
  check_final_complete (x ∷ ms) vs a m b h (e, hf) =
      rw
        (
          final_sum-layer_sum g v provers s (get_or vs 0 (pos 0)) (get_or vs 1 (pos 0)) a m b h,
          e,
          cmp_same g (pos (x % suc (2 * s))),
        )
        (check_final_complete ms (drop 2 vs) a m b h hf)

  -- The remaining rounds and the final check accept.
  abbrev EndsWell : (ℕ → ℕ) → ℕ → ℕ → Progress → Type 0
  EndsWell r n i start =
      let end = do_rounds g v provers (λ j. pos (r j)) n i start in
      (end.success ≡ true)
      × (do_final_check g v provers (provers.vs (end.rand)) (end.rand) (end.expected) ≡ true)

  -- All the rounds, and then the final check.
  do_rounds-honest :
      (r : ℕ → ℕ) (n i : ℕ) (ms : List (Multi n)) (sent : List ℤ)
      → v.prime ≡ pos (suc (2 * s))
      → IsHonest r n i ms sent
      → EndsWell r n i (record { success = true; rand = sent; expected = map (claim n) ms })
  unfolding do_rounds do_final_check
  do_rounds-honest r zero i ms sent h hf =
      (refl, check_final_complete ms (provers.vs sent) _ _ _ h hf)
  do_rounds-honest r (suc n) i ms sent h (hs, hr) =
      subst (EndsWell r n (suc i)) (sym (do_round-honest n (r i) ms sent h hs))
        (do_rounds-honest r n (suc i) (map (bind n (r i)) ms) (sent ++ (pos (r i) ∷ [])) h hr)

  -- For an odd modulus: if each claimed sum is the sum of a polynomial of degree at most two in each
  -- variable over the corners, one variable for each round, and the provers answer each request
  -- with the polynomials of the round and at last with values that lead to the values of the
  -- polynomials, then the verifier accepts, whatever numbers it draws.
  pub run_complete :
      (r : ℕ → ℕ) (ms : List (Multi (num_rounds v)))
      → v.prime ≡ pos (suc (2 * s))
      → v.true_sums ≡ map (λ m. pos (total (num_rounds v) m % suc (2 * s))) ms
      → IsHonest r (num_rounds v) 0 ms []
      → (run g v provers (λ i. pos (r i))).success ≡ true
  unfolding run
  run_complete r ms h ht hh =
      let (ok, final) = do_rounds-honest r (num_rounds v) 0 ms [] h hh in rw (ht, ok, final) refl
