-- ===== src/SumCheck/Round.antt =====
-- One round and the final check of cmt_sumcheck_v.cpp, when the message of the round holds the
-- values of polynomials of degree two.
use ginger_zaatar_allspice.Prelude.{
  ℕ, suc, ◌+◌, ◌*◌, ◌%◌, true, List, [], ◌∷◌, ◌++◌, map, length, ◌≡◌, refl, sym, ap, subst, arith,
}
use ginger_zaatar_allspice.Prelude.Int.{ℤ, pos, ◌%ℤ◌}
use ginger_zaatar_allspice.Prelude.Congr.{≈-%ℤ}
use ginger_zaatar_allspice.Gmp.{Gmp}
use ginger_zaatar_allspice.Gmp.Compare.{cmp_same}
use ginger_zaatar_allspice.Field.{modadd, modmult}
use ginger_zaatar_allspice.Field.Residue.{
  Stands, Stands-pos, Stands-mpz_add, Stands-mpz_mul, Stands-mpz_addmul, mpz_mod-Stands,
}
use ginger_zaatar_allspice.Field.Extrapolate.Quadratic.{
  Poly, IsSampled, no_sample, one_sample, value, bary_extrap-quadratic,
}
use ginger_zaatar_allspice.SumCheck.{Provers, CmtSumCheckVerifier, check_sums, do_round, final_sum}

module _ (g : Gmp) (v : CmtSumCheckVerifier) (provers : Provers) (s : ℕ) where
  -- The residue of the layer's polynomial, from the values that the provers give for the two
  -- points of the layer below.
  unfoldable pub layer_sum : ℤ → ℤ → ℤ → ℤ → ℤ → ℕ
  layer_sum v1 v2 add_predr mul_predr betar =
      let p = suc (2 * s) in
      ((v1 %ℤ p + v2 %ℤ p) * (add_predr %ℤ p) + v1 %ℤ p * (v2 %ℤ p) * (mul_predr %ℤ p))
      * (betar %ℤ p)
      % p

  Stands-self : (w : ℤ) → Stands g (2 * s) w (w %ℤ suc (2 * s))
  unfolding Stands ◌%ℤ◌
  Stands-self w = sym (≈-%ℤ (2 * s) w)

  -- The first product is added to 0.
  Stands-first :
      (w u : ℤ) (e f : ℕ)
      → Stands g (2 * s) w e
      → Stands g (2 * s) u f
      → Stands g (2 * s) (g.mpz_addmul (pos 0) w u) (e * f)
  Stands-first w u e f hw hu =
      subst (λ (k : ℕ). Stands g (2 * s) (g.mpz_addmul (pos 0) w u) k) {x = 0 + e * f} (omega arith)
        (Stands-mpz_addmul g (2 * s) (pos 0) w u 0 e f (Stands-pos g (2 * s) 0) hw hu)

  pub final_sum-layer_sum :
      (v1 v2 add_predr mul_predr betar : ℤ)
      → v.prime ≡ pos (suc (2 * s))
      → final_sum g v provers v1 v2 add_predr mul_predr betar
        ≡ pos (layer_sum v1 v2 add_predr mul_predr betar)
  unfolding final_sum layer_sum modmult
  final_sum-layer_sum v1 v2 a m b h = rw h (
      mpz_mod-Stands g (2 * s) _ _ (
        Stands-mpz_mul g (2 * s) _ b _ _
          (Stands-mpz_addmul g (2 * s) _ _ m _ _ _
            (Stands-first _ a _ _
              (Stands-mpz_add g (2 * s) v1 v2 _ _ (Stands-self v1) (Stands-self v2))
              (Stands-self a))
            (Stands-mpz_mul g (2 * s) v1 v2 _ _ (Stands-self v1) (Stands-self v2)) (Stands-self m))
          (Stands-self b)))

  -- What an instance with this polynomial claims before the round.
  abbrev pub sum_claim : Poly → ℤ
  sum_claim c = pos ((c.c0 + (c.c0 + c.c1 + c.c2)) % suc (2 * s))

  check_sums_complete :
      (cs : List Poly) (vec : List ℤ)
      → v.prime ≡ pos (suc (2 * s))
      → IsSampled g s cs vec
      → check_sums g v provers (map sum_claim cs) vec ≡ true
  unfolding check_sums modadd
  check_sums_complete _ _ h no_sample = refl
  check_sums_complete (c ∷ cs) (v0 ∷ v1 ∷ v2 ∷ rest) h (one_sample at hs) =
      rw
        (
          h,
          mpz_mod-Stands g (2 * s) (g.mpz_add v0 v1) _
              (Stands-mpz_add g (2 * s) v0 v1 _ _ (at.at_0) (at.at_1)),
          cmp_same g (pos ((c.c0 + (c.c0 + c.c1 + c.c2)) % suc (2 * s))),
        )
        (check_sums_complete cs rest h hs)

  length-claims : (cs : List Poly) → length (map sum_claim cs) ≡ length cs
  length-claims [] = refl
  length-claims (c ∷ cs) = ap suc (length-claims cs)

  -- A round with a message of the polynomials that the claims are the sums of leaves their values.
  pub do_round-sampled :
      (cs : List Poly) (r : ℕ) (sent : List ℤ)
      → v.prime ≡ pos (suc (2 * s))
      → IsSampled g s cs (provers.poly (sent ++ (pos r ∷ [])))
      → do_round g v provers
          (pos r)
          (record { success = true; rand = sent; expected = map sum_claim cs })
        ≡ record { success = true; rand = sent ++ (pos r ∷ []); expected = map (value g s r) cs }
  unfolding do_round
  do_round-sampled cs r sent h hs =
      rw
        (
          check_sums_complete cs (provers.poly (sent ++ (pos r ∷ []))) h hs,
          h,
          length-claims cs,
          bary_extrap-quadratic g s cs (provers.poly (sent ++ (pos r ∷ []))) (pos r) r
              (Stands-pos g (2 * s) r) hs,
        )
        refl
