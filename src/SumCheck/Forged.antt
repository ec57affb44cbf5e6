-- ===== src/SumCheck/Forged.antt =====
-- Provers that know the number of the first round before they answer: requestPoly of
-- cmt_sumcheck_v.cpp sends it with the request for the round's polynomial.
use native.Mathlib.Nat.{add-mul-mod_self_left, zero-mod}
use ginger_zaatar_allspice.Prelude.{
  ℕ, zero, suc, ◌+◌, ◌*◌, ◌%◌, true, List, [], ◌∷◌, ◌++◌, map, ◌≡◌, refl, sym, ap, ap₂, subst, ◌∙◌,
  arith,
}
use ginger_zaatar_allspice.Prelude.Int.{ℤ, pos, pos_part, ◌%ℤ◌}
use ginger_zaatar_allspice.Prelude.Congr.{add-congruent, mul-congruent}
use ginger_zaatar_allspice.Gmp.{Gmp}
use ginger_zaatar_allspice.Gmp.Compare.{cmp_same}
use ginger_zaatar_allspice.Field.Residue.{Stands-pos}
use ginger_zaatar_allspice.Field.Extrapolate.Quadratic.{
  Poly, quadratic, IsSampled, no_sample, one_sample, value,
}
use ginger_zaatar_allspice.SumCheck.{
  Provers, CmtSumCheckVerifier, Progress, num_rounds, do_round, do_rounds, check_final,
  do_final_check, run,
}
use ginger_zaatar_allspice.SumCheck.Round.{
  layer_sum, sum_claim, final_sum-layer_sum, do_round-sampled,
}

-- The values of a polynomial at 0, 1 and 2, as a message holds them.
abbrev message : List Poly → List ℤ
message [] = []
message (c ∷ cs) =
    pos (c.c0) ∷ pos (c.c0 + c.c1 + c.c2) ∷ pos (c.c0 + 2 * c.c1 + 4 * c.c2) ∷ message cs

message-IsSampled : (g : Gmp) (s : ℕ) (cs : List Poly) → IsSampled g s cs (message cs)
message-IsSampled g s [] = no_sample
message-IsSampled g s (c ∷ cs) =
    one_sample
      (record {
        at_0 = Stands-pos g (2 * s) _;
        at_1 = Stands-pos g (2 * s) _;
        at_2 = Stands-pos g (2 * s) _;
      })
      (message-IsSampled g s cs)

abbrev zero_poly : Poly
zero_poly = record { c0 = 0; c1 = 0; c2 = 0 }

-- With u the inverse of 2 r - 1: a line that adds up to e at 0 and 1, and is 0 at r. As before,
-- 2 s takes the place of -1.
unfoldable pub forged : ℕ → ℕ → ℕ → ℕ → Poly
forged s u r e = let c0 = e * r * u in record { c0 = c0; c1 = e + 2 * (2 * s) * c0; c2 = 0 }

-- The polynomials of the message, given what was sent.
abbrev answer : ℕ → (ℕ → ℕ) → List ℕ → List ℤ → List Poly
answer s inverse claims [] = []
answer s inverse claims (r ∷ []) =
    map (λ (e : ℕ). forged s (inverse (pos_part r)) (pos_part r) e) claims
answer s inverse claims (r ∷ _ ∷ _) = map (λ (e : ℕ). zero_poly) claims

abbrev no_values : List ℕ → List ℤ
no_values [] = []
no_values (e ∷ claims) = pos 0 ∷ pos 0 ∷ no_values claims

-- The first message is forged, the others are 0, and so are the values for the layer below.
unfoldable pub forgers : ℕ → (ℕ → ℕ) → List ℕ → Provers
forgers s inverse claims = record {
  poly = λ sent. message (answer s inverse claims sent);
  vs = λ sent. no_values claims;
}

module _ (g : Gmp) (v : CmtSumCheckVerifier) (s : ℕ) where
  forged-sum :
      (u r e : ℕ)
      → let c = forged s u r e in (c.c0 + (c.c0 + c.c1 + c.c2)) % suc (2 * s) ≡ e % suc (2 * s)
  unfolding forged
  forged-sum u r e =
      ap (λ (k : ℕ). k % suc (2 * s)) {y = e + suc (2 * s) * (2 * (e * r * u))} (omega arith)
      ∙ add-mul-mod_self_left e (suc (2 * s)) (2 * (e * r * u))

  forged-value :
      (u r e : ℕ)
      → (2 * r + 2 * s) * u % suc (2 * s) ≡ 1 % suc (2 * s)
      → value g s r (forged s u r e) ≡ pos 0
  unfolding forged quadratic
  forged-value u r e h = ap pos (
      ap rem (omega arith)
      ∙ add-congruent p (e * r * u * (1 + 2 * (2 * s) * r)) _ (e * r * 1) _ refl
          (mul-congruent p (e * r) _ 1 ((2 * r + 2 * s) * u) refl (sym h))
      ∙ ap rem {y = 0 + p * (e * r * u * (1 + 2 * r))} (omega arith)
      ∙ add-mul-mod_self_left 0 p (e * r * u * (1 + 2 * r))
      ∙ zero-mod p)
    where
      p : ℕ
      p = suc (2 * s)

      rem : ℕ → ℕ
      rem k = k % suc (2 * s)

  zeros : List ℕ → List ℤ
  zeros claims = map (λ (e : ℕ). pos 0) claims

  claims-sums :
      (provers : Provers) (u r : ℕ) (claims : List ℕ)
      → map (λ (e : ℕ). pos (e % suc (2 * s))) claims
        ≡ map (sum_claim g v provers s) (map (λ (e : ℕ). forged s u r e) claims)
  claims-sums provers u r [] = refl
  claims-sums provers u r (e ∷ claims) =
      ap₂ (λ (x : ℤ) (xs : List ℤ). x ∷ xs) (ap pos (sym (forged-sum u r e)))
        (claims-sums provers u r claims)

  values-zeros :
      (u r : ℕ) (claims : List ℕ)
      → (2 * r + 2 * s) * u % suc (2 * s) ≡ 1 % suc (2 * s)
      → map (value g s r) (map (λ (e : ℕ). forged s u r e) claims) ≡ zeros claims
  unfolding zeros
  values-zeros u r [] h = refl
  values-zeros u r (e ∷ claims) h =
      ap₂ (λ (x : ℤ) (xs : List ℤ). x ∷ xs) (forged-value u r e h) (values-zeros u r claims h)

  zeros-sums :
      (provers : Provers) (claims : List ℕ)
      → zeros claims ≡ map (sum_claim g v provers s) (map (λ (e : ℕ). zero_poly) claims)
  unfolding zeros
  zeros-sums provers [] = refl
  zeros-sums provers (e ∷ claims) =
      ap₂ (λ (x : ℤ) (xs : List ℤ). x ∷ xs) (ap pos (sym (zero-mod (suc (2 * s)))))
        (zeros-sums provers claims)

  zeros-values :
      (r : ℕ) (claims : List ℕ)
      → map (value g s r) (map (λ (e : ℕ). zero_poly) claims) ≡ zeros claims
  unfolding zeros quadratic
  zeros-values r [] = refl
  zeros-values r (e ∷ claims) =
      ap₂ (λ (x : ℤ) (xs : List ℤ). x ∷ xs)
        (ap pos (ap (λ (k : ℕ). k % suc (2 * s)) {y = 0} (omega arith) ∙ zero-mod (suc (2 * s))))
        (zeros-values r claims)

  layer_sum-zero :
      (provers : Provers) (add_predr mul_predr betar : ℤ)
      → layer_sum g v provers s (pos 0) (pos 0) add_predr mul_predr betar ≡ 0
  unfolding layer_sum ◌%ℤ◌
  layer_sum-zero provers a m b =
      rw (zero-mod (suc (2 * s)))
        (ap (λ (k : ℕ). k % suc (2 * s)) {y = 0} (omega arith) ∙ zero-mod (suc (2 * s)))

  check_final-zeros :
      (provers : Provers) (claims : List ℕ) (add_predr mul_predr betar : ℤ)
      → v.prime ≡ pos (suc (2 * s))
      → check_final g v provers (zeros claims) (no_values claims) add_predr mul_predr betar ≡ true
  unfolding check_final zeros
  check_final-zeros provers [] a m b h = refl
  check_final-zeros provers (e ∷ claims) a m b h =
      rw
        (
          final_sum-layer_sum g v provers s (pos 0) (pos 0) a m b h,
          layer_sum-zero provers a m b,
          cmp_same g (pos 0),
        )
        (check_final-zeros provers claims a m b h)

  module _ (inverse : ℕ → ℕ) (claims : List ℕ) where
    abbrev cheaters : Provers
    cheaters = forgers s inverse claims

    -- The remaining rounds and the final check accept.
    abbrev EndsWell : (ℕ → ℕ) → ℕ → ℕ → Progress → Type 0
    EndsWell r n i start =
        let end = do_rounds g v cheaters (λ j. pos (r j)) n i start in
        (end.success ≡ true)
        × (do_final_check g v cheaters (cheaters.vs (end.rand)) (end.rand) (end.expected) ≡ true)

    later_answer :
        (x r : ℤ) (sent : List ℤ)
        → answer s inverse claims (x ∷ (sent ++ (r ∷ []))) ≡ map (λ (e : ℕ). zero_poly) claims
    later_answer x r [] = refl
    later_answer x r (y ∷ sent) = refl

    do_round-later :
        (r : ℕ) (x : ℤ) (sent : List ℤ)
        → v.prime ≡ pos (suc (2 * s))
        → do_round g v cheaters
            (pos r)
            (record { success = true; rand = x ∷ sent; expected = zeros claims })
          ≡ record { success = true; rand = x ∷ (sent ++ (pos r ∷ [])); expected = zeros claims }
    unfolding forgers
    do_round-later r x sent h =
        ap
          (λ (es : List ℤ).
            do_round g v cheaters (pos r)
              (record { success = true; rand = x ∷ sent; expected = es }))
          (zeros-sums cheaters claims)
        ∙ do_round-sampled g v cheaters s (map (λ (e : ℕ). zero_poly) claims) r (x ∷ sent) h (
            subst
              (λ (cs : List Poly). IsSampled g s (map (λ (e : ℕ). zero_poly) claims) (message cs))
              (sym (later_answer x (pos r) sent))
              (message-IsSampled g s (map (λ (e : ℕ). zero_poly) claims)))
        ∙ ap
            (λ (es : List ℤ). record {
              success = true;
              rand = x ∷ (sent ++ (pos r ∷ []));
              expected = es;
            })
            (zeros-values r claims)

    do_rounds-later :
        (r : ℕ → ℕ) (n i : ℕ) (x : ℤ) (sent : List ℤ)
        → v.prime ≡ pos (suc (2 * s))
        → EndsWell r n i (record { success = true; rand = x ∷ sent; expected = zeros claims })
    unfolding do_rounds do_final_check forgers
    do_rounds-later r zero i x sent h = (refl, check_final-zeros cheaters claims _ _ _ h)
    do_rounds-later r (suc n) i x sent h =
        subst (EndsWell r n (suc i)) (sym (do_round-later (r i) x sent h))
          (do_rounds-later r n (suc i) x (sent ++ (pos (r i) ∷ [])) h)

    do_round-first :
        (r : ℕ)
        → v.prime ≡ pos (suc (2 * s))
        → (2 * r + 2 * s) * inverse r % suc (2 * s) ≡ 1 % suc (2 * s)
        → do_round g v cheaters (pos r) (record {
          success = true;
          rand = [];
          expected = map (λ (e : ℕ). pos (e % suc (2 * s))) claims;
        })
          ≡ record { success = true; rand = pos r ∷ []; expected = zeros claims }
    unfolding forgers
    do_round-first r h k =
        rw (claims-sums cheaters (inverse r) r claims, sym (values-zeros (inverse r) r claims k))
          (do_round-sampled g v cheaters s (map (λ (e : ℕ). forged s (inverse r) r e) claims) r [] h
            (message-IsSampled g s (map (λ (e : ℕ). forged s (inverse r) r e) claims)))

    -- For an odd modulus and at least one round: the provers `forgers`, which are fixed before any
    -- number is drawn, make the verifier accept any claimed sums, whatever its layers are, when
    -- their function `inverse` inverts twice the first number drawn less 1.
    pub run-forged :
        (r : ℕ → ℕ) (n : ℕ)
        → v.prime ≡ pos (suc (2 * s))
        → num_rounds v ≡ suc n
        → v.true_sums ≡ map (λ (e : ℕ). pos (e % suc (2 * s))) claims
        → (2 * r 0 + 2 * s) * inverse (r 0) % suc (2 * s) ≡ 1 % suc (2 * s)
        → (run g v cheaters (λ i. pos (r i))).success ≡ true
    unfolding run
    run-forged r n h hn ht k =
        let (ok, final) =
          subst (EndsWell r n 1) (sym (do_round-first (r 0) h k))
            (do_rounds-later r n 1 (pos (r 0)) [] h) in
        rw (ht, hn, do_rounds, ok, final) refl
