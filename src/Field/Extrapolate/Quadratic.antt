-- ===== src/Field/Extrapolate/Quadratic.antt =====
-- The interpolation of polynomials of degree two is exact.
use native.Mathlib.Nat.{add-mul-mod_self_left, zero-mod, mod-suc}
use ginger_zaatar_allspice.Prelude.{
  ℕ, suc, ◌+◌, ◌-◌, ◌*◌, ◌/◌, ◌%◌, List, [], ◌∷◌, ◌≡◌, refl, sym, ap, ◌∙◌, arith, subst, map,
  length, ap₂,
}
use ginger_zaatar_allspice.Prelude.Int.{ℤ, pos, negsuc, ◌+ℤ◌, ◌%ℤ◌}
use ginger_zaatar_allspice.Prelude.Congr.{cancel_unit}
use ginger_zaatar_allspice.Gmp.{Gmp}
use ginger_zaatar_allspice.Field.{modmult}
use ginger_zaatar_allspice.Field.Residue.{
  Stands, Stands-pos, Stands-mpz_add, Stands-mpz_mul, Stands-mpz_sub, Stands-modmult,
  mpz_mod-Stands,
}
use ginger_zaatar_allspice.Field.Extrapolate.{
  half_of, bary_precompute_weights3, weigh, bary_extrap, extrap3,
}

-- A polynomial of degree at most two, by its coefficients.
pub record Poly : Type 0 where
  pub c0 : ℕ
  pub c1 : ℕ
  pub c2 : ℕ

-- What the weights and the values add up to, with h for a half.
unfoldable pub weighed : ℕ → ℕ → ℕ → ℕ → ℕ → ℕ → ℕ
weighed q h r y0 y1 y2 =
    0
    + (r + q * 1) * (r + q * 2) * h * y0
    + (r + q * 2) * (r + q * 0) * q * y1
    + (r + q * 0) * (r + q * 1) * h * y2

unfoldable pub quadratic : ℕ → ℕ → ℕ → ℕ → ℕ
quadratic c0 c1 c2 r = c0 + c1 * r + c2 * (r * r)

weighed_twice :
    (s r c0 c1 c2 : ℕ)
    → let q = 2 * s in
      weighed q (s + 1) r c0 (c0 + c1 + c2) (c0 + 2 * c1 + 4 * c2) * 2
        + suc q * (2 * c0 + 2 * (c1 * r))
      ≡ quadratic c0 c1 c2 r * 2
        + suc q
          * ((2 * (r * r) + 4 * (q * r)) * c0
              + 2 * (q * c0)
              + 2 * (r * r) * c1
              + 4 * (q * r) * c1
              + (2 * (r * r) + 4 * (q * r)) * c2
              + (r + q) * (r + q * 2) * c0
              + r * (r + q) * (c0 + 2 * c1 + 4 * c2))
unfolding weighed quadratic
weighed_twice s r c0 c1 c2 = omega arith

-- Modulo an odd number p, the sum is the value of the polynomial.
pub weighed-quadratic :
    (s r c0 c1 c2 : ℕ)
    → weighed (2 * s) (s + 1) r c0 (c0 + c1 + c2) (c0 + 2 * c1 + 4 * c2) % suc (2 * s)
      ≡ quadratic c0 c1 c2 r % suc (2 * s)
weighed-quadratic s r c0 c1 c2 =
    cancel_unit (suc (2 * s)) 2 (s + 1)
      (weighed (2 * s) (s + 1) r c0 (c0 + c1 + c2) (c0 + 2 * c1 + 4 * c2)) (quadratic c0 c1 c2 r)
      (ap (λ (k : ℕ). k % suc (2 * s)) {x = 2 * (s + 1)} {y = 1 + suc (2 * s) * 1} (omega arith)
        ∙ add-mul-mod_self_left 1 (suc (2 * s)) 1)
      (sym (add-mul-mod_self_left _ (suc (2 * s)) (2 * c0 + 2 * (c1 * r)))
        ∙ ap (λ (k : ℕ). k % suc (2 * s)) (weighed_twice s r c0 c1 c2)
        ∙ add-mul-mod_self_left (quadratic c0 c1 c2 r * 2) (suc (2 * s)) _)

module _ (g : Gmp) (s : ℕ) where
  abbrev p : ℤ
  p = pos (suc (2 * s))

  succ : p +ℤ pos 1 ≡ pos (suc (2 * s) + 1)
  unfolding ◌+ℤ◌
  succ = ground arith

  half_lem : half_of g p ≡ pos (s + 1)
  half_lem =
      ap (λ (v : ℤ). g.mpz_tdiv_q_2exp v 1) (g.mpz_add_lem p (pos 1) ∙ succ)
      ∙ g.mpz_tdiv_q_2exp_lem (suc (2 * s) + 1) 1
      ∙ ap pos {x = (suc (2 * s) + 1) / 2} (omega arith)

  Stands-half : Stands g (2 * s) (half_of g p) (s + 1)
  Stands-half =
      subst (λ (v : ℤ). Stands g (2 * s) v (s + 1)) (sym half_lem) (Stands-pos g (2 * s) (s + 1))

  minus_one : suc (2 * s) - 1 - 0 % suc (2 * s) ≡ 2 * s
  minus_one = rw (zero-mod (suc (2 * s))) (omega arith)

  Stands-minus_one : Stands g (2 * s) (negsuc 0) (2 * s)
  unfolding Stands ◌%ℤ◌
  Stands-minus_one = minus_one ∙ sym (mod-suc (2 * s))

  -- The weight of one of the three points.
  weight-Stands :
      (rv c : ℤ) (r i j e : ℕ)
      → Stands g (2 * s) rv r
      → Stands g (2 * s) c e
      → Stands g
          (2 * s)
          (modmult g (g.mpz_mul (g.mpz_sub rv (pos i)) (g.mpz_sub rv (pos j))) c p)
          ((r + 2 * s * i) * (r + 2 * s * j) * e)
  weight-Stands rv c r i j e hr hc =
      Stands-modmult g (2 * s) _ c _ e
        (Stands-mpz_mul g (2 * s) _ _ _ _
          (Stands-mpz_sub g (2 * s) rv (pos i) r i hr (Stands-pos g (2 * s) i))
          (Stands-mpz_sub g (2 * s) rv (pos j) r j hr (Stands-pos g (2 * s) j)))
        hc

  -- One step of the loop that adds the weighed values.
  weigh_step :
      (rop w v : ℤ) (d e f : ℕ)
      → Stands g (2 * s) rop d
      → Stands g (2 * s) w e
      → Stands g (2 * s) v f
      → Stands g (2 * s) (g.mpz_add rop (g.mpz_mul w v)) (d + e * f)
  weigh_step rop w v d e f hd he hf =
      Stands-mpz_add g (2 * s) rop (g.mpz_mul w v) d (e * f) hd
        (Stands-mpz_mul g (2 * s) w v e f he hf)

  -- weigh with the weights at r, on any three values.
  pub weigh-Stands :
      (rv v0 v1 v2 : ℤ) (r y0 y1 y2 : ℕ) (rest : List ℤ)
      → Stands g (2 * s) rv r
      → Stands g (2 * s) v0 y0
      → Stands g (2 * s) v1 y1
      → Stands g (2 * s) v2 y2
      → Stands g
          (2 * s)
          (weigh g (pos 0) (bary_precompute_weights3 g rv p) (v0 ∷ v1 ∷ v2 ∷ rest))
          (weighed (2 * s) (s + 1) r y0 y1 y2)
  unfolding weigh bary_precompute_weights3 weighed
  weigh-Stands rv v0 v1 v2 r y0 y1 y2 rest hr h0 h1 h2 =
      weigh_step _ _ v2 _ _ y2
        (weigh_step _ _ v1 _ _ y1
          (weigh_step _ _ v0 _ _ y0 (Stands-pos g (2 * s) 0)
            (weight-Stands rv _ r 1 2 (s + 1) hr Stands-half) h0)
          (weight-Stands rv _ r 2 0 (2 * s) hr Stands-minus_one) h1)
        (weight-Stands rv _ r 0 1 (s + 1) hr Stands-half) h2

  -- The three values of a polynomial, as the messages of the protocol hold them.
  pub record IsSample (c : Poly) (v0 v1 v2 : ℤ) : Type 0 where
    pub at_0 : Stands g (2 * s) v0 (c.c0)
    pub at_1 : Stands g (2 * s) v1 (c.c0 + c.c1 + c.c2)
    pub at_2 : Stands g (2 * s) v2 (c.c0 + 2 * c.c1 + 4 * c.c2)

  -- A vector that holds the three values of each polynomial of a list.
  pub data IsSampled : List Poly → List ℤ → Type 0 where
    no_sample : IsSampled [] []
    one_sample :
        {c : Poly} {cs : List Poly} {v0 v1 v2 : ℤ} {rest : List ℤ}
        → IsSample c v0 v1 v2
        → IsSampled cs rest
        → IsSampled (c ∷ cs) (v0 ∷ v1 ∷ v2 ∷ rest)

  -- The value of a polynomial modulo p.
  abbrev pub value : ℕ → Poly → ℤ
  value r c = pos (quadratic (c.c0) (c.c1) (c.c2) r % suc (2 * s))

  weigh-quadratic :
      (c : Poly) (rv v0 v1 v2 : ℤ) (r : ℕ) (rest : List ℤ)
      → Stands g (2 * s) rv r
      → IsSample c v0 v1 v2
      → g.mpz_mod (weigh g (pos 0) (bary_precompute_weights3 g rv p) (v0 ∷ v1 ∷ v2 ∷ rest)) p
        ≡ value r c
  weigh-quadratic c rv v0 v1 v2 r rest hr h =
      mpz_mod-Stands g (2 * s) _ _
        (weigh-Stands rv v0 v1 v2 r _ _ _ rest hr (h.at_0) (h.at_1) (h.at_2))
      ∙ ap pos (weighed-quadratic s r (c.c0) (c.c1) (c.c2))

  -- For an odd modulus, `bary_extrap` with the weights for r replaces the three values of each
  -- polynomial of degree at most two by its value at r, reduced.
  pub bary_extrap-quadratic :
      (cs : List Poly) (vec : List ℤ) (rv : ℤ) (r : ℕ)
      → Stands g (2 * s) rv r
      → IsSampled cs vec
      → bary_extrap g (length cs) vec (bary_precompute_weights3 g rv p) p ≡ map (value r) cs
  unfolding bary_extrap bary_precompute_weights3
  bary_extrap-quadratic _ _ rv r hr no_sample = refl
  bary_extrap-quadratic (c ∷ cs) (v0 ∷ v1 ∷ v2 ∷ rest) rv r hr (one_sample h hs) =
      ap₂ (λ (v : ℤ) (vs : List ℤ). v ∷ vs) (weigh-quadratic c rv v0 v1 v2 r rest hr h)
        (bary_extrap-quadratic cs rest rv r hr hs)

  -- What extrap3 computes before the last reduction.
  abbrev direct : ℕ → ℕ → ℕ → ℕ → ℕ
  direct r y0 y1 y2 =
      ((r + 2 * s * 1) * (r + 2 * s * 2) * y0
        + ((r + 2 * s * 1) * y2 + 2 * s * ((r + 2 * s * 2) * 2 * y1)) * r)
      * (s + 1)

  direct-weighed :
      (r y0 y1 y2 : ℕ)
      → direct r y0 y1 y2
        ≡ weighed (2 * s) (s + 1) r y0 y1 y2 + suc (2 * s) * (2 * s * (r + 2 * s * 2) * r * y1)
  unfolding weighed
  direct-weighed r y0 y1 y2 = omega arith

  extrap3-Stands :
      (rv v0 v1 v2 : ℤ) (r y0 y1 y2 : ℕ) (rest : List ℤ)
      → Stands g (2 * s) rv r
      → Stands g (2 * s) v0 y0
      → Stands g (2 * s) v1 y1
      → Stands g (2 * s) v2 y2
      → extrap3 g (v0 ∷ v1 ∷ v2 ∷ rest) rv p ≡ pos (direct r y0 y1 y2 % suc (2 * s))
  unfolding extrap3
  extrap3-Stands rv v0 v1 v2 r y0 y1 y2 rest hr h0 h1 h2 = mpz_mod-Stands g (2 * s) _ _ (
      Stands-mpz_mul g (2 * s) _ _ _ _
        (Stands-mpz_add g (2 * s) _ _ _ _
          (Stands-mpz_mul g (2 * s) _ _ _ _ (Stands-mpz_mul g (2 * s) _ _ _ _ (minus 1) (minus 2))
            h0)
          (Stands-mpz_mul g (2 * s) _ _ _ _
            (Stands-mpz_sub g (2 * s) _ _ _ _ (Stands-mpz_mul g (2 * s) _ _ _ _ (minus 1) h2) (
              Stands-mpz_mul g (2 * s) _ _ _ _
                (Stands-mpz_mul g (2 * s) _ _ _ _ (minus 2) (Stands-pos g (2 * s) 2)) h1))
            hr))
        Stands-half)
    where
      minus : (i : ℕ) → Stands g (2 * s) (g.mpz_sub rv (pos i)) (r + 2 * s * i)
      minus i = Stands-mpz_sub g (2 * s) rv (pos i) r i hr (Stands-pos g (2 * s) i)

  -- For an odd modulus, `extrap3` on the three values of a polynomial of degree at most two is its
  -- value at r, reduced.
  pub extrap3-quadratic :
      (c : Poly) (rv v0 v1 v2 : ℤ) (r : ℕ)
      → Stands g (2 * s) rv r
      → IsSample c v0 v1 v2
      → extrap3 g (v0 ∷ v1 ∷ v2 ∷ []) rv p ≡ value r c
  extrap3-quadratic c rv v0 v1 v2 r hr h =
      extrap3-Stands rv v0 v1 v2 r _ _ _ [] hr (h.at_0) (h.at_1) (h.at_2)
      ∙ ap pos (
          ap (λ (k : ℕ). k % suc (2 * s)) (direct-weighed r _ _ _)
          ∙ add-mul-mod_self_left _ (suc (2 * s)) _
          ∙ weighed-quadratic s r (c.c0) (c.c1) (c.c2))
