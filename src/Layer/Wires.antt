-- ===== src/Layer/Wires.antt =====
-- The wire predicates of a layer (code/pepper/cmtgkr/circuit/circuit_layer.cpp) at the corners of the
-- cube, where no wiring function is set: there they say which gate has which wires.
use native.Mathlib.Nat.{mod-eq_of_lt}
use ginger_zaatar_allspice.Prelude.{
  ℕ, zero, suc, ◌+◌, ◌*◌, ◌/◌, ◌%◌, ◌^◌, ◌<◌, ◌≤◌, ◌≡◌, refl, ◌∙◌, ap, ap₂, List, [], ◌∷◌, ◌++◌,
  Option, none, some, Bool, true, false, ◌&&◌, ◌==◌, if◌then◌else◌, length, get_elem?, get_or, take,
  drop, replicate, length-replicate, arith, inl, inr, Bool-cases,
}
use ginger_zaatar_allspice.Prelude.Int.{ℤ, pos, pos-+ℤ, pos-*ℤ}
use ginger_zaatar_allspice.Prelude.Congr.{%ℤ-pos}
use ginger_zaatar_allspice.Gmp.{Gmp}
use ginger_zaatar_allspice.Field.{modmult, chi, compute_chi_all}
use ginger_zaatar_allspice.Field.Modular.{modmult_lem}
use ginger_zaatar_allspice.Field.Chi.{compute_chi_all-chi}
use ginger_zaatar_allspice.Field.Mle.{log2i}
use ginger_zaatar_allspice.Field.Mle.Log.{log2i_covers}
use ginger_zaatar_allspice.Field.Mle.Boolean.{corner, take-corner, chi-corner}
use ginger_zaatar_allspice.Pws.Circuit.{GateType, add_gate_type, mul_gate_type, GateWiring}
use ginger_zaatar_allspice.Layer.{
  should_be_treated_as, predicate_term, predicate_step, predicate_loop, compute_wire_predicates,
}

abbrev pub ind : Bool → ℕ
ind b = if b then 1 else 0

-- Both wires of every gate lead to one of `n` gates below.
abbrev pub InRange : ℕ → List GateWiring → Type 0
InRange n [] = Unit
InRange n (w ∷ gates) = (w.in1 < n) × (w.in2 < n) × InRange n gates

length-corner : (n b : ℕ) → length (corner n b) ≡ n
length-corner zero b = refl
length-corner (suc n) b = omega (arith, length-corner n (b / 2))

take-corner_append : (n b : ℕ) (r : List ℤ) → take n (corner n b ++ r) ≡ corner n b
take-corner_append zero b r = refl
take-corner_append (suc n) b r = ap (◌∷◌ (pos (b % 2))) (take-corner_append n (b / 2) r)

drop-corner_append : (n b : ℕ) (r : List ℤ) → drop n (corner n b ++ r) ≡ r
drop-corner_append zero b r = refl
drop-corner_append (suc n) b r = drop-corner_append n (b / 2) r

drop_corners : (m n a b : ℕ) (r : List ℤ) → drop (m + n) (corner m a ++ (corner n b ++ r)) ≡ r
drop_corners zero n a b r =
    ap (λ (k : ℕ). drop k (corner n b ++ r)) {y = n} (omega arith) ∙ drop-corner_append n b r
drop_corners (suc m) n a b r =
    ap (λ (k : ℕ). drop k (corner (suc m) a ++ (corner n b ++ r))) {y = suc (m + n)} (omega arith)
    ∙ drop_corners m n (a / 2) b r

position_lt :
    (gates : List GateWiring) (p : ℕ) (w : GateWiring)
    → get_elem? gates p ≡ some w
    → p < length gates
position_lt [] p w e = absurd (grind arith)
position_lt (x ∷ gates) zero w e = omega arith
position_lt (x ∷ gates) (suc p) w e = omega (arith, position_lt gates p w e)

module _ (g : Gmp) (q : ℕ) (big : 0 < q) where
  -- The table of chis at a corner.
  table_corner :
      (n b i : ℕ)
      → b < n
      → i < n
      → get_or
          (compute_chi_all g (replicate n (pos 0)) (corner (log2i n) b) (pos (suc q)))
          i
          (pos 0)
        ≡ pos (ind (i == b))
  table_corner n b i hb hi =
      let covers : n ≤ 2 ^ log2i n = log2i_covers n in
      compute_chi_all-chi g (pos (suc q)) (replicate n (pos 0)) (corner (log2i n) b) i
        (rw (length-replicate n (pos 0), length-corner (log2i n) b) covers)
        (rw (length-replicate n (pos 0)) hi)
      ∙ ap (λ k. chi g i (corner (log2i n) b) k (pos (suc q))) (length-corner (log2i n) b)
      ∙ chi-corner g q big i b (log2i n) (omega (arith, covers)) (omega (arith, covers))

  ind-lt : (x : Bool) → ind x < suc q
  ind-lt x = ground arith

  ind_mul : (x y : Bool) → ind x * ind y ≡ ind (x && y)
  ind_mul x y = ground arith

  bits_term :
      (x y z : Bool)
      → modmult g (g.mpz_mul (pos (ind x)) (pos (ind y))) (pos (ind z)) (pos (suc q))
        ≡ pos (ind ((x && y) && z))
  bits_term x y z =
      rw (g.mpz_mul_lem (pos (ind x)) (pos (ind y)), pos-*ℤ (ind x) (ind y), ind_mul x y)
        (modmult_lem g q (pos (ind (x && y))) (pos (ind z))
          ∙ ap pos (
              rw
                (
                  %ℤ-pos q (ind (x && y)),
                  %ℤ-pos q (ind z),
                  mod-eq_of_lt (ind-lt (x && y)),
                  mod-eq_of_lt (ind-lt z),
                  ind_mul (x && y) z,
                )
                (mod-eq_of_lt (ind-lt ((x && y) && z)))))

  step_lem :
      (t : GateType) (a : ℕ) (w : GateWiring) (c : Bool)
      → predicate_step g false t (pos a) w (pos (ind c))
        ≡ pos (a + ind (should_be_treated_as w t && c))
  unfolding predicate_step
  step_lem t a w c = elim (Bool-cases (should_be_treated_as w t)) [
    | inl treated ↦ rw treated (g.mpz_add_lem (pos a) (pos (ind c)) ∙ pos-+ℤ a (ind c))
    | inr other ↦ rw other (ap pos (omega arith))
  ]

  -- The gates of which `p` and the wires `w1` and `w2` are picked, from gate `i` on.
  module _ (p w1 w2 : ℕ) where
    abbrev picked : ℕ → GateWiring → Bool
    picked i w = ((i == p) && (w.in1 == w1)) && (w.in2 == w2)

    abbrev hits : GateType → ℕ → List GateWiring → ℕ
    hits t i [] = 0
    hits t i (w ∷ gates) = ind (should_be_treated_as w t && picked i w) + hits t (suc i) gates

    module _ (p_chi w1_chi w2_chi : List ℤ) (ni nip1 : ℕ)
        (at_p : (i : ℕ) → i < ni → get_or p_chi i (pos 0) ≡ pos (ind (i == p)))
        (at_w1 : (i : ℕ) → i < nip1 → get_or w1_chi i (pos 0) ≡ pos (ind (i == w1)))
        (at_w2 : (i : ℕ) → i < nip1 → get_or w2_chi i (pos 0) ≡ pos (ind (i == w2))) where
      term_lem :
          (i : ℕ) (w : GateWiring)
          → i < ni
          → w.in1 < nip1
          → w.in2 < nip1
          → predicate_term g p_chi w1_chi w2_chi i w (pos (suc q)) ≡ pos (ind (picked i w))
      unfolding predicate_term
      term_lem i w h h₁ h₂ =
          rw (at_p i h, at_w1 w.in1 h₁, at_w2 w.in2 h₂)
            (bits_term (i == p) (w.in1 == w1) (w.in2 == w2))

      loop_lem :
          (gates : List GateWiring) (a m i : ℕ)
          → i + length gates ≤ ni
          → InRange nip1 gates
          → predicate_loop g false false p_chi w1_chi w2_chi (pos (suc q)) (pos a, pos m) i gates
            ≡ (pos (a + hits add_gate_type i gates), pos (m + hits mul_gate_type i gates))
      unfolding predicate_loop
      loop_lem [] a m i h inside = ap₂ (λ x y. (pos x, pos y)) (omega arith) (omega arith)
      loop_lem (w ∷ gates) a m i h (h₁, h₂, inside) =
          rw
            (
              term_lem i w (omega arith) h₁ h₂,
              step_lem add_gate_type a w (picked i w),
              step_lem mul_gate_type m w (picked i w),
            )
            (loop_lem gates _ _ (suc i) (omega arith) inside
              ∙ ap₂ (λ x y. (pos x, pos y)) (omega arith) (omega arith))

    abbrev wired : GateWiring → GateType → ℕ
    wired w t = ind (should_be_treated_as w t && ((w.in1 == w1) && (w.in2 == w2)))

    hits_past : (t : GateType) (gates : List GateWiring) (i : ℕ) → p < i → hits t i gates ≡ 0
    hits_past t [] i h = refl
    hits_past t (w ∷ gates) i h = ground (arith, hits_past t gates (suc i) (omega arith))

    hits_at :
        (t : GateType) (gates : List GateWiring) (i k : ℕ) (w : GateWiring)
        → p ≡ i + k
        → get_elem? gates k ≡ some w
        → hits t i gates ≡ wired w t
    hits_at t [] i k w h e = absurd (grind arith)
    hits_at t (x ∷ gates) i zero w h e =
        let same : (i == p) ≡ true = ground arith in
        omega (
          arith,
          hits_past t gates (suc i) (omega arith),
          ap
              (λ (b : Bool).
                ind (should_be_treated_as x t && ((b && (x.in1 == w1)) && (x.in2 == w2))))
              same,
          ap (λ (y : GateWiring). wired y t)
              (ap (λ (o : Option GateWiring). elim o [ none ↦ x | some y ↦ y ]) e),
        )
    hits_at t (x ∷ gates) i (suc k) w h e =
        ground (arith, hits_at t gates (suc i) k w (omega arith) e)

    reduce_hits :
        (t : GateType) (gates : List GateWiring) (w : GateWiring)
        → get_elem? gates p ≡ some w
        → g.mpz_mod (pos (0 + hits t 0 gates)) (pos (suc q)) ≡ pos (wired w t)
    reduce_hits t gates w e =
        g.mpz_mod_lem _ q
        ∙ ap pos (
            %ℤ-pos q (0 + hits t 0 gates)
            ∙ ap (λ (k : ℕ). k % suc q) {y = wired w t}
                (omega (arith, hits_at t gates 0 p w (omega arith) e))
            ∙ mod-eq_of_lt (ind-lt (should_be_treated_as w t && ((w.in1 == w1) && (w.in2 == w2)))))

-- Where no wiring function is set, the wire predicates of a layer, modulo a number above 1 and at
-- the corner of a gate p of the layer and of gates w1 and w2 of the nip1 gates below, are 1 or 0:
-- that of additions is 1 if gate p is an addition with wires to w1 and w2, that of multiplications
-- is 1 if it is a multiplication or an exact division with these wires. Every wire of the layer
-- leads to one of the gates below.
pub compute_wire_predicates-corner :
    (g : Gmp) (q : ℕ) (gates : List GateWiring) (nip1 p w1 w2 : ℕ) (w : GateWiring)
    → 0 < q
    → get_elem? gates p ≡ some w
    → InRange nip1 gates
    → w1 < nip1
    → w2 < nip1
    → compute_wire_predicates g none none gates
        (corner (log2i (length gates)) p ++ (corner (log2i nip1) w1 ++ corner (log2i nip1) w2))
        nip1
        (pos (suc q))
      ≡ (
        pos (ind (should_be_treated_as w add_gate_type && ((w.in1 == w1) && (w.in2 == w2)))),
        pos (ind (should_be_treated_as w mul_gate_type && ((w.in1 == w1) && (w.in2 == w2)))),
      )
unfolding compute_wire_predicates
compute_wire_predicates-corner g q gates nip1 p w1 w2 w big e inside h₁ h₂ =
    rw
      (
        take-corner_append (log2i (length gates)) p
            (corner (log2i nip1) w1 ++ corner (log2i nip1) w2),
        drop-corner_append (log2i (length gates)) p
            (corner (log2i nip1) w1 ++ corner (log2i nip1) w2),
        take-corner_append (log2i nip1) w1 (corner (log2i nip1) w2),
        drop_corners (log2i (length gates)) (log2i nip1) p w1 (corner (log2i nip1) w2),
        take-corner (log2i nip1) w2,
      )
      (ap (λ (r : ℤ × ℤ). (g.mpz_mod r.0 (pos (suc q)), g.mpz_mod r.1 (pos (suc q))))
          (loop_lem g q big p w1 w2
            (compute_chi_all g (replicate (length gates) (pos 0)) (corner (log2i (length gates)) p)
              (pos (suc q)))
            (compute_chi_all g (replicate nip1 (pos 0)) (corner (log2i nip1) w1) (pos (suc q)))
            (compute_chi_all g (replicate nip1 (pos 0)) (corner (log2i nip1) w2) (pos (suc q)))
            (length gates) nip1
            (λ i h. table_corner g q big (length gates) p i (position_lt gates p w e) h)
            (λ i h. table_corner g q big nip1 w1 i h₁ h)
            (λ i h. table_corner g q big nip1 w2 i h₂ h) gates 0 0 0 (omega arith) inside)
        ∙ ap₂ (λ x y. (x, y)) (reduce_hits g q big p w1 w2 add_gate_type gates w e)
            (reduce_hits g q big p w1 w2 mul_gate_type gates w e))
