-- ===== src/SumCheck/Polynomial.antt =====
-- Polynomials of degree at most two in each of n variables, and their sums over the corners of the
-- Boolean cube: what the rounds of cmt_sumcheck_v.cpp are about.
use ginger_zaatar_allspice.Prelude.{ℕ, zero, suc, ◌+◌, ◌*◌, ◌≡◌, refl, arith}
use ginger_zaatar_allspice.Field.Extrapolate.Quadratic.{Poly, quadratic}

-- A polynomial in n + 1 variables, by its coefficients as one of degree two in the first.
abbrev pub Multi : ℕ → Type 0
Multi zero = ℕ
Multi (suc n) = Multi n × Multi n × Multi n

plus : (n : ℕ) → Multi n → Multi n → Multi n
plus zero a b = a + b
plus (suc n) (a0, a1, a2) (b0, b1, b2) = (plus n a0 b0, plus n a1 b1, plus n a2 b2)

times : (n : ℕ) → ℕ → Multi n → Multi n
times zero k a = a * k
times (suc n) k (a0, a1, a2) = (times n k a0, times n k a1, times n k a2)

-- The polynomial in the remaining variables when the first one is r.
unfoldable pub bind : (n : ℕ) → ℕ → Multi (suc n) → Multi n
unfolding plus times
bind n r (a0, a1, a2) = plus n (plus n a0 (times n r a1)) (times n (r * r) a2)

-- The sum over all corners.
unfoldable pub total : (n : ℕ) → Multi n → ℕ
unfolding bind
total zero a = a
total (suc n) m = total n (bind n 0 m) + total n (bind n 1 m)

-- The value at a point.
unfoldable pub eval : (n : ℕ) → (ℕ → ℕ) → ℕ → Multi n → ℕ
unfolding bind
eval zero r i a = a
eval (suc n) r i m = eval n r (suc i) (bind n (r i) m)

-- The polynomial of one round: in the first variable, summed over the corners in the others.
unfoldable pub round_poly : (n : ℕ) → Multi (suc n) → Poly
unfolding total
round_poly n (a0, a1, a2) = record { c0 = total n a0; c1 = total n a1; c2 = total n a2 }

IsAdditive : ℕ → Type 0
IsAdditive n = (a b : Multi n) → total n (plus n a b) ≡ total n a + total n b

IsHomogeneous : ℕ → Type 0
IsHomogeneous n = (k : ℕ) (a : Multi n) → total n (times n k a) ≡ total n a * k

bound :
    (n : ℕ)
    → IsAdditive n
    → IsHomogeneous n
    → (r : ℕ) (a0 a1 a2 : Multi n)
    → total n (bind n r (a0, a1, a2)) ≡ quadratic (total n a0) (total n a1) (total n a2) r
unfolding IsAdditive IsHomogeneous bind quadratic
bound n add mul r a0 a1 a2 =
    rw
      (
        add (plus n a0 (times n r a1)) (times n (r * r) a2),
        add a0 (times n r a1),
        mul r a1,
        mul (r * r) a2,
      )
      refl

-- The sum over the corners is linear.
linear : (n : ℕ) → IsAdditive n × IsHomogeneous n
unfolding IsAdditive IsHomogeneous total plus times quadratic
linear zero = ((λ a b. refl), (λ k a. refl))
linear (suc n) =
    let (add, mul) = linear n in
    let at = bound n add mul in
    (
      (λ (a0, a1, a2) (b0, b1, b2).
          rw
            (
              at 0 a0 a1 a2,
              at 1 a0 a1 a2,
              at 0 b0 b1 b2,
              at 1 b0 b1 b2,
              at 0 (plus n a0 b0) (plus n a1 b1) (plus n a2 b2),
              at 1 (plus n a0 b0) (plus n a1 b1) (plus n a2 b2),
              add a0 b0,
              add a1 b1,
              add a2 b2,
            )
            (omega arith)),
      (λ k (a0, a1, a2).
          rw
            (
              at 0 a0 a1 a2,
              at 1 a0 a1 a2,
              at 0 (times n k a0) (times n k a1) (times n k a2),
              at 1 (times n k a0) (times n k a1) (times n k a2),
              mul k a0,
              mul k a1,
              mul k a2,
            )
            (omega arith)),
    )

-- The round's polynomial at r is the claim of the next round.
pub total-bind :
    (n r : ℕ) (m : Multi (suc n))
    → let c = round_poly n m in total n (bind n r m) ≡ quadratic (c.c0) (c.c1) (c.c2) r
unfolding round_poly
total-bind n r (a0, a1, a2) = let (add, mul) = linear n in bound n add mul r a0 a1 a2

-- The claim is the sum of the round's polynomial at 0 and 1.
pub total-suc :
    (n : ℕ) (m : Multi (suc n))
    → let c = round_poly n m in total (suc n) m ≡ c.c0 + (c.c0 + c.c1 + c.c2)
unfolding total quadratic
total-suc n m = rw (total-bind n 0 m, total-bind n 1 m) (omega arith)
