-- ===== src/MultiPrecision/Row.antt =====
-- The inner loop of a product: it adds a multiple of a number, shifted by words.
use native.Mathlib.Nat.{mul-add}
use native.Mathlib.Nat.{mul-le-mul_left, mul-le-mul_right}
use ginger_zaatar_allspice.Prelude.{ℕ, zero, suc, ◌+◌, ◌-◌, ◌*◌, ◌≤◌, ◌<◌, ◌≡◌, ap, arith, ◌⊎◌}
use ginger_zaatar_allspice.Prelude.Pow.{pow-add}
use ginger_zaatar_allspice.MultiPrecision.{
  word_mod, word, umulhi, umullo, Sums, add_carry, add_carry_clear, mul_row,
}
use ginger_zaatar_allspice.MultiPrecision.Value.{weight, weight-suc_mul, mul-swap, IsBelow, upto}
use ginger_zaatar_allspice.MultiPrecision.Step.{Counted, Counted-mono, add_carry-Counted}
use ginger_zaatar_allspice.MultiPrecision.Lost.{
  Holds, Holds-≡, add_carry-Holds, add_carry_clear-Holds,
}

pub mul_le : (x y p q : ℕ) → x ≤ p → y ≤ q → x * y ≤ p * q
mul_le x y p q hx hy = omega (arith, mul-le-mul_left x hy, mul-le-mul_right q hx)

pub umulhi_lt : (x y : ℕ) → x < word_mod → y < word_mod → umulhi x y < word_mod
unfolding umulhi
umulhi_lt x y hx hy =
    omega (arith, mul_le x y (word_mod - 1) (word_mod - 1) (omega arith) (omega arith))

pub umullo_lt : (x y : ℕ) → umullo x y < word_mod
unfolding umullo
umullo_lt x y = omega arith

pub umulhi-umullo : (x y : ℕ) → word_mod * umulhi x y + umullo x y ≡ x * y
unfolding umulhi umullo
umulhi-umullo x y = omega arith

shuffle : (p q x v : ℕ) → p * q * (x * v) ≡ q * v * (p * x)
shuffle p q x v = grind arith

-- One product of two words, with its weight.
product_weight :
    (i j x v hi lo : ℕ)
    → word_mod * hi + lo ≡ x * v
    → weight (i + j + 1) * hi + weight (i + j) * lo ≡ weight j * v * (weight i * x)
product_weight i j x v hi lo h = omega (
  arith,
  ap (λ (k : ℕ). weight k * hi) {x = i + j + 1} {y = suc (i + j)} (omega arith),
  weight-suc_mul (i + j) hi,
  mul-swap (weight (i + j)) hi,
  mul-add (weight (i + j)) (word_mod * hi) lo,
  ap (λ (n : ℕ). weight (i + j) * n) h,
  ap (λ (w : ℕ). w * (x * v)) (pow-add word_mod i j),
  shuffle (weight i) (weight j) x v,
)

module _ (u o lost_weight m : ℕ) (low : o ≤ 1)
    (weights : (k : ℕ) → u * weight (k + o) ≡ weight (suc k))
    (place : (k : ℕ) → k < m → (k + o < m) ⊎ (m ≤ k + o) × (weight (suc k) ≡ lost_weight)) where
  -- The steps of a pass keep the total.
  pub keeps_Holds :
      (top goal : ℕ)
      → top < m
      → (s : Sums) (n j : ℕ) → j < top
      → Counted m m n s
      → suc n ≤ word_mod
      → Holds u lost_weight goal s
      → Holds u lost_weight goal (add_carry_clear s (suc j + o) (suc j) (j + o))
  unfolding IsBelow
  keeps_Holds top goal h s n j b c room held =
      add_carry_clear-Holds u lost_weight goal s (suc j + o) (suc j) (j + o)
        (omega (arith, c.word_count)) (ground (arith, place (suc j), c.carry_count))
        (omega (arith, c.carry_count)) (λ e. absurd (omega arith)) (c.are_words (suc j))
        (omega (arith, c.small (j + o))) (omega (arith, c.small (suc j + o))) (weights j)
        (weights (suc j)) held

  add_word-Holds :
      (n goal : ℕ) (s : Sums) (k y : ℕ)
      → k < m
      → Counted m m n s
      → suc n ≤ word_mod
      → y < word_mod
      → Holds u lost_weight goal s
      → Counted m m (suc n) (add_carry s (k + o) k (word s.words k) y)
        × Holds u lost_weight (goal + weight k * y) (add_carry s (k + o) k (word s.words k) y)
  unfolding IsBelow
  add_word-Holds n goal s k y b c room hy held = (
    add_carry-Counted m m n s (k + o) k (word s.words k) y c room,
    add_carry-Holds u lost_weight goal s (k + o) k y (omega (arith, c.word_count))
        (ground (arith, place k, c.carry_count)) (c.are_words k) hy (omega (arith, c.small (k + o)))
        (weights k) held,
  )

  pub mul_row-Holds :
      (f : ℕ → ℕ) (v : ℕ) (hi lo : ℕ → ℕ) (j : ℕ)
      → ((i : ℕ) → hi i < word_mod)
      → ((i : ℕ) → lo i < word_mod)
      → ((i : ℕ) → word_mod * hi i + lo i ≡ f i * v)
      → (i rounds n goal : ℕ) (s : Sums) → i + rounds + j < m
      → Counted m m n s
      → n + 2 * rounds ≤ word_mod
      → Holds u lost_weight (goal + weight j * v * upto f i) s
      → Counted m m (n + 2 * rounds) (mul_row o hi lo j i rounds s)
        × Holds u lost_weight
            (goal + weight j * v * upto f (i + rounds))
            (mul_row o hi lo j i rounds s)
  unfolding mul_row upto
  mul_row-Holds f v hi lo j hhi hlo split i zero n goal s b c room held = (
    Counted-mono m m n (n + 2 * 0) s (omega arith) c,
    Holds-≡ u lost_weight s
        (ap (λ (k : ℕ). goal + weight j * v * upto f k) {x = i} {y = i + 0} (omega arith)) held,
  )
  mul_row-Holds f v hi lo j hhi hlo split i (suc rounds) n goal s b c room held =
      let (c1, h1) =
        add_word-Holds n (goal + weight j * v * upto f i) s (i + j + 1) (hi i) (omega arith) c
          (omega arith) (hhi i) held in
      let s' = add_carry s (i + j + 1 + o) (i + j + 1) (word s.words (i + j + 1)) (hi i) in
      let (c2, h2) =
        add_word-Holds (suc n) (goal + weight j * v * upto f i + weight (i + j + 1) * hi i) s'
          (i + j) (lo i) (omega arith) c1 (omega arith) (hlo i) h1 in
      let s″ = add_carry s' (i + j + o) (i + j) (word s'.words (i + j)) (lo i) in
      let (c3, h3) =
        mul_row-Holds f v hi lo j hhi hlo split (suc i) rounds (suc (suc n)) goal s″ (omega arith)
          c2 (omega arith)
          (Holds-≡ u lost_weight s″
            (omega (
              arith,
              product_weight i j (f i) v (hi i) (lo i) (split i),
              mul-add (weight j * v) (upto f i) (weight i * f i),
            ))
            h2) in
      (
        Counted-mono m m _ _ _ (omega arith) c3,
        Holds-≡ u lost_weight _
            (ap (λ (k : ℕ). goal + weight j * v * upto f k) {x = suc i + rounds}
              {y = i + suc rounds} (omega arith))
            h3,
      )
