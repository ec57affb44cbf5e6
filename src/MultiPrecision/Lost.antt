-- ===== src/MultiPrecision/Lost.antt =====
-- Totals up to carries that leave the array: multiples of the weight of the word after the last.
use native.Mathlib.Nat.{mul-add}
use ginger_zaatar_allspice.Prelude.{
  ℕ, suc, ◌+◌, ◌*◌, ◌%◌, ◌≤◌, ◌<◌, List, ◌≡◌, ◌≢◌, refl, ap, ◌∙◌, arith, ltb, set, length,
  length-set, get_or-set_ne, ◌⊎◌, inl, inr,
}
use ginger_zaatar_allspice.MultiPrecision.{
  word_mod, word, value, Sums, test, add_carry, add_carry_clear,
}
use ginger_zaatar_allspice.MultiPrecision.Value.{
  weight, weight-suc_mul, mul-swap, value-set, set_out,
}
use ginger_zaatar_allspice.MultiPrecision.Step.{word_sum, total, total-add_carry, value-clear}

-- The total of words and carries, with the carries that were lost.
unfoldable pub Holds : ℕ → ℕ → ℕ → Sums → Type 0
Holds u lost_weight goal s = (lost : ℕ) × (total u s + lost_weight * lost ≡ goal)

pub Holds-≡ :
    (u lost_weight : ℕ) {goal goal' : ℕ} (s : Sums)
    → goal ≡ goal'
    → Holds u lost_weight goal s
    → Holds u lost_weight goal' s
unfolding Holds
Holds-≡ u lost_weight s e (lost, h) = (lost, h ∙ e)

-- The carry has a place in the array, or is lost.
abbrev pub HasPlace : ℕ → ℕ → Sums → ℕ → ℕ → Type 0
HasPlace u lost_weight s i k =
    (i < length s.carries) ⊎ (length s.carries ≤ i) × (weight (suc k) ≡ lost_weight)

total-lost :
    (u : ℕ) (s : Sums) (i k x y : ℕ)
    → k < length s.words
    → length s.carries ≤ i
    → x < word_mod
    → y < word_mod
    → total u (add_carry s i k x y)
        + weight k * word s.words k
        + weight (suc k) * test (ltb ((x + y) % word_mod) x)
      ≡ total u s + (weight k * x + weight k * y)
unfolding add_carry total
total-lost u s i k x y hk hi hx hy =
    let t = (x + y) % word_mod in
    let b = test (ltb t x) in
    omega (
      arith,
      ap (λ (c : List ℕ). u * value c) (set_out s.carries i ((word s.carries i + b) % word_mod) hi),
      value-set s.words k t hk,
      weight-suc_mul k b,
      ap (λ (n : ℕ). weight k * n) (word_sum x y hx hy),
      mul-add (weight k) t (word_mod * b),
      mul-add (weight k) x y,
      mul-swap (weight k) b,
    )

-- A word that is added counts with its weight.
pub add_carry-Holds :
    (u lost_weight goal : ℕ) (s : Sums) (i k y : ℕ)
    → k < length s.words
    → HasPlace u lost_weight s i k
    → word s.words k < word_mod
    → y < word_mod
    → suc (word s.carries i) < word_mod
    → u * weight i ≡ weight (suc k)
    → Holds u lost_weight goal s
    → Holds u lost_weight (goal + weight k * y) (add_carry s i k (word s.words k) y)
unfolding Holds
add_carry-Holds u lost_weight goal s i k y hk (inl hi) hx hy small e (lost, h) =
    (lost, omega (arith, h, total-add_carry u s i k (word s.words k) y hk hi hx hy small e))
add_carry-Holds u lost_weight goal s i k y hk (inr (hi, w)) hx hy small e (lost, h) =
    let b = test (ltb ((word s.words k + y) % word_mod) (word s.words k)) in
    (
      lost + b,
      omega (
        arith,
        h,
        total-lost u s i k (word s.words k) y hk hi hx hy,
        ap (λ (n : ℕ). n * b) w,
        mul-add lost_weight lost b,
      ),
    )

pub add_carry_clear-Holds :
    (u lost_weight goal : ℕ) (s : Sums) (i k j : ℕ)
    → k < length s.words
    → HasPlace u lost_weight s i k
    → j < length s.carries
    → j ≢ i
    → word s.words k < word_mod
    → word s.carries j < word_mod
    → suc (word s.carries i) < word_mod
    → u * weight j ≡ weight k
    → u * weight i ≡ weight (suc k)
    → Holds u lost_weight goal s
    → Holds u lost_weight goal (add_carry_clear s i k j)
unfolding Holds add_carry_clear total
add_carry_clear-Holds u lost_weight goal s i k j hk place hj other hx hy small ej ei (lost, h) =
    let cleared = record s { carries = set s.carries j 0 } in
    let same : word cleared.carries i ≡ word s.carries i = get_or-set_ne s.carries j i 0 0 other in
    let size = length-set s.carries j 0 in
    let (lost', h') =
      add_carry-Holds u lost_weight (total u cleared + lost_weight * lost) cleared i k
        (word s.carries j) hk (ground (arith, place, size)) hx hy (omega (arith, same)) ei
        (lost, refl) in
    (lost', omega (arith, h', h, value-clear u (weight k) s.carries j hj ej))
