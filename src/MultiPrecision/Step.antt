-- ===== src/MultiPrecision/Step.antt =====
-- One step of a sum: what it keeps of the total of the words and their carries.
use native.Mathlib.Nat.{mul-add, mul_assoc}
use ginger_zaatar_allspice.Prelude.{
  ℕ, suc, ◌+◌, ◌*◌, ◌%◌, ◌≤◌, ◌<◌, Bool, true, false, List, ◌≡◌, ◌≢◌, sym, ap, ◌∙◌, arith, ltb, set,
  length, length-set, get_or-set_ne,
}
use ginger_zaatar_allspice.MultiPrecision.{
  word_mod, word, value, Sums, test, increment, add_carry, add_carry_clear,
}
use ginger_zaatar_allspice.MultiPrecision.Value.{
  weight, weight-suc_mul, mul-swap, value-set, IsBelow, IsWords, IsBelow-set, IsBelow-mono,
}

pub test-le : (b : Bool) → test b ≤ 1
unfolding test
test-le true = omega arith
test-le false = omega arith

-- A sum of two words is what is kept of it and its carry.
pub word_sum :
    (x y : ℕ)
    → x < word_mod
    → y < word_mod
    → (x + y) % word_mod + word_mod * test (ltb ((x + y) % word_mod) x) ≡ x + y
unfolding test
word_sum x y hx hy = ground arith

-- The number that words and carries stand for; u is the weight of the first carry.
unfoldable pub total : ℕ → Sums → ℕ
total u s = value s.words + u * value s.carries

scale : (u p q a b c d : ℕ) → u * p ≡ q → a + p * c ≡ b + p * (c + d) → u * a ≡ u * b + q * d
scale u p q a b c d e h =
    ap (λ (n : ℕ). u * n) {x = a} {y = b + p * d} (omega (arith, h, mul-add p c d))
    ∙ mul-add u b (p * d)
    ∙ ap (λ (n : ℕ). u * b + n) (sym (mul_assoc u p d) ∙ ap (λ (n : ℕ). n * d) e)

pub value-increment :
    (u q : ℕ) (c : List ℕ) (i : ℕ) (b : Bool)
    → i < length c
    → suc (word c i) < word_mod
    → u * weight i ≡ q
    → u * value (increment c i b) ≡ u * value c + q * test b
value-increment u q c i b within small e =
    scale u (weight i) q (value (increment c i b)) (value c) (word c i) (test b) e (
      value-set c i ((word c i + test b) % word_mod) within
      ∙ ap (λ (n : ℕ). value c + weight i * n) {x = (word c i + test b) % word_mod}
          {y = word c i + test b} (omega (arith, test-le b)))

-- A sum of x and y into word k counts y and x for what the word held before.
pub total-add_carry :
    (u : ℕ) (s : Sums) (i k x y : ℕ)
    → k < length s.words
    → i < length s.carries
    → x < word_mod
    → y < word_mod
    → suc (word s.carries i) < word_mod
    → u * weight i ≡ weight (suc k)
    → total u (add_carry s i k x y) + weight k * word s.words k
      ≡ total u s + (weight k * x + weight k * y)
unfolding add_carry total
total-add_carry u s i k x y hk hi hx hy small e =
    let t = (x + y) % word_mod in
    let b = test (ltb t x) in
    omega (
      arith,
      value-increment u (weight (suc k)) s.carries i (ltb t x) hi small e,
      value-set s.words k t hk,
      weight-suc_mul k b,
      ap (λ (n : ℕ). weight k * n) (word_sum x y hx hy),
      mul-add (weight k) t (word_mod * b),
      mul-add (weight k) x y,
      mul-swap (weight k) b,
    )

pub value-clear :
    (u q : ℕ) (c : List ℕ) (j : ℕ)
    → j < length c
    → u * weight j ≡ q
    → u * value (set c j 0) + q * word c j ≡ u * value c
value-clear u q c j within e = sym (
    scale u (weight j) q (value c) (value (set c j 0)) 0 (word c j) e
      (omega (arith, value-set c j 0 within)))

-- A carry that is added to the word that it belongs to leaves the total as it is.
pub total-add_carry_clear :
    (u : ℕ) (s : Sums) (i k j : ℕ)
    → k < length s.words
    → i < length s.carries
    → j < length s.carries
    → j ≢ i
    → word s.words k < word_mod
    → word s.carries j < word_mod
    → suc (word s.carries i) < word_mod
    → u * weight j ≡ weight k
    → u * weight i ≡ weight (suc k)
    → total u (add_carry_clear s i k j) ≡ total u s
unfolding add_carry_clear total
total-add_carry_clear u s i k j hk hi hj other hx hy small ej ei =
    let cleared = record s { carries = set s.carries j 0 } in
    let same : word cleared.carries i ≡ word s.carries i = get_or-set_ne s.carries j i 0 0 other in
    omega (
      arith,
      value-clear u (weight k) s.carries j hj ej,
      total-add_carry u cleared i k (word s.words k) (word s.carries j) hk
          (omega (arith, length-set s.carries j 0)) hx hy (omega (arith, same)) ei,
    )

-- Words are words, and no carry is n or more.
pub record Counted (words carries n : ℕ) (s : Sums) : Type 0 where
  pub word_count : length s.words ≡ words
  pub carry_count : length s.carries ≡ carries
  pub are_words : IsWords s.words
  pub small : IsBelow n s.carries

pub add_carry-Counted :
    (m l n : ℕ) (s : Sums) (i k x y : ℕ)
    → Counted m l n s
    → suc n ≤ word_mod
    → Counted m l (suc n) (add_carry s i k x y)
unfolding add_carry IsBelow
add_carry-Counted m l n s i k x y c h = record {
  word_count = length-set s.words k ((x + y) % word_mod) ∙ c.word_count;
  carry_count = length-set s.carries i _ ∙ c.carry_count;
  are_words = IsBelow-set word_mod s.words k ((x + y) % word_mod) c.are_words (omega arith);
  small =
      IsBelow-set (suc n) s.carries i _ (IsBelow-mono n (suc n) s.carries (omega arith) c.small)
        (omega (arith, c.small i, test-le (ltb ((x + y) % word_mod) x)));
}

pub clear-Counted :
    (m l n : ℕ) (s : Sums) (j : ℕ)
    → Counted m l n s
    → Counted m l n (record s { carries = set s.carries j 0 })
unfolding IsBelow
clear-Counted m l n s j c = record {
  word_count = c.word_count;
  carry_count = length-set s.carries j 0 ∙ c.carry_count;
  are_words = c.are_words;
  small = IsBelow-set n s.carries j 0 c.small (omega (arith, c.small j));
}

pub add_carry_clear-Counted :
    (m l n : ℕ) (s : Sums) (i k j : ℕ)
    → Counted m l n s
    → suc n ≤ word_mod
    → Counted m l (suc n) (add_carry_clear s i k j)
unfolding add_carry_clear
add_carry_clear-Counted m l n s i k j c h =
    add_carry-Counted m l n (record s { carries = set s.carries j 0 }) i k (word s.words k)
      (word s.carries j) (clear-Counted m l n s j c) h

pub Counted-mono : (m l n n' : ℕ) (s : Sums) → n ≤ n' → Counted m l n s → Counted m l n' s
Counted-mono m l n n' s h c = record {
  word_count = c.word_count;
  carry_count = c.carry_count;
  are_words = c.are_words;
  small = IsBelow-mono n n' s.carries h c.small;
}
