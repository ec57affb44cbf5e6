-- ===== src/MultiPrecision/Value.antt =====
-- The number of an array of words, and what a write to a word does to it.
use native.Mathlib.Nat.{pow-zero, pow-suc, mul_assoc, mul_comm}
use ginger_zaatar_allspice.Prelude.{
  ℕ, zero, suc, ◌+◌, ◌*◌, ◌^◌, ◌≤◌, ◌<◌, List, [], ◌∷◌, ◌≡◌, refl, sym, ap, ◌∙◌, arith, set, length,
  replicate,
}
use ginger_zaatar_allspice.MultiPrecision.{word_mod, word, value}

-- The weight of word k.
abbrev pub weight : ℕ → ℕ
weight k = word_mod ^ k

pub weight-suc : (k : ℕ) → weight (suc k) ≡ word_mod * weight k
weight-suc k = pow-suc word_mod k ∙ mul_comm (weight k) word_mod

pub weight-suc_mul : (k v : ℕ) → weight (suc k) * v ≡ word_mod * (weight k * v)
weight-suc_mul k v = ap (λ (p : ℕ). p * v) (weight-suc k) ∙ mul_assoc word_mod (weight k) v

pub mul-swap : (w v : ℕ) → w * (word_mod * v) ≡ word_mod * (w * v)
mul-swap w v =
    sym (mul_assoc w word_mod v)
    ∙ ap (λ (n : ℕ). n * v) (mul_comm w word_mod)
    ∙ mul_assoc word_mod w v

pub value-set :
    (xs : List ℕ) (i v : ℕ)
    → i < length xs
    → value (set xs i v) + weight i * word xs i ≡ value xs + weight i * v
unfolding value
value-set [] i v h = absurd (omega arith)
value-set (x ∷ xs) zero v h = omega (arith, pow-zero word_mod)
value-set (x ∷ xs) (suc i) v h =
    omega (arith, weight-suc_mul i v, weight-suc_mul i (word xs i), value-set xs i v (omega arith))

-- Every entry is below m.
unfoldable pub IsBelow : ℕ → List ℕ → Type 0
IsBelow m xs = (i : ℕ) → word xs i < m

abbrev pub IsWords : List ℕ → Type 0
IsWords = IsBelow word_mod

pub value-lt : (xs : List ℕ) → IsWords xs → value xs < weight (length xs)
unfolding value IsBelow
value-lt [] h = omega (arith, pow-zero word_mod)
value-lt (x ∷ xs) h = omega (arith, h 0, weight-suc (length xs), value-lt xs (λ i. h (suc i)))

pub IsBelow-set : (m : ℕ) (xs : List ℕ) (k v : ℕ) → IsBelow m xs → v < m → IsBelow m (set xs k v)
unfolding IsBelow
IsBelow-set m [] k v h b i = h i
IsBelow-set m (x ∷ xs) zero v h b zero = b
IsBelow-set m (x ∷ xs) zero v h b (suc i) = h (suc i)
IsBelow-set m (x ∷ xs) (suc k) v h b zero = h zero
IsBelow-set m (x ∷ xs) (suc k) v h b (suc i) = IsBelow-set m xs k v (λ j. h (suc j)) b i

pub IsBelow-mono : (m n : ℕ) (xs : List ℕ) → m ≤ n → IsBelow m xs → IsBelow n xs
unfolding IsBelow
IsBelow-mono m n xs h b i = omega (arith, b i)

pub set_out : (xs : List ℕ) (i v : ℕ) → length xs ≤ i → set xs i v ≡ xs
set_out [] i v h = refl
set_out (x ∷ xs) zero v h = absurd (omega arith)
set_out (x ∷ xs) (suc i) v h = ap (◌∷◌ x) (set_out xs i v (omega arith))

pub value-replicate_zero : (n : ℕ) → value (replicate n 0) ≡ 0
unfolding value
value-replicate_zero zero = refl
value-replicate_zero (suc n) = omega (arith, value-replicate_zero n)

pub IsBelow-replicate_zero : (m n : ℕ) → 0 < m → IsBelow m (replicate n 0)
unfolding IsBelow
IsBelow-replicate_zero m zero h i = h
IsBelow-replicate_zero m (suc n) h zero = h
IsBelow-replicate_zero m (suc n) h (suc i) = IsBelow-replicate_zero m n h i

-- The sum of the first n words of an array, each with its weight.
unfoldable pub upto : (ℕ → ℕ) → ℕ → ℕ
upto f zero = 0
upto f (suc n) = upto f n + weight n * f n

pub upto_shift :
    (f : ℕ → ℕ) (n : ℕ) → upto f (suc n) ≡ f 0 + word_mod * upto (λ (i : ℕ). f (suc i)) n
unfolding upto
upto_shift f zero = omega (arith, ap (λ (p : ℕ). p * f 0) (pow-zero word_mod))
upto_shift f (suc n) = omega (arith, upto_shift f n, weight-suc_mul n (f (suc n)))

pub upto-word : (xs : List ℕ) → upto (word xs) (length xs) ≡ value xs
unfolding upto value
upto-word [] = refl
upto-word (x ∷ xs) = upto_shift (word (x ∷ xs)) (length xs) ∙ omega (arith, upto-word xs)

pub value_last :
    (xs : List ℕ) (n : ℕ)
    → length xs ≡ suc n
    → ((k : ℕ) → k < n → word xs k ≡ 0)
    → value xs ≡ weight n * word xs n
unfolding value
value_last [] n e h = absurd (omega arith)
value_last (x ∷ []) zero e h = omega (arith, ap (λ (p : ℕ). p * x) (pow-zero word_mod))
value_last (x ∷ y ∷ xs) zero e h = absurd (omega arith)
value_last (x ∷ []) (suc n) e h = absurd (omega arith)
value_last (x ∷ y ∷ xs) (suc n) e h = omega (
  arith,
  h 0 (omega arith),
  value_last (y ∷ xs) n (omega arith) (λ k b. h (suc k) (omega arith)),
  weight-suc_mul n (word (y ∷ xs) n),
)
