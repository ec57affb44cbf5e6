-- ===== src/MultiPrecision/Mul.antt =====
-- mp_mul_cpu.
use native.Mathlib.Nat.{suc-mul, mul-suc, mul-add, mul_comm, mul-le-mul_left}
use ginger_zaatar_allspice.Prelude.{
  ℕ, zero, suc, ◌+◌, ◌-◌, ◌*◌, ◌^◌, ◌≤◌, ◌<◌, List, [], ◌∷◌, Option, some, ◌≡◌, refl, sym, ap, ◌∙◌,
  arith, length, ◌⊎◌, inl, inr, get_or-set_ne, dec_lt,
}
use ginger_zaatar_allspice.Prelude.Pow.{pow-add}
use ginger_zaatar_allspice.MultiPrecision.{
  word_mod, word, value, umulhi, umullo, Sums, add_carry, add_carry_clear, new_sums, mul_row,
  mul_rows, words_of, mp_mul_cpu,
}
use ginger_zaatar_allspice.MultiPrecision.Value.{
  weight, IsBelow, IsWords, upto, upto-word, value-lt,
}
use ginger_zaatar_allspice.MultiPrecision.Step.{total, Counted, Counted-mono}
use ginger_zaatar_allspice.MultiPrecision.Pass.{
  ZeroTo, Propagated, propagate-Propagated, add_carry_clear-IsStep,
}
use ginger_zaatar_allspice.MultiPrecision.Add.{
  new_sums-Counted, new_sums-total, word-replicate_zero,
}
use ginger_zaatar_allspice.MultiPrecision.Lost.{Holds, Holds-≡}
use ginger_zaatar_allspice.MultiPrecision.Row.{
  mul_le, umulhi_lt, umullo_lt, umulhi-umullo, keeps_Holds, mul_row-Holds,
}

mul_row-first :
    (hi lo : ℕ → ℕ) (j i rounds : ℕ) (s : Sums)
    → word (mul_row 1 hi lo j i rounds s).carries 0 ≡ word s.carries 0
unfolding mul_row add_carry
mul_row-first hi lo j i zero s = refl
mul_row-first hi lo j i (suc rounds) s =
    let s' = add_carry s (i + j + 1 + 1) (i + j + 1) (word s.words (i + j + 1)) (hi i) in
    mul_row-first hi lo j (suc i) rounds
      (add_carry s' (i + j + 1) (i + j) (word s'.words (i + j)) (lo i))
    ∙ get_or-set_ne s'.carries (i + j + 1) 0 _ 0 (λ e. absurd (omega arith))
    ∙ get_or-set_ne s.carries (i + j + 1 + 1) 0 _ 0 (λ e. absurd (omega arith))

weights_one : (k : ℕ) → 1 * weight (k + 1) ≡ weight (suc k)
weights_one k = omega (arith, ap (λ (n : ℕ). weight n) {x = k + 1} {y = suc k} (omega arith))

place_one : (m k : ℕ) → k < m → (k + 1 < m) ⊎ (m ≤ k + 1) × (weight (suc k) ≡ weight m)
place_one m k h = elim (dec_lt (k + 1) m) [
  | yes b ↦ inl b
  | no b ↦ inr (omega arith, ap (λ (n : ℕ). weight n) {x = suc k} {y = m} (omega arith))
]

mul_rows-Holds :
    (len : ℕ) (a b : List ℕ) (j rounds n : ℕ) (s : Sums)
    → length a ≡ len
    → IsWords a
    → IsWords b
    → j + rounds ≤ len
    → Counted (2 * len) (2 * len) n s
    → n + rounds * (2 * len) ≤ word_mod
    → word s.carries 0 ≡ 0
    → Holds 1 (weight (2 * len)) (value a * upto (word b) j) s
    → Counted (2 * len) (2 * len) (n + rounds * (2 * len)) (mul_rows len a b j rounds s)
      × (word (mul_rows len a b j rounds s).carries 0 ≡ 0)
      × Holds 1
          (weight (2 * len))
          (value a * upto (word b) (j + rounds))
          (mul_rows len a b j rounds s)
unfolding mul_rows upto IsBelow
mul_rows-Holds len a b j zero n s la ha hb within c room first held = (
  Counted-mono _ _ n (n + 0 * (2 * len)) s (omega arith) c,
  first,
  Holds-≡ 1 (weight (2 * len)) s
      (ap (λ (k : ℕ). value a * upto (word b) k) {x = j} {y = j + 0} (omega arith)) held,
)
mul_rows-Holds len a b j (suc rounds) n s la ha hb within c room first held =
    let value_a : upto (word a) (0 + len) ≡ value a =
      ap (λ (k : ℕ). upto (word a) k) {x = 0 + len} {y = length a} (omega arith) ∙ upto-word a in
    let hi : ℕ → ℕ = λ (i : ℕ). umulhi (word a i) (word b j) in
    let lo : ℕ → ℕ = λ (i : ℕ). umullo (word a i) (word b j) in
    let (c', h') =
      mul_row-Holds 1 1 (weight (2 * len)) (2 * len) (omega arith) weights_one (place_one (2 * len))
        (word a) (word b j) hi lo j (λ i. umulhi_lt (word a i) (word b j) (ha i) (hb j))
        (λ i. umullo_lt (word a i) (word b j)) (λ i. umulhi-umullo (word a i) (word b j)) 0 len n
        (value a * upto (word b) j) s (omega arith) c (omega (arith, suc-mul rounds (2 * len)))
        (Holds-≡ 1 (weight (2 * len)) s (omega arith) held) in
    let s' = mul_row 1 hi lo j 0 len s in
    let (c″, first', h″) =
      mul_rows-Holds len a b (suc j) rounds (n + 2 * len) s' la ha hb (omega arith) c'
        (omega (arith, suc-mul rounds (2 * len))) (mul_row-first hi lo j 0 len s ∙ first)
        (Holds-≡ 1 (weight (2 * len)) s'
          (omega (
            arith,
            mul-add (value a) (upto (word b) j) (weight j * word b j),
            ap (λ (v : ℕ). weight j * word b j * v) value_a,
            mul_comm (weight j * word b j) (value a),
          ))
          h') in
    (
      Counted-mono _ _ _ _ _ (omega (arith, suc-mul rounds (2 * len))) c″,
      first',
      Holds-≡ 1 (weight (2 * len)) _
          (ap (λ (k : ℕ). value a * upto (word b) k) {x = suc j + rounds} {y = j + suc rounds}
            (omega arith))
          h″,
    )

value_zeros : (c : List ℕ) (n : ℕ) → length c ≡ n → ZeroTo n c → value c ≡ 0
unfolding value ZeroTo
value_zeros [] n e h = refl
value_zeros (x ∷ c) zero e h = absurd (omega arith)
value_zeros (x ∷ c) (suc n) e h =
    omega (arith, h 0 (omega arith), value_zeros c n (omega arith) (λ k b. h (suc k) (omega arith)))

-- A total below the weight of what is lost has lost nothing.
nothing_lost : (w v lost goal : ℕ) → v + w * lost ≡ goal → goal < w → v ≡ goal
nothing_lost w v zero goal e h = omega (arith, e)
nothing_lost w v (suc lost) goal e h = absurd (omega (arith, e, mul-suc w lost))

mul_room :
    (m : ℕ)
    → suc m < 2 ^ 30
    → 1 + suc m * (2 * suc m) + (2 * suc m - 1) * (2 * suc m - 1) ≤ word_mod
mul_room m h = omega (
  arith,
  mul_le (suc m) (2 * suc m) (2 ^ 30) (2 ^ 31) (omega arith) (omega arith),
  mul_le (2 * suc m - 1) (2 * suc m - 1) (2 ^ 31) (2 ^ 31) (omega arith) (omega arith),
)

value_mul_lt :
    (len : ℕ) (a b : List ℕ)
    → length a ≡ len
    → length b ≡ len
    → IsWords a
    → IsWords b
    → value a * value b < weight (2 * len)
value_mul_lt len a b la lb ha hb =
    let w = weight len in
    let below_a : value a < w = omega (arith, ap (λ (n : ℕ). weight n) la, value-lt a ha) in
    let below_b : suc (value b) ≤ w = omega (arith, ap (λ (n : ℕ). weight n) lb, value-lt b hb) in
    omega (
      arith,
      mul-le-mul_left w below_b,
      mul-suc w (value b),
      mul_le (value a) (value b) w (value b) (omega arith) (omega arith),
      ap (λ (n : ℕ). weight n) {x = 2 * len} {y = len + len} (omega arith),
      pow-add word_mod len len,
    )

-- The product of two numbers of S words, in 2 S words.
pub record IsProduct (len product : ℕ) (result : Option (List ℕ)) : Type 0 where
  pub words : List ℕ
  pub returned : result ≡ some words
  pub right_product : value words ≡ product
  pub right_length : length words ≡ 2 * len
  pub are_words : IsWords words

words_of-IsProduct :
    (len n goal : ℕ) (result : Option Sums)
    → 2 * len - 1 + 1 ≡ 2 * len
    → goal < weight (2 * len)
    → Propagated (2 * len) (2 * len) 1 (2 * len - 1) (Holds 1 (weight (2 * len)) goal) n result
    → IsProduct len goal (words_of result)
unfolding Holds total
words_of-IsProduct len n goal result e h p =
    let no_carry : value p.final.carries ≡ 0 =
      value_zeros p.final.carries (2 * len - 1 + 1) (p.counted.carry_count ∙ sym e) p.zeros in
    record {
      words = p.final.words;
      returned = ap words_of p.returned;
      right_product =
          nothing_lost (weight (2 * len)) (value p.final.words) p.kept.0 goal
            (omega (arith, no_carry, p.kept.1)) h;
      right_length = p.counted.word_count;
      are_words = p.counted.are_words;
    }

start-Holds :
    (len v : ℕ)
    → Holds 1 (weight (2 * len)) (v * upto (λ (i : ℕ). 0) 0) (new_sums (2 * len) (2 * len))
unfolding Holds upto
start-Holds len v = (0, omega (arith, new_sums-total 1 (2 * len) (2 * len)))

-- The product of two numbers of S words is what is returned, in 2 S words; the loops end, for
-- every S below 2^30.
pub mp_mul_cpu-IsProduct :
    (m : ℕ) (a b : List ℕ)
    → suc m < 2 ^ 30
    → length a ≡ suc m
    → length b ≡ suc m
    → IsWords a
    → IsWords b
    → IsProduct (suc m) (value a * value b) (mp_mul_cpu (suc m) a b)
unfolding mp_mul_cpu ZeroTo upto
mp_mul_cpu-IsProduct m a b small la lb ha hb =
    let len = suc m in
    let start = new_sums (2 * len) (2 * len) in
    let (c, first, held) =
      mul_rows-Holds len a b 0 len 1 start la ha hb (omega arith)
        (new_sums-Counted (2 * len) (2 * len)) (omega (arith, mul_room m small))
        (word-replicate_zero (2 * len) 0) (start-Holds len (value a)) in
    let value_b : upto (word b) (0 + len) ≡ value b =
      ap (λ (k : ℕ). upto (word b) k) {x = 0 + len} {y = length b} (omega arith) ∙ upto-word b in
    words_of-IsProduct len _ (value a * value b) _ (omega arith) (value_mul_lt len a b la lb ha hb)
      (propagate-Propagated add_carry_clear add_carry_clear-IsStep (2 * len) (2 * len) 1
        (2 * len - 1) (Holds 1 (weight (2 * len)) (value a * value b))
        (keeps_Holds 1 1 (weight (2 * len)) (2 * len) (omega arith) weights_one
          (place_one (2 * len)) (2 * len - 1) (value a * value b) (omega arith))
        (2 * len - 1) (1 + len * (2 * len)) 1 (mul_rows len a b 0 len start) (omega arith)
        (omega arith) (omega (arith, mul_room m small)) c
        (λ k h.
          ap (λ (i : ℕ). word (mul_rows len a b 0 len start).carries i) {x = k} {y = 0}
            (omega arith)
          ∙ first)
        (Holds-≡ 1 (weight (2 * len)) (mul_rows len a b 0 len start)
          (ap (λ (v : ℕ). value a * v) value_b) held))
