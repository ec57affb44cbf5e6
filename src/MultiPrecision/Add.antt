-- ===== src/MultiPrecision/Add.antt =====
-- mp_add_cpu and mp_add1_cpu.
use native.Mathlib.Nat.{mul-le-mul_left, pow-zero}
use ginger_zaatar_allspice.Prelude.{
  ℕ, zero, suc, ◌+◌, ◌-◌, ◌*◌, ◌^◌, ◌≤◌, ◌<◌, List, Option, some, ◌≡◌, refl, sym, ap, ap₂, subst,
  ◌∙◌, arith, set, length, replicate, length-replicate, get_or-set_ne, if◌then◌else◌, ◌==◌,
}
use ginger_zaatar_allspice.MultiPrecision.{
  word_mod, word, value, Sums, add_carry, add_carry_clear, new_sums, add_words, propagate,
  with_last, mp_add_cpu, mp_add1_cpu,
}
use ginger_zaatar_allspice.MultiPrecision.Value.{
  weight, weight-suc, weight-suc_mul, IsBelow, IsWords, upto, upto-word, value_last,
  value-replicate_zero, IsBelow-replicate_zero,
}
use ginger_zaatar_allspice.MultiPrecision.Step.{
  total, Counted, Counted-mono, clear-Counted, add_carry-Counted, total-add_carry,
  total-add_carry_clear, value-clear,
}
use ginger_zaatar_allspice.MultiPrecision.Pass.{
  ZeroTo, Propagated, propagate-Propagated, add_carry_clear-IsStep,
}

-- The steps of a pass keep the total, where carry k is one out of word k.
pub keeps_total :
    (m top : ℕ) (goal : ℕ)
    → top < m
    → (s : Sums) (n j : ℕ) → j < top
    → Counted m m n s
    → suc n ≤ word_mod
    → total word_mod s ≡ goal
    → total word_mod (add_carry_clear s (suc j + 0) (suc j) (j + 0)) ≡ goal
unfolding IsBelow
keeps_total m top goal h s n j b c room e =
    total-add_carry_clear word_mod s (suc j + 0) (suc j) (j + 0) (omega (arith, c.word_count))
      (omega (arith, c.carry_count)) (omega (arith, c.carry_count)) (λ e. absurd (omega arith))
      (c.are_words (suc j)) (omega (arith, c.small (j + 0))) (omega (arith, c.small (suc j + 0)))
      (ap (λ (k : ℕ). word_mod * weight k) {x = j + 0} {y = j} (omega arith) ∙ sym (weight-suc j))
      (ap (λ (k : ℕ). word_mod * weight k) {x = suc j + 0} {y = suc j} (omega arith)
        ∙ sym (weight-suc (suc j)))
    ∙ e

-- One step of the first loop, at a word and a carry that are still zero.
total-add_word :
    (m n : ℕ) (s : Sums) (i x y : ℕ)
    → i < m
    → Counted m m n s
    → suc n ≤ word_mod
    → x < word_mod
    → y < word_mod
    → word s.words i ≡ 0
    → word s.carries i ≡ 0
    → total word_mod (add_carry (record { words = s.words; carries = set s.carries i 0 }) i i x y)
      ≡ total word_mod s + (weight i * x + weight i * y)
unfolding total IsBelow
total-add_word m n s i x y b c room hx hy zero_word zero_carry =
    let cleared = record s { carries = set s.carries i 0 } in
    let cc = clear-Counted m m n s i c in
    omega (
      arith,
      total-add_carry word_mod cleared i i x y (omega (arith, c.word_count))
          (omega (arith, cc.carry_count)) hx hy (omega (arith, cc.small i)) (sym (weight-suc i)),
      ap (λ (v : ℕ). weight i * v) zero_word,
      value-clear word_mod (weight (suc i)) s.carries i (omega (arith, c.carry_count))
          (sym (weight-suc i)),
      ap (λ (v : ℕ). weight (suc i) * v) zero_carry,
    )

-- The first loop, when the words and carries from i on are zero.
add_words-total :
    (m n : ℕ) (x y : ℕ → ℕ) (i rounds : ℕ) (s : Sums)
    → i + rounds ≤ m
    → Counted m m n s
    → n + rounds ≤ word_mod
    → ((k : ℕ) → x k < word_mod)
    → ((k : ℕ) → y k < word_mod)
    → ((k : ℕ) → i ≤ k → word s.words k ≡ 0)
    → ((k : ℕ) → i ≤ k → word s.carries k ≡ 0)
    → Counted m m (n + rounds) (add_words x y i rounds s)
      × (total word_mod (add_words x y i rounds s) + upto x i + upto y i
          ≡ total word_mod s + upto x (i + rounds) + upto y (i + rounds))
unfolding add_words add_carry upto
add_words-total m n x y i zero s b c room hx hy words carries = (
  Counted-mono m m n (n + 0) s (omega arith) c,
  omega (
    arith,
    ap (λ (k : ℕ). upto x k) {x = i} {y = i + 0} (omega arith),
    ap (λ (k : ℕ). upto y k) {x = i} {y = i + 0} (omega arith),
  ),
)
add_words-total m n x y i (suc rounds) s b c room hx hy words carries =
    let cleared = record s { carries = set s.carries i 0 } in
    let s' = add_carry cleared i i (x i) (y i) in
    let (c', e) =
      add_words-total m (suc n) x y (suc i) rounds s' (omega arith)
        (add_carry-Counted m m n cleared i i (x i) (y i) (clear-Counted m m n s i c) (omega arith))
        (omega arith) hx hy
        (λ k h. get_or-set_ne s.words i k _ 0 (λ e. absurd (omega arith)) ∙ words k (omega arith))
        (λ k h.
          get_or-set_ne (set s.carries i 0) i k _ 0 (λ e. absurd (omega arith))
          ∙ get_or-set_ne s.carries i k 0 0 (λ e. absurd (omega arith))
          ∙ carries k (omega arith)) in
    (
      Counted-mono m m _ _ _ (omega arith) c',
      omega (
        arith,
        e,
        total-add_word m n s i (x i) (y i) (omega arith) c (omega arith) (hx i) (hy i)
            (words i (omega arith)) (carries i (omega arith)),
        ap (λ (k : ℕ). upto x k) {x = suc i + rounds} {y = i + suc rounds} (omega arith),
        ap (λ (k : ℕ). upto y k) {x = suc i + rounds} {y = i + suc rounds} (omega arith),
      ),
    )

pub word-replicate_zero : (n k : ℕ) → word (replicate n 0) k ≡ 0
word-replicate_zero zero k = refl
word-replicate_zero (suc n) zero = refl
word-replicate_zero (suc n) (suc k) = word-replicate_zero n k

pub new_sums-Counted : (m l : ℕ) → Counted m l 1 (new_sums m l)
new_sums-Counted m l = record {
  word_count = length-replicate m 0;
  carry_count = length-replicate l 0;
  are_words = IsBelow-replicate_zero word_mod m (omega arith);
  small = IsBelow-replicate_zero 1 l (omega arith);
}

pub new_sums-total : (u m l : ℕ) → total u (new_sums m l) ≡ 0
unfolding total
new_sums-total u m l =
    omega (arith, value-replicate_zero m, ap (λ (n : ℕ). u * n) (value-replicate_zero l))

-- Words of the length asked for and a carry, which make up `sum`.
pub record IsSum (len sum : ℕ) (result : Option (List ℕ × ℕ)) : Type 0 where
  pub words : List ℕ
  pub carry : ℕ
  pub returned : result ≡ some (words, carry)
  pub right_sum : value words + weight len * carry ≡ sum
  pub right_length : length words ≡ len
  pub are_words : IsWords words

-- The room that the counters of carries need.
abbrev pub rounds : ℕ → ℕ
rounds m = suc m + m * m

with_last-IsSum :
    (m n goal : ℕ) (result : Option Sums)
    → Propagated (suc m) (suc m) 0 m (λ (s : Sums). total word_mod s ≡ goal) n result
    → IsSum (suc m) goal (with_last m result)
unfolding total ZeroTo
with_last-IsSum m n goal result p = record {
  words = p.final.words;
  carry = word p.final.carries m;
  returned = ap (with_last m) p.returned;
  right_sum = omega (
    arith,
    p.kept,
    value_last p.final.carries m p.counted.carry_count (λ k b. p.zeros k (omega arith)),
    weight-suc_mul m (word p.final.carries m),
  );
  right_length = p.counted.word_count;
  are_words = p.counted.are_words;
}

add_words-IsSum :
    (m : ℕ) (x y : ℕ → ℕ)
    → suc (rounds m) ≤ word_mod
    → ((k : ℕ) → x k < word_mod)
    → ((k : ℕ) → y k < word_mod)
    → IsSum (suc m) (upto x (suc m) + upto y (suc m)) (
        with_last m
          (propagate add_carry_clear 0 m m (add_words x y 0 (suc m) (new_sums (suc m) (suc m)))))
unfolding ZeroTo upto
add_words-IsSum m x y room hx hy =
    let (c, e) =
      add_words-total (suc m) 1 x y 0 (suc m) (new_sums (suc m) (suc m)) (omega arith)
        (new_sums-Counted (suc m) (suc m)) (omega arith) hx hy
        (λ k h. word-replicate_zero (suc m) k) (λ k h. word-replicate_zero (suc m) k) in
    let goal = upto x (suc m) + upto y (suc m) in
    with_last-IsSum m _ goal _ (
      propagate-Propagated add_carry_clear add_carry_clear-IsStep (suc m) (suc m) 0 m
        (λ (s : Sums). total word_mod s ≡ goal) (keeps_total (suc m) m goal (omega arith)) m
        (1 + suc m) 0 _ (omega arith) (omega arith) (omega arith) c (λ k b. absurd (omega arith))
        (omega (
          arith,
          e,
          new_sums-total word_mod (suc m) (suc m),
          ap (λ (k : ℕ). upto x k) {x = 0 + suc m} {y = suc m} (omega arith),
          ap (λ (k : ℕ). upto y k) {x = 0 + suc m} {y = suc m} (omega arith),
        )))

pub square_room : (m : ℕ) → suc m < 2 ^ 31 → suc (rounds m) ≤ word_mod
square_room m h = let b : m ≤ 2 ^ 31 = omega arith in omega (arith, mul-le-mul_left m b)

-- The sum of two numbers of S words is what is returned: its words, and its top carry. The loops
-- end, for every S below 2^31.
pub mp_add_cpu-IsSum :
    (m : ℕ) (x y : List ℕ)
    → suc m < 2 ^ 31
    → length x ≡ suc m
    → length y ≡ suc m
    → IsWords x
    → IsWords y
    → IsSum (suc m) (value x + value y) (mp_add_cpu (suc m) x y)
unfolding mp_add_cpu IsBelow
mp_add_cpu-IsSum m x y small lx ly hx hy =
    let value_x : upto (word x) (suc m) ≡ value x =
      sym (ap (λ (n : ℕ). upto (word x) n) lx) ∙ upto-word x in
    let value_y : upto (word y) (suc m) ≡ value y =
      sym (ap (λ (n : ℕ). upto (word y) n) ly) ∙ upto-word y in
    subst (λ (n : ℕ). IsSum (suc m) n (mp_add_cpu (suc m) x y)) (ap₂ ◌+◌ value_x value_y)
      (subst
        (λ (k : ℕ). IsSum (suc m) (upto (word x) (suc m) + upto (word y) (suc m)) (
          with_last k (
            propagate add_carry_clear 0 k k
              (add_words (word x) (word y) 0 (suc m) (new_sums (suc m) (suc m))))))
        {x = m} {y = suc m - 1} (omega arith)
        (add_words-IsSum m (word x) (word y) (square_room m small) hx hy))

upto_one : (m : ℕ) → upto (λ (i : ℕ). if i == 0 then 1 else 0) (suc m) ≡ 1
unfolding upto
upto_one zero = omega (arith, ap (λ (p : ℕ). p * 1) (pow-zero word_mod))
upto_one (suc m) =
    let one : ℕ → ℕ = λ (i : ℕ). if i == 0 then 1 else 0 in
    let later : one (suc m) ≡ 0 = ground arith in
    omega (arith, upto_one m, ap (λ (v : ℕ). weight (suc m) * v) later)

-- The sum of a number of S words and 1 is what is returned.
pub mp_add1_cpu-IsSum :
    (m : ℕ) (x : List ℕ)
    → suc m < 2 ^ 31
    → length x ≡ suc m
    → IsWords x
    → IsSum (suc m) (value x + 1) (mp_add1_cpu (suc m) x)
unfolding mp_add1_cpu IsBelow
mp_add1_cpu-IsSum m x small lx hx =
    let one : ℕ → ℕ = λ (i : ℕ). if i == 0 then 1 else 0 in
    let value_x : upto (word x) (suc m) ≡ value x =
      sym (ap (λ (n : ℕ). upto (word x) n) lx) ∙ upto-word x in
    subst (λ (n : ℕ). IsSum (suc m) n (mp_add1_cpu (suc m) x)) (ap₂ ◌+◌ value_x (upto_one m))
      (subst
        (λ (k : ℕ). IsSum (suc m) (upto (word x) (suc m) + upto one (suc m)) (
          with_last k (
            propagate add_carry_clear 0 k k
              (add_words (word x) one 0 (suc m) (new_sums (suc m) (suc m))))))
        {x = m} {y = suc m - 1} (omega arith)
        (add_words-IsSum m (word x) one (square_room m small) hx (λ k. ground arith)))
