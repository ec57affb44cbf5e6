-- ===== src/MultiPrecision/Sub.antt =====
-- mp_sub_cpu.
use native.Mathlib.Nat.{mul-add}
use mathlib.Core.Path.{subst₂}
use ginger_zaatar_allspice.Prelude.{
  ℕ, zero, suc, ◌+◌, ◌-◌, ◌*◌, ◌%◌, ◌^◌, ◌≤◌, ◌<◌, List, Option, some, ◌≡◌, ◌≢◌, refl, sym, ap,
  subst, ◌∙◌, arith, ltb, set, length, length-set, get_or-set_ne,
}
use ginger_zaatar_allspice.MultiPrecision.{
  word_mod, word, value, Sums, test, sub_borrow, sub_borrow_clear, new_sums, sub_words, propagate,
  with_last, mp_sub_cpu,
}
use ginger_zaatar_allspice.MultiPrecision.Value.{
  weight, weight-suc, weight-suc_mul, mul-swap, value-set, IsBelow, IsWords, IsBelow-set,
  IsBelow-mono, upto, upto-word, value_last, value-replicate_zero,
}
use ginger_zaatar_allspice.MultiPrecision.Step.{
  test-le, value-increment, value-clear, Counted, Counted-mono, clear-Counted, total,
}
use ginger_zaatar_allspice.MultiPrecision.Pass.{
  word-set_zero, IsStep, ZeroTo, Propagated, propagate-Propagated,
}
use ginger_zaatar_allspice.MultiPrecision.Add.{
  new_sums-Counted, word-replicate_zero, rounds, square_room,
}

-- A difference of two words is what is kept of it, less its borrow.
word_difference :
    (x y : ℕ)
    → x < word_mod
    → y < word_mod
    → (x + word_mod - y) % word_mod + y
      ≡ x + word_mod * test (ltb x ((x + word_mod - y) % word_mod))
unfolding test
word_difference x y hx hy = ground arith

test-ltb_sub_zero : (x : ℕ) → x < word_mod → test (ltb x ((x + word_mod - 0) % word_mod)) ≡ 0
unfolding test
test-ltb_sub_zero x h = ground arith

sub_borrow-Counted :
    (m l n : ℕ) (s : Sums) (i k x y : ℕ)
    → Counted m l n s
    → suc n ≤ word_mod
    → Counted m l (suc n) (sub_borrow s i k x y)
unfolding sub_borrow IsBelow
sub_borrow-Counted m l n s i k x y c h =
    let t = (x + word_mod - y) % word_mod in
    record {
      word_count = length-set s.words k t ∙ c.word_count;
      carry_count = length-set s.carries i _ ∙ c.carry_count;
      are_words = IsBelow-set word_mod s.words k t c.are_words (omega arith);
      small =
          IsBelow-set (suc n) s.carries i _ (IsBelow-mono n (suc n) s.carries (omega arith) c.small)
            (omega (arith, c.small i, test-le (ltb x t)));
    }

word-sub_borrow_clear :
    (s : Sums) (i k j p : ℕ)
    → j ≢ i
    → word s.words k < word_mod
    → (p ≢ j → word s.carries p ≡ 0)
    → (p ≡ i → word s.carries j ≡ 0)
    → word (sub_borrow_clear s i k j).carries p ≡ 0
unfolding sub_borrow_clear sub_borrow
word-sub_borrow_clear s i k j p other fits zeroed before =
    let x = word s.words k in
    let cleared = set s.carries j 0 in
    word-set_zero cleared i
      ((word cleared i + test (ltb x ((x + word_mod - word s.carries j) % word_mod))) % word_mod) p
      (λ e.
        let first : word cleared i ≡ 0 =
          get_or-set_ne s.carries j i 0 0 other
          ∙ sym (ap (λ (n : ℕ). word s.carries n) e)
          ∙ zeroed (λ same. other (sym same ∙ e)) in
        let no_borrow : test (ltb x ((x + word_mod - word s.carries j) % word_mod)) ≡ 0 =
          ap (λ (n : ℕ). test (ltb x ((x + word_mod - n) % word_mod))) (before e)
          ∙ test-ltb_sub_zero x fits in
        omega (arith, first, no_borrow))
      (λ n. word-set_zero s.carries j 0 p (λ e. refl) zeroed)

sub_borrow_clear-IsStep : IsStep sub_borrow_clear
unfolding sub_borrow_clear
sub_borrow_clear-IsStep = record {
  counts = λ m l n s i k j c h.
      sub_borrow-Counted m l n (record s { carries = set s.carries j 0 }) i k (word s.words k)
        (word s.carries j) (clear-Counted m l n s j c) h;
  clears = word-sub_borrow_clear;
}

-- A difference that is written to word k, with its borrow into carry i.
value-sub_borrow :
    (s : Sums) (i k x y : ℕ)
    → k < length s.words
    → i < length s.carries
    → x < word_mod
    → y < word_mod
    → suc (word s.carries i) < word_mod
    → word_mod * weight i ≡ weight (suc k)
    → value (sub_borrow s i k x y).words
        + weight k * word s.words k
        + weight k * y
        + word_mod * value s.carries
      ≡ value s.words + weight k * x + word_mod * value (sub_borrow s i k x y).carries
unfolding sub_borrow
value-sub_borrow s i k x y hk hi hx hy small e =
    let t = (x + word_mod - y) % word_mod in
    let b = test (ltb x t) in
    omega (
      arith,
      value-increment word_mod (weight (suc k)) s.carries i (ltb x t) hi small e,
      value-set s.words k t hk,
      weight-suc_mul k b,
      ap (λ (n : ℕ). weight k * n) (word_difference x y hx hy),
      mul-add (weight k) t y,
      mul-add (weight k) x (word_mod * b),
      mul-swap (weight k) b,
    )

-- What words and borrows say of a difference of numbers.
Owes : ℕ → ℕ → Sums → Type 0
Owes x y s = value s.words + y ≡ x + word_mod * value s.carries

keeps_Owes :
    (m top x y : ℕ)
    → top < m
    → (s : Sums) (n j : ℕ) → j < top
    → Counted m m n s
    → suc n ≤ word_mod
    → Owes x y s
    → Owes x y (sub_borrow_clear s (suc j + 0) (suc j) (j + 0))
unfolding Owes sub_borrow_clear IsBelow
keeps_Owes m top x y h s n j b c room e =
    let cleared = record s { carries = set s.carries (j + 0) 0 } in
    let cc = clear-Counted m m n s (j + 0) c in
    omega (
      arith,
      e,
      value-sub_borrow cleared (suc j + 0) (suc j) (word s.words (suc j)) (word s.carries (j + 0))
          (omega (arith, c.word_count)) (omega (arith, cc.carry_count)) (c.are_words (suc j))
          (omega (arith, c.small (j + 0))) (omega (arith, cc.small (suc j + 0)))
          (ap (λ (k : ℕ). word_mod * weight k) {x = suc j + 0} {y = suc j} (omega arith)
            ∙ sym (weight-suc (suc j))),
      value-clear word_mod (weight (suc j)) s.carries (j + 0) (omega (arith, c.carry_count)) (
          ap (λ (k : ℕ). word_mod * weight k) {x = j + 0} {y = j} (omega arith)
          ∙ sym (weight-suc j)),
    )

-- The first loop, when the words and borrows from i on are zero.
sub_words-Owes :
    (m n : ℕ) (x y : ℕ → ℕ) (i rounds : ℕ) (s : Sums)
    → i + rounds ≤ m
    → Counted m m n s
    → n + rounds ≤ word_mod
    → ((k : ℕ) → x k < word_mod)
    → ((k : ℕ) → y k < word_mod)
    → ((k : ℕ) → i ≤ k → word s.words k ≡ 0)
    → ((k : ℕ) → i ≤ k → word s.carries k ≡ 0)
    → Owes (upto x i) (upto y i) s
    → Counted m m (n + rounds) (sub_words x y i rounds s)
      × Owes (upto x (i + rounds)) (upto y (i + rounds)) (sub_words x y i rounds s)
unfolding sub_words upto Owes IsBelow
sub_words-Owes m n x y i zero s b c room hx hy words carries e = (
  Counted-mono m m n (n + 0) s (omega arith) c,
  omega (
    arith,
    e,
    ap (λ (k : ℕ). upto x k) {x = i} {y = i + 0} (omega arith),
    ap (λ (k : ℕ). upto y k) {x = i} {y = i + 0} (omega arith),
  ),
)
sub_words-Owes m n x y i (suc rounds) s b c room hx hy words carries e =
    let cleared = record s { carries = set s.carries i 0 } in
    let cc = clear-Counted m m n s i c in
    let s' = sub_borrow cleared i i (x i) (y i) in
    let (c', e') =
      sub_words-Owes m (suc n) x y (suc i) rounds s' (omega arith)
        (sub_borrow-Counted m m n cleared i i (x i) (y i) cc (omega arith)) (omega arith) hx hy
        (λ k h. get_or-set_ne s.words i k _ 0 (λ e. absurd (omega arith)) ∙ words k (omega arith))
        (λ k h.
          get_or-set_ne (set s.carries i 0) i k _ 0 (λ e. absurd (omega arith))
          ∙ get_or-set_ne s.carries i k 0 0 (λ e. absurd (omega arith))
          ∙ carries k (omega arith))
        (omega (
          arith,
          e,
          value-sub_borrow cleared i i (x i) (y i) (omega (arith, c.word_count))
              (omega (arith, cc.carry_count)) (hx i) (hy i) (omega (arith, cc.small i))
              (sym (weight-suc i)),
          ap (λ (v : ℕ). weight i * v) (words i (omega arith)),
          value-clear word_mod (weight (suc i)) s.carries i (omega (arith, c.carry_count))
              (sym (weight-suc i)),
          ap (λ (v : ℕ). weight (suc i) * v) (carries i (omega arith)),
        )) in
    (
      Counted-mono m m _ _ _ (omega arith) c',
      omega (
        arith,
        e',
        ap (λ (k : ℕ). upto x k) {x = suc i + rounds} {y = i + suc rounds} (omega arith),
        ap (λ (k : ℕ). upto y k) {x = suc i + rounds} {y = i + suc rounds} (omega arith),
      ),
    )

-- Words of the length asked for and a borrow, which make up x - y.
pub record IsDifference (len x y : ℕ) (result : Option (List ℕ × ℕ)) : Type 0 where
  pub words : List ℕ
  pub borrow : ℕ
  pub returned : result ≡ some (words, borrow)
  pub right_difference : value words + y ≡ x + weight len * borrow
  pub right_length : length words ≡ len
  pub are_words : IsWords words

with_last-IsDifference :
    (m n x y : ℕ) (result : Option Sums)
    → Propagated (suc m) (suc m) 0 m (Owes x y) n result
    → IsDifference (suc m) x y (with_last m result)
unfolding Owes ZeroTo
with_last-IsDifference m n x y result p = record {
  words = p.final.words;
  borrow = word p.final.carries m;
  returned = ap (with_last m) p.returned;
  right_difference = omega (
    arith,
    p.kept,
    value_last p.final.carries m p.counted.carry_count (λ k b. p.zeros k (omega arith)),
    weight-suc_mul m (word p.final.carries m),
  );
  right_length = p.counted.word_count;
  are_words = p.counted.are_words;
}

sub_words-IsDifference :
    (m : ℕ) (x y : ℕ → ℕ)
    → suc (rounds m) ≤ word_mod
    → ((k : ℕ) → x k < word_mod)
    → ((k : ℕ) → y k < word_mod)
    → IsDifference (suc m) (upto x (suc m)) (upto y (suc m)) (
        with_last m
          (propagate sub_borrow_clear 0 m m (sub_words x y 0 (suc m) (new_sums (suc m) (suc m)))))
unfolding ZeroTo Owes upto total
sub_words-IsDifference m x y room hx hy =
    let (c, e) =
      sub_words-Owes (suc m) 1 x y 0 (suc m) (new_sums (suc m) (suc m)) (omega arith)
        (new_sums-Counted (suc m) (suc m)) (omega arith) hx hy
        (λ k h. word-replicate_zero (suc m) k) (λ k h. word-replicate_zero (suc m) k)
        (omega (arith, value-replicate_zero (suc m))) in
    with_last-IsDifference m _ (upto x (suc m)) (upto y (suc m)) _ (
      propagate-Propagated sub_borrow_clear sub_borrow_clear-IsStep (suc m) (suc m) 0 m
        (Owes (upto x (suc m)) (upto y (suc m)))
        (keeps_Owes (suc m) m (upto x (suc m)) (upto y (suc m)) (omega arith)) m (1 + suc m) 0 _
        (omega arith) (omega arith) (omega arith) c (λ k b. absurd (omega arith))
        (omega (
          arith,
          e,
          ap (λ (k : ℕ). upto x k) {x = 0 + suc m} {y = suc m} (omega arith),
          ap (λ (k : ℕ). upto y k) {x = 0 + suc m} {y = suc m} (omega arith),
        )))

-- The difference of two numbers of S words is what is returned, modulo the weight of the word
-- after the last, and the borrow tells how often that weight was added. The loops end, for every S
-- below 2^31.
pub mp_sub_cpu-IsDifference :
    (m : ℕ) (x y : List ℕ)
    → suc m < 2 ^ 31
    → length x ≡ suc m
    → length y ≡ suc m
    → IsWords x
    → IsWords y
    → IsDifference (suc m) (value x) (value y) (mp_sub_cpu (suc m) x y)
unfolding mp_sub_cpu IsBelow
mp_sub_cpu-IsDifference m x y small lx ly hx hy =
    let value_x : upto (word x) (suc m) ≡ value x =
      sym (ap (λ (n : ℕ). upto (word x) n) lx) ∙ upto-word x in
    let value_y : upto (word y) (suc m) ≡ value y =
      sym (ap (λ (n : ℕ). upto (word y) n) ly) ∙ upto-word y in
    subst₂ (λ (a b : ℕ). IsDifference (suc m) a b (mp_sub_cpu (suc m) x y)) value_x value_y
      (subst
        (λ (k : ℕ). IsDifference (suc m) (upto (word x) (suc m)) (upto (word y) (suc m)) (
          with_last k (
            propagate sub_borrow_clear 0 k k
              (sub_words (word x) (word y) 0 (suc m) (new_sums (suc m) (suc m))))))
        {x = m} {y = suc m - 1} (omega arith)
        (sub_words-IsDifference m (word x) (word y) (square_room m small) hx hy))
