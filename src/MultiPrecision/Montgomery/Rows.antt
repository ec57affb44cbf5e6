-- ===== src/MultiPrecision/Montgomery/Rows.antt =====
-- The rounds of mp_montmul_cpu: after round j the total is a multiple of the weight of word j + 1.
use native.Mathlib.Nat.{mul-add, mul-suc, suc-mul, mul_comm, mul-le-mul_left}
use ginger_zaatar_allspice.Prelude.{
  ℕ, zero, suc, ◌+◌, ◌-◌, ◌*◌, ◌/◌, ◌%◌, ◌≤◌, ◌<◌, List, [], ◌∷◌, Option, some, ◌≡◌, refl, sym, ap,
  ap₂, subst, ◌∙◌, arith, length, ◌⊎◌, inl,
}
use ginger_zaatar_allspice.MultiPrecision.{
  word_mod, word, value, umulhi, umullo, Sums, add_carry_clear, mul_row, propagate,
}
use ginger_zaatar_allspice.MultiPrecision.Value.{
  weight, weight-suc, weight-suc_mul, mul-swap, IsBelow, IsWords, upto, upto-word, value_last,
}
use ginger_zaatar_allspice.MultiPrecision.Step.{total, Counted, Counted-mono}
use ginger_zaatar_allspice.MultiPrecision.Pass.{
  ZeroTo, propagate-Propagated, add_carry_clear-IsStep,
}
use ginger_zaatar_allspice.MultiPrecision.Lost.{Holds, Holds-≡}
use ginger_zaatar_allspice.MultiPrecision.Row.{
  umulhi_lt, umullo_lt, umulhi-umullo, keeps_Holds, mul_row-Holds,
}
use ginger_zaatar_allspice.MultiPrecision.Montgomery.{mont_rows, ◌>>=◌}
use ginger_zaatar_allspice.MultiPrecision.Montgomery.Divide.{word_of_multiple, multiplier}

value-head : (n : List ℕ) → (rest : ℕ) × (value n ≡ word n 0 + word_mod * rest)
unfolding value
value-head [] = (0, refl)
value-head (x ∷ n) = (value n, refl)

weights_zero : (k : ℕ) → word_mod * weight (k + 0) ≡ weight (suc k)
weights_zero k =
    ap (λ (i : ℕ). word_mod * weight i) {x = k + 0} {y = k} (omega arith) ∙ sym (weight-suc k)

place_zero : (m k : ℕ) → k < m → (k + 0 < m) ⊎ (m ≤ k + 0) × (weight (suc k) ≡ 0)
place_zero m k h = inl (omega arith)

-- The numbers of a round: p is the product, n the modulus.
pub record Reduced (len p n j count : ℕ) (s : Sums) : Type 0 where
  pub counted : Counted (2 * len) (2 * len) count s
  pub zeros : ZeroTo (2 * len - 1) s.carries
  pub quotient : ℕ
  pub divided : total word_mod s ≡ weight j * quotient
  pub multiple : ℕ
  pub added : total word_mod s ≡ p + n * multiple
  pub small : multiple < weight j

pub total_last :
    (len : ℕ) (s : Sums)
    → 0 < len
    → length s.carries ≡ 2 * len
    → ZeroTo (2 * len - 1) s.carries
    → total word_mod s ≡ value s.words + weight (2 * len) * word s.carries (2 * len - 1)
unfolding total ZeroTo
total_last len s h size zeros = omega (
  arith,
  value_last s.carries (2 * len - 1) (omega (arith, size)) zeros,
  weight-suc_mul (2 * len - 1) (word s.carries (2 * len - 1)),
  ap (λ (k : ℕ). weight k * word s.carries (2 * len - 1)) {x = suc (2 * len - 1)} {y = 2 * len}
      (omega arith),
)

regroup_factor : (w m n : ℕ) → w * m * n ≡ w * (n * m)
regroup_factor w m n = grind arith

-- The carries that a round may count.
abbrev pub per_round : ℕ → ℕ
per_round len = 2 * len + (2 * len - 1) * (2 * len - 1)

module _ (len : ℕ) (n : List ℕ) (np0 p : ℕ) (positive : 0 < len) (right_length : length n ≡ len)
    (are_words : IsWords n) (inverse : (word n 0 * np0 + 1) % word_mod ≡ 0) where
  abbrev factor : Sums → ℕ → ℕ
  factor s j = word s.words j * np0 % word_mod

  abbrev row : Sums → ℕ → Sums
  row s j =
      mul_row 0 (λ (i : ℕ). umulhi (factor s j) (word n i))
        (λ (i : ℕ). umullo (factor s j) (word n i)) j 0 len s

  row-Holds :
      (j count : ℕ) (s : Sums)
      → j < len
      → Counted (2 * len) (2 * len) count s
      → count + 2 * len ≤ word_mod
      → Counted (2 * len) (2 * len) (count + 2 * len) (row s j)
        × Holds word_mod 0 (total word_mod s + weight j * factor s j * value n) (row s j)
  unfolding upto Holds IsBelow
  row-Holds j count s b c room =
      let value_n : upto (word n) (0 + len) ≡ value n =
        ap (λ (k : ℕ). upto (word n) k) {x = 0 + len} {y = length n} (omega arith) ∙ upto-word n in
      let (c', h) =
        mul_row-Holds word_mod 0 0 (2 * len) (omega arith) weights_zero (place_zero (2 * len))
          (word n) (factor s j) (λ i. umulhi (factor s j) (word n i))
          (λ i. umullo (factor s j) (word n i)) j
          (λ i. umulhi_lt (factor s j) (word n i) (omega arith) (are_words i))
          (λ i. umullo_lt (factor s j) (word n i))
          (λ i. umulhi-umullo (factor s j) (word n i) ∙ mul_comm (factor s j) (word n i)) 0 len
          count (total word_mod s) s (omega arith) c room (0, omega arith) in
      (
        c',
        Holds-≡ word_mod 0 (row s j)
            (ap (λ (v : ℕ). total word_mod s + weight j * factor s j * v) value_n) h,
      )

  round-Reduced :
      (j count : ℕ) (s : Sums)
      → j < len
      → count + per_round len ≤ word_mod
      → Reduced len p (value n) j count s
      → (s' : Sums) × (propagate add_carry_clear 0 (2 * len - 1) (2 * len - 1) (row s j) ≡ some s')
        × Reduced len p (value n) (suc j) (count + per_round len) s'
  unfolding ZeroTo Holds
  round-Reduced j count s b room r =
      let (c, h) = row-Holds j count s b r.counted (omega arith) in
      let goal = total word_mod s + weight j * factor s j * value n in
      let done =
        propagate-Propagated add_carry_clear add_carry_clear-IsStep (2 * len) (2 * len) 0
          (2 * len - 1) (Holds word_mod 0 goal)
          (keeps_Holds word_mod 0 0 (2 * len) (omega arith) weights_zero (place_zero (2 * len))
            (2 * len - 1) goal (omega arith))
          (2 * len - 1) (count + 2 * len) 0 (row s j) (omega arith) (omega arith) (omega arith) c
          (λ k e. absurd (omega arith)) h in
      let (rest, head) = value-head n in
      let m = factor s j in
      let t : word s.words j ≡ r.quotient % word_mod =
        word_of_multiple s.words j (word s.carries (2 * len - 1)) r.quotient
          (omega (arith, r.counted.word_count)) r.counted.are_words
          (ap (λ (k : ℕ). value s.words + weight k * word s.carries (2 * len - 1))
              r.counted.word_count
            ∙ sym (total_last len s positive r.counted.carry_count r.zeros)
            ∙ r.divided) in
      let whole : (r.quotient + value n * m) % word_mod ≡ 0 =
        ap (λ (k : ℕ). (r.quotient + k) % word_mod)
          (ap₂ ◌*◌ head (ap (λ (v : ℕ). v * np0 % word_mod) t))
        ∙ multiplier r.quotient (word n 0) rest np0 inverse in
      let next = (r.quotient + value n * m) / word_mod in
      let exact : r.quotient + value n * m ≡ word_mod * next = omega (arith, whole) in
      let last_word : suc m ≤ word_mod = omega arith in
      (
        done.final,
        done.returned,
        record {
          counted = Counted-mono _ _ _ _ _ (omega arith) done.counted;
          zeros = λ k e. done.zeros k (omega arith);
          quotient = next;
          divided = omega (
            arith,
            done.kept.1,
            r.divided,
            regroup_factor (weight j) m (value n),
            mul-add (weight j) r.quotient (value n * m),
            ap (λ (v : ℕ). weight j * v) exact,
            weight-suc_mul j next,
            mul-swap (weight j) next,
          );
          multiple = r.multiple + weight j * m;
          added = omega (
            arith,
            done.kept.1,
            r.added,
            mul-add (value n) r.multiple (weight j * m),
            mul_comm (value n) (weight j * m),
          );
          small = omega (
            arith,
            r.small,
            mul-le-mul_left (weight j) last_word,
            mul-suc (weight j) m,
            weight-suc j,
            mul_comm (weight j) word_mod,
          );
        },
      )

  pub mont_rows-Reduced :
      (j rounds count : ℕ) (s : Sums)
      → j + rounds ≡ len
      → count + rounds * per_round len ≤ word_mod
      → Reduced len p (value n) j count s
      → (s' : Sums) × (mont_rows len n np0 j rounds s ≡ some s')
        × Reduced len p (value n) len (count + rounds * per_round len) s'
  unfolding mont_rows
  mont_rows-Reduced j zero count s b room r = (
    s,
    refl,
    subst (λ (k : ℕ). Reduced len p (value n) k (count + 0 * per_round len) s) {x = j} (omega arith)
        (subst (λ (k : ℕ). Reduced len p (value n) j k s) {x = count} (omega arith) r),
  )
  mont_rows-Reduced j (suc rounds) count s b room r =
      let (s', returned, r') =
        round-Reduced j count s (omega arith) (omega (arith, suc-mul rounds (per_round len))) r in
      let (s″, returned', r″) =
        mont_rows-Reduced (suc j) rounds (count + per_round len) s' (omega arith)
          (omega (arith, suc-mul rounds (per_round len))) r' in
      (
        s″,
        ap (λ (o : Option Sums). o >>= mont_rows len n np0 (suc j) rounds) returned ∙ returned',
        subst (λ (k : ℕ). Reduced len p (value n) len k s″)
            (omega (arith, suc-mul rounds (per_round len))) r″,
      )
