-- ===== src/MultiPrecision/Montgomery/Product.antt =====
-- mp_montmul_cpu as a whole.
use native.Mathlib.Nat.{
  mod-lt, mod-mod, add-mul-mod_self_left, mul-suc, mul_comm, mul-le-mul_left, mod-eq_of_lt,
  mod-eq-sub-mod, pow-zero,
}
use ginger_zaatar_allspice.Prelude.{
  ℕ, zero, suc, ◌+◌, ◌-◌, ◌*◌, ◌%◌, ◌^◌, ◌≤◌, ◌<◌, List, [], ◌∷◌, Option, some, ◌≡◌, refl, sym, ap,
  subst, ◌∙◌, arith, length, drop, length-drop, replicate, length-replicate, ◌==◌, Bool-cases, inl,
  inr, dec_lt, ℕ_discrete,
}
use ginger_zaatar_allspice.Prelude.Congr.{mul-mod}
use ginger_zaatar_allspice.MultiPrecision.{word_mod, word, value, Sums, mp_sub_cpu}
use ginger_zaatar_allspice.MultiPrecision.Value.{
  weight, IsBelow, IsWords, upto, upto-word, value-lt, value-replicate_zero, IsBelow-replicate_zero,
}
use ginger_zaatar_allspice.MultiPrecision.Step.{total}
use ginger_zaatar_allspice.MultiPrecision.Pass.{ZeroTo}
use ginger_zaatar_allspice.MultiPrecision.Add.{word-replicate_zero}
use ginger_zaatar_allspice.MultiPrecision.Sub.{IsDifference, mp_sub_cpu-IsDifference}
use ginger_zaatar_allspice.MultiPrecision.Mul.{mp_mul_cpu-IsProduct}
use ginger_zaatar_allspice.MultiPrecision.Row.{mul_le}
use ginger_zaatar_allspice.MultiPrecision.Montgomery.{
  mont_rows, is_bigger, first_of, subtract_if_bigger, mp_montmul_cpu, ◌>>=◌,
}
use ginger_zaatar_allspice.MultiPrecision.Montgomery.Divide.{value-drop, is_bigger-le, is_bigger-lt}
use ginger_zaatar_allspice.MultiPrecision.Montgomery.Rows.{
  Reduced, total_last, per_round, mont_rows-Reduced,
}

pub IsBelow-drop : (m k : ℕ) (xs : List ℕ) → IsBelow m xs → 0 < m → IsBelow m (drop k xs)
unfolding IsBelow
IsBelow-drop m zero xs h b = h
IsBelow-drop m (suc k) [] h b = h
IsBelow-drop m (suc k) (x ∷ xs) h b = IsBelow-drop m k xs (λ i. h (suc i)) b

unique_remainder : (w a b x y : ℕ) → a + w * x ≡ b + w * y → a < w → b < w → a ≡ b
unique_remainder w a b x y e ha hb = elim (ℕ_discrete x y) [
  | yes same ↦ omega (arith, e, ap (λ (k : ℕ). w * k) same)
  | no other ↦ elim (dec_lt x y) [
    | yes below ↦
        let next : suc x ≤ y = below in
        absurd (omega (arith, e, mul-le-mul_left w next, mul-suc w x))
    | no above ↦
        let next : suc y ≤ x = omega arith in
        absurd (omega (arith, e, mul-le-mul_left w next, mul-suc w y))
  ]
]

-- A number of S words.
pub record IsNumber (len v : ℕ) (result : Option (List ℕ)) : Type 0 where
  pub words : List ℕ
  pub returned : result ≡ some words
  pub right_value : value words ≡ v
  pub right_length : length words ≡ len
  pub are_words : IsWords words

value_upto : (len : ℕ) (xs : List ℕ) → length xs ≡ len → upto (word xs) len ≡ value xs
value_upto len xs h = sym (ap (λ (n : ℕ). upto (word xs) n) h) ∙ upto-word xs

-- u stands for y, with a carry of the weight of S words.
difference-IsNumber :
    (m y carry : ℕ) (u n : List ℕ)
    → value u + weight (suc m) * carry ≡ y
    → value n ≤ y
    → y < 2 * value n
    → IsWords n
    → length n ≡ suc m
    → IsDifference (suc m) (value u) (value n) (mp_sub_cpu (suc m) u n)
    → IsNumber (suc m) (y - value n) (first_of (mp_sub_cpu (suc m) u n))
difference-IsNumber m y carry u n e below bound hn ln d =
    let w = weight (suc m) in
    let n_lt : value n < w = omega (arith, value-lt n hn, ap (λ (k : ℕ). weight k) ln) in
    let d_lt : value d.words < w =
      omega (arith, value-lt d.words d.are_words, ap (λ (k : ℕ). weight k) d.right_length) in
    record {
      words = d.words;
      returned = ap first_of d.returned;
      right_value =
          unique_remainder w (value d.words) (y - value n) carry d.borrow
            (omega (arith, d.right_difference, e)) d_lt (omega arith);
      right_length = d.right_length;
      are_words = d.are_words;
    }

mod_twice : (n y : ℕ) → n ≤ y → y < 2 * n → y % n ≡ y - n
mod_twice n y below bound = mod-eq-sub-mod below ∙ mod-eq_of_lt (omega arith)

-- The end of the function subtracts n once if y is n or more.
subtract_if_bigger-IsNumber :
    (m y carry : ℕ) (u n : List ℕ)
    → suc m < 2 ^ 31
    → value u + weight (suc m) * carry ≡ y
    → y < 2 * value n
    → length u ≡ suc m
    → length n ≡ suc m
    → IsWords u
    → IsWords n
    → IsNumber (suc m) (y % value n) (subtract_if_bigger (suc m) u carry n)
unfolding subtract_if_bigger
subtract_if_bigger-IsNumber m y carry u n small e bound lu ln hu hn =
    let subtracted : value n ≤ y
        → IsNumber (suc m) (y % value n) (first_of (mp_sub_cpu (suc m) u n)) =
      λ below.
        subst (λ (v : ℕ). IsNumber (suc m) v (first_of (mp_sub_cpu (suc m) u n)))
          (sym (mod_twice (value n) y below bound))
          (difference-IsNumber m y carry u n e below bound hn ln
            (mp_sub_cpu-IsDifference m u n small lu ln hu hn)) in
    let n_lt : value n < weight (suc m) =
      omega (arith, value-lt n hn, ap (λ (k : ℕ). weight k) ln) in
    elim (Bool-cases (carry == 0)) [
      | inr carried ↦
          let some_carry : 1 ≤ carry = ground arith in
          rw (subtract_if_bigger, carried)
            (subtracted (omega (arith, e, n_lt, mul-le-mul_left (weight (suc m)) some_carry)))
      | inl none_carried ↦
          let zero_carry : carry ≡ 0 = ground arith in
          let same : value u ≡ y =
            omega (arith, e, ap (λ (k : ℕ). weight (suc m) * k) zero_carry) in
          elim (Bool-cases (is_bigger u n (suc m))) [
            | inl bigger ↦
                rw (subtract_if_bigger, none_carried, bigger)
                  (subtracted (
                    omega (
                      arith,
                      same,
                      is_bigger-le u n (suc m) hu hn bigger,
                      value_upto (suc m) u lu,
                      value_upto (suc m) n ln,
                    )))
            | inr smaller ↦
                rw (subtract_if_bigger, none_carried, smaller)
                  (record {
                    words = u;
                    returned = refl;
                    right_value =
                        same
                        ∙ sym (
                            mod-eq_of_lt (
                              omega (
                                arith,
                                same,
                                is_bigger-lt u n (suc m) hu hn smaller,
                                value_upto (suc m) u lu,
                                value_upto (suc m) n ln,
                              )));
                    right_length = lu;
                    are_words = hu;
                  })
          ]
    ]

montgomery_room : (len : ℕ) → len < 2 ^ 20 → 1 + len * per_round len ≤ word_mod
montgomery_room len h =
    let square : (2 * len - 1) * (2 * len - 1) ≤ 2 ^ 21 * 2 ^ 21 =
      mul_le (2 * len - 1) (2 * len - 1) (2 ^ 21) (2 ^ 21) (omega arith) (omega arith) in
    omega
      (arith, mul_le len (per_round len) (2 ^ 20) (2 ^ 43) (omega arith) (omega (arith, square)))

start-Reduced :
    (len n : ℕ) (t : List ℕ)
    → length t ≡ 2 * len
    → IsWords t
    → Reduced len (value t) n 0 1 (record { words = t; carries = replicate (2 * len) 0 })
unfolding total ZeroTo
start-Reduced len n t size words =
    let zero_total : value t + word_mod * value (replicate (2 * len) 0) ≡ value t =
      omega (arith, value-replicate_zero (2 * len)) in
    record {
      counted = record {
        word_count = size;
        carry_count = length-replicate (2 * len) 0;
        are_words = words;
        small = IsBelow-replicate_zero 1 (2 * len) (omega arith);
      };
      zeros = λ k h. word-replicate_zero (2 * len) k;
      quotient = value t;
      divided = omega (arith, zero_total, ap (λ (p : ℕ). p * value t) (pow-zero word_mod));
      multiple = 0;
      added = omega (arith, zero_total);
      small = omega (arith, pow-zero word_mod);
    }

-- The quotient of a product below n R is below 2 n.
quotient_lt : (r n p q y : ℕ) → r * y ≡ p + n * q → p < n * r → q < r → y < 2 * n
quotient_lt r n p q y e hp hq = elim (dec_lt y (2 * n)) [
  | yes below ↦ below
  | no above ↦
      let large : 2 * n ≤ y = omega arith in
      let next : suc q ≤ r = hq in
      absurd (
        omega (
          arith,
          e,
          mul-le-mul_left r large,
          mul-le-mul_left n next,
          mul-suc n q,
          mul_comm n r,
          twice r n,
        ))
]
  where
    twice : (r n : ℕ) → r * (2 * n) ≡ 2 * (r * n)
    twice r n = grind arith

residue : (r n p q y : ℕ) → r * y ≡ p + n * q → y % n * r % n ≡ p % n
residue r n p q y e =
    mul-mod (y % n) r n
    ∙ ap (λ (k : ℕ). k * (r % n) % n) (mod-mod y n)
    ∙ sym (mul-mod y r n)
    ∙ ap (λ (k : ℕ). k % n) (mul_comm y r ∙ e)
    ∙ add-mul-mod_self_left p n q

-- A number of S words, below n, whose product with the weight of S words is p modulo n.
pub record IsMontgomery (len p n : ℕ) (result : Option (List ℕ)) : Type 0 where
  pub words : List ℕ
  pub returned : result ≡ some words
  pub congruent : value words * weight len % n ≡ p % n
  pub below : value words < n
  pub right_length : length words ≡ len
  pub are_words : IsWords words

module _ (m : ℕ) (a b n np : List ℕ) (small : suc m < 2 ^ 20) (length_a : length a ≡ suc m)
    (length_b : length b ≡ suc m) (length_n : length n ≡ suc m) (words_a : IsWords a)
    (words_b : IsWords b) (words_n : IsWords n)
    (inverse : (word n 0 * word np 0 + 1) % word_mod ≡ 0)
    (bound : value a * value b < value n * weight (suc m)) where
  finish-IsMontgomery :
      (count : ℕ) (s : Sums)
      → Reduced (suc m) (value a * value b) (value n) (suc m) count s
      → IsMontgomery
          (suc m)
          (value a * value b)
          (value n)
          (subtract_if_bigger (suc m) (drop (suc m) s.words) (word s.carries (2 * suc m - 1)) n)
  finish-IsMontgomery count s r =
      let len = suc m in
      let carry = word s.carries (2 * len - 1) in
      let u = drop len s.words in
      let divided : value u + weight len * carry ≡ r.quotient =
        value-drop s.words len len carry r.quotient (omega (arith, r.counted.word_count))
          r.counted.are_words
          (ap (λ (k : ℕ). value s.words + weight k * carry) r.counted.word_count
            ∙ sym (total_last len s (omega arith) r.counted.carry_count r.zeros)
            ∙ r.divided) in
      let e : weight len * r.quotient ≡ value a * value b + value n * r.multiple =
        sym r.divided ∙ r.added in
      let quotient_bound =
        quotient_lt (weight len) (value n) (value a * value b) r.multiple r.quotient e bound
          r.small in
      let number =
        subtract_if_bigger-IsNumber m r.quotient carry u n (omega arith) divided quotient_bound
          (length-drop len s.words ∙ omega (arith, r.counted.word_count)) length_n
          (IsBelow-drop word_mod len s.words r.counted.are_words (omega arith)) words_n in
      record {
        words = number.words;
        returned = number.returned;
        congruent =
            ap (λ (v : ℕ). v * weight len % value n) number.right_value
            ∙ residue (weight len) (value n) (value a * value b) r.multiple r.quotient e;
        below = omega (arith, number.right_value, mod-lt r.quotient positive);
        right_length = number.right_length;
        are_words = number.are_words;
      }
    where
      positive : 0 < value n
      positive = elim (ℕ_discrete (value n) 0) [
        | yes zero_n ↦ absurd (omega (arith, bound, ap (λ (v : ℕ). v * weight (suc m)) zero_n))
        | no other ↦ omega arith
      ]

  -- For numbers of S words whose product is below n R, where R is the weight of S words, n an odd
  -- number with np[0] the inverse of -n modulo 2^64 and S below 2^20, the function returns a number
  -- below n whose product with R is a b modulo n.
  pub mp_montmul_cpu-IsMontgomery :
      IsMontgomery (suc m) (value a * value b) (value n) (mp_montmul_cpu (suc m) a b n np)
  unfolding mp_montmul_cpu
  mp_montmul_cpu-IsMontgomery =
      let len = suc m in
      let product = mp_mul_cpu-IsProduct m a b (omega arith) length_a length_b words_a words_b in
      let t = product.words in
      let start : Sums = record { words = t; carries = replicate (2 * len) 0 } in
      let (s, returned, reduced) =
        mont_rows-Reduced len n (word np 0) (value a * value b) (omega arith) length_n words_n
          inverse 0 len 1 start (omega arith) (montgomery_room len small)
          (subst (λ (p : ℕ). Reduced len p (value n) 0 1 start) product.right_product
            (start-Reduced len (value n) t product.right_length product.are_words)) in
      subst (IsMontgomery len (value a * value b) (value n))
        (sym (
          ap
            (λ (o : Option (List ℕ)). o >>= λ t.
              mont_rows len n (word np 0) 0 len
                (record { words = t; carries = replicate (2 * len) 0 })
              >>= λ s. subtract_if_bigger len (drop len s.words) (word s.carries (2 * len - 1)) n)
            product.returned
          ∙ ap
              (λ (o : Option Sums). o >>= λ s.
                subtract_if_bigger len (drop len s.words) (word s.carries (2 * len - 1)) n)
              returned))
        (finish-IsMontgomery (1 + len * per_round len) s reduced)
