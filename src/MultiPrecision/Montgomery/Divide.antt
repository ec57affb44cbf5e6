-- ===== src/MultiPrecision/Montgomery/Divide.antt =====
-- Division by the weight of a word: what a multiple of it says of the words.
use native.Mathlib.Nat.{pow-zero, add-mul, mul-add, mul-suc, mul_assoc, mul_comm, mul-le-mul_left}
use ginger_zaatar_allspice.Prelude.{
  ℕ, zero, suc, ◌+◌, ◌*◌, ◌/◌, ◌%◌, ◌≤◌, ◌<◌, true, false, List, [], ◌∷◌, ◌≡◌, ap, ◌∙◌, arith,
  length, drop, dec_lt, ℕ_discrete,
}
use ginger_zaatar_allspice.MultiPrecision.{word_mod, word, value}
use ginger_zaatar_allspice.MultiPrecision.Value.{
  weight, weight-suc, weight-suc_mul, mul-swap, IsBelow, IsWords, upto,
}
use ginger_zaatar_allspice.MultiPrecision.Montgomery.{is_bigger}

-- Word j of a number that is a multiple of the weight of word j.
pub word_of_multiple :
    (xs : List ℕ) (j c y : ℕ)
    → j < length xs
    → IsWords xs
    → value xs + weight (length xs) * c ≡ weight j * y
    → word xs j ≡ y % word_mod
unfolding value IsBelow
word_of_multiple [] j c y b h e = absurd (omega arith)
word_of_multiple (x ∷ xs) zero c y b h e =
    omega (arith, e, h 0, weight-suc_mul (length xs) c, ap (λ (p : ℕ). p * y) (pow-zero word_mod))
word_of_multiple (x ∷ xs) (suc j) c y b h e =
    word_of_multiple xs j c y (omega arith) (λ i. h (suc i))
      (omega (arith, e, h 0, weight-suc_mul (length xs) c, weight-suc_mul j y))

-- A multiple of the weight of word j is divided by dropping j words.
pub value-drop :
    (xs : List ℕ) (j k c y : ℕ)
    → j + k ≡ length xs
    → IsWords xs
    → value xs + weight (length xs) * c ≡ weight j * y
    → value (drop j xs) + weight k * c ≡ y
unfolding value IsBelow
value-drop xs zero k c y b h e = omega (
  arith,
  e,
  ap (λ (p : ℕ). p * y) (pow-zero word_mod),
  ap (λ (l : ℕ). weight l * c) {x = k} {y = length xs} (omega arith),
)
value-drop [] (suc j) k c y b h e = absurd (omega arith)
value-drop (x ∷ xs) (suc j) k c y b h e =
    value-drop xs j k c y (omega arith) (λ i. h (suc i))
      (omega (arith, e, h 0, weight-suc_mul (length xs) c, weight-suc_mul j y))

mul-add_mod : (n m q : ℕ) → n * (m + word_mod * q) ≡ n * m + word_mod * (n * q)
mul-add_mod n m q = mul-add n m (word_mod * q) ∙ ap (λ (k : ℕ). n * m + k) (mul-swap n q)

regroup : (t n p : ℕ) → t + n * (t * p) ≡ t * (n * p + 1)
regroup t n p = grind arith

-- The multiplier makes the sum a multiple of 2^64.
pub multiplier :
    (y n0 n1 np0 : ℕ)
    → (n0 * np0 + 1) % word_mod ≡ 0
    → (y + (n0 + word_mod * n1) * (y % word_mod * np0 % word_mod)) % word_mod ≡ 0
multiplier y n0 n1 np0 h =
    let t = y % word_mod in
    let m = t * np0 % word_mod in
    let e = (n0 * np0 + 1) / word_mod in
    let q = t * np0 / word_mod in
    let whole : t + n0 * m + word_mod * (n0 * q) ≡ word_mod * (t * e) = omega (
      arith,
      mul-add_mod n0 m q,
      ap (λ (k : ℕ). n0 * k) {x = m + word_mod * q} {y = t * np0} (omega arith),
      regroup t n0 np0,
      ap (λ (k : ℕ). t * k) {x = n0 * np0 + 1} {y = word_mod * e} (omega (arith, h)),
      mul-swap t e,
    ) in
    omega (arith, whole, add-mul n0 (word_mod * n1) m, mul_assoc word_mod n1 m)

pub upto_lt : (f : ℕ → ℕ) (n : ℕ) → ((k : ℕ) → f k < word_mod) → upto f n < weight n
unfolding upto
upto_lt f zero h = omega (arith, pow-zero word_mod)
upto_lt f (suc n) h =
    let top : suc (f n) ≤ word_mod = h n in
    omega (
      arith,
      upto_lt f n h,
      weight-suc n,
      mul-le-mul_left (weight n) top,
      mul-suc (weight n) (f n),
      mul_comm (weight n) word_mod,
    )

lex_lt : (p x y a b : ℕ) → x < y → a < p → a + p * x < b + p * y
lex_lt p x y a b h ha =
    let next : suc x ≤ y = h in omega (arith, mul-le-mul_left p next, mul-suc p x)

-- The comparison of words is the comparison of the numbers.
pub is_bigger-le :
    (u n : List ℕ) (i : ℕ)
    → IsWords u
    → IsWords n
    → is_bigger u n i ≡ true
    → upto (word n) i ≤ upto (word u) i
unfolding upto is_bigger IsBelow
is_bigger-le u n zero hu hn h = omega arith
is_bigger-le u n (suc i) hu hn h = elim (dec_lt (word n i) (word u i)) [
  | yes above ↦ omega (
    arith,
    lex_lt (weight i) (word n i) (word u i) (upto (word n) i) (upto (word u) i) above
        (upto_lt (word n) i hn),
  )
  | no not_above ↦ elim (ℕ_discrete (word u i) (word n i)) [
    | yes same ↦
        omega (arith, is_bigger-le u n i hu hn (ground arith), ap (λ (v : ℕ). weight i * v) same)
    | no other ↦ absurd (ground arith)
  ]
]

pub is_bigger-lt :
    (u n : List ℕ) (i : ℕ)
    → IsWords u
    → IsWords n
    → is_bigger u n i ≡ false
    → upto (word u) i < upto (word n) i
unfolding upto is_bigger IsBelow
is_bigger-lt u n zero hu hn h = absurd (ground arith)
is_bigger-lt u n (suc i) hu hn h = elim (dec_lt (word u i) (word n i)) [
  | yes below ↦
      lex_lt (weight i) (word u i) (word n i) (upto (word u) i) (upto (word n) i) below
        (upto_lt (word u) i hu)
  | no not_below ↦ elim (ℕ_discrete (word u i) (word n i)) [
    | yes same ↦
        omega (arith, is_bigger-lt u n i hu hn (ground arith), ap (λ (v : ℕ). weight i * v) same)
    | no other ↦ absurd (ground arith)
  ]
]
