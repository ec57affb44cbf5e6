-- ===== src/MultiPrecision/Cut/Bits.antt =====
-- The bits of a number of words.
use native.Mathlib.Nat.{
  pow-zero, pow-suc, mod-eq_of_lt, add-mul-mod_self_left, div-div-eq-div-mul, mod-lt, mod-add-div,
  mod-one, div-one, one-le-pow,
}
use ginger_zaatar_allspice.Prelude.{
  ℕ, zero, suc, ◌+◌, ◌*◌, ◌/◌, ◌%◌, ◌^◌, ◌≤◌, ◌<◌, List, [], ◌∷◌, ◌==◌, if◌then◌else◌, ◌⊎◌, inl,
  inr, length, ◌≡◌, refl, sym, ap, ap₂, ◌∙◌, arith,
}
use ginger_zaatar_allspice.MultiPrecision.{word, value}
use ginger_zaatar_allspice.MultiPrecision.Value.{IsWords, IsBelow}
use ginger_zaatar_allspice.MultiPrecision.Cut.{get_bit, zero_bits, read_window}

get_bit-suc : (x i : ℕ) (xs : List ℕ) → get_bit (x ∷ xs) (64 + i) ≡ get_bit xs i
unfolding get_bit
get_bit-suc x i xs = ap₂ (λ (k j : ℕ). word (x ∷ xs) k / 2 ^ j % 2) high low
  where
    high : (64 + i) / 64 ≡ suc (i / 64)
    high = omega arith

    low : (64 + i) % 64 ≡ i % 64
    low = omega arith

read_window-suc :
    (x : ℕ) (xs : List ℕ) (count i : ℕ)
    → read_window (x ∷ xs) count (64 + i) ≡ read_window xs count i
unfolding read_window
read_window-suc x xs zero i = refl
read_window-suc x xs (suc count) i = omega (
  arith,
  get_bit-suc x i xs,
  ap (read_window (x ∷ xs) count) {x = suc (64 + i)} {y = 64 + suc i} (omega arith),
  read_window-suc x xs count (suc i),
)

-- A window of two parts.
pub read_window-add :
    (a : List ℕ) (m n i : ℕ)
    → read_window a (m + n) i ≡ read_window a m i + 2 ^ m * read_window a n (i + m)
unfolding read_window
read_window-add a zero n i = omega (
  arith,
  ap (λ (c : ℕ). read_window a c i) {x = 0 + n} {y = n} (omega arith),
  ap (read_window a n) {x = i + 0} {y = i} (omega arith),
)
read_window-add a (suc m) n i = omega (
  arith,
  ap (λ (c : ℕ). read_window a c i) {x = suc m + n} {y = suc (m + n)} (omega arith),
  read_window-add a m n (suc i),
  ap (read_window a n) {x = suc i + m} {y = i + suc m} (omega arith),
  ap (λ (p : ℕ). p * read_window a n (i + suc m)) (pow-suc 2 m),
  ap (λ (v : ℕ). 2 ^ m * v) (ap (read_window a n) {x = suc i + m} {y = i + suc m} (omega arith)),
)

-- A remainder, from the quotient.
mod-eq : (y p r q : ℕ) → y ≡ r + p * q → r < p → y % p ≡ r
mod-eq y p r q h b = ap (λ (k : ℕ). k % p) h ∙ add-mul-mod_self_left r p q ∙ mod-eq_of_lt b

-- The lowest bit, and the others.
low_bits : (y w : ℕ) → y % 2 ^ suc w ≡ y % 2 + 2 * (y / 2 % 2 ^ w)
low_bits y w =
    let p = 2 ^ w in
    mod-eq y (2 ^ suc w) (y % 2 + 2 * (y / 2 % p)) (y / 2 / p)
      (omega (arith, mod-add-div (y / 2) p, ap (λ (k : ℕ). k * (y / 2 / p)) (pow-suc 2 w)))
      (omega (arith, pow-suc 2 w, mod-lt (y / 2) (one-le-pow w 2 (omega arith))))

word_bits :
    (x : ℕ) (xs : List ℕ) (w j : ℕ) → j + w ≤ 64 → read_window (x ∷ xs) w j ≡ x / 2 ^ j % 2 ^ w
unfolding read_window get_bit
word_bits x xs zero j h =
    omega (arith, pow-zero 2, mod-one (x / 2 ^ j), ap (λ (k : ℕ). x / 2 ^ j % k) (pow-zero 2))
word_bits x xs (suc w) j h =
    omega (arith, low_bits (x / 2 ^ j) w, first, word_bits x xs w (suc j) (omega (arith, h)), rest)
  where
    first : get_bit (x ∷ xs) j ≡ x / 2 ^ j % 2
    first =
        ap₂ (λ (k i : ℕ). word (x ∷ xs) k / 2 ^ i % 2) {x = j / 64} {y = 0} (omega (arith, h))
          (omega (arith, h))

    rest : x / 2 ^ suc j % 2 ^ w ≡ x / 2 ^ j / 2 % 2 ^ w
    rest =
        ap (λ (k : ℕ). k % 2 ^ w)
          (ap (λ (k : ℕ). x / k) (pow-suc 2 j) ∙ sym (div-div-eq-div-mul x (2 ^ j) 2))

-- All the bits give the number.
pub read_window-value : (a : List ℕ) → IsWords a → read_window a (length a * 64) 0 ≡ value a
unfolding value read_window IsBelow
read_window-value [] h = refl
read_window-value (x ∷ xs) h = omega (
  arith,
  ap (λ (c : ℕ). read_window (x ∷ xs) c 0) {x = suc (length xs) * 64} {y = 64 + length xs * 64}
      (omega arith),
  read_window-add (x ∷ xs) 64 (length xs * 64) 0,
  ap (read_window (x ∷ xs) (length xs * 64)) {x = 0 + 64} {y = 64 + 0} (omega arith),
  read_window-suc x xs (length xs * 64) 0,
  word_bits x xs 64 0 (omega arith),
  mod-eq_of_lt (h 0),
  ap (λ (k : ℕ). k % 2 ^ 64) (div-one x),
  read_window-value xs (λ i. h (suc i)),
)

pub read_window_lt : (a : List ℕ) (w i : ℕ) → read_window a w i < 2 ^ w
unfolding read_window get_bit
read_window_lt a zero i = omega (arith, pow-zero 2)
read_window_lt a (suc w) i = omega (arith, pow-suc 2 w, read_window_lt a w (suc i))

-- Zero bits do not count, and the bit after them is set.
pub zero_bits_le : (a : List ℕ) (rest i : ℕ) → zero_bits a rest i ≤ rest
unfolding zero_bits
zero_bits_le a zero i = omega arith
zero_bits_le a (suc rest) i = grind (arith, zero_bits_le a rest (suc i))

pub zero_bits-suc :
    (a : List ℕ) (rest i : ℕ)
    → (get_bit a i ≡ 0) × (zero_bits a (suc rest) i ≡ suc (zero_bits a rest (suc i)))
      ⊎ (get_bit a i ≡ 1) × (zero_bits a (suc rest) i ≡ 0)
unfolding zero_bits get_bit
zero_bits-suc a rest i = cases (get_bit a i) bit_lt
  where
    bit_lt : get_bit a i < 2
    bit_lt = omega arith

    cases :
        (b : ℕ)
        → b < 2
        → (b ≡ 0)
            × ((if b == 0 then suc (zero_bits a rest (suc i)) else 0)
                ≡ suc (zero_bits a rest (suc i)))
          ⊎ (b ≡ 1) × ((if b == 0 then suc (zero_bits a rest (suc i)) else 0) ≡ 0)
    cases zero h = inl (refl, refl)
    cases (suc zero) h = inr (refl, refl)
    cases (suc (suc b)) h = absurd (omega (arith, h))

pub read_zeros : (a : List ℕ) (rest i : ℕ) → read_window a (zero_bits a rest i) i ≡ 0
unfolding zero_bits read_window
read_zeros a zero i = refl
read_zeros a (suc rest) i = elim (zero_bits-suc a rest i) [
  | inl (bit, more) ↦
      ap (λ (c : ℕ). read_window a c i) more ∙ omega (arith, bit, read_zeros a rest (suc i))
  | inr (bit, stop) ↦ ap (λ (c : ℕ). read_window a c i) stop
]

pub after_zeros :
    (a : List ℕ) (rest i : ℕ) → zero_bits a rest i < rest → get_bit a (i + zero_bits a rest i) ≡ 1
unfolding zero_bits
after_zeros a zero i h = absurd (omega (arith, h))
after_zeros a (suc rest) i h = elim (zero_bits-suc a rest i) [
  | inl (bit, more) ↦
      ap (get_bit a) {y = suc i + zero_bits a rest (suc i)} (omega (arith, more))
      ∙ after_zeros a rest (suc i) (omega (arith, h, more))
  | inr (bit, stop) ↦ ap (get_bit a) {y = i} (omega (arith, stop)) ∙ bit
]
