-- ===== src/MultiPrecision.antt =====
-- code/pepper/lib_gpu/mp_modexp_cpu.cpp with the macros of mp_modexp.h: sums, differences and
-- products of numbers of S words, least significant word first, with the carries kept beside the
-- words until they are propagated. MP_USE_64BIT is set, so a WORD is a number below 2^64 and
-- wraps. MAX_S is the S of the additions, which are not templates.
pub mod Value
pub mod Step
pub mod Pass
pub mod Add
pub mod Sub
pub mod Lost
pub mod Row
pub mod Mul
pub mod Montgomery
pub mod Power
pub mod Cut
mod Tests
use ginger_zaatar_allspice.Prelude.{
  ℕ, zero, suc, ◌+◌, ◌-◌, ◌*◌, ◌/◌, ◌%◌, ◌^◌, Bool, true, false, ◌&&◌, List, [], ◌∷◌, ltb, ◌==◌,
  if◌then◌else◌, get_or, set, take, drop, replicate, Option, none, some, length,
}

abbrev pub word_mod : ℕ
word_mod = 2 ^ 64

abbrev pub word : List ℕ → ℕ → ℕ
word xs i = get_or xs i 0

-- The number that an array of words stands for.
unfoldable pub value : List ℕ → ℕ
value [] = 0
value (x ∷ xs) = x + word_mod * value xs

unfoldable pub umulhi : ℕ → ℕ → ℕ
umulhi a b = a * b / word_mod

unfoldable pub umullo : ℕ → ℕ → ℕ
umullo a b = a * b % word_mod

-- The words and their carries (or borrows).
pub record Sums : Type 0 where
  pub words : List ℕ
  pub carries : List ℕ

-- 1 if the test holds, as C converts it.
unfoldable pub test : Bool → ℕ
test true = 1
test false = 0

abbrev pub increment : List ℕ → ℕ → Bool → List ℕ
increment c i b = set c i ((word c i + test b) % word_mod)

-- ADD_CARRY(c[i], s[k], x, y)
unfoldable pub add_carry : Sums → ℕ → ℕ → ℕ → ℕ → Sums
add_carry s i k x y =
    let t = (x + y) % word_mod in
    record { words = set s.words k t; carries = increment s.carries i (ltb t x) }

-- ADD_CARRY_CLEAR(c[i], s[k], s[k], c[j])
unfoldable pub add_carry_clear : Sums → ℕ → ℕ → ℕ → Sums
unfolding add_carry
add_carry_clear s i k j =
    add_carry (record { words = s.words; carries = set s.carries j 0 }) i k (word s.words k)
      (word s.carries j)

-- SUB_BORROW(b[i], d[k], x, y)
unfoldable pub sub_borrow : Sums → ℕ → ℕ → ℕ → ℕ → Sums
sub_borrow s i k x y =
    let t = (x + word_mod - y) % word_mod in
    record { words = set s.words k t; carries = increment s.carries i (ltb x t) }

-- SUB_BORROW_CLEAR(b[i], d[k], d[k], b[j])
unfoldable pub sub_borrow_clear : Sums → ℕ → ℕ → ℕ → Sums
unfolding sub_borrow
sub_borrow_clear s i k j =
    sub_borrow (record { words = s.words; carries = set s.carries j 0 }) i k (word s.words k)
      (word s.carries j)

-- ADD_CARRY_CLEAR or SUB_BORROW_CLEAR, on a carry, a word and the carry into that word.
abbrev pub Step : Type 0
Step = Sums → ℕ → ℕ → ℕ → Sums

-- for (int j = top; j >= 1; j--) STEP(c[j + o], t[j], t[j], c[j + o - 1]), with o = 1 in
-- mp_mul_cpu and 0 elsewhere; the other loops run j from top - 1 to 0 and add 1 to the indices.
unfoldable pub carry_pass : Step → ℕ → ℕ → Sums → Sums
carry_pass step o zero s = s
carry_pass step o (suc j) s = carry_pass step o j (step s (suc j + o) (suc j) (j + o))

-- No carry among the first n is set.
unfoldable pub all_zero : ℕ → List ℕ → Bool
all_zero zero c = true
all_zero (suc n) c = all_zero n c && (word c n == 0)

-- The loop that runs passes until these carries, all but those into the last word, are zero.
unfoldable pub propagate : Step → ℕ → ℕ → ℕ → Sums → Option Sums
unfolding carry_pass
propagate step o top zero s = if all_zero (top + o) s.carries then some s else none
propagate step o top (suc fuel) s = elim (all_zero (top + o) s.carries) [
  | true ↦ some s
  | false ↦ propagate step o top fuel (carry_pass step o top s)
]

-- An array that is not initialised is one of zeros; no entry is read before it is written.
abbrev pub new_sums : ℕ → ℕ → Sums
new_sums m n = record { words = replicate m 0; carries = replicate n 0 }

-- The first loop of an addition, at word i with `rounds` left.
unfoldable pub add_words : (ℕ → ℕ) → (ℕ → ℕ) → ℕ → ℕ → Sums → Sums
unfolding add_carry
add_words x y i zero s = s
add_words x y i (suc rounds) s =
    add_words x y (suc i) rounds
      (add_carry (record { words = s.words; carries = set s.carries i 0 }) i i (x i) (y i))

-- The words of the result, and the last carry.
abbrev pub with_last : ℕ → Option Sums → Option (List ℕ × ℕ)
with_last i none = none
with_last i (some s) = some (s.words, word s.carries i)

unfoldable pub mp_add_cpu : ℕ → List ℕ → List ℕ → Option (List ℕ × ℕ)
unfolding add_words propagate add_carry_clear
mp_add_cpu max_s x y = with_last (max_s - 1) (
    propagate add_carry_clear 0 (max_s - 1) (max_s - 1)
      (add_words (word x) (word y) 0 max_s (new_sums max_s max_s)))

-- The first loop of a difference.
unfoldable pub sub_words : (ℕ → ℕ) → (ℕ → ℕ) → ℕ → ℕ → Sums → Sums
unfolding sub_borrow
sub_words x y i zero s = s
sub_words x y i (suc rounds) s =
    sub_words x y (suc i) rounds
      (sub_borrow (record { words = s.words; carries = set s.carries i 0 }) i i (x i) (y i))

unfoldable pub mp_sub_cpu : ℕ → List ℕ → List ℕ → Option (List ℕ × ℕ)
unfolding sub_words propagate sub_borrow_clear
mp_sub_cpu len x y = with_last (len - 1) (
    propagate sub_borrow_clear 0 (len - 1) (len - 1)
      (sub_words (word x) (word y) 0 len (new_sums len len)))

unfoldable pub mp_add1_cpu : ℕ → List ℕ → Option (List ℕ × ℕ)
unfolding add_words propagate add_carry_clear
mp_add1_cpu max_s x = with_last (max_s - 1) (
    propagate add_carry_clear 0 (max_s - 1) (max_s - 1)
      (add_words (word x) (λ (i : ℕ). if i == 0 then 1 else 0) 0 max_s (new_sums max_s max_s)))

-- The inner loop of a product, at word i with `rounds` left: the two halves of product i are added
-- to words i + j + 1 and i + j. The carry out of word k is carry k + o.
unfoldable pub mul_row : ℕ → (ℕ → ℕ) → (ℕ → ℕ) → ℕ → ℕ → ℕ → Sums → Sums
unfolding add_carry
mul_row o hi lo j i zero s = s
mul_row o hi lo j i (suc rounds) s =
    let s' = add_carry s (i + j + 1 + o) (i + j + 1) (word s.words (i + j + 1)) (hi i) in
    mul_row o hi lo j (suc i) rounds
      (add_carry s' (i + j + o) (i + j) (word s'.words (i + j)) (lo i))

unfoldable pub mul_rows : ℕ → List ℕ → List ℕ → ℕ → ℕ → Sums → Sums
unfolding mul_row umulhi umullo
mul_rows len a b j zero s = s
mul_rows len a b j (suc rounds) s = mul_rows len a b (suc j) rounds (
    mul_row 1 (λ (i : ℕ). umulhi (word a i) (word b j)) (λ (i : ℕ). umullo (word a i) (word b j)) j
      0 len s)

abbrev pub words_of : Option Sums → Option (List ℕ)
words_of none = none
words_of (some s) = some s.words

-- c[2 * S] is incremented and never read, so it is left out: a write out of range does nothing.
unfoldable pub mp_mul_cpu : ℕ → List ℕ → List ℕ → Option (List ℕ)
unfolding mul_rows propagate add_carry_clear
mp_mul_cpu len a b = words_of (
    propagate add_carry_clear 1 (2 * len - 1) (2 * len - 1)
      (mul_rows len a b 0 len (new_sums (2 * len) (2 * len))))
