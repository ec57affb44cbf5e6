-- ===== src/MultiPrecision/Tests.antt =====
-- Tests on numbers of two words.
use ginger_zaatar_allspice.Prelude.{
  ℕ, zero, suc, ◌+◌, ◌*◌, ◌<◌, List, [], ◌∷◌, some, ◌≡◌, refl, arith,
}
use ginger_zaatar_allspice.MultiPrecision.{
  word_mod, value, mp_add_cpu, mp_sub_cpu, mp_mul_cpu, add_words, sub_words, mul_rows, mul_row,
  propagate, carry_pass, all_zero, add_carry, add_carry_clear, sub_borrow, sub_borrow_clear, test,
  umulhi, umullo,
}
use ginger_zaatar_allspice.MultiPrecision.Value.{IsBelow, IsWords, weight}
use ginger_zaatar_allspice.MultiPrecision.Add.{IsSum, mp_add_cpu-IsSum}
use ginger_zaatar_allspice.MultiPrecision.Sub.{IsDifference, mp_sub_cpu-IsDifference}
use ginger_zaatar_allspice.MultiPrecision.Mul.{IsProduct, mp_mul_cpu-IsProduct}
use ginger_zaatar_allspice.MultiPrecision.Montgomery.{mp_montmul_cpu}
use ginger_zaatar_allspice.MultiPrecision.Montgomery.Product.{
  IsMontgomery, mp_montmul_cpu-IsMontgomery,
}

two-IsWords : (x y : ℕ) → x < word_mod → y < word_mod → IsWords (x ∷ y ∷ [])
unfolding IsBelow
two-IsWords x y hx hy zero = hx
two-IsWords x y hx hy (suc zero) = hy
two-IsWords x y hx hy (suc (suc i)) = omega arith

abbrev top : ℕ
top = 0xffff_ffff_ffff_ffff

-- A carry that runs through both words.
abbrev a : List ℕ
a = top ∷ top ∷ []

abbrev b : List ℕ
b = 1 ∷ 0 ∷ []

a-IsWords : IsWords a
a-IsWords = two-IsWords top top (omega arith) (omega arith)

b-IsWords : IsWords b
b-IsWords = two-IsWords 1 0 (omega arith) (omega arith)

adds : mp_add_cpu 2 a b ≡ some (0 ∷ 0 ∷ [], 1)
unfolding mp_add_cpu add_words propagate carry_pass all_zero add_carry add_carry_clear test
adds = refl

subtracts : mp_sub_cpu 2 b a ≡ some (2 ∷ 0 ∷ [], 1)
unfolding mp_sub_cpu sub_words propagate carry_pass all_zero sub_borrow sub_borrow_clear test
subtracts = refl

multiplies : mp_mul_cpu 2 a a ≡ some (1 ∷ 0 ∷ 0xffff_ffff_ffff_fffe ∷ top ∷ [])
unfolding mp_mul_cpu mul_rows mul_row umulhi umullo propagate carry_pass all_zero add_carry
    add_carry_clear test
multiplies = refl

mp_add_cpu-IsSum_example : IsSum 2 (value a + value b) (mp_add_cpu 2 a b)
mp_add_cpu-IsSum_example = mp_add_cpu-IsSum 1 a b (omega arith) refl refl a-IsWords b-IsWords

mp_sub_cpu-IsDifference_example : IsDifference 2 (value b) (value a) (mp_sub_cpu 2 b a)
mp_sub_cpu-IsDifference_example =
    mp_sub_cpu-IsDifference 1 b a (omega arith) refl refl b-IsWords a-IsWords

mp_mul_cpu-IsProduct_example : IsProduct 2 (value a * value a) (mp_mul_cpu 2 a a)
mp_mul_cpu-IsProduct_example =
    mp_mul_cpu-IsProduct 1 a a (omega arith) refl refl a-IsWords a-IsWords

-- 3 + 5 * 2^64, whose lowest word has the inverse (2^64 - 1) / 3 of its negative.
abbrev n : List ℕ
n = 3 ∷ 5 ∷ []

abbrev np : List ℕ
np = 0x5555_5555_5555_5555 ∷ 0 ∷ []

abbrev c : List ℕ
c = 7 ∷ 2 ∷ []

c_bound : value c * value c < value n * weight 2
unfolding value
c_bound = omega arith

mp_montmul_cpu-IsMontgomery_example :
    IsMontgomery 2 (value c * value c) (value n) (mp_montmul_cpu 2 c c n np)
mp_montmul_cpu-IsMontgomery_example =
    mp_montmul_cpu-IsMontgomery 1 c c n np (omega arith) refl refl refl
      (two-IsWords 7 2 (omega arith) (omega arith)) (two-IsWords 7 2 (omega arith) (omega arith))
      (two-IsWords 3 5 (omega arith) (omega arith)) refl c_bound
