-- ===== src/MultiPrecision/Power/Tests.antt =====
-- Tests modulo 15, on numbers of one word.
use native.Mathlib.Nat.{pow-suc, one-le-pow}
use ginger_zaatar_allspice.Prelude.{
  ℕ, zero, suc, ◌+◌, ◌-◌, ◌*◌, ◌%◌, ◌^◌, ◌≤◌, ◌<◌, List, [], ◌∷◌, some, none, true, ◌≡◌, ◌⊎◌, inl,
  inr, refl, sym, ap, ◌∙◌, arith, get_elem?, get_or, replicate,
}
use ginger_zaatar_allspice.Prelude.Congr.{mul-congruent}
use ginger_zaatar_allspice.MultiPrecision.{word_mod, value}
use ginger_zaatar_allspice.MultiPrecision.Value.{IsBelow, IsWords, weight}
use ginger_zaatar_allspice.MultiPrecision.Row.{mul_le}
use ginger_zaatar_allspice.MultiPrecision.Power.{
  MpSw, windows_per_word, odd_powers, mp_modexp_mont_cpu, mp_modexp_cached_cpu,
}
use ginger_zaatar_allspice.MultiPrecision.Power.Represents.{
  IsModulus, IsOperand, Represents, IsResidue,
}
use ginger_zaatar_allspice.MultiPrecision.Power.Window.{
  exponent, IsWindows, mp_modexp_mont_cpu-IsResidue,
}
use ginger_zaatar_allspice.MultiPrecision.Power.Batch.{
  has_size, AreOperands, no_operand, operand, ArePowers, mp_many_modexp_mont_cpu_nocopy,
  mp_many_modexp_mont_cpu_nocopy-ArePowers,
}
use ginger_zaatar_allspice.MultiPrecision.Power.Cached.{IsTable, mp_modexp_cached_cpu-IsResidue}

one-IsWords : (x : ℕ) → x < word_mod → IsWords (x ∷ [])
unfolding IsBelow
one-IsWords x h zero = h
one-IsWords x h (suc i) = omega arith

one-IsOperand : (x : ℕ) → x < word_mod → IsOperand 0 (x ∷ [])
one-IsOperand x h = record { right_length = refl; are_words = one-IsWords x h }

abbrev n : List ℕ
n = 15 ∷ []

abbrev np : List ℕ
np = 0x1111_1111_1111_1111 ∷ []

value_one : (x : ℕ) → value (x ∷ []) ≡ x
unfolding value
value_one x = omega arith

n-IsModulus : IsModulus 0 n np 1
unfolding value
n-IsModulus = record {
  small = omega arith;
  right_length = refl;
  are_words = one-IsWords 15 (omega arith);
  inverse = refl;
  unit = refl;
}

-- 101, as 3, then 2 bits, then 3 bits and 5.
abbrev sw : MpSw
sw = record {
  fragment = 5 ∷ 0 ∷ 3 ∷ [];
  shift = 3 ∷ 2 ∷ 0 ∷ [];
  num_fragments = 3;
  max_fragment = 5;
}

-- The table of odd powers has 16 entries.
table_full : (v : List ℕ) → odd_powers 1 n np v v 15 1 ≡ none
unfolding odd_powers
table_full v = refl

sw-IsWindows : IsWindows sw
sw-IsWindows = record {
  some_fragment = omega arith;
  room = omega arith;
  greatest = omega arith;
  odd = odd;
  top = λ e. absurd (omega arith);
}
  where
    odd :
        (k : ℕ)
        → k < 3
        → (get_or sw.fragment k 0 % 2 ≡ 1) × (get_or sw.fragment k 0 ≤ 5)
          ⊎ (get_or sw.fragment k 0 ≡ 0)
    odd zero h = inl (refl, omega arith)
    odd (suc zero) h = inr refl
    odd (suc (suc zero)) h = inl (refl, omega arith)
    odd (suc (suc (suc k))) h = absurd (omega arith)

square : value (1 ∷ []) % value n ≡ weight 1 * weight 1 % value n
unfolding value
square = refl

mp_modexp_mont_cpu-IsResidue_example :
    IsResidue 0 n np 1 n-IsModulus
      (value (7 ∷ []) ^ exponent sw)
      (mp_modexp_mont_cpu 1 n np (7 ∷ []) sw (1 ∷ []))
mp_modexp_mont_cpu-IsResidue_example =
    mp_modexp_mont_cpu-IsResidue 0 n np 1 n-IsModulus sw (7 ∷ []) (1 ∷ [])
      (omega (arith, value_one 15)) (one-IsOperand 7 (omega arith)) (one-IsOperand 1 (omega arith))
      (omega (arith, value_one 15, value_one 1)) square (inl sw-IsWindows)

-- 10 is its own square modulo 15, so that one number fills the table.
ten_power : (k : ℕ) → 10 ^ suc k % 15 ≡ 10
ten_power zero = refl
ten_power (suc k) =
    ap (λ (v : ℕ). v % 15) (pow-suc 10 (suc k))
    ∙ mul-congruent 15 (10 ^ suc k) 10 10 10 (ten_power k) refl

get_elem?-replicate : {A : Type 0} (a : A) (k i : ℕ) → i < k → get_elem? (replicate k a) i ≡ some a
get_elem?-replicate a zero i h = absurd (omega arith)
get_elem?-replicate a (suc k) zero h = refl
get_elem?-replicate a (suc k) (suc i) h = get_elem?-replicate a k i (omega arith)

ten_Represents : (w e : ℕ) → 0 < w → Represents 0 n np 1 n-IsModulus (10 ^ (w * 2 ^ e)) (10 ∷ [])
unfolding value
ten_Represents w e h = record {
  operand = one-IsOperand 10 (omega arith);
  below = omega arith;
  congruent =
      let k = w * 2 ^ e in
      let positive : 1 ≤ k = mul_le 1 1 w (2 ^ e) h (one-le-pow e 2 (omega arith)) in
      let ten : 10 ^ k % 15 ≡ 10 =
        ap (λ (i : ℕ). 10 ^ i % 15) {x = k} {y = suc (k - 1)} (omega arith) ∙ ten_power (k - 1) in
      sym (mul-congruent 15 (10 ^ k) 10 (weight 1) (weight 1) ten refl);
}

powers-IsTable : IsTable 0 n np 1 n-IsModulus 10 0 (windows_per_word * 1) (replicate 2040 (10 ∷ []))
unfolding IsTable
powers-IsTable k w b low high = (
  10 ∷ [],
  get_elem?-replicate (10 ∷ []) 2040 (255 * k + (w - 1)) (omega arith),
  ten_Represents w (8 * (0 + k)) low,
)

mp_modexp_cached_cpu-IsResidue_example :
    IsResidue 0 n np 1 n-IsModulus
      (10 ^ value (0x1234_5678_9abc_def0 ∷ []))
      (mp_modexp_cached_cpu 1 n np (0x1234_5678_9abc_def0 ∷ []) (replicate 2040 (10 ∷ [])) (1 ∷ []))
mp_modexp_cached_cpu-IsResidue_example =
    mp_modexp_cached_cpu-IsResidue 0 n np 1 n-IsModulus 10 (0x1234_5678_9abc_def0 ∷ [])
      (replicate 2040 (10 ∷ [])) (1 ∷ []) (one-IsOperand 0x1234_5678_9abc_def0 (omega arith))
      (one-IsOperand 1 (omega arith)) (omega (arith, value_one 15, value_one 1)) square
      powers-IsTable

four-IsWords : (x : ℕ) → x < word_mod → IsWords (x ∷ 0 ∷ 0 ∷ 0 ∷ [])
unfolding IsBelow
four-IsWords x h zero = h
four-IsWords x h (suc zero) = omega arith
four-IsWords x h (suc (suc zero)) = omega arith
four-IsWords x h (suc (suc (suc zero))) = omega arith
four-IsWords x h (suc (suc (suc (suc i)))) = omega arith

abbrev wide : ℕ → List ℕ
wide x = x ∷ 0 ∷ 0 ∷ 0 ∷ []

wide-IsOperand : (x : ℕ) → x < word_mod → IsOperand 3 (wide x)
wide-IsOperand x h = record { right_length = refl; are_words = four-IsWords x h }

value-wide : (x : ℕ) → value (wide x) ≡ x
unfolding value
value-wide x = omega arith

wide-IsModulus : IsModulus 3 (wide 15) np 1
unfolding value
wide-IsModulus = record {
  small = omega arith;
  right_length = refl;
  are_words = four-IsWords 15 (omega arith);
  inverse = refl;
  unit = refl;
}

wide_square : value (wide 1) % value (wide 15) ≡ weight 4 * weight 4 % value (wide 15)
unfolding value
wide_square = refl

-- Two numbers with the same exponent, and one with the exponent 0.
abbrev vector : List (List ℕ × MpSw)
vector = (wide 7, sw) ∷ (wide 2, sw) ∷ (wide 7, record sw { num_fragments = 0 }) ∷ []

vector-AreOperands : AreOperands 3 (wide 15) np 1 wide-IsModulus vector
vector-AreOperands = operand (wide-IsOperand 7 (omega arith)) (inl sw-IsWindows) (
    operand (wide-IsOperand 2 (omega arith)) (inl sw-IsWindows)
      (operand (wide-IsOperand 7 (omega arith)) (inr refl) no_operand))

four_words : has_size 4 ≡ true
unfolding has_size
four_words = refl

mp_many_modexp_mont_cpu_nocopy-ArePowers_example :
    (results : List (List ℕ)) × (mp_many_modexp_mont_cpu_nocopy 4 (wide 15) np (wide 1) vector
      ≡ some results)
    × ArePowers 3 (wide 15) np 1 wide-IsModulus vector results
mp_many_modexp_mont_cpu_nocopy-ArePowers_example =
    mp_many_modexp_mont_cpu_nocopy-ArePowers 3 (wide 15) np 1 wide-IsModulus (wide 1) vector
      four_words (omega (arith, value-wide 15)) (wide-IsOperand 1 (omega arith))
      (omega (arith, value-wide 15, value-wide 1)) wide_square vector-AreOperands
