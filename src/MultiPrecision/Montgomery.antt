-- ===== src/MultiPrecision/Montgomery.antt =====
-- The fast mp_montmul_cpu of code/pepper/lib_gpu/mp_modexp_cpu.cpp, which MONTMUL_FAST_CPU selects:
-- a product divided by the weight of S words, modulo an odd number.
pub mod Divide
pub mod Rows
pub mod Product
use ginger_zaatar_allspice.Prelude.{
  ℕ, zero, suc, ◌+◌, ◌-◌, ◌*◌, ◌%◌, Bool, true, false, List, [], ◌∷◌, ltb, ◌==◌, if◌then◌else◌,
  drop, replicate, Option, none, some,
}
use ginger_zaatar_allspice.MultiPrecision.{
  word_mod, word, umulhi, umullo, Sums, add_carry_clear, mul_row, propagate, mp_mul_cpu, mp_sub_cpu,
}

infixl 5 ◌>>=◌
abbrev pub ◌>>=◌ {ℓ κ} : {A : Type ℓ} {B : Type κ} → Option A → (A → Option B) → Option B
none >>= f = none
some a >>= f = f a

-- The loop over j: it adds the multiple of n that makes word j zero, and propagates the carries.
unfoldable pub mont_rows : ℕ → List ℕ → ℕ → ℕ → ℕ → Sums → Option Sums
unfolding mul_row umulhi umullo propagate add_carry_clear
mont_rows len n np0 j zero s = some s
mont_rows len n np0 j (suc rounds) s =
    let m = word s.words j * np0 % word_mod in
    propagate add_carry_clear 0 (2 * len - 1) (2 * len - 1)
      (mul_row 0 (λ (i : ℕ). umulhi m (word n i)) (λ (i : ℕ). umullo m (word n i)) j 0 len s)
    >>= mont_rows len n np0 (suc j) rounds

-- The comparison from the top word down; equal numbers go to u_is_bigger.
unfoldable pub is_bigger : List ℕ → List ℕ → ℕ → Bool
is_bigger u n zero = true
is_bigger u n (suc i) =
    if ltb (word n i) (word u i)
    then true
    else if ltb (word u i) (word n i)
    then false
    else is_bigger u n i

abbrev pub first_of : Option (List ℕ × ℕ) → Option (List ℕ)
first_of none = none
first_of (some (ret, borrow)) = some ret

-- The end of the function: u, or u - n.
unfoldable pub subtract_if_bigger : ℕ → List ℕ → ℕ → List ℕ → Option (List ℕ)
unfolding is_bigger mp_sub_cpu
subtract_if_bigger len u carry n =
    if carry == 0
    then (if is_bigger u n len then first_of (mp_sub_cpu len u n) else some u)
    else first_of (mp_sub_cpu len u n)

unfoldable pub mp_montmul_cpu : ℕ → List ℕ → List ℕ → List ℕ → List ℕ → Option (List ℕ)
unfolding mp_mul_cpu mont_rows subtract_if_bigger
mp_montmul_cpu len a b n np = mp_mul_cpu len a b >>= λ t.
    mont_rows len n (word np 0) 0 len (record { words = t; carries = replicate (2 * len) 0 })
    >>= λ s. subtract_if_bigger len (drop len s.words) (word s.carries (2 * len - 1)) n
