-- ===== src/Field/Chi/Loops.antt =====
-- The loops of chi and of computeChiAll (code/pepper/cmtgkr/cmtgkr_env.cpp), one at a time.
use native.Mathlib.Nat.{pow-suc}
use ginger_zaatar_allspice.Prelude.{
  ℕ, zero, suc, ◌+◌, ◌-◌, ◌/◌, ◌%◌, ◌^◌, ◌≤◌, ◌<◌, ◌≡◌, refl, ◌∙◌, ap, true, false, List, [], ◌∷◌,
  ◌++◌, ◌==◌, if◌then◌else◌, length, get_or, arith, length-set, get_or-set_self, get_or-set_ne,
  dec_lt,
}
use ginger_zaatar_allspice.Prelude.Int.{ℤ, pos}
use ginger_zaatar_allspice.Gmp.{Gmp}
use ginger_zaatar_allspice.Field.{
  shr, bit, modmult, one_sub, mul_chi_loop, upper_step, lower_step, upper_loop, lower_loop,
}

-- Bits below the lowest added one do not change.
shr-add_pow : (k m i : ℕ) → i < m → shr (k + 2 ^ m) i % 2 ≡ shr k i % 2
unfolding shr
shr-add_pow k zero i h = elim h [ ]
shr-add_pow k (suc m) zero h = omega (arith, pow-suc 2 m)
shr-add_pow k (suc m) (suc i) h =
    ap (λ (x : ℕ). shr x i % 2) (omega (arith, pow-suc 2 m)) ∙ shr-add_pow (k / 2) m i (omega arith)

shr_top : (k m : ℕ) → k < 2 ^ m → (shr k m ≡ 0) × (shr (k + 2 ^ m) m ≡ 1)
unfolding shr
shr_top k zero h = (omega arith, omega arith)
shr_top k (suc m) h = (
  (shr_top (k / 2) m (omega (arith, pow-suc 2 m))).0,
  ap (λ (x : ℕ). shr x m) (omega (arith, pow-suc 2 m))
      ∙ (shr_top (k / 2) m (omega (arith, pow-suc 2 m))).1,
)

bit-add_pow : (k m i : ℕ) → i < m → bit (k + 2 ^ m) i ≡ bit k i
bit-add_pow k m i h = ap (λ (x : ℕ). x == 1) (shr-add_pow k m i h)

pub bit_low : (k m : ℕ) → k < 2 ^ m → bit k m ≡ false
bit_low k m h = ap (λ (x : ℕ). x % 2 == 1) (shr_top k m h).0

pub bit_high : (k m : ℕ) → k < 2 ^ m → bit (k + 2 ^ m) m ≡ true
bit_high k m h = ap (λ (x : ℕ). x % 2 == 1) (shr_top k m h).1

module _ (g : Gmp) (prime : ℤ) where
  pub mul_chi_loop-append :
      (rop : ℤ) (v i : ℕ) (r : List ℤ) (x : ℤ)
      → mul_chi_loop g rop v i (r ++ x ∷ []) prime
        ≡ modmult g
            (mul_chi_loop g rop v i r prime)
            (if bit v (i + length r) then x else one_sub g x)
            prime
  unfolding mul_chi_loop
  mul_chi_loop-append rop v i [] x =
      ap (λ (j : ℕ). modmult g rop (if bit v j then x else one_sub g x) prime) (omega arith)
  mul_chi_loop-append rop v i (y ∷ r) x =
      mul_chi_loop-append (modmult g rop (if bit v i then y else one_sub g y) prime) v (suc i) r x
      ∙ ap
          (λ (j : ℕ).
            modmult g
              (mul_chi_loop g (modmult g rop (if bit v i then y else one_sub g y) prime) v (suc i) r
                prime)
              (if bit v j then x else one_sub g x) prime)
          (omega arith)

  -- A bit above those that `r` has variables for does not matter.
  pub mul_chi_loop-add_pow :
      (rop : ℤ) (k m i : ℕ) (r : List ℤ)
      → i + length r ≤ m
      → mul_chi_loop g rop (k + 2 ^ m) i r prime ≡ mul_chi_loop g rop k i r prime
  unfolding mul_chi_loop
  mul_chi_loop-add_pow rop k m i [] h = refl
  mul_chi_loop-add_pow rop k m i (x ∷ r) h = rw (bit-add_pow k m i (omega arith)) (
      mul_chi_loop-add_pow (modmult g rop (if bit k i then x else one_sub g x) prime) k m (suc i) r
        (omega arith))

  pub length-upper_loop :
      (rop : List ℤ) (base done rounds : ℕ) (x : ℤ)
      → length (upper_loop g rop base done rounds x prime) ≡ length rop
  unfolding upper_loop
  length-upper_loop rop base done zero x = refl
  length-upper_loop rop base done (suc rounds) x =
      length-upper_loop (upper_step g rop base (base + done) x prime) base (suc done) rounds x
      ∙ length-set rop (base + done) _

  pub upper_loop_other :
      (rop : List ℤ) (base done rounds : ℕ) (x : ℤ) (k : ℕ)
      → k < base + done
      → get_or (upper_loop g rop base done rounds x prime) k (pos 0) ≡ get_or rop k (pos 0)
  unfolding upper_loop
  upper_loop_other rop base done zero x k h = refl
  upper_loop_other rop base done (suc rounds) x k h =
      upper_loop_other (upper_step g rop base (base + done) x prime) base (suc done) rounds x k
        (omega arith)
      ∙ get_or-set_ne rop (base + done) k _ (pos 0) (omega arith)

  pub upper_loop_hit :
      (rop : List ℤ) (base done rounds : ℕ) (x : ℤ) (j : ℕ)
      → done ≤ j
      → j < done + rounds
      → done + rounds ≤ base
      → base + done + rounds ≤ length rop
      → get_or (upper_loop g rop base done rounds x prime) (base + j) (pos 0)
        ≡ modmult g (get_or rop j (pos 0)) x prime
  unfolding upper_loop
  upper_loop_hit rop base done zero x j h₁ h₂ h₃ h₄ = absurd (omega arith)
  upper_loop_hit rop base done (suc rounds) x j h₁ h₂ h₃ h₄ = elim (dec_lt done j) [
    | yes later ↦
        upper_loop_hit (upper_step g rop base (base + done) x prime) base (suc done) rounds x j
          later (omega arith) (omega arith)
          (omega (
            arith,
            length-set rop (base + done)
                (modmult g (get_or rop (base + done - base) (pos 0)) x prime),
          ))
        ∙ ap (λ y. modmult g y x prime) (get_or-set_ne rop (base + done) j _ (pos 0) (omega arith))
    | no past ↦
        ap
          (λ (i : ℕ).
            get_or
              (upper_loop g (upper_step g rop base (base + done) x prime) base (suc done) rounds x
                prime)
              (base + i) (pos 0))
          (omega arith)
        ∙ upper_loop_other (upper_step g rop base (base + done) x prime) base (suc done) rounds x
            (base + done) (omega arith)
        ∙ get_or-set_self rop (base + done) _ (pos 0) (omega arith)
        ∙ ap (λ (i : ℕ). modmult g (get_or rop i (pos 0)) x prime) (omega arith)
  ]

  pub length-lower_loop :
      (rop : List ℤ) (done rounds : ℕ) (x : ℤ)
      → length (lower_loop g rop done rounds x prime) ≡ length rop
  unfolding lower_loop
  length-lower_loop rop done zero x = refl
  length-lower_loop rop done (suc rounds) x =
      length-lower_loop (lower_step g rop done x prime) (suc done) rounds x ∙ length-set rop done _

  lower_loop_before :
      (rop : List ℤ) (done rounds : ℕ) (x : ℤ) (k : ℕ)
      → k < done
      → get_or (lower_loop g rop done rounds x prime) k (pos 0) ≡ get_or rop k (pos 0)
  unfolding lower_loop
  lower_loop_before rop done zero x k h = refl
  lower_loop_before rop done (suc rounds) x k h =
      lower_loop_before (lower_step g rop done x prime) (suc done) rounds x k (omega arith)
      ∙ get_or-set_ne rop done k _ (pos 0) (omega arith)

  pub lower_loop_after :
      (rop : List ℤ) (done rounds : ℕ) (x : ℤ) (k : ℕ)
      → done + rounds ≤ k
      → get_or (lower_loop g rop done rounds x prime) k (pos 0) ≡ get_or rop k (pos 0)
  unfolding lower_loop
  lower_loop_after rop done zero x k h = refl
  lower_loop_after rop done (suc rounds) x k h =
      lower_loop_after (lower_step g rop done x prime) (suc done) rounds x k (omega arith)
      ∙ get_or-set_ne rop done k _ (pos 0) (omega arith)

  pub lower_loop_hit :
      (rop : List ℤ) (done rounds : ℕ) (x : ℤ) (k : ℕ)
      → done ≤ k
      → k < done + rounds
      → done + rounds ≤ length rop
      → get_or (lower_loop g rop done rounds x prime) k (pos 0)
        ≡ modmult g (get_or rop k (pos 0)) x prime
  unfolding lower_loop
  lower_loop_hit rop done zero x k h₁ h₂ h₃ = absurd (omega arith)
  lower_loop_hit rop done (suc rounds) x k h₁ h₂ h₃ = elim (dec_lt done k) [
    | yes later ↦
        lower_loop_hit (lower_step g rop done x prime) (suc done) rounds x k later (omega arith)
          (omega (arith, length-set rop done (modmult g (get_or rop done (pos 0)) x prime)))
        ∙ ap (λ y. modmult g y x prime) (get_or-set_ne rop done k _ (pos 0) (omega arith))
    | no past ↦
        ap
          (λ (i : ℕ).
            get_or (lower_loop g (lower_step g rop done x prime) (suc done) rounds x prime) i
              (pos 0))
          (omega arith)
        ∙ lower_loop_before (lower_step g rop done x prime) (suc done) rounds x done (omega arith)
        ∙ get_or-set_self rop done _ (pos 0) (omega arith)
        ∙ ap (λ (i : ℕ). modmult g (get_or rop i (pos 0)) x prime) (omega arith)
  ]
