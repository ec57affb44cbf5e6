-- ===== src/Magic/LessThan.antt =====
-- The magic variables of a comparison (code/pepper/cmtgkr/circuit/magic_var_operation.cpp): the bits
-- add up to the offset difference, and one of the three flags is set.
use native.Mathlib.Nat.{pow-suc, pow-zero, mul-add, mul_assoc}
use ginger_zaatar_allspice.Prelude.{
  ℕ, zero, suc, ◌+◌, ◌-◌, ◌*◌, ◌/◌, ◌%◌, ◌^◌, ◌<◌, ◌≤◌, ◌≡◌, refl, sym, ◌∙◌, ap, ap₂, Bool, false,
  List, [], ◌∷◌, ◌==◌, if◌then◌else◌, length, arith, inl, inr, Bool-cases,
}
use ginger_zaatar_allspice.Prelude.Int.{ℤ, pos, negsuc, ◌+ℤ◌, pos-+ℤ, int_laws}
use ginger_zaatar_allspice.Gmp.{Gmp}
use ginger_zaatar_allspice.Field.{shr, bit}
use ginger_zaatar_allspice.Field.Mle.Boolean.{shr-suc}
use ginger_zaatar_allspice.Pws.Primitives.{GatePosition}
use ginger_zaatar_allspice.Magic.{
  GmpBits, Values, get_z, same_place, set_val, bit_value, bits_loop, compute_bits,
}
use ginger_zaatar_allspice.Magic.NotEqual.{get_z-set_val_self}

-- No gate of the list is `p`; no two gates of a list are the same.
abbrev pub Apart : GatePosition → List GatePosition → Type 0
Apart p [] = Unit
Apart p (r ∷ ps) = (same_place r p.layer p.name ≡ false) × Apart p ps

abbrev pub Distinct : List GatePosition → Type 0
Distinct [] = Unit
Distinct (p ∷ ps) = Apart p ps × Distinct ps

-- The sum of the values of gates.
abbrev pub total : Values → List GatePosition → ℤ
total values [] = pos 0
total values (p ∷ ps) = get_z values p +ℤ total values ps

pub set_val_other :
    (values : Values) (r p : GatePosition) (v : ℤ)
    → same_place r p.layer p.name ≡ false
    → get_z (set_val values r v) p ≡ get_z values p
unfolding set_val
set_val_other values r p v h = rw h refl

-- The bits from bit `i` on, `n` of them.
abbrev bits_sum : ℕ → ℕ → ℕ → ℕ
bits_sum i zero t = 0
bits_sum i (suc n) t = (if bit t i then 2 ^ i else 0) + bits_sum (suc i) n t

bit_term : (x u : ℕ) → (if u % 2 == 1 then x else 0) ≡ x * (u % 2)
bit_term x u = elim (Bool-cases (u % 2 == 1)) [
  | inl one ↦
      rw one (omega (arith, ap (λ (k : ℕ). x * k) {x = u % 2} {y = 1} (ground (arith, one))))
  | inr none ↦
      rw none (omega (arith, ap (λ (k : ℕ). x * k) {x = u % 2} {y = 0} (ground (arith, none))))
]

halves : (x u : ℕ) → x * (u % 2) + x * 2 * (u / 2) ≡ x * u
halves x u =
    ap (λ (k : ℕ). x * (u % 2) + k) (mul_assoc x 2 (u / 2))
    ∙ sym (mul-add x (u % 2) (2 * (u / 2)))
    ∙ ap (λ (k : ℕ). x * k) (omega arith)

bits_sum_lem : (n i t : ℕ) → shr t i < 2 ^ n → bits_sum i n t ≡ 2 ^ i * shr t i
bits_sum_lem zero i t h =
    omega (
      arith,
      pow-zero 2,
      ap (λ (k : ℕ). 2 ^ i * k) {x = shr t i} {y = 0} (omega (arith, pow-zero 2)),
    )
bits_sum_lem (suc n) i t h =
    ap₂ ◌+◌ (bit_term (2 ^ i) (shr t i)) (
      bits_sum_lem n (suc i) t (omega (arith, shr-suc t i, pow-suc 2 n))
      ∙ ap₂ ◌*◌ (pow-suc 2 i) (shr-suc t i))
    ∙ halves (2 ^ i) (shr t i)

offset : (k n : ℕ) → suc k ≤ n → negsuc k +ℤ pos n ≡ pos (n - suc k)
offset k n h = omega int_laws

module _ (g : Gmp) (b : GmpBits) where
  pub bits_loop_other :
      (tb : Bool) (tmp : ℤ) (i : ℕ) (ps : List GatePosition) (values : Values) (p : GatePosition)
      → Apart p ps
      → get_z (bits_loop g b tb tmp i ps values) p ≡ get_z values p
  unfolding bits_loop
  bits_loop_other tb tmp i [] values p h = refl
  bits_loop_other tb tmp i (r ∷ ps) values p (h, hs) =
      bits_loop_other tb tmp (suc i) ps (set_val values r (bit_value g b tb tmp i)) p hs
      ∙ set_val_other values r p (bit_value g b tb tmp i) h

  bit_value_lem : (t i : ℕ) → bit_value g b false (pos t) i ≡ pos (if bit t i then 2 ^ i else 0)
  unfolding bit_value
  bit_value_lem t i = rw (b.mpz_tstbit_lem t i) (elim (Bool-cases (bit t i)) [
    | inl one ↦ rw one (b.mpz_setbit_lem i)
    | inr none ↦ rw none refl
  ])

  bits_loop-total :
      (t i : ℕ) (ps : List GatePosition) (values : Values)
      → Distinct ps
      → total (bits_loop g b false (pos t) i ps values) ps ≡ pos (bits_sum i (length ps) t)
  unfolding bits_loop
  bits_loop-total t i [] values h = refl
  bits_loop-total t i (p ∷ ps) values (h, hs) =
      let v : ℤ = bit_value g b false (pos t) i in
      ap₂ ◌+ℤ◌
        (bits_loop_other false (pos t) (suc i) ps (set_val values p v) p h
          ∙ get_z-set_val_self values p v
          ∙ bit_value_lem t i)
        (bits_loop-total t (suc i) ps (set_val values p v) hs)
      ∙ pos-+ℤ (if bit t i then 2 ^ i else 0) (bits_sum (suc i) (length ps) t)

  -- computeBits of a difference -d with 0 < d ≤ 2^N.
  pub compute_bits-total :
      (k : ℕ) (ns : List GatePosition) (values : Values)
      → suc k ≤ 2 ^ length ns
      → Distinct ns
      → total (compute_bits g b ns (negsuc k) false values) ns ≡ pos (2 ^ length ns - suc k)
  unfolding compute_bits shr
  compute_bits-total k ns values h distinct =
      let t : ℕ = 2 ^ length ns - suc k in
      ap (λ tmp. total (bits_loop g b false tmp 0 ns values) ns)
        (g.mpz_add_lem (negsuc k) (b.mpz_setbit (pos 0) (length ns))
          ∙ ap (λ x. negsuc k +ℤ x) (b.mpz_setbit_lem (length ns))
          ∙ offset k (2 ^ length ns) h)
      ∙ bits_loop-total (2 ^ length ns - suc k) 0 ns values distinct
      ∙ ap pos (
          bits_sum_lem (length ns) 0 (2 ^ length ns - suc k) (omega arith)
          ∙ omega (arith, ap (λ (x : ℕ). x * (2 ^ length ns - suc k)) (pow-zero 2)))
