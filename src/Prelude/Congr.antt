-- ===== src/Prelude/Congr.antt =====
-- Remainders of integers: `%ℤ` commutes with sums, differences and products.
use native.Mathlib.Nat.{
  div-add-mod, mod-lt, mod-eq_of_lt, add-mul-mod_self_left, add-mod, mod-mod, mul_assoc, mul-one,
}
use Prim.Native.Nat.{ℕ, suc, ◌+◌, ◌-◌, ◌*◌, ◌<◌, ◌%◌, ◌/◌}
use mathlib.Core.Path.{◌≡◌, refl, sym, ◌∙◌, ap, ap₂}
use native.Mathlib.Omega.{arith}
use ginger_zaatar_allspice.Prelude.Int.{
  ℤ, pos, negsuc, pos_part, neg_part, ◌+ℤ◌, ◌-ℤ◌, ◌*ℤ◌, ◌%ℤ◌, +ℤ_parts, -ℤ_parts, *ℤ_parts,
}

-- Numbers that differ by multiples of `p` leave one remainder.
pub mod-eq_of_multiples : (p u v s t : ℕ) → u + p * s ≡ v + p * t → u % p ≡ v % p
mod-eq_of_multiples p u v s t h =
    sym (add-mul-mod_self_left u p s) ∙ ap (λ (x : ℕ). x % p) h ∙ add-mul-mod_self_left v p t

mul_parts :
    (p q r q' r' : ℕ)
    → (p * q + r) * (p * q' + r') + p * 0 ≡ r * r' + p * (q * r' + r * q' + p * (q * q'))
mul_parts p q r q' r' = omega arith

pub mul-mod : (a b p : ℕ) → (a * b) % p ≡ ((a % p) * (b % p)) % p
mul-mod a b p =
    ap₂ (λ (x y : ℕ). x * y % p) (sym (div-add-mod a p)) (sym (div-add-mod b p))
    ∙ mod-eq_of_multiples p ((p * (a / p) + a % p) * (p * (b / p) + b % p)) ((a % p) * (b % p)) 0
        (a / p * (b % p) + a % p * (b / p) + p * (a / p * (b / p)))
        (mul_parts p (a / p) (a % p) (b / p) (b % p))

-- Remainders inside a sum or a product may be taken before or after.
pub mod-*-mod : (a b p : ℕ) → (a * (b % p)) % p ≡ (a * b) % p
mod-*-mod a b p = rw (mul-mod a (b % p) p, mod-mod b p, ← mul-mod a b p)

add-mul-mod : (x a b p : ℕ) → (x + a * b) % p ≡ (x % p + a * (b % p)) % p
add-mul-mod x a b p =
    rw (add-mod x (a * b) p, add-mod (x % p) (a * (b % p)) p, mod-mod x p, mod-*-mod a b p)

pub add-congruent : (p a b c d : ℕ) → a % p ≡ b % p → c % p ≡ d % p → (a + c) % p ≡ (b + d) % p
add-congruent p a b c d h k =
    add-mod a c p ∙ ap₂ (λ (x y : ℕ). (x + y) % p) h k ∙ sym (add-mod b d p)

pub mul-congruent : (p a b c d : ℕ) → a % p ≡ b % p → c % p ≡ d % p → a * c % p ≡ b * d % p
mul-congruent p a b c d h k = mul-mod a c p ∙ ap₂ (λ (x y : ℕ). x * y % p) h k ∙ sym (mul-mod b d p)

-- A factor that has an inverse cancels.
pub cancel_unit : (p r s a b : ℕ) → r * s % p ≡ 1 % p → a * r % p ≡ b * r % p → a % p ≡ b % p
cancel_unit p r s a b inverse h =
    sym (one_more a) ∙ mul-congruent p (a * r) (b * r) s s h refl ∙ one_more b
  where
    one_more : (x : ℕ) → x * r * s % p ≡ x % p
    one_more x =
        ap (λ (k : ℕ). k % p) (mul_assoc x r s)
        ∙ mul-congruent p x x (r * s) 1 refl inverse
        ∙ ap (λ (k : ℕ). k % p) (mul-one x)

suc-* : (q x : ℕ) → suc q * x ≡ q * x + x
suc-* q x = omega arith

-- The remainder by the two parts: -1 is p - 1.
pub %ℤ-parts : (a : ℤ) (q : ℕ) → a %ℤ suc q ≡ (pos_part a + q * neg_part a) % suc q
unfolding ◌%ℤ◌
%ℤ-parts (pos n) q = ap (λ (x : ℕ). x % suc q) (omega arith)
%ℤ-parts (negsuc n) q =
    sym (mod-eq_of_lt (omega (arith, mod-lt n {m = suc q})))
    ∙ mod-eq_of_multiples (suc q) (suc q - 1 - n % suc q) (0 + q * suc n) (suc n) (n / suc q + 1)
        (omega (arith, div-add-mod n (suc q), mod-lt n {m = suc q}))

-- Two integers whose parts agree up to multiples of `p` leave one remainder.
module _ (q : ℕ) where
  infix 45 ◌≈◌
  pub %ℤ-pos : (n : ℕ) → pos n %ℤ suc q ≡ n % suc q
  unfolding ◌%ℤ◌
  %ℤ-pos n = refl

  pub %ℤ-lt : (a : ℤ) → a %ℤ suc q < suc q
  %ℤ-lt a = rw (%ℤ-parts a q) (mod-lt (pos_part a + q * neg_part a) (omega arith))

  pub %ℤ-+ℤ : (a b : ℤ) → (a +ℤ b) %ℤ suc q ≡ (a %ℤ suc q + b %ℤ suc q) % suc q
  %ℤ-+ℤ a b =
      rw (%ℤ-parts (a +ℤ b) q, %ℤ-parts a q, %ℤ-parts b q)
        (mod-eq_of_multiples (suc q) _
            ((pos_part a + q * neg_part a) + (pos_part b + q * neg_part b))
            (neg_part a + neg_part b) (neg_part (a +ℤ b))
            (omega (arith, +ℤ_parts a b, ap (λ (x : ℕ). q * x) (+ℤ_parts a b)))
          ∙ add-mod (pos_part a + q * neg_part a) (pos_part b + q * neg_part b) (suc q))

  pub %ℤ-*ℤ : (a b : ℤ) → (a *ℤ b) %ℤ suc q ≡ (a %ℤ suc q * (b %ℤ suc q)) % suc q
  %ℤ-*ℤ a b =
      rw (%ℤ-parts (a *ℤ b) q, %ℤ-parts a q, %ℤ-parts b q)
        (mod-eq_of_multiples (suc q) _
            ((pos_part a + q * neg_part a) * (pos_part b + q * neg_part b))
            (pos_part a * neg_part b + neg_part a * pos_part b + q * (neg_part a * neg_part b))
            (neg_part (a *ℤ b) + neg_part a * neg_part b)
            (omega (arith, suc-*, *ℤ_parts a b, ap (λ (x : ℕ). q * x) (*ℤ_parts a b)))
          ∙ mul-mod (pos_part a + q * neg_part a) (pos_part b + q * neg_part b) (suc q))

  -- A difference: adding `q` times the subtrahend, where q + 1 is the modulus.
  pub %ℤ--ℤ : (a b : ℤ) → (a -ℤ b) %ℤ suc q ≡ (a %ℤ suc q + q * (b %ℤ suc q)) % suc q
  %ℤ--ℤ a b =
      rw (%ℤ-parts (a -ℤ b) q, %ℤ-parts a q, %ℤ-parts b q)
        (mod-eq_of_multiples (suc q) _
            ((pos_part a + q * neg_part a) + q * (pos_part b + q * neg_part b))
            (neg_part a + pos_part b + q * neg_part b) (neg_part (a -ℤ b) + neg_part b)
            (omega (arith, suc-*, -ℤ_parts a b, ap (λ (x : ℕ). q * x) (-ℤ_parts a b)))
          ∙ add-mul-mod (pos_part a + q * neg_part a) q (pos_part b + q * neg_part b) (suc q))

  -- Congruence modulo q + 1.
  abbrev pub ◌≈◌ : ℤ → ℤ → Type 0
  a ≈ b = a %ℤ suc q ≡ b %ℤ suc q

  pub ≈-%ℤ : (a : ℤ) → pos (a %ℤ suc q) ≈ a
  ≈-%ℤ a = %ℤ-pos (a %ℤ suc q) ∙ mod-eq_of_lt (%ℤ-lt a)

  pub ≈-+ℤ : (a b c d : ℤ) → a ≈ b → c ≈ d → a +ℤ c ≈ b +ℤ d
  ≈-+ℤ a b c d h k = rw (%ℤ-+ℤ a c, %ℤ-+ℤ b d, h, k)

  pub ≈--ℤ : (a b c d : ℤ) → a ≈ b → c ≈ d → a -ℤ c ≈ b -ℤ d
  ≈--ℤ a b c d h k = rw (%ℤ--ℤ a c, %ℤ--ℤ b d, h, k)

  pub ≈-*ℤ : (a b c d : ℤ) → a ≈ b → c ≈ d → a *ℤ c ≈ b *ℤ d
  ≈-*ℤ a b c d h k = rw (%ℤ-*ℤ a c, %ℤ-*ℤ b d, h, k)
