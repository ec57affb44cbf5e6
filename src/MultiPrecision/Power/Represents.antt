-- ===== src/MultiPrecision/Power/Represents.antt =====
-- Numbers in Montgomery form: v stands for x if v is x R modulo n, where R is the weight of S words.
use native.Mathlib.Nat.{
  mul-suc, mul_assoc, mul_comm, mod-eq_of_lt, mul-le-mul_left, mul-le-mul_right, mul-one,
}
use ginger_zaatar_allspice.Prelude.{
  ℕ, suc, ◌+◌, ◌*◌, ◌%◌, ◌^◌, ◌≤◌, ◌<◌, List, Option, some, ◌≡◌, refl, sym, ap, subst, ◌∙◌, arith,
  length, length-set, length-replicate, replicate,
}
use ginger_zaatar_allspice.Prelude.Congr.{mul-congruent, cancel_unit}
use ginger_zaatar_allspice.MultiPrecision.{word_mod, word, value}
use ginger_zaatar_allspice.MultiPrecision.Value.{
  weight, IsWords, value-lt, value-replicate_zero, IsBelow-set, IsBelow-replicate_zero,
}
use ginger_zaatar_allspice.MultiPrecision.Montgomery.Product.{
  IsMontgomery, mp_montmul_cpu-IsMontgomery,
}
use ginger_zaatar_allspice.MultiPrecision.Power.{montmul, make_one}

swap_factors : (x y r : ℕ) → x * r * (y * r) ≡ x * y * r * r
swap_factors x y r = grind arith

pub mul_lt : (a b n r : ℕ) → a < r → b < n → a * b < n * r
mul_lt a b n r ha hb =
    let next : suc b ≤ n = hb in
    let below : a ≤ r = omega arith in
    omega (arith, mul-le-mul_right b below, mul-le-mul_left r next, mul-suc r b, mul_comm n r)

-- What the exponentiations ask of the modulus: S words, the inverse of its negative modulo 2^64,
-- and an inverse of R, which an odd modulus has.
pub record IsModulus (m : ℕ) (n np : List ℕ) (r_inverse : ℕ) : Type 0 where
  pub small : suc m < 2 ^ 20
  pub right_length : length n ≡ suc m
  pub are_words : IsWords n
  pub inverse : (word n 0 * word np 0 + 1) % word_mod ≡ 0
  pub unit : weight (suc m) * r_inverse % value n ≡ 1 % value n

-- A number of S words.
pub record IsOperand (m : ℕ) (v : List ℕ) : Type 0 where
  pub right_length : length v ≡ suc m
  pub are_words : IsWords v

pub value_operand_lt : (m : ℕ) (v : List ℕ) → IsOperand m v → value v < weight (suc m)
value_operand_lt m v h =
    omega (arith, value-lt v h.are_words, ap (λ (k : ℕ). weight k) h.right_length)

pub make_one-IsOperand : (m : ℕ) → IsOperand m (make_one (suc m))
make_one-IsOperand m = record {
  right_length = length-set (replicate (suc m) 0) 0 1 ∙ length-replicate (suc m) 0;
  are_words =
      IsBelow-set word_mod (replicate (suc m) 0) 0 1
        (IsBelow-replicate_zero word_mod (suc m) (omega arith)) (omega arith);
}

pub value-make_one : (m : ℕ) → value (make_one (suc m)) ≡ 1
unfolding value
value-make_one m = omega (arith, value-replicate_zero m)

module _ (m : ℕ) (n np : List ℕ) (r_inverse : ℕ) (modulus : IsModulus m n np r_inverse) where
  pub record Represents (x : ℕ) (v : List ℕ) : Type 0 where
    pub operand : IsOperand m v
    pub below : value v < value n
    pub congruent : value v % value n ≡ x * weight (suc m) % value n

  pub Represents-≡ : {x y : ℕ} (v : List ℕ) → x ≡ y → Represents x v → Represents y v
  Represents-≡ v e h = subst (λ (x : ℕ). Represents x v) e h

  montmul-IsMontgomery :
      (a b : List ℕ)
      → IsOperand m a
      → IsOperand m b
      → value a * value b < value n * weight (suc m)
      → IsMontgomery (suc m) (value a * value b) (value n) (montmul (suc m) n np a b)
  montmul-IsMontgomery a b ha hb bound =
      mp_montmul_cpu-IsMontgomery m a b n np modulus.small ha.right_length hb.right_length
        modulus.right_length ha.are_words hb.are_words modulus.are_words modulus.inverse bound

  -- A Montgomery product whose numbers are x R modulo n, once more times R.
  pub record Multiplied (x : ℕ) (result : Option (List ℕ)) : Type 0 where
    pub words : List ℕ
    pub returned : result ≡ some words
    pub represents : Represents x words

  to_Multiplied :
      (x p : ℕ) (result : Option (List ℕ))
      → p % value n ≡ x * weight (suc m) * weight (suc m) % value n
      → IsMontgomery (suc m) p (value n) result
      → Multiplied x result
  to_Multiplied x p result e r = record {
    words = r.words;
    returned = r.returned;
    represents = record {
      operand = record { right_length = r.right_length; are_words = r.are_words };
      below = r.below;
      congruent =
          cancel_unit (value n) (weight (suc m)) r_inverse (value r.words) (x * weight (suc m))
            modulus.unit (r.congruent ∙ e);
    };
  }

  -- The product of two numbers in Montgomery form stands for the product.
  pub montmul-Multiplied :
      (x y : ℕ) (a b : List ℕ)
      → Represents x a
      → Represents y b
      → Multiplied (x * y) (montmul (suc m) n np a b)
  montmul-Multiplied x y a b ha hb =
      let r = weight (suc m) in
      to_Multiplied (x * y) (value a * value b) _
        (mul-congruent (value n) (value a) (x * r) (value b) (y * r) ha.congruent hb.congruent
          ∙ ap (λ (k : ℕ). k % value n) (swap_factors x y r))
        (montmul-IsMontgomery a b ha.operand hb.operand
          (mul_lt (value a) (value b) (value n) r (value_operand_lt m a ha.operand) hb.below))

  -- A product with R^2 modulo n puts a number into Montgomery form.
  pub montmul_square-Multiplied :
      (a r_sq : List ℕ)
      → IsOperand m a
      → IsOperand m r_sq
      → value r_sq < value n
      → value r_sq % value n ≡ weight (suc m) * weight (suc m) % value n
      → Multiplied (value a) (montmul (suc m) n np a r_sq)
  montmul_square-Multiplied a r_sq ha hr below square =
      let r = weight (suc m) in
      to_Multiplied (value a) (value a * value r_sq) _
        (mul-congruent (value n) (value a) (value a) (value r_sq) (r * r) refl square
          ∙ ap (λ (k : ℕ). k % value n) (sym (mul_assoc (value a) r r)))
        (montmul-IsMontgomery a r_sq ha hr
          (mul_lt (value a) (value r_sq) (value n) r (value_operand_lt m a ha) below))

  -- A number of S words that is x modulo n.
  pub record IsResidue (x : ℕ) (result : Option (List ℕ)) : Type 0 where
    pub words : List ℕ
    pub returned : result ≡ some words
    pub residue : value words ≡ x % value n
    pub operand : IsOperand m words

  -- A product with 1 takes a number out of Montgomery form.
  pub montmul_one-IsResidue :
      (x : ℕ) (a one : List ℕ)
      → Represents x a
      → IsOperand m one
      → value one ≡ 1
      → IsResidue x (montmul (suc m) n np a one)
  montmul_one-IsResidue x a one ha ho e =
      let r = weight (suc m) in
      let product : value a * value one ≡ value a =
        ap (λ (k : ℕ). value a * k) e ∙ mul-one (value a) in
      let positive : 1 ≤ r = omega (arith, value_operand_lt m a ha.operand) in
      let done =
        montmul-IsMontgomery a one ha.operand ho (
          omega
            (arith, product, ha.below, mul-le-mul_left (value n) positive, mul-one (value n))) in
      record {
        words = done.words;
        returned = done.returned;
        residue =
            sym (mod-eq_of_lt done.below)
            ∙ cancel_unit (value n) r r_inverse (value done.words) x modulus.unit
                (done.congruent ∙ ap (λ (k : ℕ). k % value n) product ∙ ha.congruent);
        operand = record { right_length = done.right_length; are_words = done.are_words };
      }
