-- ===== src/Prelude/Pow.antt =====
-- Powers of numbers.
use native.Mathlib.Nat.{pow-zero, pow-suc, mul_assoc, mul_comm, one-le-pow}
use ginger_zaatar_allspice.Prelude.{ℕ, zero, suc, ◌+◌, ◌-◌, ◌*◌, ◌^◌, ◌≡◌, sym, ◌∙◌, ap, arith}

pub pow-add : (x a b : ℕ) → x ^ (a + b) ≡ x ^ a * x ^ b
pow-add x a zero =
    ap (λ (n : ℕ). x ^ n) {y = a} (omega arith)
    ∙ omega (arith, ap (λ (n : ℕ). x ^ a * n) (pow-zero x))
pow-add x a (suc b) =
    ap (λ (n : ℕ). x ^ n) {y = suc (a + b)} (omega arith)
    ∙ pow-suc x (a + b)
    ∙ ap (λ (n : ℕ). n * x) (pow-add x a b)
    ∙ mul_assoc (x ^ a) (x ^ b) x
    ∙ ap (λ (n : ℕ). x ^ a * n) (sym (pow-suc x b))

pub pow-mul : (x a b : ℕ) → (x ^ a) ^ b ≡ x ^ (a * b)
pow-mul x a zero = pow-zero (x ^ a) ∙ sym (pow-zero x) ∙ ap (λ (n : ℕ). x ^ n) (omega arith)
pow-mul x a (suc b) =
    pow-suc (x ^ a) b
    ∙ ap (λ (n : ℕ). n * x ^ a) (pow-mul x a b)
    ∙ sym (pow-add x (a * b) a)
    ∙ ap (λ (n : ℕ). x ^ n) (omega arith)

pub pow-one : (x : ℕ) → x ^ 1 ≡ x
pow-one x = pow-suc x 0 ∙ ap (λ (y : ℕ). y * x) (pow-zero x) ∙ omega arith

pub pow_chunk : (x n c : ℕ) → (x ^ suc n) ^ (suc n ^ c) ≡ x ^ (suc n ^ suc c)
pow_chunk x n c =
    pow-mul x (suc n) (suc n ^ c)
    ∙ ap (λ (y : ℕ). x ^ y) (mul_comm (suc n) (suc n ^ c) ∙ sym (pow-suc (suc n) c))

pub entry_exponent : (β w i j : ℕ) → (β ^ (suc (2 ^ w - 1) ^ i)) ^ suc j ≡ β ^ (suc j * 2 ^ (w * i))
entry_exponent β w i j =
    pow-mul β (suc (2 ^ w - 1) ^ i) (suc j)
    ∙ ap (λ (k : ℕ). β ^ k)
        (mul_comm (suc (2 ^ w - 1) ^ i) (suc j)
          ∙ ap (λ (k : ℕ). suc j * k)
              (ap (λ (k : ℕ). k ^ i) {y = 2 ^ w} (omega (arith, one-le-pow w 2 (omega arith)))
                ∙ pow-mul 2 w i))
