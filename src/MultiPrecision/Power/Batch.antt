-- ===== src/MultiPrecision/Power/Batch.antt =====
-- The exponentiations of vectors in code/pepper/lib_gpu/mp_modexp_cpu.cpp: the loops over the
-- numbers of a vector, and the choice of the size. A vector is a list of numbers of S words.
use ginger_zaatar_allspice.Prelude.{
  ℕ, suc, ◌*◌, ◌%◌, ◌^◌, ◌<◌, Bool, true, ◌||◌, List, [], ◌∷◌, Option, none, some, ◌==◌,
  if◌then◌else◌, ◌≡◌, ◌⊎◌, refl, ap, ◌∙◌,
}
use ginger_zaatar_allspice.MultiPrecision.{value}
use ginger_zaatar_allspice.MultiPrecision.Value.{weight}
use ginger_zaatar_allspice.MultiPrecision.Montgomery.{◌>>=◌}
use ginger_zaatar_allspice.MultiPrecision.Power.{
  MpSw, mp_modexp_mont_cpu, mp_montgomerize_cpu, mp_modexp_cached_cpu,
}
use ginger_zaatar_allspice.MultiPrecision.Power.Represents.{IsModulus, IsOperand}
use ginger_zaatar_allspice.MultiPrecision.Power.Window.{
  exponent, IsWindows, mp_modexp_mont_cpu-IsResidue,
}

-- S_256, S_512, S_1024 and S_2048, the cases of the switch; another size fails an assertion.
unfoldable pub has_size : ℕ → Bool
has_size s = s == 4 || s == 8 || s == 16 || s == 32

-- for (int i = 0; i < len_vector; i++) ret[i] = f(a[i])
unfoldable pub for_each {ℓ κ} :
    {A : Type ℓ} {B : Type κ} → (A → Option B) → List A → Option (List B)
for_each f [] = some []
for_each f (x ∷ xs) = f x >>= λ y. for_each f xs >>= λ ys. some (y ∷ ys)

module _ (s : ℕ) (n np r_sq : List ℕ) where
  unfoldable pub mp_montgomerize_cpu_nocopy : List (List ℕ) → Option (List (List ℕ))
  unfolding for_each mp_montgomerize_cpu
  mp_montgomerize_cpu_nocopy =
      for_each (λ (a : List ℕ). if has_size s then mp_montgomerize_cpu s n np a r_sq else none)

  unfoldable pub mp_modexp_cached_cpu_nocopy :
      List (List ℕ) → List (List ℕ) → Option (List (List ℕ))
  unfolding for_each mp_modexp_cached_cpu
  mp_modexp_cached_cpu_nocopy powm_cache =
      for_each
        (λ (e : List ℕ). if has_size s then mp_modexp_cached_cpu s n np e powm_cache r_sq else none)

  -- The numbers and their exponents, which the source keeps in two arrays.
  unfoldable pub mp_many_modexp_mont_cpu_nocopy : List (List ℕ × MpSw) → Option (List (List ℕ))
  unfolding for_each mp_modexp_mont_cpu
  mp_many_modexp_mont_cpu_nocopy =
      for_each
        (λ (p : List ℕ × MpSw). if has_size s then mp_modexp_mont_cpu s n np p.0 p.1 r_sq else none)

module _ (m : ℕ) (n np : List ℕ) (r_inverse : ℕ) (modulus : IsModulus m n np r_inverse) where
  -- The numbers and exponents that the exponentiation takes.
  pub data AreOperands : List (List ℕ × MpSw) → Type 0 where
    no_operand : AreOperands []
    operand :
        {a : List ℕ} {sw : MpSw} {rest : List (List ℕ × MpSw)}
        → IsOperand m a
        → IsWindows sw ⊎ (sw.num_fragments ≡ 0)
        → AreOperands rest
        → AreOperands ((a, sw) ∷ rest)

  -- The results, in the order of the operands.
  pub data ArePowers : List (List ℕ × MpSw) → List (List ℕ) → Type 0 where
    no_power : ArePowers [] []
    power :
        {a : List ℕ} {sw : MpSw} {rest : List (List ℕ × MpSw)} {r : List ℕ} {rs : List (List ℕ)}
        → value r ≡ value a ^ exponent sw % value n
        → ArePowers rest rs
        → ArePowers ((a, sw) ∷ rest) (r ∷ rs)

-- For a size of the switch, and exponents of 0 or cut into windows whose fragments stay below 32, the
-- exponentiation of a vector returns the powers of its numbers modulo n, one for each and in their
-- order.
pub mp_many_modexp_mont_cpu_nocopy-ArePowers :
    (m : ℕ) (n np : List ℕ) (r_inverse : ℕ) (modulus : IsModulus m n np r_inverse) (r_sq : List ℕ)
    (operands : List (List ℕ × MpSw))
    → has_size (suc m) ≡ true
    → 1 < value n
    → IsOperand m r_sq
    → value r_sq < value n
    → value r_sq % value n ≡ weight (suc m) * weight (suc m) % value n
    → AreOperands m n np r_inverse modulus operands
    → (results : List (List ℕ)) × (mp_many_modexp_mont_cpu_nocopy (suc m) n np r_sq operands
        ≡ some results)
      × ArePowers m n np r_inverse modulus operands results
unfolding mp_many_modexp_mont_cpu_nocopy for_each
mp_many_modexp_mont_cpu_nocopy-ArePowers m n np r_inverse modulus r_sq [] size big hr below square
      no_operand =
    ([], refl, no_power)
mp_many_modexp_mont_cpu_nocopy-ArePowers m n np r_inverse modulus r_sq ((a, sw) ∷ rest) size big hr
      below square (operand ha windows others) =
    let first =
      mp_modexp_mont_cpu-IsResidue m n np r_inverse modulus sw a r_sq big ha hr below square
        windows in
    let (results, returned, powers) =
      mp_many_modexp_mont_cpu_nocopy-ArePowers m n np r_inverse modulus r_sq rest size big hr below
        square others in
    (
      first.words ∷ results,
      ap
            (λ (b : Bool). (if b then mp_modexp_mont_cpu (suc m) n np a sw r_sq else none) >>= λ y.
              mp_many_modexp_mont_cpu_nocopy (suc m) n np r_sq rest >>= λ ys. some (y ∷ ys))
            size
          ∙ ap
              (λ (o : Option (List ℕ)). o >>= λ y.
                mp_many_modexp_mont_cpu_nocopy (suc m) n np r_sq rest >>= λ ys. some (y ∷ ys))
              first.returned
          ∙ ap (λ (o : Option (List (List ℕ))). o >>= λ ys. some (first.words ∷ ys)) returned,
      power first.residue powers,
    )
