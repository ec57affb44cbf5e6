-- ===== src/MultiPrecision/Power/Cached.antt =====
-- mp_modexp_cached_cpu: exponentiation with a table of powers of the base.
use native.Mathlib.Nat.{mul_assoc, mul_comm, pow-zero, add-mul}
use mathlib.Core.Path.{subst₂}
use ginger_zaatar_allspice.Prelude.{
  ℕ, zero, suc, ◌+◌, ◌-◌, ◌*◌, ◌%◌, ◌^◌, ◌<◌, Bool, List, [], ◌∷◌, Option, some, ◌≡◌, refl, sym, ap,
  ap₂, subst, ◌∙◌, arith, length, get_elem?, drop, if◌then◌else◌, lt→ltb, ℕ_discrete,
}
use ginger_zaatar_allspice.Prelude.Pow.{pow-add, pow-mul}
use ginger_zaatar_allspice.MultiPrecision.{word_mod, word, value}
use ginger_zaatar_allspice.MultiPrecision.Value.{weight, IsBelow, IsWords, upto, upto-word}
use ginger_zaatar_allspice.MultiPrecision.Montgomery.{◌>>=◌}
use ginger_zaatar_allspice.MultiPrecision.Power.{
  montmul, make_one, window, window_mod, windows_per_word, multiply_window, window_loop, word_loop,
  mp_modexp_cached_cpu,
}
use ginger_zaatar_allspice.MultiPrecision.Power.Represents.{
  IsModulus, IsOperand, Represents, Represents-≡, Multiplied, montmul-Multiplied,
  montmul_square-Multiplied, IsResidue, make_one-IsOperand, value-make_one,
}
use ginger_zaatar_allspice.MultiPrecision.Power.Window.{finish-IsResidue}

get_elem?-drop :
    {A : Type 0} (k i : ℕ) (xs : List A) → get_elem? (drop k xs) i ≡ get_elem? xs (k + i)
get_elem?-drop zero i xs = ap (get_elem? xs) (omega arith)
get_elem?-drop (suc k) i [] = refl
get_elem?-drop (suc k) i (x ∷ xs) =
    get_elem?-drop k i xs ∙ ap (get_elem? (x ∷ xs)) {x = suc (k + i)} (omega arith)

-- What the windows of a word from j on add to the exponent, at chunk c.
windows_from : ℕ → ℕ → ℕ → ℕ → ℕ
windows_from e j zero c = 0
windows_from e j (suc rounds) c = window e j * 2 ^ (8 * c) + windows_from e (suc j) rounds (suc c)

-- The eight windows of a word are its digits in base 256.
eight_digits :
    (e : ℕ)
    → e < word_mod
    → window e 0 * 2 ^ 0
        + (window e 1 * 2 ^ 8
            + (window e 2 * 2 ^ 16
                + (window e 3 * 2 ^ 24
                    + (window e 4 * 2 ^ 32
                        + (window e 5 * 2 ^ 40 + (window e 6 * 2 ^ 48 + window e 7 * 2 ^ 56))))))
      ≡ e
eight_digits e h = omega arith

digit_weight : (w j c : ℕ) → w * 2 ^ (8 * (j + c)) ≡ w * 2 ^ (8 * j) * 2 ^ (8 * c)
digit_weight w j c =
    ap (λ (k : ℕ). w * 2 ^ k) {x = 8 * (j + c)} {y = 8 * j + 8 * c} (omega arith)
    ∙ ap (λ (k : ℕ). w * k) (pow-add 2 (8 * j) (8 * c))
    ∙ sym (mul_assoc w (2 ^ (8 * j)) (2 ^ (8 * c)))

scaled :
    (e j rounds d c : ℕ) → windows_from e j rounds (d + c) ≡ windows_from e j rounds d * 2 ^ (8 * c)
unfolding windows_from
scaled e j zero d c = omega arith
scaled e j (suc rounds) d c =
    ap₂ ◌+◌ (digit_weight (window e j) d c) (
      ap (windows_from e (suc j) rounds) {x = suc (d + c)} {y = suc d + c} (omega arith)
      ∙ scaled e (suc j) rounds (suc d) c)
    ∙ sym (add-mul (window e j * 2 ^ (8 * d)) (windows_from e (suc j) rounds (suc d)) (2 ^ (8 * c)))

windows_of_word : (e c : ℕ) → e < word_mod → windows_from e 0 windows_per_word c ≡ e * 2 ^ (8 * c)
unfolding windows_from
windows_of_word e c h =
    ap (windows_from e 0 windows_per_word) {x = c} {y = 0 + c} (omega arith)
    ∙ scaled e 0 windows_per_word 0 c
    ∙ ap (λ (k : ℕ). k * 2 ^ (8 * c)) (omega (arith, eight_digits e h))

word_weight : (i : ℕ) → 2 ^ (8 * (windows_per_word * i)) ≡ weight i
word_weight i =
    ap (λ (k : ℕ). 2 ^ k) {x = 8 * (windows_per_word * i)} {y = 64 * i} (omega arith)
    ∙ sym (pow-mul 2 64 i)

window_lt : (w j : ℕ) → window w j < window_mod
window_lt w j = omega arith

module _ (m : ℕ) (n np : List ℕ) (r_inverse : ℕ) (modulus : IsModulus m n np r_inverse)
    (x : ℕ) where
  -- Entry w - 1 of a chunk stands for the power that window value w of that chunk asks for.
  unfoldable pub IsTable : ℕ → ℕ → List (List ℕ) → Type 0
  IsTable c chunks table =
      (k w : ℕ)
      → k < chunks
      → 0 < w
      → w < window_mod
      → (p : List ℕ) × (get_elem? table ((window_mod - 1) * k + (w - 1)) ≡ some p)
        × Represents m n np r_inverse modulus (x ^ (w * 2 ^ (8 * (c + k)))) p

  abbrev Rep : ℕ → List ℕ → Type 0
  Rep = Represents m n np r_inverse modulus

  Rep-≡ : {y z : ℕ} (v : List ℕ) → y ≡ z → Rep y v → Rep z v
  Rep-≡ = Represents-≡ m n np r_inverse modulus

  IsTable-drop :
      (c chunks : ℕ) (table : List (List ℕ))
      → IsTable c (suc chunks) table
      → IsTable (suc c) chunks (drop (window_mod - 1) table)
  unfolding IsTable
  IsTable-drop c chunks table h k w b low high =
      let (p, found, rep) = h (suc k) w (omega arith) low high in
      (
        p,
        get_elem?-drop (window_mod - 1) ((window_mod - 1) * k + (w - 1)) table
            ∙ ap (get_elem? table) {x = (window_mod - 1) + ((window_mod - 1) * k + (w - 1))}
                (omega arith)
            ∙ found,
        Rep-≡ p
            (ap (λ (i : ℕ). x ^ (w * 2 ^ (8 * i))) {x = c + suc k} {y = suc c + k} (omega arith))
            rep,
      )

  multiply_window-Multiplied :
      (c chunks e w : ℕ) (table : List (List ℕ)) (ret : List ℕ)
      → IsTable c (suc chunks) table
      → w < window_mod
      → Rep (x ^ e) ret
      → Multiplied m n np r_inverse modulus
          (x ^ (e + w * 2 ^ (8 * c)))
          (multiply_window (suc m) n np table w ret)
  unfolding multiply_window IsTable
  multiply_window-Multiplied c chunks e w table ret h high rep = elim (ℕ_discrete w 0) [
    | yes empty ↦
        rw (multiply_window, empty)
          (record {
            words = ret;
            returned = refl;
            represents =
                Rep-≡ ret (ap (λ (k : ℕ). x ^ k) {x = e} {y = e + 0 * 2 ^ (8 * c)} (omega arith))
                  rep;
          })
    | no present ↦
        let (p, found, power) = h 0 w (omega arith) (omega arith) high in
        let next = montmul-Multiplied m n np r_inverse modulus (x ^ e) _ ret p rep power in
        record {
          words = next.words;
          returned =
              ap
                (λ (t : Bool).
                  if t
                  then (get_elem? table (w - 1) >>= λ power. montmul (suc m) n np ret power)
                  else some ret)
                (lt→ltb 0 w (omega arith))
              ∙ ap (λ (o : Option (List ℕ)). o >>= λ power. montmul (suc m) n np ret power)
                  (ap (get_elem? table) {x = w - 1} {y = (window_mod - 1) * 0 + (w - 1)}
                      (omega arith)
                    ∙ found)
              ∙ next.returned;
          represents =
              Rep-≡ next.words
                (sym (pow-add x e (w * 2 ^ (8 * (c + 0))))
                  ∙ ap (λ (i : ℕ). x ^ (e + w * 2 ^ (8 * i))) {x = c + 0} {y = c} (omega arith))
                next.represents;
        }
  ]

  -- What a loop over windows leaves: the rest of the table, and the power.
  record Looped (c chunks e : ℕ) (result : Option (List (List ℕ) × List ℕ)) : Type 0 where
    table : List (List ℕ)
    words : List ℕ
    returned : result ≡ some (table, words)
    is_table : IsTable c chunks table
    represents : Rep (x ^ e) words

  window_loop-Looped :
      (c chunks e w j rounds : ℕ) (table : List (List ℕ)) (ret : List ℕ)
      → IsTable c (rounds + chunks) table
      → Rep (x ^ e) ret
      → Looped
          (c + rounds)
          chunks
          (e + windows_from w j rounds c)
          (window_loop (suc m) n np w j rounds table ret)
  unfolding window_loop windows_from
  window_loop-Looped c chunks e w j zero table ret h rep = record {
    table = table;
    words = ret;
    returned = refl;
    is_table =
        subst₂ (λ (i k : ℕ). IsTable i k table) {x = c} {y = c + 0} {u = 0 + chunks} {v = chunks}
          (omega arith) (omega arith) h;
    represents = Rep-≡ ret (ap (λ (k : ℕ). x ^ k) {x = e} (omega arith)) rep;
  }
  window_loop-Looped c chunks e w j (suc rounds) table ret h rep =
      let h' : IsTable c (suc (rounds + chunks)) table =
        subst (λ (k : ℕ). IsTable c k table) {x = suc rounds + chunks} (omega arith) h in
      let next =
        multiply_window-Multiplied c (rounds + chunks) e (window w j) table ret h' (window_lt w j)
          rep in
      let rest =
        window_loop-Looped (suc c) chunks (e + window w j * 2 ^ (8 * c)) w (suc j) rounds
          (drop (window_mod - 1) table) next.words (IsTable-drop c (rounds + chunks) table h')
          next.represents in
      record {
        table = rest.table;
        words = rest.words;
        returned =
            ap
              (λ (o : Option (List ℕ)).
                o >>= window_loop (suc m) n np w (suc j) rounds (drop (window_mod - 1) table))
              next.returned
            ∙ rest.returned;
        is_table =
            subst (λ (k : ℕ). IsTable k chunks rest.table) {x = suc c + rounds} (omega arith)
              rest.is_table;
        represents =
            Rep-≡ rest.words
              (ap (λ (k : ℕ). x ^ k)
                {x = e + window w j * 2 ^ (8 * c) + windows_from w (suc j) rounds (suc c)}
                (omega arith))
              rest.represents;
      }

  word_loop-Multiplied :
      (e : List ℕ) (i rounds : ℕ) (table : List (List ℕ)) (ret : List ℕ)
      → IsWords e
      → IsTable (windows_per_word * i) (windows_per_word * rounds) table
      → Rep (x ^ upto (word e) i) ret
      → Multiplied m n np r_inverse modulus
          (x ^ upto (word e) (i + rounds))
          (word_loop (suc m) n np e i rounds table ret)
  unfolding word_loop upto IsBelow
  word_loop-Multiplied e i zero table ret he h rep = record {
    words = ret;
    returned = refl;
    represents =
        Rep-≡ ret (ap (λ (k : ℕ). x ^ upto (word e) k) {x = i} {y = i + 0} (omega arith)) rep;
  }
  word_loop-Multiplied e i (suc rounds) table ret he h rep =
      let c = windows_per_word * i in
      let chunks = windows_per_word * rounds in
      let looped =
        window_loop-Looped c chunks (upto (word e) i) (word e i) 0 windows_per_word table ret
          (subst (λ (k : ℕ). IsTable c k table) {x = windows_per_word * suc rounds} (omega arith) h)
          rep in
      let rest =
        word_loop-Multiplied e (suc i) rounds looped.table looped.words he
          (subst (λ (k : ℕ). IsTable k chunks looped.table) {x = c + windows_per_word} (omega arith)
            looped.is_table)
          (Rep-≡ looped.words
            (ap (λ (k : ℕ). x ^ (upto (word e) i + k))
              (windows_of_word (word e i) c (he i)
                ∙ ap (λ (k : ℕ). word e i * k) (word_weight i)
                ∙ mul_comm (word e i) (weight i)))
            looped.represents) in
      record {
        words = rest.words;
        returned =
            ap
              (λ (o : Option (List (List ℕ) × List ℕ)).
                o >>= λ r. word_loop (suc m) n np e (suc i) rounds r.0 r.1)
              looped.returned
            ∙ rest.returned;
        represents =
            Rep-≡ rest.words
              (ap (λ (k : ℕ). x ^ upto (word e) k) {x = suc i + rounds} {y = i + suc rounds}
                (omega arith))
              rest.represents;
      }

-- With R^2 modulo n and a table of the powers of a number for every window of S words,
-- mp_modexp_cached_cpu returns the power of the number modulo n, for every exponent of S words.
pub mp_modexp_cached_cpu-IsResidue :
    (m : ℕ) (n np : List ℕ) (r_inverse : ℕ) (modulus : IsModulus m n np r_inverse) (x : ℕ)
    (e : List ℕ) (powm_cache : List (List ℕ)) (r_sq : List ℕ)
    → IsOperand m e
    → IsOperand m r_sq
    → value r_sq < value n
    → value r_sq % value n ≡ weight (suc m) * weight (suc m) % value n
    → IsTable m n np r_inverse modulus x 0 (windows_per_word * suc m) powm_cache
    → IsResidue m n np r_inverse modulus
        (x ^ value e)
        (mp_modexp_cached_cpu (suc m) n np e powm_cache r_sq)
unfolding mp_modexp_cached_cpu upto
mp_modexp_cached_cpu-IsResidue m n np r_inverse modulus x e powm_cache r_sq he hr below square h =
    let one =
      montmul_square-Multiplied m n np r_inverse modulus (make_one (suc m)) r_sq
        (make_one-IsOperand m) hr below square in
    let power =
      word_loop-Multiplied m n np r_inverse modulus x e 0 (suc m) powm_cache one.words he.are_words
        h
        (Represents-≡ m n np r_inverse modulus one.words (value-make_one m ∙ sym (pow-zero x))
          one.represents) in
    let exponent : upto (word e) (0 + suc m) ≡ value e =
      ap (upto (word e)) {x = 0 + suc m} {y = length e} (omega (arith, he.right_length))
      ∙ upto-word e in
    subst
      (λ (k : ℕ).
        IsResidue m n np r_inverse modulus (x ^ k)
          (mp_modexp_cached_cpu (suc m) n np e powm_cache r_sq))
      exponent
      (subst
        (λ (o : Option (List ℕ)).
          IsResidue m n np r_inverse modulus (x ^ upto (word e) (0 + suc m)) (
            o >>= word_loop (suc m) n np e 0 (suc m) powm_cache >>= λ ret.
            montmul (suc m) n np ret (make_one (suc m))))
        (sym one.returned)
        (finish-IsResidue m n np r_inverse modulus x (upto (word e) (0 + suc m)) _ power))
