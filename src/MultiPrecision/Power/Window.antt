-- ===== src/MultiPrecision/Power/Window.antt =====
-- mp_modexp_cpu and mp_modexp_mont_cpu: exponentiation by sliding windows.
use native.Mathlib.Nat.{mod-eq_of_lt, pow-zero, pow-suc}
use ginger_zaatar_allspice.Prelude.{
  ℕ, zero, suc, lt→ltb, ◌+◌, ◌-◌, ◌*◌, ◌/◌, ◌%◌, ◌^◌, ◌≤◌, ◌<◌, Bool, false, List, [], ◌∷◌, Option,
  some, ◌≡◌, ◌≢◌, ◌⊎◌, inl, inr, refl, sym, ap, subst, ◌∙◌, arith, get_or, get_elem?, ◌==◌,
  if◌then◌else◌,
}
use ginger_zaatar_allspice.Prelude.Pow.{pow-add, pow-one}
use ginger_zaatar_allspice.MultiPrecision.{value}
use ginger_zaatar_allspice.MultiPrecision.Value.{weight}
use ginger_zaatar_allspice.MultiPrecision.Montgomery.{◌>>=◌}
use ginger_zaatar_allspice.MultiPrecision.Power.{
  MpSw, sw_max_num_frags, sw_max_fragment, ar_pow_size, montmul, make_one, odd_powers, squares,
  multiply_fragment, fragment_loop, mp_modexp_cpu, mp_modexp_mont_cpu,
}
use ginger_zaatar_allspice.MultiPrecision.Power.Represents.{
  IsModulus, IsOperand, Represents, Represents-≡, Multiplied, montmul-Multiplied,
  montmul_square-Multiplied, IsResidue, montmul_one-IsResidue, make_one-IsOperand, value-make_one,
}

double : (e p : ℕ) → (e + e) * p ≡ e * (p * 2)
double e p = omega arith

-- The exponent that the fragments below k give, after e for those above.
unfoldable pub exponent_from : MpSw → ℕ → ℕ → ℕ
exponent_from sw zero e = e
exponent_from sw (suc k) e =
    exponent_from sw k (e * 2 ^ get_or sw.shift k 0 + get_or sw.fragment k 0)

unfoldable pub windows_exponent : MpSw → ℕ
windows_exponent sw =
    exponent_from sw (sw.num_fragments - 1) (get_or sw.fragment (sw.num_fragments - 1) 0)

unfoldable pub exponent : MpSw → ℕ
exponent sw = if sw.num_fragments == 0 then 0 else windows_exponent sw

-- Every fragment is zero or an odd number up to the greatest, which the table has room for; the top
-- one is not zero. The fragments fit in their array.
pub record IsWindows (sw : MpSw) : Type 0 where
  pub some_fragment : 0 < sw.num_fragments
  pub room : sw.num_fragments ≤ sw_max_num_frags
  pub greatest : sw.max_fragment < sw_max_fragment
  pub odd :
      (k : ℕ)
      → k < sw.num_fragments
      → (get_or sw.fragment k 0 % 2 ≡ 1) × (get_or sw.fragment k 0 ≤ sw.max_fragment)
        ⊎ (get_or sw.fragment k 0 ≡ 0)
  pub top : get_or sw.fragment (sw.num_fragments - 1) 0 ≢ 0

top_odd :
    (sw : MpSw)
    → IsWindows sw
    → (get_or sw.fragment (sw.num_fragments - 1) 0 % 2 ≡ 1)
      × (get_or sw.fragment (sw.num_fragments - 1) 0 ≤ sw.max_fragment)
top_odd sw windows =
    elim (windows.odd (sw.num_fragments - 1) (omega (arith, windows.some_fragment))) [
      | inl odd ↦ odd
      | inr absent ↦ absurd (windows.top absent)
    ]

pow-two : (x : ℕ) → x ^ 2 ≡ x * x
pow-two x = pow-suc x 1 ∙ ap (λ (k : ℕ). k * x) (pow-one x)

module _ (m : ℕ) (n np : List ℕ) (r_inverse : ℕ) (modulus : IsModulus m n np r_inverse)
    (x : ℕ) where
  abbrev Rep : ℕ → List ℕ → Type 0
  Rep = Represents m n np r_inverse modulus

  Rep-≡ : {y z : ℕ} (v : List ℕ) → y ≡ z → Rep y v → Rep z v
  Rep-≡ = Represents-≡ m n np r_inverse modulus

  -- Entry k of the table is an odd power.
  pub HasPowers : ℕ → ℕ → List (List ℕ) → Type 0
  HasPowers first rounds table =
      (k : ℕ)
      → k ≤ rounds
      → (p : List ℕ) × (get_elem? table k ≡ some p) × Rep (x ^ (first + 2 * k)) p

  odd_powers-HasPowers :
      (ar_sqr power : List ℕ) (first i rounds : ℕ)
      → i + rounds < ar_pow_size
      → Rep (x ^ 2) ar_sqr
      → Rep (x ^ first) power
      → (table : List (List ℕ)) × (odd_powers (suc m) n np ar_sqr power i rounds ≡ some table)
        × HasPowers first rounds table
  unfolding odd_powers HasPowers
  odd_powers-HasPowers ar_sqr power first i zero room sqr h = (power ∷ [], refl, λ k b. one k b)
    where
      one :
          (k : ℕ)
          → k ≤ 0
          → (p : List ℕ) × (get_elem? (power ∷ []) k ≡ some p) × Rep (x ^ (first + 2 * k)) p
      one zero b = (power, refl, Rep-≡ power (ap (λ (k : ℕ). x ^ k) {x = first} (omega arith)) h)
      one (suc k) b = absurd (omega arith)
  odd_powers-HasPowers ar_sqr power first i (suc rounds) room sqr h =
      let next =
        montmul-Multiplied m n np r_inverse modulus (x ^ first) (x ^ 2) power ar_sqr h sqr in
      let (table, returned, powers) =
        odd_powers-HasPowers ar_sqr next.words (first + 2) (suc i) rounds (omega (arith, room)) sqr
          (Rep-≡ next.words (sym (pow-add x first 2)) next.represents) in
      (
        power ∷ table,
        rw (odd_powers, lt→ltb (suc i) ar_pow_size (omega (arith, room))) refl
            ∙ ap
                (λ (o : Option (List ℕ)). o >>= λ v.
                  odd_powers (suc m) n np ar_sqr v (suc i) rounds >>= λ t. some (power ∷ t))
                next.returned
            ∙ ap (λ (o : Option (List (List ℕ))). o >>= λ t. some (power ∷ t)) returned,
        λ k b. at k b table powers,
      )
    where
      at :
          (k : ℕ)
          → k ≤ suc rounds
          → (table : List (List ℕ)) → HasPowers (first + 2) rounds table
          → (p : List ℕ) × (get_elem? (power ∷ table) k ≡ some p) × Rep (x ^ (first + 2 * k)) p
      at zero b table powers =
          (power, refl, Rep-≡ power (ap (λ (k : ℕ). x ^ k) {x = first} (omega arith)) h)
      at (suc k) b table powers =
          let (p, found, rep) = powers k (omega arith) in
          (p, found, Rep-≡ p (ap (λ (k : ℕ). x ^ k) {x = first + 2 + 2 * k} (omega arith)) rep)

  squares-Multiplied :
      (e rounds : ℕ) (ret : List ℕ)
      → Rep (x ^ e) ret
      → Multiplied m n np r_inverse modulus (x ^ (e * 2 ^ rounds)) (squares (suc m) n np rounds ret)
  unfolding squares
  squares-Multiplied e zero ret h = record {
    words = ret;
    returned = refl;
    represents = Rep-≡ ret (ap (λ (k : ℕ). x ^ k) {x = e} {y = e * 2 ^ 0} (omega arith)) h;
  }
  squares-Multiplied e (suc rounds) ret h =
      let next = montmul-Multiplied m n np r_inverse modulus (x ^ e) (x ^ e) ret ret h h in
      let rest =
        squares-Multiplied (e + e) rounds next.words
          (Rep-≡ next.words (sym (pow-add x e e)) next.represents) in
      record {
        words = rest.words;
        returned =
            ap (λ (o : Option (List ℕ)). o >>= squares (suc m) n np rounds) next.returned
            ∙ rest.returned;
        represents =
            Rep-≡ rest.words
              (ap (λ (k : ℕ). x ^ k) {x = (e + e) * 2 ^ rounds} {y = e * 2 ^ suc rounds}
                (double e (2 ^ rounds) ∙ ap (λ (k : ℕ). e * k) (sym (pow-suc 2 rounds))))
              rest.represents;
      }

  -- The table of odd powers that the loop reads.
  module _ (sw : MpSw) (windows : IsWindows sw) (table : List (List ℕ))
      (powers : HasPowers 1 ((sw.max_fragment - 1) / 2) table) where
    odd_entry :
        (f : ℕ)
        → f % 2 ≡ 1
        → f ≤ sw.max_fragment
        → (p : List ℕ) × (get_elem? table (f / 2) ≡ some p) × Rep (x ^ f) p
    unfolding HasPowers
    odd_entry f odd bound =
        let (p, found, rep) = powers (f / 2) (omega arith) in
        (
          p,
          found,
          Rep-≡ p (ap (λ (k : ℕ). x ^ k) {x = 1 + 2 * (f / 2)} {y = f} (omega (arith, odd))) rep,
        )

    multiply_fragment-Multiplied :
        (e k : ℕ) (ret : List ℕ)
        → k < sw.num_fragments
        → Rep (x ^ e) ret
        → Multiplied m n np r_inverse modulus
            (x ^ (e + get_or sw.fragment k 0))
            (multiply_fragment (suc m) n np table (get_or sw.fragment k 0) ret)
    unfolding multiply_fragment
    multiply_fragment-Multiplied e k ret b h = elim (windows.odd k b) [
      | inr absent ↦
          rw (multiply_fragment, absent)
            (record {
              words = ret;
              returned = refl;
              represents = Rep-≡ ret (ap (λ (i : ℕ). x ^ i) {x = e} (omega arith)) h;
            })
      | inl (odd, bound) ↦
          let f = get_or sw.fragment k 0 in
          let (p, found, rep) = odd_entry f odd bound in
          let next = montmul-Multiplied m n np r_inverse modulus (x ^ e) (x ^ f) ret p h rep in
          let present : (f == 0) ≡ false = ground (arith, odd) in
          record {
            words = next.words;
            returned =
                ap
                  (λ (t : Bool).
                    if t
                    then some ret
                    else (get_elem? table (f / 2) >>= λ power. montmul (suc m) n np ret power))
                  present
                ∙ ap (λ (o : Option (List ℕ)). o >>= λ power. montmul (suc m) n np ret power) found
                ∙ next.returned;
            represents = Rep-≡ next.words (sym (pow-add x e f)) next.represents;
          }
    ]

    fragment_loop-Multiplied :
        (k e : ℕ) (ret : List ℕ)
        → k < sw.num_fragments
        → Rep (x ^ e) ret
        → Multiplied m n np r_inverse modulus
            (x ^ exponent_from sw k e)
            (fragment_loop (suc m) n np table sw k ret)
    unfolding fragment_loop exponent_from
    fragment_loop-Multiplied zero e ret b h = record {
      words = ret;
      returned = refl;
      represents = h;
    }
    fragment_loop-Multiplied (suc k) e ret b h =
        let s = get_or sw.shift k 0 in
        let f = get_or sw.fragment k 0 in
        let squared = squares-Multiplied e s ret h in
        let multiplied =
          multiply_fragment-Multiplied (e * 2 ^ s) k squared.words (omega arith)
            squared.represents in
        let rest =
          fragment_loop-Multiplied k (e * 2 ^ s + f) multiplied.words (omega arith)
            multiplied.represents in
        record {
          words = rest.words;
          returned =
              ap
                (λ (o : Option (List ℕ)).
                  o
                  >>= multiply_fragment (suc m) n np table f
                  >>= fragment_loop (suc m) n np table sw k)
                squared.returned
              ∙ ap (λ (o : Option (List ℕ)). o >>= fragment_loop (suc m) n np table sw k)
                  multiplied.returned
              ∙ rest.returned;
          represents = rest.represents;
        }

  mp_modexp_cpu-Multiplied :
      (sw : MpSw) (ar : List ℕ)
      → IsWindows sw
      → Rep x ar
      → Multiplied m n np r_inverse modulus
          (x ^ windows_exponent sw)
          (mp_modexp_cpu (suc m) n np ar sw)
  unfolding mp_modexp_cpu windows_exponent
  mp_modexp_cpu-Multiplied sw ar windows h =
      let rounds = (sw.max_fragment - 1) / 2 in
      let top = get_or sw.fragment (sw.num_fragments - 1) 0 in
      let sqr = montmul-Multiplied m n np r_inverse modulus x x ar ar h h in
      let (table, built, powers) =
        odd_powers-HasPowers sqr.words ar 1 0 rounds (omega (arith, windows.greatest))
          (Rep-≡ sqr.words (sym (pow-two x)) sqr.represents) (Rep-≡ ar (sym (pow-one x)) h) in
      let (odd, bound) = top_odd sw windows in
      let (p, found, rep) = odd_entry sw windows table powers top odd bound in
      let rest =
        fragment_loop-Multiplied sw windows table powers (sw.num_fragments - 1) top p
          (omega (arith, windows.some_fragment)) rep in
      record {
        words = rest.words;
        returned =
            ap
              (λ (o : Option (List ℕ)). o >>= λ ar_sqr.
                odd_powers (suc m) n np ar_sqr ar 0 rounds >>= λ ar_pow.
                get_elem? ar_pow (top / 2)
                >>= fragment_loop (suc m) n np ar_pow sw (sw.num_fragments - 1))
              sqr.returned
            ∙ ap
                (λ (o : Option (List (List ℕ))). o >>= λ ar_pow.
                  get_elem? ar_pow (top / 2)
                  >>= fragment_loop (suc m) n np ar_pow sw (sw.num_fragments - 1))
                built
            ∙ ap
                (λ (o : Option (List ℕ)).
                  o >>= fragment_loop (suc m) n np table sw (sw.num_fragments - 1))
                found
            ∙ rest.returned;
        represents = rest.represents;
      }

  pub finish-IsResidue :
      (e : ℕ) (result : Option (List ℕ))
      → Multiplied m n np r_inverse modulus (x ^ e) result
      → IsResidue m n np r_inverse modulus
          (x ^ e)
          (result >>= λ ret. montmul (suc m) n np ret (make_one (suc m)))
  finish-IsResidue e result r =
      subst
        (λ (o : Option (List ℕ)).
          IsResidue m n np r_inverse modulus (x ^ e)
            (o >>= λ ret. montmul (suc m) n np ret (make_one (suc m))))
        (sym r.returned)
        (montmul_one-IsResidue m n np r_inverse modulus (x ^ e) r.words (make_one (suc m))
          r.represents (make_one-IsOperand m) (value-make_one m))

-- With R^2 modulo n, and an exponent of 0 or cut into windows whose fragments stay below 32, the
-- bound of the table of odd powers, mp_modexp_mont_cpu returns the power of the base modulo n.
pub mp_modexp_mont_cpu-IsResidue :
    (m : ℕ) (n np : List ℕ) (r_inverse : ℕ) (modulus : IsModulus m n np r_inverse) (sw : MpSw)
    (a r_sq : List ℕ)
    → 1 < value n
    → IsOperand m a
    → IsOperand m r_sq
    → value r_sq < value n
    → value r_sq % value n ≡ weight (suc m) * weight (suc m) % value n
    → IsWindows sw ⊎ (sw.num_fragments ≡ 0)
    → IsResidue m n np r_inverse modulus
        (value a ^ exponent sw)
        (mp_modexp_mont_cpu (suc m) n np a sw r_sq)
unfolding mp_modexp_mont_cpu exponent
mp_modexp_mont_cpu-IsResidue m n np r_inverse modulus sw a r_sq big ha hr below square (inr empty) =
    rw (exponent, mp_modexp_mont_cpu, empty)
      (record {
        words = make_one (suc m);
        returned = refl;
        residue =
            value-make_one m
            ∙ sym (mod-eq_of_lt big)
            ∙ ap (λ (k : ℕ). k % value n) (sym (pow-zero (value a)));
        operand = make_one-IsOperand m;
      })
mp_modexp_mont_cpu-IsResidue m n np r_inverse modulus sw a r_sq big ha hr below square
      (inl windows) =
    let present : (sw.num_fragments == 0) ≡ false = ground (arith, windows.some_fragment) in
    let s_a = montmul_square-Multiplied m n np r_inverse modulus a r_sq ha hr below square in
    let power =
      mp_modexp_cpu-Multiplied m n np r_inverse modulus (value a) sw s_a.words windows
        s_a.represents in
    let done = finish-IsResidue m n np r_inverse modulus (value a) (windows_exponent sw) _ power in
    rw (exponent, mp_modexp_mont_cpu, present)
      (subst
        (λ (o : Option (List ℕ)).
          IsResidue m n np r_inverse modulus (value a ^ windows_exponent sw) (
            o >>= λ s_a. mp_modexp_cpu (suc m) n np s_a sw >>= λ ret.
            montmul (suc m) n np ret (make_one (suc m))))
        (sym s_a.returned) done)
