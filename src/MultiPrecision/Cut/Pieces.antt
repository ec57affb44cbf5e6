-- ===== src/MultiPrecision/Cut/Pieces.antt =====
-- What the loop of mp_get_clnw makes of the bits that are left.
use native.Mathlib.Nat.{pow-le-pow_right, pow-zero, mul-le-mul_right}
use ginger_zaatar_allspice.Prelude.{
  ℕ, zero, suc, ◌+◌, ◌-◌, ◌*◌, ◌%◌, ◌^◌, ◌≤◌, ◌<◌, min, Option, some, List, [], ◌∷◌, ◌==◌, ◌⊎◌, inl,
  inr, Bool, false, if◌then◌else◌, length, ◌≡◌, refl, sym, ap, subst, ◌∙◌, arith,
}
use ginger_zaatar_allspice.MultiPrecision.Montgomery.{◌>>=◌}
use ginger_zaatar_allspice.MultiPrecision.Cut.{zero_bits, read_window, Entry, entries, cut_loop}
use ginger_zaatar_allspice.MultiPrecision.Cut.Bits.{
  read_window-add, read_window_lt, zero_bits_le, read_zeros, after_zeros,
}

-- The number that the entries stand for, the lowest first.
unfoldable pub total : List Entry → ℕ
total [] = 0
total (p ∷ pieces) = p.fragment + 2 ^ p.size * total pieces

-- Every fragment is zero, or odd and below the bound.
unfoldable pub AreFragments : ℕ → List Entry → Type 0
AreFragments bound [] = Unit
AreFragments bound (p ∷ pieces) =
    ((p.fragment % 2 ≡ 1) × (p.fragment < bound) ⊎ (p.fragment ≡ 0)) × AreFragments bound pieces

-- The result of the loop from bit i on.
pub record Cut (a : List ℕ) (d rest i : ℕ) (result : Option (List Entry)) : Type 0 where
  pub pieces : List Entry
  pub returned : result ≡ some pieces
  pub stands : total pieces ≡ read_window a rest i
  pub are_fragments : AreFragments (2 ^ d) pieces
  pub none_left : rest ≡ 0 → length pieces ≡ 0
  pub count : length pieces * d ≤ 2 * rest + 2 * d

-- The window after the zeros is odd, or there are no bits for it.
window_odd :
    (a : List ℕ) (d rest i : ℕ)
    → 0 < d
    → let zeros = zero_bits a rest i in
      let f = read_window a (min d (rest - zeros)) (i + zeros) in
      (f % 2 ≡ 1) × (f < 2 ^ d) ⊎ (f ≡ 0)
unfolding read_window
window_odd a d rest i h = cases (min d (rest - zero_bits a rest i)) refl
  where
    cases :
        (c : ℕ)
        → min d (rest - zero_bits a rest i) ≡ c
        → (read_window a c (i + zero_bits a rest i) % 2 ≡ 1)
            × (read_window a c (i + zero_bits a rest i) < 2 ^ d)
          ⊎ (read_window a c (i + zero_bits a rest i) ≡ 0)
    cases zero e = inr refl
    cases (suc c) e = inl (
      omega (arith, after_zeros a rest i (omega (arith, e))),
      omega (
        arith,
        read_window_lt a (suc c) (i + zero_bits a rest i),
        pow-le-pow_right {n = 2} (omega arith) {i = suc c} {j = d} (omega (arith, e)),
      ),
    )

-- The bits that are left are the zeros, the window and what comes after.
split_bits :
    (a : List ℕ) (d rest i : ℕ)
    → let zeros = zero_bits a rest i in
      let count = min d (rest - zeros) in
      read_window a rest i
      ≡ 2 ^ zeros
        * (read_window a count (i + zeros)
            + 2 ^ count * read_window a (rest - zeros - count) (i + zeros + count))
split_bits a d rest i =
    let z = zero_bits a rest i in
    let c = min d (rest - z) in
    ap (λ (n : ℕ). read_window a n i) {y = z + (c + (rest - z - c))}
      (omega (arith, zero_bits_le a rest i))
    ∙ read_window-add a z (c + (rest - z - c)) i
    ∙ ap (λ (n : ℕ). n + 2 ^ z * read_window a (c + (rest - z - c)) (i + z)) (read_zeros a rest i)
    ∙ omega arith
    ∙ ap (λ (n : ℕ). 2 ^ z * n) (read_window-add a c (rest - z - c) (i + z))

entries-suc :
    (z : ℕ) (w : Entry) (ps : List Entry)
    → entries (suc z) w ps ≡ record { fragment = 0; size = suc z } ∷ w ∷ ps
entries-suc z w ps =
    ap (λ (t : Bool). if t then w ∷ ps else record { fragment = 0; size = suc z } ∷ w ∷ ps)
      (nonzero z)
  where
    nonzero : (z : ℕ) → (suc z == 0) ≡ false
    nonzero z = ground arith

total-entries :
    (z : ℕ) (w : Entry) (ps : List Entry) → total (entries z w ps) ≡ 2 ^ z * total (w ∷ ps)
unfolding total
total-entries zero w ps = omega (arith, pow-zero 2)
total-entries (suc z) w ps = ap total (entries-suc z w ps) ∙ omega arith

entries-AreFragments :
    (b z : ℕ) (w : Entry) (ps : List Entry)
    → AreFragments b (w ∷ ps)
    → AreFragments b (entries z w ps)
unfolding AreFragments
entries-AreFragments b zero w ps h = h
entries-AreFragments b (suc z) w ps h =
    subst (AreFragments b) (sym (entries-suc z w ps)) (inr refl, h)

length-entries : (z : ℕ) (w : Entry) (ps : List Entry) → length (entries z w ps) ≤ 2 + length ps
length-entries zero w ps = omega arith
length-entries (suc z) w ps = omega (arith, ap length (entries-suc z w ps))

-- Two entries for each window, and the last one may be short.
count_bound :
    (d rest left l n : ℕ)
    → l ≤ 2 + n
    → (left - min d left ≡ 0 → n ≡ 0)
    → n * d ≤ 2 * (left - min d left) + 2 * d
    → left ≤ rest
    → l * d ≤ 2 * rest + 2 * d
count_bound d rest left l n h ended count below = cases (left - min d left) refl
  where
    more : l * d ≤ (2 + n) * d
    more = mul-le-mul_right d h

    cases : (k : ℕ) → left - min d left ≡ k → l * d ≤ 2 * rest + 2 * d
    cases zero e = omega (arith, more, ap (λ (x : ℕ). x * d) (ended e))
    cases (suc k) e = omega (arith, more, count, e, below)

pub cut_loop-Cut :
    (a : List ℕ) (d fuel rest i : ℕ)
    → 0 < d
    → rest ≤ fuel
    → Cut a d rest i (cut_loop a d fuel rest i)
unfolding cut_loop total AreFragments read_window
cut_loop-Cut a d fuel zero i h b = record {
  pieces = [];
  returned = refl;
  stands = refl;
  are_fragments = tt;
  none_left = λ e. refl;
  count = omega arith;
}
cut_loop-Cut a d zero (suc rest) i h b = absurd (omega (arith, b))
cut_loop-Cut a d (suc fuel) (suc rest) i h b =
    let zeros = zero_bits a (suc rest) i in
    let left = suc rest - zeros in
    let c = min d left in
    let window : Entry = record { fragment = read_window a c (i + zeros); size = c } in
    let tail = cut_loop-Cut a d fuel (left - c) (i + zeros + c) h (omega (arith, h, b)) in
    record {
      pieces = entries zeros window tail.pieces;
      returned =
          ap (λ (o : Option (List Entry)). o >>= λ pieces. some (entries zeros window pieces))
            tail.returned;
      stands =
          total-entries zeros window tail.pieces
          ∙ ap (λ (n : ℕ). 2 ^ zeros * (read_window a c (i + zeros) + 2 ^ c * n)) tail.stands
          ∙ sym (split_bits a d (suc rest) i);
      are_fragments =
          entries-AreFragments (2 ^ d) zeros window tail.pieces
            (window_odd a d (suc rest) i h, tail.are_fragments);
      none_left = λ e. absurd (omega (arith, e));
      count =
          count_bound d (suc rest) left _ (length tail.pieces)
            (length-entries zeros window tail.pieces) tail.none_left tail.count (omega arith);
    }
