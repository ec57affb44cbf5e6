-- ===== src/MultiPrecision/Cut/Windows.antt =====
-- What mp_get_sw returns: windows as the exponentiation wants them, of the number that was cut.
use native.Mathlib.Nat.{pow-zero, pow-le-pow_right, one-le-pow, mul-le-mul_left}
use ginger_zaatar_allspice.Prelude.{
  ℕ, zero, suc, ◌+◌, ◌-◌, ◌*◌, ◌%◌, ◌^◌, ◌≤◌, ◌<◌, ◌≢◌, ◌⊎◌, inl, inr, max, Option, none, some,
  List, [], ◌∷◌, ltb, leb, ◌==◌, ◌&&◌, Bool, true, false, if◌then◌else◌, length, get_or, set,
  get_or-set_ne, ◌≡◌, refl, sym, ap, ap₂, subst, ◌∙◌, arith,
}
use ginger_zaatar_allspice.Prelude.Pow.{pow-add}
use ginger_zaatar_allspice.MultiPrecision.{value}
use ginger_zaatar_allspice.MultiPrecision.Value.{IsWords}
use ginger_zaatar_allspice.MultiPrecision.Montgomery.{◌>>=◌}
use ginger_zaatar_allspice.MultiPrecision.Power.{MpSw}
use ginger_zaatar_allspice.MultiPrecision.Power.Window.{
  exponent_from, windows_exponent, exponent, IsWindows,
}
use ginger_zaatar_allspice.MultiPrecision.Cut.{
  window_length, Entry, fragments, sizes, max_of, trim, sum_first, make_sw, mp_get_sw,
}
use ginger_zaatar_allspice.MultiPrecision.Cut.Bits.{read_window-value}
use ginger_zaatar_allspice.MultiPrecision.Cut.Pieces.{total, AreFragments, cut_loop-Cut}

-- The number that the first n entries stand for.
unfoldable total_first : List Entry → ℕ → ℕ
total_first pieces zero = 0
total_first [] (suc n) = 0
total_first (p ∷ pieces) (suc n) = p.fragment + 2 ^ p.size * total_first pieces n

sum_first-suc : (xs : List ℕ) (k : ℕ) → sum_first xs (suc k) ≡ sum_first xs k + get_or xs k 0
unfolding sum_first
sum_first-suc [] zero = refl
sum_first-suc [] (suc k) = refl
sum_first-suc (x ∷ xs) zero = omega arith
sum_first-suc (x ∷ xs) (suc k) = omega (arith, sum_first-suc xs k)

total_first-suc :
    (ps : List Entry) (k : ℕ)
    → total_first ps (suc k)
      ≡ total_first ps k + 2 ^ sum_first (sizes ps) k * get_or (fragments ps) k 0
unfolding total_first sum_first
total_first-suc [] zero = omega arith
total_first-suc [] (suc k) = omega arith
total_first-suc (p ∷ ps) zero = omega (arith, pow-zero 2)
total_first-suc (p ∷ ps) (suc k) = omega (
  arith,
  ap (λ (n : ℕ). 2 ^ p.size * n) (total_first-suc ps k),
  ap (λ (n : ℕ). n * get_or (fragments ps) k 0) (pow-add 2 p.size (sum_first (sizes ps) k)),
)

total_first-total : (ps : List Entry) → total_first ps (length ps) ≡ total ps
unfolding total_first total
total_first-total [] = refl
total_first-total (p ∷ ps) = ap (λ (n : ℕ). p.fragment + 2 ^ p.size * n) (total_first-total ps)

-- The entries that are trimmed are zero, and the last one that is left is not.
record Trimmed (ps : List Entry) (n left : ℕ) : Type 0 where
  below : left ≤ n
  same : total_first ps left ≡ total_first ps n
  last : (k : ℕ) → left ≡ suc k → get_or (fragments ps) k 0 ≢ 0

trim_step :
    (ps : List Entry) (n less b : ℕ)
    → get_or (fragments ps) n 0 ≡ b
    → Trimmed ps n less
    → Trimmed ps (suc n) (if b == 0 then less else suc n)
trim_step ps n less zero e t = record {
  below = omega (arith, t.below);
  same =
      t.same
      ∙ sym
          (total_first-suc ps n ∙ omega (arith, ap (λ (x : ℕ). 2 ^ sum_first (sizes ps) n * x) e));
  last = t.last;
}
trim_step ps n less (suc b) e t =
    subst (Trimmed ps (suc n)) (sym (ap (λ (x : Bool). if x then less else suc n) (nonzero b)))
      (record {
        below = omega arith;
        same = refl;
        last = λ k same zero. absurd (
            omega (
              arith,
              e,
              same,
              zero,
              ap (λ (i : ℕ). get_or (fragments ps) i 0) {x = n} {y = k} (omega (arith, same)),
            ));
      })
  where
    nonzero : (x : ℕ) → (suc x == 0) ≡ false
    nonzero x = ground arith

trim-Trimmed : (ps : List Entry) (n : ℕ) → Trimmed ps n (trim (fragments ps) n)
unfolding trim
trim-Trimmed ps zero = record {
  below = omega arith;
  same = refl;
  last = λ k e. absurd (omega (arith, e));
}
trim-Trimmed ps (suc n) =
    trim_step ps n (trim (fragments ps) n) (get_or (fragments ps) n 0) refl (trim-Trimmed ps n)

-- The exponent below entry k.
exponent_from-total :
    (sw : MpSw) (ps : List Entry) (k e : ℕ)
    → sw.fragment ≡ fragments ps
    → ((j : ℕ) → j < k → get_or sw.shift j 0 ≡ get_or (sizes ps) j 0)
    → exponent_from sw k e ≡ e * 2 ^ sum_first (sizes ps) k + total_first ps k
unfolding exponent_from total_first sum_first
exponent_from-total sw ps zero e h s = omega (arith, pow-zero 2)
exponent_from-total sw ps (suc k) e h s =
    exponent_from-total sw ps k (e * 2 ^ get_or sw.shift k 0 + get_or sw.fragment k 0) h
      (λ j b. s j (omega (arith, b)))
    ∙ ap₂ (λ (x y : ℕ). (e * 2 ^ x + y) * 2 ^ sum_first (sizes ps) k + total_first ps k)
        (s k (omega arith)) (ap (λ (fs : List ℕ). get_or fs k 0) h)
    ∙ omega (
      arith,
      total_first-suc ps k,
      ap (λ (n : ℕ). e * n)
          (ap (λ (n : ℕ). 2 ^ n) (sum_first-suc (sizes ps) k)
            ∙ pow-add 2 (sum_first (sizes ps) k) (get_or (sizes ps) k 0)),
    )

fragment_odd :
    (bound : ℕ) (ps : List Entry) (k : ℕ)
    → AreFragments bound ps
    → (get_or (fragments ps) k 0 % 2 ≡ 1) × (get_or (fragments ps) k 0 ≤ max_of ps)
      ⊎ (get_or (fragments ps) k 0 ≡ 0)
unfolding AreFragments max_of
fragment_odd bound [] k h = inr refl
fragment_odd bound (p ∷ ps) zero (inl (odd, b), hs) = inl (odd, omega arith)
fragment_odd bound (p ∷ ps) zero (inr e, hs) = inr e
fragment_odd bound (p ∷ ps) (suc k) (h, hs) = elim (fragment_odd bound ps k hs) [
  | inl (odd, b) ↦ inl (odd, omega (arith, b))
  | inr e ↦ inr e
]

max_of_lt : (bound : ℕ) (ps : List Entry) → 0 < bound → AreFragments bound ps → max_of ps < bound
unfolding AreFragments max_of
max_of_lt bound [] h hs = h
max_of_lt bound (p ∷ ps) h (inl (odd, b), hs) = omega (arith, b, max_of_lt bound ps h hs)
max_of_lt bound (p ∷ ps) h (inr e, hs) = omega (arith, e, h, max_of_lt bound ps h hs)

either_max :
    (a b : ℕ) → (a % 2 ≡ 1) ⊎ (a ≡ 0) → (b % 2 ≡ 1) ⊎ (b ≡ 0) → (max a b % 2 ≡ 1) ⊎ (max a b ≡ 0)
either_max a b h k = ground arith

max_of_odd :
    (bound : ℕ) (ps : List Entry) → AreFragments bound ps → (max_of ps % 2 ≡ 1) ⊎ (max_of ps ≡ 0)
unfolding AreFragments max_of
max_of_odd bound [] hs = inr refl
max_of_odd bound (p ∷ ps) (inl (odd, b), hs) =
    either_max p.fragment (max_of ps) (inl odd) (max_of_odd bound ps hs)
max_of_odd bound (p ∷ ps) (inr e, hs) =
    either_max p.fragment (max_of ps) (inr e) (max_of_odd bound ps hs)

-- The struct that a number was cut into.
pub record IsCut (e : ℕ) (result : Option MpSw) : Type 0 where
  pub sw : MpSw
  pub returned : result ≡ some sw
  pub windows : IsWindows sw
  pub same : exponent sw ≡ e

make_sw-IsCut :
    (num_bits bound : ℕ) (ps : List Entry)
    → 0 < bound
    → bound ≤ 32
    → AreFragments bound ps
    → length ps ≤ 512
    → 0 < total ps
    → IsCut (total ps) (make_sw num_bits ps)
unfolding make_sw total_first exponent windows_exponent
make_sw-IsCut num_bits bound ps hb h32 hs hn positive =
    finish (trim (fragments ps) (length ps)) (trim-Trimmed ps (length ps))
  where
    built : ℕ → MpSw
    built n = record {
      fragment = fragments ps;
      shift = set (sizes ps) (n - 1) (num_bits - sum_first (sizes ps) (n - 1));
      num_fragments = n;
      max_fragment = max_of ps;
    }

    result : ℕ → Option MpSw
    result n =
        if leb (length ps) 512 && ltb (max_of ps) 32 && max_of ps % 2 == 1 && ltb 0 n
        then some (built n)
        else none

    small : leb (length ps) 512 ≡ true
    small = ground (arith, hn)

    below : ltb (max_of ps) 32 ≡ true
    below = ground (arith, max_of_lt bound ps hb hs, h32)

    odd : (n : ℕ) → Trimmed ps (length ps) (suc n) → (max_of ps % 2 == 1) ≡ true
    odd n t = elim (max_of_odd bound ps hs) [
      | inl e ↦ ground (arith, e)
      | inr e ↦ elim (fragment_odd bound ps n hs) [
        | inl (one, b) ↦ absurd (omega (arith, one, b, e))
        | inr absent ↦ absurd (t.last n refl absent)
      ]
    ]

    present : (n : ℕ) → ltb 0 (suc n) ≡ true
    present n = ground arith

    nonzero : (n : ℕ) → (suc n == 0) ≡ false
    nonzero n = ground arith

    less : (n : ℕ) → n ≡ suc n - 1
    less n = omega arith

    finish : (n : ℕ) → Trimmed ps (length ps) n → IsCut (total ps) (result n)
    finish zero t = absurd (omega (arith, positive, t.same, total_first-total ps))
    finish (suc n) t = record {
      sw = built (suc n);
      returned = rw (small, below, odd n t, present n) refl;
      windows = record {
        some_fragment = omega arith;
        room = omega (arith, t.below, hn);
        greatest = omega (arith, max_of_lt bound ps hb hs, h32);
        odd = λ k b. fragment_odd bound ps k hs;
        top = λ e. t.last n refl (ap (λ (k : ℕ). get_or (fragments ps) k 0) (less n) ∙ e);
      };
      same =
          ap (λ (b : Bool). if b then 0 else windows_exponent (built (suc n))) (nonzero n)
          ∙ ap (λ (k : ℕ). exponent_from (built (suc n)) k (get_or (fragments ps) k 0))
              (sym (less n))
          ∙ exponent_from-total (built (suc n)) ps n (get_or (fragments ps) n 0) refl (λ j b.
            get_or-set_ne (sizes ps) (suc n - 1) j _ 0 (λ e. absurd (omega (arith, e, b))))
          ∙ omega (arith, total_first-suc ps n, t.same, total_first-total ps);
    }

window_length_short : (n : ℕ) → n < 768 → (4 ≤ window_length n) × (window_length n ≤ 5)
unfolding window_length
window_length_short n h = ground arith

-- The loop has fewer fragments than there is room for.
few_pieces : (d n bits : ℕ) → 4 ≤ d → d ≤ 5 → bits < 768 → n * d ≤ 2 * bits + 2 * d → n ≤ 512
few_pieces d n bits h4 h5 b h = omega (arith, mul-le-mul_left n h4, h5, b, h)

-- For a number of fewer than 12 words that is not 0, mp_get_sw returns a struct of windows as the
-- exponentiation wants them, whose exponent is the number.
pub mp_get_sw-IsCut :
    (a : List ℕ)
    → IsWords a
    → length a < 12
    → 0 < value a
    → IsCut (value a) (mp_get_sw a (length a))
unfolding mp_get_sw
mp_get_sw-IsCut a words short positive =
    let bits = length a * 64 in
    let d = window_length bits in
    let (low, high) = window_length_short bits (omega (arith, short)) in
    let cut = cut_loop-Cut a d bits bits 0 (omega (arith, low)) (omega arith) in
    let same : total cut.pieces ≡ value a = cut.stands ∙ read_window-value a words in
    let made =
      make_sw-IsCut bits (2 ^ d) cut.pieces (one-le-pow d 2 (omega arith))
        (pow-le-pow_right {n = 2} (omega arith) {i = d} {j = 5} high) cut.are_fragments
        (few_pieces d (length cut.pieces) bits low high (omega (arith, short)) cut.count)
        (omega (arith, same, positive)) in
    record {
      sw = made.sw;
      returned = ap (λ (o : Option (List Entry)). o >>= make_sw bits) cut.returned ∙ made.returned;
      windows = made.windows;
      same = made.same ∙ same;
    }
