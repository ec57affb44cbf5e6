-- ===== src/Magic/Constraints.antt =====
-- The constraints that parseLessThanInt (code/pepper/cmtgkr/circuit/pws_circuit_parser.cpp) puts on
-- the gates of a comparison, on the values that LessThanIntOperation gives them.
use ginger_zaatar_allspice.Prelude.{
  ℕ, zero, suc, ◌+◌, ◌-◌, ◌^◌, ◌≤◌, ◌≡◌, refl, sym, ◌∙◌, ap, true, false, List, [], ◌∷◌, length,
  arith, Bool-cases, inl, inr, subst,
}
use ginger_zaatar_allspice.Prelude.Int.{
  ℤ, pos, negsuc, pos_part, neg_part, ◌+ℤ◌, ◌-ℤ◌, ◌*ℤ◌, ltb_ℤ, int_laws, *ℤ-zero, zero-*ℤ,
}
use ginger_zaatar_allspice.Gmp.{Gmp, is_zero}
use ginger_zaatar_allspice.Pws.Primitives.{GatePosition}
use ginger_zaatar_allspice.Magic.{
  GmpBits, Values, get_z, set_val, bit_value, bits_loop, compute_bits, compute_less_than_int,
}
use ginger_zaatar_allspice.Magic.NotEqual.{get_z-set_val_self}
use ginger_zaatar_allspice.Magic.LessThan.{Distinct, total, bits_loop_other}
use ginger_zaatar_allspice.Magic.Comparison.{
  Layout, ind, true_value, operands_after, compute_less_than_int-Flags, compute_less_than_int-total,
}

-- Ni * (Ni - 2^i) = 0, for the gates of the bits from bit i on.
abbrev pub AreBits : ℕ → List GatePosition → Values → Type 0
AreBits i [] values = Unit
AreBits i (p ∷ ps) values =
    (get_z values p *ℤ (get_z values p -ℤ pos (2 ^ i)) ≡ pos 0) × AreBits (suc i) ps values

-- The constraints on the flags, with the sum of the bits less 2^N.
pub record IsSatisfied (lt eq gt sum a c : ℤ) (n : ℕ) : Type 0 where
  pub one_flag : lt +ℤ eq +ℤ gt ≡ pos 1
  pub lt_flag : lt *ℤ (lt -ℤ pos 1) ≡ pos 0
  pub eq_flag : eq *ℤ (eq -ℤ pos 1) ≡ pos 0
  pub gt_flag : gt *ℤ (gt -ℤ pos 1) ≡ pos 0
  pub less : lt *ℤ (sum -ℤ pos (2 ^ n) +ℤ (c -ℤ a)) ≡ pos 0
  pub greater : gt *ℤ (sum -ℤ pos (2 ^ n) +ℤ (a -ℤ c)) ≡ pos 0
  pub equal : eq *ℤ (a -ℤ c) ≡ pos 0

-- The order of two numbers.
abbrev lt_of : ℤ → ℤ
lt_of d = pos (ind (ltb_ℤ d (pos 0)))

abbrev eq_of : ℤ → ℤ
eq_of d = pos (ind (is_zero d))

abbrev gt_of : ℤ → ℤ
gt_of d = pos (ind (ltb_ℤ (pos 0) d))

one_of : (z : ℤ) → z ≡ pos 0 → pos 1 *ℤ z ≡ pos 0
one_of z h = ap (λ (x : ℤ). pos 1 *ℤ x) h ∙ *ℤ-zero (pos 1)

offset_zero :
    (p k : ℕ) (e : ℤ) → suc k ≤ p → e ≡ pos (suc k) → pos (p - suc k) -ℤ pos p +ℤ e ≡ pos 0
offset_zero p k e h r = rw r (omega int_laws)

flip : (a c : ℤ) (k : ℕ) → a -ℤ c ≡ negsuc k → c -ℤ a ≡ pos (suc k)
flip a c k h = omega (int_laws, ap pos_part h, ap neg_part h)

minus_self : (a : ℤ) → a -ℤ a ≡ pos 0
minus_self a = omega int_laws

set_flag : pos 1 *ℤ (pos 1 -ℤ pos 1) ≡ pos 0
set_flag = omega int_laws

-- By the sign of the difference.
satisfied :
    (sum a c d : ℤ) (n : ℕ)
    → a -ℤ c ≡ d
    → pos_part d + neg_part d ≤ 2 ^ n
    → ((k : ℕ) → pos_part d + neg_part d ≡ suc k → sum ≡ pos (2 ^ n - suc k))
    → IsSatisfied (lt_of d) (eq_of d) (gt_of d) sum a c n
satisfied sum a c (pos zero) n e h bits = record {
  one_flag = omega int_laws;
  lt_flag = zero-*ℤ _;
  eq_flag = set_flag;
  gt_flag = zero-*ℤ _;
  less = zero-*ℤ _;
  greater = zero-*ℤ _;
  equal = one_of _ e;
}
satisfied sum a c (pos (suc k)) n e h bits =
    let down : ltb_ℤ (pos (suc k)) (pos 0) ≡ false = ground arith in
    let up : ltb_ℤ (pos 0) (pos (suc k)) ≡ true = ground arith in
    rw (down, up, bits k (omega arith))
      (record {
        one_flag = omega int_laws;
        lt_flag = zero-*ℤ _;
        eq_flag = zero-*ℤ _;
        gt_flag = set_flag;
        less = zero-*ℤ _;
        greater = one_of _ (offset_zero (2 ^ n) k (a -ℤ c) (omega (arith, h)) e);
        equal = zero-*ℤ _;
      })
satisfied sum a c (negsuc k) n e h bits =
    let down : ltb_ℤ (negsuc k) (pos 0) ≡ true = ground arith in
    let up : ltb_ℤ (pos 0) (negsuc k) ≡ false = ground arith in
    rw (down, up, bits k (omega arith))
      (record {
        one_flag = omega int_laws;
        lt_flag = set_flag;
        eq_flag = zero-*ℤ _;
        gt_flag = zero-*ℤ _;
        less = one_of _ (offset_zero (2 ^ n) k (c -ℤ a) (omega (arith, h)) (flip a c k e));
        greater = zero-*ℤ _;
        equal = zero-*ℤ _;
      })

module _ (g : Gmp) (b : GmpBits) where
  bit_value_bit :
      (tmp : ℤ) (i : ℕ)
      → bit_value g b false tmp i *ℤ (bit_value g b false tmp i -ℤ pos (2 ^ i)) ≡ pos 0
  unfolding bit_value
  bit_value_bit tmp i = elim (Bool-cases (b.mpz_tstbit tmp i)) [
    | inl one ↦
        rw (one, b.mpz_setbit_lem i)
          (ap (λ (x : ℤ). pos (2 ^ i) *ℤ x) (minus_self (pos (2 ^ i))) ∙ *ℤ-zero (pos (2 ^ i)))
    | inr zero_bit ↦ rw zero_bit (zero-*ℤ _)
  ]

  bits_loop-AreBits :
      (tmp : ℤ) (i : ℕ) (ps : List GatePosition) (values : Values)
      → Distinct ps
      → AreBits i ps (bits_loop g b false tmp i ps values)
  unfolding bits_loop
  bits_loop-AreBits tmp i [] values h = tt
  bits_loop-AreBits tmp i (p ∷ ps) values (h, hs) =
      let v : ℤ = bit_value g b false tmp i in
      (
        subst (λ (x : ℤ). x *ℤ (x -ℤ pos (2 ^ i)) ≡ pos 0)
            (sym (
              bits_loop_other g b false tmp (suc i) ps (set_val values p v) p h
              ∙ get_z-set_val_self values p v))
            (bit_value_bit tmp i),
        bits_loop-AreBits tmp (suc i) ps (set_val values p v) hs,
      )

module _ (g : Gmp) (b : GmpBits) (m0 m1 m2 : GatePosition) (ns : List GatePosition)
    (x1 x2 : GatePosition) (prime : ℤ) (values : Values) (layout : Layout m0 m1 m2 ns x1 x2) where
  abbrev end : Values
  end = compute_less_than_int g b m0 m1 m2 ns x1 x2 prime values

  abbrev a : ℤ
  a = true_value g b m0 m1 m2 ns x1 x2 prime values layout x1

  abbrev c : ℤ
  c = true_value g b m0 m1 m2 ns x1 x2 prime values layout x2

  bits : AreBits 0 ns end
  unfolding compute_less_than_int compute_bits
  bits = bits_loop-AreBits g b _ 0 ns _ layout.distinct

  flags :
      pos_part (a -ℤ c) + neg_part (a -ℤ c) ≤ 2 ^ length ns
      → IsSatisfied
          (get_z end m0)
          (get_z end m1)
          (get_z end m2)
          (total end ns)
          (get_z end x1)
          (get_z end x2)
          (length ns)
  flags h =
      let (f0, f1, f2) = compute_less_than_int-Flags g b m0 m1 m2 ns x1 x2 prime values layout in
      let (o1, o2) = operands_after g b m0 m1 m2 ns x1 x2 prime values layout in
      rw (f0, f1, f2, o1, o2)
        (satisfied (total end ns) a c (a -ℤ c) (length ns) refl h (λ k e.
          compute_less_than_int-total g b m0 m1 m2 ns x1 x2 prime values layout k e
            (omega (arith, e, h))))

  -- After a comparison whose gates are different ones, with operands that differ by at most 2^N in
  -- the signed range, equal ones included, the values of the gates satisfy the constraints: Ni times
  -- Ni - 2^i is 0 for each of the N bits, each flag times the flag less 1 is 0, the three flags add
  -- up to 1, and Mlt times X2 - X1 + N0 + N1 + … - 2^N, Mgt times X1 - X2 + N0 + N1 + … - 2^N and Meq
  -- times X1 - X2 are 0.
  pub compute_less_than_int-IsSatisfied :
      pos_part (a -ℤ c) + neg_part (a -ℤ c) ≤ 2 ^ length ns
      → AreBits 0 ns end
        × IsSatisfied
            (get_z end m0)
            (get_z end m1)
            (get_z end m2)
            (total end ns)
            (get_z end x1)
            (get_z end x2)
            (length ns)
  compute_less_than_int-IsSatisfied h = (bits, flags h)
