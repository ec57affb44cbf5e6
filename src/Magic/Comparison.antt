-- ===== src/Magic/Comparison.antt =====
-- LessThanIntOperation (code/pepper/cmtgkr/circuit/magic_var_operation.cpp): the flags and the bits
-- that the constraints of a comparison ask for.
use ginger_zaatar_allspice.Prelude.{
  ℕ, zero, suc, ◌+◌, ◌-◌, ◌^◌, ◌≤◌, ◌≡◌, refl, sym, ◌∙◌, ap, ap₂, Bool, true, false, List, [], ◌∷◌,
  if◌then◌else◌, length, arith,
}
use ginger_zaatar_allspice.Prelude.Int.{ℤ, pos, negsuc, pos_part, neg_part, ◌-ℤ◌, ltb_ℤ, int_laws}
use ginger_zaatar_allspice.Gmp.{Gmp, sign, is_zero}
use ginger_zaatar_allspice.Field.{to_true_number}
use ginger_zaatar_allspice.Pws.Primitives.{GatePosition}
use ginger_zaatar_allspice.Magic.{
  GmpBits, Values, get_z, set_val, compute_ms, compute_bits, compute_less_than_int,
}
use ginger_zaatar_allspice.Gmp.Compare.{cmp_zero}
use ginger_zaatar_allspice.Magic.NotEqual.{get_z-set_val_self}
use ginger_zaatar_allspice.Magic.LessThan.{
  Apart, Distinct, total, set_val_other, bits_loop_other, compute_bits-total,
}

-- The gates of a comparison are different ones.
pub record Layout (m0 m1 m2 : GatePosition) (ns : List GatePosition) (x1 x2 : GatePosition)
    : Type 0 where
  pub apart_m0 : Apart m0 (m1 ∷ m2 ∷ ns)
  pub apart_m1 : Apart m1 (m2 ∷ ns)
  pub apart_m2 : Apart m2 ns
  pub apart_x1 : Apart x1 (x2 ∷ m0 ∷ m1 ∷ m2 ∷ ns)
  pub apart_x2 : Apart x2 (x1 ∷ m0 ∷ m1 ∷ m2 ∷ ns)
  pub distinct : Distinct ns

-- The values of the three flags.
abbrev pub Flags : GatePosition → GatePosition → GatePosition → Values → ℕ → ℕ → ℕ → Type 0
Flags m0 m1 m2 values v0 v1 v2 =
    (get_z values m0 ≡ pos v0) × (get_z values m1 ≡ pos v1) × (get_z values m2 ≡ pos v2)

abbrev pub ind : Bool → ℕ
ind b = if b then 1 else 0

ltb-sign : (s : ℤ) → ltb_ℤ (sign s) (pos 0) ≡ ltb_ℤ s (pos 0)
unfolding sign
ltb-sign (pos zero) = refl
ltb-sign (pos (suc n)) = ground arith
ltb-sign (negsuc n) = ground arith

cmp_negative : (g : Gmp) (a c : ℤ) → ltb_ℤ (g.mpz_cmp a c) (pos 0) ≡ ltb_ℤ (a -ℤ c) (pos 0)
cmp_negative g a c =
    sym (ltb-sign (g.mpz_cmp a c))
    ∙ ap (λ (x : ℤ). ltb_ℤ x (pos 0)) (g.mpz_cmp_lem a c)
    ∙ ltb-sign (a -ℤ c)

ltb_sign : (s : ℤ) → ltb_ℤ (pos 0) (sign s) ≡ ltb_ℤ (pos 0) s
unfolding sign
ltb_sign (pos zero) = refl
ltb_sign (pos (suc n)) = ground arith
ltb_sign (negsuc n) = ground arith

cmp_positive : (g : Gmp) (a c : ℤ) → ltb_ℤ (pos 0) (g.mpz_cmp a c) ≡ ltb_ℤ (pos 0) (a -ℤ c)
cmp_positive g a c =
    sym (ltb_sign (g.mpz_cmp a c))
    ∙ ap (λ (x : ℤ). ltb_ℤ (pos 0) x) (g.mpz_cmp_lem a c)
    ∙ ltb_sign (a -ℤ c)

opposite_negative :
    (d e : ℤ) (k : ℕ)
    → pos_part d + neg_part d ≡ suc k
    → pos_part d + pos_part e ≡ neg_part d + neg_part e
    → (if ltb_ℤ d (pos 0) then d else e) ≡ negsuc k
opposite_negative (pos n) e k h r =
    let up : ltb_ℤ (pos n) (pos 0) ≡ false = ground arith in rw up (omega int_laws)
opposite_negative (negsuc n) e k h r =
    let down : ltb_ℤ (negsuc n) (pos 0) ≡ true = ground arith in rw down (omega int_laws)

-- The difference whose bits are taken is the negative one.
negative_difference :
    (a c : ℤ) (k : ℕ)
    → pos_part (a -ℤ c) + neg_part (a -ℤ c) ≡ suc k
    → (if ltb_ℤ (a -ℤ c) (pos 0) then a -ℤ c else c -ℤ a) ≡ negsuc k
negative_difference a c k h = opposite_negative (a -ℤ c) (c -ℤ a) k h (omega int_laws)

module _ (m0 m1 m2 : GatePosition) (values : Values) where
  abbrev set3 : ℕ → ℕ → ℕ → Values
  set3 v0 v1 v2 = set_val (set_val (set_val values m0 (pos v0)) m1 (pos v1)) m2 (pos v2)

  set3-Flags :
      (v0 v1 v2 : ℕ)
      → Apart m0 (m1 ∷ m2 ∷ [])
      → Apart m1 (m2 ∷ [])
      → Flags m0 m1 m2 (set3 v0 v1 v2) v0 v1 v2
  set3-Flags v0 v1 v2 (a, (a', _)) (a'', _) = (
    set_val_other (set_val (set_val values m0 (pos v0)) m1 (pos v1)) m2 m0 (pos v2) a'
        ∙ set_val_other (set_val values m0 (pos v0)) m1 m0 (pos v1) a
        ∙ get_z-set_val_self values m0 (pos v0),
    set_val_other (set_val (set_val values m0 (pos v0)) m1 (pos v1)) m2 m1 (pos v2) a''
        ∙ get_z-set_val_self (set_val values m0 (pos v0)) m1 (pos v1),
    get_z-set_val_self (set_val (set_val values m0 (pos v0)) m1 (pos v1)) m2 (pos v2),
  )

  set3_other :
      (v0 v1 v2 : ℕ) (p : GatePosition)
      → Apart p (m0 ∷ m1 ∷ m2 ∷ [])
      → get_z (set3 v0 v1 v2) p ≡ get_z values p
  set3_other v0 v1 v2 p (a, (a', (a'', _))) =
      set_val_other (set_val (set_val values m0 (pos v0)) m1 (pos v1)) m2 p (pos v2) a''
      ∙ set_val_other (set_val values m0 (pos v0)) m1 p (pos v1) a'
      ∙ set_val_other values m0 p (pos v0) a

  -- computeMs writes three numbers, which are those of the sign.
  compute_ms_lem :
      (sgn : ℤ)
      → compute_ms m0 m1 m2 sgn values
        ≡ set3 (ind (ltb_ℤ sgn (pos 0))) (ind (is_zero sgn)) (ind (ltb_ℤ (pos 0) sgn))
  unfolding compute_ms
  compute_ms_lem (pos zero) = refl
  compute_ms_lem (pos (suc n)) =
      let up : ltb_ℤ (pos 0) (pos (suc n)) ≡ true = ground arith in
      let down : ltb_ℤ (pos (suc n)) (pos 0) ≡ false = ground arith in rw (up, down) refl
  compute_ms_lem (negsuc n) =
      let up : ltb_ℤ (pos 0) (negsuc n) ≡ false = ground arith in
      let down : ltb_ℤ (negsuc n) (pos 0) ≡ true = ground arith in rw (up, down) refl

-- A gate that is none of four is none of the first three.
Apart-flags :
    (p m0 m1 m2 : GatePosition) (ns : List GatePosition)
    → Apart p (m0 ∷ m1 ∷ m2 ∷ ns)
    → Apart p (m0 ∷ m1 ∷ m2 ∷ [])
Apart-flags p m0 m1 m2 ns (a, (b, (c, _))) = (a, (b, (c, tt)))

module _ (g : Gmp) (b : GmpBits) (m0 m1 m2 : GatePosition) (ns : List GatePosition)
    (x1 x2 : GatePosition) (prime : ℤ) (values : Values) (layout : Layout m0 m1 m2 ns x1 x2) where
  -- An operand in the signed range about 0.
  abbrev pub true_value : GatePosition → ℤ
  true_value x = to_true_number g (get_z values x) (g.mpz_tdiv_q_2exp prime 1) prime

  abbrev pub after : Values
  after = compute_less_than_int g b m0 m1 m2 ns x1 x2 prime values

  abbrev operands : Values
  operands = set_val (set_val values x1 (true_value x1)) x2 (
      to_true_number g (get_z (set_val values x1 (true_value x1)) x2) (g.mpz_tdiv_q_2exp prime 1)
        prime)

  operand_x1 : get_z operands x1 ≡ true_value x1
  operand_x1 =
      set_val_other (set_val values x1 (true_value x1)) x2 x1 _ layout.apart_x1.0
      ∙ get_z-set_val_self values x1 (true_value x1)

  operand_x2 : get_z operands x2 ≡ true_value x2
  operand_x2 =
      get_z-set_val_self (set_val values x1 (true_value x1)) x2 _
      ∙ ap (λ (v : ℤ). to_true_number g v (g.mpz_tdiv_q_2exp prime 1) prime)
          (set_val_other values x1 x2 (true_value x1) layout.apart_x2.0)

  abbrev sgn : ℤ
  sgn = g.mpz_cmp (get_z operands x1) (get_z operands x2)

  abbrev flagged : Values
  flagged = compute_ms m0 m1 m2 sgn operands

  flagged_other :
      (p : GatePosition) → Apart p (m0 ∷ m1 ∷ m2 ∷ []) → get_z flagged p ≡ get_z operands p
  flagged_other p h =
      ap (λ (v : Values). get_z v p) (compute_ms_lem m0 m1 m2 operands sgn)
      ∙ set3_other m0 m1 m2 operands _ _ _ p h

  -- After the operation of a comparison the gates of the operands hold them in the signed range.
  pub operands_after : (get_z after x1 ≡ true_value x1) × (get_z after x2 ≡ true_value x2)
  unfolding compute_less_than_int compute_bits
  operands_after = (
    bits_loop_other g b false _ 0 ns flagged x1 layout.apart_x1.1.1.1.1
        ∙ flagged_other x1 (Apart-flags x1 m0 m1 m2 ns layout.apart_x1.1)
        ∙ operand_x1,
    bits_loop_other g b false _ 0 ns flagged x2 layout.apart_x2.1.1.1.1
        ∙ flagged_other x2 (Apart-flags x2 m0 m1 m2 ns layout.apart_x2.1)
        ∙ operand_x2,
  )

  difference : get_z operands x1 -ℤ get_z operands x2 ≡ true_value x1 -ℤ true_value x2
  difference = ap₂ ◌-ℤ◌ operand_x1 operand_x2

  -- After a comparison whose gates are different ones, the three flags hold 1 or 0: the first is 1
  -- if the first operand is below the second in the signed range, the second if they are equal, the
  -- third if it is above.
  pub compute_less_than_int-Flags :
      Flags m0 m1 m2 after
        (ind (ltb_ℤ (true_value x1 -ℤ true_value x2) (pos 0)))
        (ind (is_zero (true_value x1 -ℤ true_value x2)))
        (ind (ltb_ℤ (pos 0) (true_value x1 -ℤ true_value x2)))
  unfolding compute_less_than_int compute_bits
  compute_less_than_int-Flags =
      let (f0, f1, f2) =
        set3-Flags m0 m1 m2 operands (ind (ltb_ℤ sgn (pos 0))) (ind (is_zero sgn))
          (ind (ltb_ℤ (pos 0) sgn)) (layout.apart_m0.0, (layout.apart_m0.1.0, tt))
          (layout.apart_m1.0, tt) in
      let written = compute_ms_lem m0 m1 m2 operands sgn in
      (
        bits_loop_other g b false _ 0 ns flagged m0 layout.apart_m0.1.1
            ∙ ap (λ (v : Values). get_z v m0) written
            ∙ f0
            ∙ ap (λ (x : Bool). pos (ind x))
                (cmp_negative g _ _ ∙ ap (λ (d : ℤ). ltb_ℤ d (pos 0)) difference),
        bits_loop_other g b false _ 0 ns flagged m1 layout.apart_m1.1
            ∙ ap (λ (v : Values). get_z v m1) written
            ∙ f1
            ∙ ap (λ (x : Bool). pos (ind x)) (cmp_zero g _ _ ∙ ap is_zero difference),
        bits_loop_other g b false _ 0 ns flagged m2 layout.apart_m2
            ∙ ap (λ (v : Values). get_z v m2) written
            ∙ f2
            ∙ ap (λ (x : Bool). pos (ind x))
                (cmp_positive g _ _ ∙ ap (λ (d : ℤ). ltb_ℤ (pos 0) d) difference),
      )

  flagged_difference :
      (k : ℕ)
      → pos_part (true_value x1 -ℤ true_value x2) + neg_part (true_value x1 -ℤ true_value x2)
        ≡ suc k
      → (if ltb_ℤ sgn (pos 0)
          then g.mpz_sub (get_z flagged x1) (get_z flagged x2)
          else g.mpz_sub (get_z flagged x2) (get_z flagged x1))
        ≡ negsuc k
  flagged_difference k h =
      rw
        (
          flagged_other x1 (Apart-flags x1 m0 m1 m2 ns layout.apart_x1.1),
          flagged_other x2 (Apart-flags x2 m0 m1 m2 ns layout.apart_x2.1),
          cmp_negative g (get_z operands x1) (get_z operands x2),
          g.mpz_sub_lem (get_z operands x1) (get_z operands x2),
          g.mpz_sub_lem (get_z operands x2) (get_z operands x1),
          operand_x1,
          operand_x2,
        )
        (negative_difference (true_value x1) (true_value x2) k h)

  -- After a comparison whose gates are different ones, with operands that differ by k + 1 in the
  -- signed range, the values of its N bit gates add up to 2^N - (k + 1), where k + 1 is at most
  -- 2^N.
  pub compute_less_than_int-total :
      (k : ℕ)
      → pos_part (true_value x1 -ℤ true_value x2) + neg_part (true_value x1 -ℤ true_value x2)
        ≡ suc k
      → suc k ≤ 2 ^ length ns
      → total after ns ≡ pos (2 ^ length ns - suc k)
  unfolding compute_less_than_int
  compute_less_than_int-total k h fits =
      ap (λ (d : ℤ). total (compute_bits g b ns d false flagged) ns) (flagged_difference k h)
      ∙ compute_bits-total g b k ns flagged fits layout.distinct
