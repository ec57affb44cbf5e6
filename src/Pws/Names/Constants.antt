-- ===== src/Pws/Names/Constants.antt =====
-- addConstant (code/pepper/cmtgkr/circuit/pws_circuit_parser.cpp): the same text is the same constant.
use ginger_zaatar_allspice.Prelude.{
  ℕ, zero, suc, ◌≡◌, refl, sym, ◌∙◌, ap, List, [], ◌∷◌, ◌++◌, none, some, length, get_elem?, arith,
  inl, inr, Option-cases,
}
use ginger_zaatar_allspice.Pws.Primitives.{Text, constant, unbound, CConst}
use ginger_zaatar_allspice.Pws.State.{Parser, find_text, done}
use ginger_zaatar_allspice.Pws.Builder.{add_constant}
use ginger_zaatar_allspice.Pws.Names.{find_text-append_new, find_text-append_cases}

-- Every text of the map has its constant.
pub record Indexed (s : Parser) : Type 0 where
  pub indexed :
      (t : Text) (i : ℕ)
      → find_text t s.const_map ≡ some i
      → (c : CConst) × (get_elem? s.constants i ≡ some c) × (c.value ≡ t)

get_elem?-append_old {ℓ} :
    {A : Type ℓ} (xs : List A) (i : ℕ) (a b : A)
    → get_elem? xs i ≡ some b
    → get_elem? (xs ++ a ∷ []) i ≡ some b
get_elem?-append_old [] i a b h = absurd (grind arith)
get_elem?-append_old (x ∷ xs) zero a b h = h
get_elem?-append_old (x ∷ xs) (suc i) a b h = get_elem?-append_old xs i a b h

get_elem?-append_new {ℓ} :
    {A : Type ℓ} (xs : List A) (a : A) → get_elem? (xs ++ a ∷ []) (length xs) ≡ some a
get_elem?-append_new [] a = refl
get_elem?-append_new (x ∷ xs) a = get_elem?-append_new xs a

-- What addConstant has done: it returned the index of a constant with the text, kept the constants
-- that there were and the invariant of the map, and would return the same again.
pub record ConstantAdded (t : Text) (s : Parser) : Type 0 where
  pub i : ℕ
  pub after : Parser
  pub c : CConst
  pub returns : add_constant t s ≡ done (record { p_type = constant; idx = i }) after
  pub there : get_elem? after.constants i ≡ some c
  pub text : c.value ≡ t
  pub kept :
      (j : ℕ) (d : CConst) → get_elem? s.constants j ≡ some d → get_elem? after.constants j ≡ some d
  pub indexed_after : Indexed after
  pub again : add_constant t after ≡ done (record { p_type = constant; idx = i }) after

add_constant_found :
    (t : Text) (s : Parser) (i : ℕ)
    → find_text t s.const_map ≡ some i
    → add_constant t s ≡ done (record { p_type = constant; idx = i }) s
unfolding add_constant
add_constant_found t s i h = rw (h, add_constant) refl

abbrev with_constant : Text → Parser → Parser
with_constant t s = record s {
  constants = s.constants ++ record { value = t; name = length s.constants; prim = unbound } ∷ [];
  const_map = s.const_map ++ (t, length s.constants) ∷ [];
}

add_constant_new :
    (t : Text) (s : Parser)
    → find_text t s.const_map ≡ none
    → add_constant t s
      ≡ done (record { p_type = constant; idx = length s.constants }) (with_constant t s)
unfolding add_constant
add_constant_new t s h = rw (h, add_constant) refl

with_constant-Indexed : (t : Text) (s : Parser) → Indexed s → Indexed (with_constant t s)
with_constant-Indexed t s inv = record {
  indexed = λ u i h. elim (find_text-append_cases u t i (length s.constants) s.const_map h) [
    | inl old ↦
        let (c, there, text) = inv.indexed u i old in
        (c, get_elem?-append_old s.constants i _ c there, text)
    | inr (same, new) ↦ (
      record { value = t; name = length s.constants; prim = unbound },
      ap
            (λ (k : ℕ).
              get_elem?
                (s.constants
                  ++ record { value = t; name = length s.constants; prim = unbound } ∷ [])
                k)
            (sym new)
          ∙ get_elem?-append_new s.constants _,
      same,
    )
  ];
}

-- In a parser whose map of constants leads to constants with their texts, addConstant returns the index
-- of a constant with the given text and keeps the map so; the constants that there were keep their
-- places, and adding the same text once more returns the same constant and changes nothing.
pub add_constant-ConstantAdded : (t : Text) (s : Parser) → Indexed s → ConstantAdded t s
add_constant-ConstantAdded t s inv = elim (Option-cases (find_text t s.const_map)) [
  | inl new ↦ record {
    i = length s.constants;
    after = with_constant t s;
    c = record { value = t; name = length s.constants; prim = unbound };
    returns = add_constant_new t s new;
    there = get_elem?-append_new s.constants _;
    text = refl;
    kept = λ j d h. get_elem?-append_old s.constants j _ d h;
    indexed_after = with_constant-Indexed t s inv;
    again =
        add_constant_found t (with_constant t s) (length s.constants)
          (find_text-append_new t (length s.constants) s.const_map new);
  }
  | inr (i, old) ↦
      let (c, there, text) = inv.indexed t i old in
      record {
        i = i;
        after = s;
        c = c;
        returns = add_constant_found t s i old;
        there = there;
        text = text;
        kept = λ j d h. h;
        indexed_after = inv;
        again = add_constant_found t s i old;
      }
]
