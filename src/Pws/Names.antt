-- ===== src/Pws/Names.antt =====
-- The variables and the constants that a worksheet names: what addVariable and addConstant
-- (code/pepper/cmtgkr/circuit/pws_circuit_parser.cpp) keep in the parser's tables.
pub mod Constants
pub mod Variables
use ginger_zaatar_allspice.Prelude.{
  ℕ, zero, suc, ◌<◌, ◌≡◌, ◌≢◌, refl, sym, ◌∙◌, ap, ap₂, Bool, true, false, ◌&&◌, List, [], ◌∷◌,
  ◌++◌, Option, none, some, ltb, ◌==◌, if◌then◌else◌, length, get_elem?, ◌⊎◌, arith, inl, inr,
  Bool-cases, Option-cases, ℕ_discrete,
}
use ginger_zaatar_allspice.Pws.Primitives.{
  Text, eq_text, constant, intermediate, input_output, Primitive, is_input_output, CPrimitive,
  unbound, CConst, VarType, CVar, var_to_primitive,
}
use ginger_zaatar_allspice.Pws.State.{
  Parser, find, insert, find_text, Outcome, done, read_primitive,
}
use ginger_zaatar_allspice.Pws.Builder.{add_variable, add_constant}

module _ {ℓ} {V : Type ℓ} where
  pub find-insert_self : (k : ℕ) (v : V) (m : List (ℕ × V)) → find k (insert k v m) ≡ some v
  unfolding find insert
  find-insert_self k v [] = ground arith
  find-insert_self k v ((j, w) ∷ m) = ground (arith, find-insert_self k v m)

  pub find-insert_ne :
      (k j : ℕ) (v : V) (m : List (ℕ × V)) → k ≢ j → find j (insert k v m) ≡ find j m
  unfolding find insert
  find-insert_ne k j v [] h = ground arith
  find-insert_ne k j v ((i, w) ∷ m) h = ground (arith, find-insert_ne k j v m h)

eq_text_refl : (t : Text) → eq_text t t ≡ true
unfolding eq_text
eq_text_refl [] = refl
eq_text_refl (c ∷ t) = ground (arith, eq_text_refl t)

eq_text_sound : (s t : Text) → eq_text s t ≡ true → s ≡ t
unfolding eq_text
eq_text_sound [] [] h = refl
eq_text_sound [] (d ∷ t) h = absurd (grind arith)
eq_text_sound (c ∷ s) [] h = absurd (grind arith)
eq_text_sound (c ∷ s) (d ∷ t) h = ap₂ ◌∷◌ (ground arith) (eq_text_sound s t (ground arith))

pub find_text-append_old :
    (t u : Text) (i k : ℕ) (m : List (Text × ℕ))
    → find_text t m ≡ some i
    → find_text t (m ++ (u, k) ∷ []) ≡ some i
unfolding find_text
find_text-append_old t u i k [] h = absurd (grind arith)
find_text-append_old t u i k ((j, v) ∷ m) h = ground (arith, find_text-append_old t u i k m)

pub find_text-append_new :
    (t : Text) (k : ℕ) (m : List (Text × ℕ))
    → find_text t m ≡ none
    → find_text t (m ++ (t, k) ∷ []) ≡ some k
unfolding find_text
find_text-append_new t k [] h = rw (eq_text_refl t) refl
find_text-append_new t k ((j, v) ∷ m) h = ground (arith, find_text-append_new t k m)

pub find_text-append_cases :
    (t u : Text) (i k : ℕ) (m : List (Text × ℕ))
    → find_text t (m ++ (u, k) ∷ []) ≡ some i
    → (find_text t m ≡ some i) ⊎ ((u ≡ t) × (k ≡ i))
unfolding find_text
find_text-append_cases t u i k [] h = elim (Bool-cases (eq_text u t)) [
  | inl same ↦ inr (eq_text_sound u t same, grind arith)
  | inr other ↦ absurd (grind arith)
]
find_text-append_cases t u i k ((j, v) ∷ m) h = elim (Bool-cases (eq_text j t)) [
  | inl same ↦ inl (ground arith)
  | inr other ↦ elim (find_text-append_cases t u i k m (ground arith)) [
    | inl old ↦ inl (ground arith)
    | inr new ↦ inr new
  ]
]
