-- ===== src/Pws/Names/Variables.antt =====
-- addVariable (code/pepper/cmtgkr/circuit/pws_circuit_parser.cpp): a variable can be read once it was
-- named.
use ginger_zaatar_allspice.Prelude.{
  ℕ, ◌≡◌, refl, ◌∙◌, ap, true, false, List, Option, none, some, arith, inl, inr, Option-cases,
}
use ginger_zaatar_allspice.Pws.Primitives.{
  constant, intermediate, input_output, PrimitiveType, Primitive, is_input_output, CPrimitive,
  unbound, VarType, input, output, magic, temp, CVar, var_to_primitive,
}
use ginger_zaatar_allspice.Pws.State.{Parser, find, insert, done, read_primitive}
use ginger_zaatar_allspice.Pws.Builder.{add_variable}
use ginger_zaatar_allspice.Pws.Names.{find-insert_self, find-insert_ne}

-- A map in which a key stands, with what stood at it before if anything did.
abbrev ensure : ℕ → CVar → List (ℕ × CVar) → List (ℕ × CVar)
ensure k v m = elim (find k m) [ none ↦ insert k v m | some w ↦ m ]

ensure_new :
    (k : ℕ) (v : CVar) (m : List (ℕ × CVar)) → find k m ≡ none → ensure k v m ≡ insert k v m
ensure_new k v m h = rw (h, ensure) refl

ensure_old : (k : ℕ) (v w : CVar) (m : List (ℕ × CVar)) → find k m ≡ some w → ensure k v m ≡ m
ensure_old k v w m h = rw (h, ensure) refl

find-ensure_self :
    (k : ℕ) (v : CVar) (m : List (ℕ × CVar)) → (w : CVar) × (find k (ensure k v m) ≡ some w)
find-ensure_self k v m = elim (Option-cases (find k m)) [
  | inl new ↦ (v, ap (find k) (ensure_new k v m new) ∙ find-insert_self k v m)
  | inr (w, old) ↦ (w, ap (find k) (ensure_old k v w m old) ∙ old)
]

find-ensure_kept :
    (k j : ℕ) (v w : CVar) (m : List (ℕ × CVar))
    → find j m ≡ some w
    → find j (ensure k v m) ≡ some w
find-ensure_kept k j v w m h = elim (Option-cases (find k m)) [
  | inr (u, old) ↦ ap (find j) (ensure_old k v u m old) ∙ h
  | inl new ↦
      ap (find j) (ensure_new k v m new)
      ∙ find-insert_ne k j v m
          (λ (same : k ≡ j). absurd (grind (arith, ap (λ (n : ℕ). find n m) same)))
      ∙ h
]

abbrev prim_of : Option CVar → Option CPrimitive
prim_of o = elim o [ none ↦ none | some v ↦ some v.prim ]

prim_of_kept :
    (o o' : Option CVar) (q : CPrimitive)
    → ((w : CVar) → o ≡ some w → o' ≡ some w)
    → prim_of o ≡ some q
    → prim_of o' ≡ some q
prim_of_kept none o' q f h = absurd (grind arith)
prim_of_kept (some w) o' q f h = ap prim_of (f w refl) ∙ h

abbrev new_var : VarType → ℕ → CVar
new_var t k = record { var_type = t; name = k; prim = unbound }

-- What addVariable has done: it returned the primitive of the variable, which can be read, and every
-- primitive that could be read before reads as it did.
pub record VariableAdded (t : VarType) (k : ℕ) (s : Parser) : Type 0 where
  pub after : Parser
  pub q : CPrimitive
  pub returns :
      add_variable t k s
      ≡ done (var_to_primitive (record { var_type = t; name = k; prim = unbound })) after
  pub there :
      read_primitive (var_to_primitive (record { var_type = t; name = k; prim = unbound })) after
      ≡ some q
  pub kept :
      (p : Primitive) (old : CPrimitive)
      → read_primitive p s ≡ some old
      → read_primitive p after ≡ some old

abbrev with_io : VarType → ℕ → Parser → Parser
with_io t k s = record s { in_out_vars_map = ensure k (new_var t k) s.in_out_vars_map }

abbrev with_var : VarType → ℕ → Parser → Parser
with_var t k s = record s { var_map = ensure k (new_var t k) s.var_map }

returns_io :
    (t : VarType) (k : ℕ) (s : Parser)
    → is_input_output (var_to_primitive (new_var t k)) ≡ true
    → add_variable t k s ≡ done (var_to_primitive (new_var t k)) (with_io t k s)
unfolding add_variable
returns_io t k s io = elim (Option-cases (find k s.in_out_vars_map)) [
  | inl new ↦ rw (io, new, ensure_new k (new_var t k) s.in_out_vars_map new) refl
  | inr (w, old) ↦ rw (io, old, ensure_old k (new_var t k) w s.in_out_vars_map old) refl
]

returns_var :
    (t : VarType) (k : ℕ) (s : Parser)
    → is_input_output (var_to_primitive (new_var t k)) ≡ false
    → add_variable t k s ≡ done (var_to_primitive (new_var t k)) (with_var t k s)
unfolding add_variable
returns_var t k s io = elim (Option-cases (find k s.var_map)) [
  | inl new ↦ rw (io, new, ensure_new k (new_var t k) s.var_map new) refl
  | inr (w, old) ↦ rw (io, old, ensure_old k (new_var t k) w s.var_map old) refl
]

kept_io :
    (t : VarType) (k : ℕ) (s : Parser) (pt : PrimitiveType) (i : ℕ) (q : CPrimitive)
    → read_primitive (record { p_type = pt; idx = i }) s ≡ some q
    → read_primitive (record { p_type = pt; idx = i }) (with_io t k s) ≡ some q
unfolding read_primitive
kept_io t k s constant i q h = h
kept_io t k s intermediate i q h = h
kept_io t k s input_output i q h =
    prim_of_kept (find i s.in_out_vars_map) (find i (ensure k (new_var t k) s.in_out_vars_map)) q
      (λ w. find-ensure_kept k i (new_var t k) w s.in_out_vars_map) h

io_added :
    (t : VarType) (k : ℕ) (s : Parser)
    → is_input_output (var_to_primitive (new_var t k)) ≡ true
    → var_to_primitive (new_var t k) ≡ record { p_type = input_output; idx = k }
    → VariableAdded t k s
unfolding read_primitive
io_added t k s kind same =
    let found = find-ensure_self k (new_var t k) s.in_out_vars_map in
    record {
      after = with_io t k s;
      q = found.0.prim;
      returns = returns_io t k s kind;
      there = ap (λ p. read_primitive p (with_io t k s)) same ∙ ap prim_of found.1;
      kept = λ p q h. kept_io t k s p.p_type p.idx q h;
    }

kept_var :
    (t : VarType) (k : ℕ) (s : Parser) (pt : PrimitiveType) (i : ℕ) (q : CPrimitive)
    → read_primitive (record { p_type = pt; idx = i }) s ≡ some q
    → read_primitive (record { p_type = pt; idx = i }) (with_var t k s) ≡ some q
unfolding read_primitive
kept_var t k s constant i q h = h
kept_var t k s input_output i q h = h
kept_var t k s intermediate i q h =
    prim_of_kept (find i s.var_map) (find i (ensure k (new_var t k) s.var_map)) q
      (λ w. find-ensure_kept k i (new_var t k) w s.var_map) h

var_added :
    (t : VarType) (k : ℕ) (s : Parser)
    → is_input_output (var_to_primitive (new_var t k)) ≡ false
    → var_to_primitive (new_var t k) ≡ record { p_type = intermediate; idx = k }
    → VariableAdded t k s
unfolding read_primitive
var_added t k s kind same =
    let found = find-ensure_self k (new_var t k) s.var_map in
    record {
      after = with_var t k s;
      q = found.0.prim;
      returns = returns_var t k s kind;
      there = ap (λ p. read_primitive p (with_var t k s)) same ∙ ap prim_of found.1;
      kept = λ p q h. kept_var t k s p.p_type p.idx q h;
    }

-- addVariable returns the primitive of the variable that it is given, which can be read afterwards, and
-- every primitive that could be read before reads as it did.
pub add_variable-VariableAdded : (t : VarType) (k : ℕ) (s : Parser) → VariableAdded t k s
unfolding var_to_primitive is_input_output
add_variable-VariableAdded input k s = io_added input k s refl refl
add_variable-VariableAdded output k s = io_added output k s refl refl
add_variable-VariableAdded magic k s = var_added magic k s refl refl
add_variable-VariableAdded temp k s = var_added temp k s refl refl
