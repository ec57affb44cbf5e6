-- ===== src/Pws/State.antt =====
-- The state of PWSCircuitParser (code/pepper/cmtgkr/circuit/pws_circuit_parser.h), the outcome of
-- its methods, and its maps. A reference to a CVar or a CConst is the place where the parser
-- keeps it: a key of one of the two variable maps, or an index of the constants.
use ginger_zaatar_allspice.Prelude.{
  ℕ, zero, suc, Bool, true, false, List, [], ◌∷◌, Option, none, some, ltb, ◌==◌, if◌then◌else◌,
  get_elem?,
}
use ginger_zaatar_allspice.Pws.Primitives.{
  Text, eq_text, constant, intermediate, input_output, Primitive, GatePosition, GateDescription,
  CPrimitive, CConst, CVar, PwsOpCount,
}
use ginger_zaatar_allspice.Pws.Tokenizer.{Tokenizer}

-- The operations of magic_var_operation.h that a worksheet asks for.
pub data MagicVarOperation : Type 0 where
  not_equal : GatePosition → GatePosition → GatePosition → MagicVarOperation
  less_than_int :
      List GatePosition → List GatePosition → GatePosition → GatePosition → MagicVarOperation
  less_than_float :
      List GatePosition
      → List GatePosition
      → List GatePosition
      → GatePosition
      → GatePosition
      → MagicVarOperation

abbrev pub LayerDescription : Type 0
LayerDescription = List GateDescription

pub record Parser : Type 0 where
  pub var_map : List (ℕ × CVar)
  pub in_out_vars_map : List (ℕ × CVar)
  pub out_constant_desc : List (GatePosition × Text)
  pub constants : List CConst
  pub const_map : List (Text × ℕ)
  pub circuit_desc : List LayerDescription
  pub magic_ops : List (List ℕ × MagicVarOperation)
  pub out_constants : List (Text × List ℕ)
  pub in_constants : List (Text × ℕ)
  pub output_gate_begin : ℕ
  pub in_gates : List (ℕ × ℕ)
  pub out_gates : List (ℕ × ℕ)
  pub magic_gates : List ℕ
  pub token : Text
  pub op_count : PwsOpCount
  pub pws : Tokenizer

-- std::map keeps its keys in order.
module _ {ℓ} {V : Type ℓ} where
  unfoldable pub find : ℕ → List (ℕ × V) → Option V
  find k [] = none
  find k ((j, v) ∷ m) = if j == k then some v else find k m

  unfoldable pub insert : ℕ → V → List (ℕ × V) → List (ℕ × V)
  insert k v [] = (k, v) ∷ []
  insert k v ((j, w) ∷ m) =
      if j == k then (k, v) ∷ m else if ltb k j then (k, v) ∷ (j, w) ∷ m else (j, w) ∷ insert k v m

  unfoldable pub find_text : Text → List (Text × V) → Option V
  find_text k [] = none
  find_text k ((j, v) ∷ m) = if eq_text j k then some v else find_text k m

-- A method that fails a check returns early and keeps what it did; a null pointer that is followed
-- and an index out of range are faults.
pub data Outcome {ℓ} (A : Type ℓ) : Type ℓ where
  done : A → Parser → Outcome A
  returned : Parser → Outcome A
  fault : Outcome A

abbrev pub M {ℓ} : Type ℓ → Type ℓ
M A = Parser → Outcome A

infixl 5 ◌>>=◌ ◌>>◌
abbrev pub ◌>>=◌ {ℓ κ} : {A : Type ℓ} {B : Type κ} → M A → (A → M B) → M B
◌>>=◌ m f s = elim (m s) [ done a s' ↦ f a s' | returned s' ↦ returned s' | fault ↦ fault ]

abbrev pub ◌>>◌ {ℓ κ} : {A : Type ℓ} {B : Type κ} → M A → M B → M B
m >> k = m >>= λ _. k

abbrev pub pure {ℓ} : {A : Type ℓ} → A → M A
pure a s = done a s

abbrev pub early_return {ℓ} : {A : Type ℓ} → M A
early_return s = returned s

abbrev pub or_return : Bool → M (Unit {0})
or_return true s = done tt s
or_return false s = returned s

abbrev pub or_fault {ℓ} : {A : Type ℓ} → Option A → M A
or_fault none s = fault
or_fault (some a) s = done a s

abbrev pub get_state : M Parser
get_state s = done s s

abbrev pub modify : (Parser → Parser) → M (Unit {0})
modify f s = done tt (f s)

-- A call of a method that has no result: its early return ends there.
abbrev pub call : M (Unit {0}) → M (Unit {0})
call m s = elim (m s) [ done u s' ↦ done u s' | returned s' ↦ done tt s' | fault ↦ fault ]

-- getCircuitPrimitive and a write through the reference that it returns.
unfoldable pub read_primitive : Primitive → Parser → Option CPrimitive
unfolding find
read_primitive p s = elim p.p_type [
  | constant ↦ elim (get_elem? s.constants p.idx) [ none ↦ none | some c ↦ some c.prim ]
  | intermediate ↦ elim (find p.idx s.var_map) [ none ↦ none | some v ↦ some v.prim ]
  | input_output ↦ elim (find p.idx s.in_out_vars_map) [ none ↦ none | some v ↦ some v.prim ]
]

abbrev set_const_prim : ℕ → CPrimitive → List CConst → List CConst
set_const_prim i q [] = []
set_const_prim zero q (c ∷ cs) = record c { prim = q } ∷ cs
set_const_prim (suc i) q (c ∷ cs) = c ∷ set_const_prim i q cs

abbrev set_var_prim : ℕ → CPrimitive → List (ℕ × CVar) → List (ℕ × CVar)
set_var_prim k q [] = []
set_var_prim k q ((j, v) ∷ m) =
    if j == k then (j, record v { prim = q }) ∷ m else (j, v) ∷ set_var_prim k q m

unfoldable pub write_primitive : Primitive → CPrimitive → Parser → Parser
write_primitive p q s = elim p.p_type [
  | constant ↦ record s { constants = set_const_prim p.idx q s.constants }
  | intermediate ↦ record s { var_map = set_var_prim p.idx q s.var_map }
  | input_output ↦ record s { in_out_vars_map = set_var_prim p.idx q s.in_out_vars_map }
]
