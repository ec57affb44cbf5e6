-- ===== src/Pws/Primitives.antt =====
-- code/pepper/cmtgkr/maybe.h and code/pepper/cmtgkr/circuit/pws_primitives.h.
use Prim.Native.Char.{code}
use Prim.Native.String.{String}
use ginger_zaatar_allspice.Prelude.{
  ℕ, Bool, true, false, ◌&&◌, ◌||◌, List, [], ◌∷◌, ◌==◌, if◌then◌else◌,
}

-- A text is its bytes.
abbrev pub Text : Type 0
Text = List ℕ

abbrev pub codes : String → Text
codes String.[] = []
codes (String.◌∷◌ c s) = code c ∷ codes s

unfoldable pub eq_text : Text → Text → Bool
eq_text [] [] = true
eq_text [] (d ∷ t) = false
eq_text (c ∷ s) [] = false
eq_text (c ∷ s) (d ∷ t) = (c == d) && eq_text s t

-- maybe.h keeps a flag beside a value.
pub record Maybe {ℓ} (A : Type ℓ) : Type ℓ where
  pub valid : Bool
  pub value : A

module _ {ℓ} {A : Type ℓ} where
  -- The default constructor calls `invalidate` on a flag that is false; `fresh` is T().
  unfoldable pub nothing : A → Maybe A
  nothing fresh = record { valid = false; value = fresh }

  unfoldable pub validate : Maybe A → A → Maybe A
  validate m a = record { valid = true; value = a }

  -- The method tests that the value is NOT valid before it clears the flag.
  unfoldable pub invalidate : A → Maybe A → Maybe A
  invalidate fresh m = if m.valid then m else record { valid = false; value = fresh }

pub data PrimitiveType : Type 0 where
  constant intermediate input_output : PrimitiveType

pub record Primitive : Type 0 where
  pub p_type : PrimitiveType
  pub idx : ℕ

abbrev pub default_primitive : Primitive
default_primitive = record { p_type = constant; idx = 0 }

unfoldable pub is_constant : Primitive → Bool
is_constant p = elim p.p_type [ constant ↦ true | _ ↦ false ]

unfoldable pub is_input_output : Primitive → Bool
is_input_output p = elim p.p_type [ input_output ↦ true | _ ↦ false ]

unfoldable pub is_variable : Primitive → Bool
unfolding is_input_output
is_variable p = is_input_output p || elim p.p_type [ intermediate ↦ true | _ ↦ false ]

pub record GatePosition : Type 0 where
  pub layer : ℕ
  pub name : ℕ

pub data OpType : Type 0 where
  add mul div_int constant_op : OpType

pub record GateDescription : Type 0 where
  pub op : OpType
  pub pos : GatePosition
  pub in1 : ℕ
  pub in2 : ℕ
  pub bound_primitive : Maybe Primitive

unfoldable pub make_description : OpType → ℕ → ℕ → ℕ → ℕ → GateDescription
unfolding nothing
make_description o l n i1 i2 = record {
  op = o;
  pos = record { layer = l; name = n };
  in1 = i1;
  in2 = i2;
  bound_primitive = nothing default_primitive;
}

unfoldable pub bind_gate : GateDescription → Primitive → GateDescription
unfolding validate
bind_gate d p = record d { bound_primitive = validate d.bound_primitive p }

unfoldable pub unbind : GateDescription → GateDescription
unfolding invalidate
unbind d = record d { bound_primitive = invalidate default_primitive d.bound_primitive }

-- CPrimitive: the gates that hold a primitive, one for each layer from `min_layer` to `max_layer`.
-- An unbound one has no gate; its layers are -1 in the source and 0 here, and are not read.
pub record CPrimitive : Type 0 where
  pub min_layer : ℕ
  pub max_layer : ℕ
  pub gate_index : List ℕ

abbrev pub unbound : CPrimitive
unbound = record { min_layer = 0; max_layer = 0; gate_index = [] }

abbrev pub is_empty {ℓ} : {A : Type ℓ} → List A → Bool
is_empty [] = true
is_empty (x ∷ xs) = false

unfoldable pub is_bound : CPrimitive → Bool
is_bound p = if is_empty p.gate_index then false else true

unfoldable pub bind_primitive : GatePosition → CPrimitive
bind_primitive gate = record {
  min_layer = gate.layer;
  max_layer = gate.layer;
  gate_index = gate.name ∷ [];
}

pub record CConst : Type 0 where
  pub value : Text
  pub name : ℕ
  pub prim : CPrimitive

pub data VarType : Type 0 where
  input output magic temp : VarType

pub record CVar : Type 0 where
  pub var_type : VarType
  pub name : ℕ
  pub prim : CPrimitive

unfoldable pub is_output : CVar → Bool
is_output v = elim v.var_type [ output ↦ true | _ ↦ false ]

unfoldable pub is_input : CVar → Bool
is_input v = elim v.var_type [ input ↦ true | _ ↦ false ]

unfoldable pub is_magic : CVar → Bool
is_magic v = elim v.var_type [ magic ↦ true | _ ↦ false ]

-- CVar::toPrimitive and CConst::toPrimitive.
unfoldable pub var_to_primitive : CVar → Primitive
unfolding is_input is_output
var_to_primitive v =
    if is_input v || is_output v
    then record { p_type = input_output; idx = v.name }
    else record { p_type = intermediate; idx = v.name }

unfoldable pub const_to_primitive : CConst → Primitive
const_to_primitive c = record { p_type = constant; idx = c.name }

pub record PwsOpCount : Type 0 where
  pub num_mults : ℕ
  pub num_adds : ℕ
  pub num_int_divs : ℕ
  pub num_ineqs : ℕ
  pub num_cmps : ℕ

unfoldable pub no_ops : PwsOpCount
no_ops = record { num_mults = 0; num_adds = 0; num_int_divs = 0; num_ineqs = 0; num_cmps = 0 }
