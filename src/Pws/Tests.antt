-- ===== src/Pws/Tests.antt =====
-- Runs of the worksheet parser on small files, and the witnesses of its theorems.
use ginger_zaatar_allspice.Prelude.{some, ℕ, ◌≡◌, refl, false, List, [], ◌∷◌, none}
use ginger_zaatar_allspice.Prelude.Int.{pos}
use ginger_zaatar_allspice.Gmp.Reference.{reference}
use ginger_zaatar_allspice.Pws.Primitives.{Text, codes}
use ginger_zaatar_allspice.Pws.Tokenizer.{Piece, word, line_end}
use ginger_zaatar_allspice.Pws.State.{done, returned, fault, find_text, Parser, Outcome}
use ginger_zaatar_allspice.Pws.Parse.{Numbers, starts_number}
use ginger_zaatar_allspice.Pws.Output.{parse, clear_private}
use ginger_zaatar_allspice.Pws.Tokenizer.{Tokenizer}
use ginger_zaatar_allspice.Pws.State.{LayerDescription}
use ginger_zaatar_allspice.Pws.Names.Constants.{Indexed, ConstantAdded, add_constant-ConstantAdded}
use ginger_zaatar_allspice.Pws.Names.Variables.{VariableAdded, add_variable-VariableAdded}
use ginger_zaatar_allspice.Pws.Output.Clear.{clear_private-bound}
use ginger_zaatar_allspice.Pws.Primitives.{
  intermediate, GateDescription, mul, make_description, bind_gate, temp,
}
use ginger_zaatar_allspice.Prelude.{get_elem?, arith}

abbrev pub empty_parser : Parser
empty_parser = record {
  var_map = [];
  in_out_vars_map = [];
  out_constant_desc = [];
  constants = [];
  const_map = [];
  circuit_desc = [];
  magic_ops = [];
  out_constants = [];
  in_constants = [];
  output_gate_begin = 0;
  in_gates = [];
  out_gates = [];
  magic_gates = [];
  token = [];
  op_count = record { num_mults = 0; num_adds = 0; num_int_divs = 0; num_ineqs = 0; num_cmps = 0 };
  pws = record { rest = []; last_pos = []; eof = false };
}

abbrev plain_numbers : Numbers
plain_numbers = record {
  mpq_set_str = starts_number;
  mpz_set_str = λ t. none;
  show = λ n. codes "0";
  mpz_neg = λ n. n;
  mpz_mul_2exp = λ n k. n;
  mpz_invert = λ n k. n;
}

abbrev w : Text → Piece
w = word

sum_file : List Piece
sum_file =
    w (codes "P")
    ∷ w (codes "O2")
    ∷ w (codes "=")
    ∷ w (codes "I0")
    ∷ w (codes "*")
    ∷ w (codes "I1")
    ∷ w (codes "+")
    ∷ w (codes "3")
    ∷ w (codes "E")
    ∷ line_end
    ∷ []

sum_result : Outcome (Unit {0})
sum_result = parse plain_numbers reference (pos 97) 20 sum_file empty_parser

abbrev out_gates_of : Outcome (Unit {0}) → List (ℕ × ℕ)
out_gates_of o = elim o [ done u s ↦ s.out_gates | returned s ↦ s.out_gates | fault ↦ [] ]

sum_out : out_gates_of sum_result ≡ (2, 0) ∷ []
unfolding parse sum_result sum_file make_description
sum_out = refl

abbrev stream : Tokenizer
stream = record { rest = line_end ∷ w (codes "V1") ∷ line_end ∷ []; last_pos = []; eof = false }

empty_parser-Indexed : Indexed empty_parser
unfolding find_text
empty_parser-Indexed = record { indexed = λ t i h. absurd (grind arith) }

add_constant-ConstantAdded_example : ConstantAdded (codes "-1") empty_parser
add_constant-ConstantAdded_example =
    add_constant-ConstantAdded (codes "-1") empty_parser empty_parser-Indexed

add_variable-VariableAdded_example : VariableAdded temp 4 empty_parser
add_variable-VariableAdded_example = add_variable-VariableAdded temp 4 empty_parser

abbrev bound : GateDescription
bound = bind_gate (make_description mul 0 0 1 2) (record { p_type = intermediate; idx = 4 })

abbrev bound_parser : Parser
bound_parser = record empty_parser { circuit_desc = (bound ∷ []) ∷ [] }

clear_private-bound_example :
    ((clear_private bound_parser).var_map ≡ [])
    × ((clear_private bound_parser).in_out_vars_map ≡ [])
    × ((after : LayerDescription) × (get_elem? (clear_private bound_parser).circuit_desc 0
          ≡ some after)
        × (get_elem? after 0 ≡ some bound))
unfolding bind_gate
clear_private-bound_example = clear_private-bound bound_parser 0 0 (bound ∷ []) bound refl refl refl
