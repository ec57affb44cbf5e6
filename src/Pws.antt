-- ===== src/Pws.antt =====
-- The worksheet compiler of code/pepper/cmtgkr/circuit: its primitives (pws_primitives.h,
-- maybe.h), its token reader (tokenizer.h), and the parser that builds a layered arithmetic circuit
-- (pws_circuit_parser.cpp).
pub mod Primitives
pub mod Tokenizer
pub mod State
pub mod Builder
pub mod Reducer
pub mod Names
pub mod Parse
pub mod Output
pub mod Circuit
pub mod Evaluate
mod Tests
