-- ===== src/Lib.antt =====
-- A verification library for the verified-computation system of this repository (code/pepper): the
-- parts that turn a computation into a layered arithmetic circuit and evaluate it over a prime
-- field.
--
-- The program. A compiler writes a computation as a worksheet of polynomial constraints. The prover
-- and the verifier of the sum-check back end (code/pepper/cmtgkr) parse it into a layered circuit
-- (circuit/pws_circuit_parser.cpp), evaluate the circuit, whose layers a cache keeps
-- (circuit/circuit_data.cpp), and run the rounds of the protocol (base/cmt_sumcheck_v.cpp) on
-- multilinear extensions of its layers (cmtgkr_env.cpp). The other back ends commit with fixed-base
-- exponentiations that read a table of powers (crypto/powm_cache.cpp).
--
-- The files.
--   Prelude     names of the libraries, Boolean tests, lists measured by native numbers, integers,
--               remainders and powers.
--   Gmp         the functions of the GMP library that the code calls, with their documented laws,
--               as an interface; Gmp/Reference is an implementation of it.
--   Field       cmtgkr_env.cpp: modmult, chi (mul_chi), computeChiAll (compute_chi_all), and in
--               Field/Mle the function log2i, mle, evaluate_beta, evaluate_V_chis and evaluate_V_i.
--               A loop is a recursion on what is left of its range. Field/Chi, Field/Mle/Boolean,
--               Field/Mle/Log and Field/Mle/Values hold the proofs. Field/Extrapolate is
--               bary_precompute_weights3, bary_extrap and extrap3, Field/Residue what the
--               arithmetic does to remainders, Field/Extrapolate/Quadratic the proofs.
--   Pws         the worksheet parser. Primitives is circuit/pws_primitives.h and maybe.h, Tokenizer
--               is circuit/tokenizer.h over words and line ends, State is the fields of
--               PWSCircuitParser with the outcome of a method (done, an early return, or a fault
--               for a read out of range or a null pointer). Builder holds the operations that add
--               gates and bind primitives (addGate, promotePrimitive, promoteGate, bindVariable),
--               Reducer is reduce, Parse is parsePoly and parsePolyTerm, Parse/Constraint,
--               Parse/Comparison and Parse/Statement are the statements (parsePolyConstraint,
--               parseLessThanInt, parseNotEqual, parseDivide, …), Output the loop over statements,
--               the output layer, the inverted indexes and the resets. Circuit reads the result as
--               a circuit: GateDescription::makeGate, and the value of a gate by its wires;
--               Evaluate is evalGates (circuit/pws_circuit.cpp) on a store. Names is what
--               addConstant and addVariable keep.
--   Layer       circuit/circuit_layer.cpp: applyGateOperation, shouldBeTreatedAs and
--               computeWirePredicates; Layer/Gates and Layer/Wires hold the proofs.
--   Magic       circuit/magic_var_operation.cpp: the operations of an inequality and of an integer
--               comparison, on the values of the gates as a function of layer and name. Comparison has
--               what a comparison leaves in the gates, Constraints the constraints of
--               parseLessThanInt on these values.
--   PowmCache   crypto/powm_cache.cpp: the constructor, computeCache, extendCache and getItem.
--   LayerCache  circuit/circuit_data.cpp: LayerData and CircuitData, which keep a bounded part of
--               the layers of a circuit in memory and the rest in files. Files holds the reads and
--               writes of a layer, Evict and Budget the loop of load, Refinement and Assign the
--               cache as a map of layers, Flush the save of a cache, Total the conditions for a
--               load to return, Lost what a load does when files do not open for writing.
--   MultiPrecision
--               lib_gpu/mp_modexp_cpu.cpp and the macros of lib_gpu/mp_modexp.h: numbers of S
--               64-bit words. Step and Lost are one step of a sum, Pass the propagation of carries,
--               which sums, differences and products share through the record IsStep; Add, Sub, Row
--               and Mul are the functions. Montgomery is mp_montmul_cpu, Power the exponentiations
--               on numbers in Montgomery form (Power/Represents): Window is mp_modexp_cpu and
--               mp_modexp_mont_cpu, Cached is mp_modexp_cached_cpu, Batch the loops over vectors.
--               Cut is mp_get_sw of lib_gpu/mp_modexp.cpp, which makes the windows.
--   SumCheck    cmtgkr/base/cmt_sumcheck_v.cpp: run, doRound and doFinalCheck of the verifier. The
--               provers are a record of two functions of the random numbers that they have been
--               sent (requestPoly and requestVs). Polynomial has the polynomials that the protocol
--               is about and their sums over the cube, Round the checks of a round, Honest the
--               provers that follow the protocol, Forged those that use what requestPoly tells
--               them.
--
-- References and pointers. A reference to a variable or a constant of the parser is its key in the
-- maps of the state; reading through it and writing through it are read_primitive and
-- write_primitive.
--
-- Bounds and fuel. Numbers are unbounded where the source has int or size_t: layers, gate numbers
-- and sizes stay below 2^31 for circuits that fit in memory. The usage of the layer cache wraps at
-- 2^64. powi keeps its 64 bits. ceil_log2 has the number as its fuel, which log2i's theorem shows
-- to be enough. A pass of reduce halves the number of terms, which is the fuel of reduce_loop.
-- promote_fuel gets layer + 4 for a promotion to `layer`, whose rounds rise one layer at a time, as
-- do those of the constant zero inside them. parse_loop, parse_poly and parse_poly_term take the
-- fuel of parse, of which two units for each token is meant to do. The loops that propagate carries
-- have as fuel the number of words they run over, which the theorems show to be enough; a counter
-- of carries has 64 bits, and the bounds on S (below 2^20) keep it from overflowing. The loop of
-- mp_get_clnw has the number of bits as its fuel, since each round takes a bit at least. The table
-- of odd powers of an exponentiation has MP_SW_MAX_FRAGMENT / 2 = 16 entries, and a write past its
-- end is no result. Fuel that runs out is a fault, never a result; that the fuel of a promotion and
-- of the statements is enough is not among the results.
--
-- Random numbers. Those that the sum-check verifier draws are a function of the round, over which
-- the theorems quantify.
--
-- Not modelled. The provers and the argument systems of libv. Printing and debug output, memory
-- management, the network, GPU code, the compiler, and the earlier copies of the protocol. The
-- conversion of decimal text to numbers is GMP's, and the parser takes it as a parameter
-- (Pws/Parse, Numbers).
pub mod Prelude
pub mod Gmp
pub mod Field
pub mod Pws
pub mod Layer
pub mod Magic
pub mod PowmCache
pub mod LayerCache
pub mod MultiPrecision
pub mod SumCheck
