-- ===== src/Lib.antt =====
-- A model of the morphl compiler and bytecode machine, and what is proved of it.
--
-- The program reads a source text, splits it into tokens, parses them into a syntax tree, types
-- the tree, and hands it to a backend. The VM backend writes a bytecode file, which the runtime
-- loads and interprets. Names are interned in one table that all the parts share.
--
-- * Util models src/util/util.c: strings, the arena (Arena), and the intern table (Intern): probing
--   by open addressing (Probing), growth (Rehash), the table's invariant (Invariant) and its ids (Ids).
-- * Lexer models src/lexer/lexer.c: one round of the loop (`lex_one`), the loop (`scan`), and
--   `lexer_tokenize`; Position, Rounds, Spelling and Tokenize prove what the tokens are.
-- * Typing models src/typing/typing.c (Types: `morphl_type_equals`, `morphl_type_clone`, and the
--   constructors in Make), src/typing/type_context.c (Context: variables in Scopes, forwards in
--   Forwards and Unresolved, and the other state in Bindings), and `morphl_infer_type_for_op` of
--   src/typing/inference.c (Inference), whose typing rules Typed states by themselves.
-- * Parser models the table of src/parser/operators.c and its registry (Operators), and
--   src/parser/builtin_parser.c (Builtin: `parse_builtin_expr` is `parse_expr` with the loop
--   `parse_arguments`, and `builtin_parse_ast`), and src/parser/parser.c (Grammar). The recogniser is
--   `match_atom`, `match_pattern`, `parse_rule_internal` and `grammar_parse`; Derives says what a
--   grammar derives, Productive for which grammars the parser ends and with how much fuel. Tree has
--   the functions that also build a tree (`match_atom_ast`, `match_pattern_ast`,
--   `parse_rule_internal_ast`, `grammar_parse_ast`), and Build the captures and templates that they
--   build it of. They return false and keep what they have changed, which Attempts models, and stop where the
--   source would use nodes that a failed template has freed. Idle is about groups whose rounds read
--   nothing. Text and Load have
--   `grammar_load_file`, and Loads says what a loaded grammar is like. Scoped models
--   src/parser/scoped_parser.c with its stack of grammars, and the action of `$syntax` of
--   src/parser/operators.c.
-- * Ast models include/ast/ast.h and the children of src/ast/ast.c.
-- * Vm models src/backend/vm.c and src/runtime/vm_runtime.c. Codec has the byte buffers, Emit the
--   string table and the code of a tree (`emit_node`), Image the file that `morphl_backend_func_vm`
--   writes, Load the loader `morphl_vm_program_load`, Value the values, slots and `vm_set_slot`,
--   Machine the interpreter loop `morphl_vm_execute`. Meaning says what a tree does on the machine
--   without code, string indices or instruction pointers, and Correct relates the two.
-- * Tests runs the theorems at concrete inputs.
--
-- C functions that return false or NULL are the outcome `failed`, and a read through NULL or past an
-- array is `fault` (Prelude/Outcomes). Numbers are native; a 32-bit or 64-bit cut is written out.
-- Allocation is taken to succeed; a buffer's growth fails only when its capacity would overflow. Sums
-- of sizes of objects in the arena are not cut, because an object has less than 2^63 bytes. A string
-- that is interned is copied with the byte behind it, which is taken to be readable. Freed memory is
-- modelled only where the grammar parser goes on using it: there the outcome is `failed` as well.
--
-- Loops of the source that are not structural run on fuel. The probing loops get a round for each
-- slot, which is enough because the table always has a vacant one. The interpreter loop gets any
-- number above the length of the code, because the instruction pointer only moves forward. The
-- tokenizer gets one round more than the source has bytes, because each round reads a byte. The
-- parser of built-in expressions gets two rounds for each token and one more: every operator and every
-- argument reads one. The grammar parser gets what Productive counts for its 128 levels.
--
-- Sizes of C structures are those of a 64-bit machine. The arenas of types and of interned strings have a
-- fixed capacity, and running out of it is modelled.
--
-- The text of a grammar file and the actions of operators other than `$syntax` are arguments of the
-- scoped parser, which is modelled up to the typing of the tree (Scoped: `scoped_parse_untyped`); the
-- result about it is on scopes and `$syntax` alone (Syntax), and Kept has the lemma for the whole loop,
-- for actions that keep to their scope.
--
-- `double` and its conversions are a parameter (`DoubleOps`). Files, diagnostics, the printing of
-- types, the C backend, and the command line are not modelled. Nor are `morphl_infer_type_of_ast`,
-- which changes types that other types share, and the preprocessor actions that call it: types are
-- values here.
pub mod Prelude
pub mod Util
pub mod Lexer
pub mod Ast
pub mod Typing
pub mod Parser
pub mod Vm
pub mod Tests
