-- ===== src/Parser/Builtin.antt =====
-- src/parser/builtin_parser.c: operator expressions `$op arg …`. The tokens behind the cursor stand
-- for it. Allocating nodes and growing the child arrays is taken to succeed.
pub mod Spelling
pub mod Parsed
pub mod Statements
use morphl.Prelude.{
  ℕ, zero, suc, ◌+◌, ◌*◌, Bool, false, ◌&&◌, ◌||◌, none, some, List, [], ◌∷◌, length, Bytes, ltb,
  ◌==◌, if◌then◌else◌, Outcome, ok, failed, fault, ◌>>=◌,
}
use morphl.Util.{text}
use morphl.Util.Intern.{InternTable, interns_intern}
use morphl.Ast.{
  AstKind, AstNode, Children, node, nil, cons, literal, ident, block, builtin, unknown, kind_code,
}
use morphl.Lexer.{Token, Kinds, intern_kinds}
use morphl.Parser.Operators.{Registered, operator_info_lookup}

abbrev pub max_depth : ℕ
max_depth = 256

abbrev pub starts_with : ℕ → Bytes → Bool
starts_with c [] = false
starts_with c (d ∷ ds) = d == c

unfoldable pub is_builtin_op : Token → Kinds → Bool
is_builtin_op tok k =
    tok.kind == k.ident && ltb 1 (length (text tok.lexeme)) && starts_with 36 (text tok.lexeme)

-- A symbol of one character, of the five that end the arguments.
abbrev pub is_closer : ℕ → Bool
is_closer c = c == 41 || c == 125 || c == 93 || c == 59 || c == 44

abbrev pub one_closer : Bytes → Bool
one_closer (c ∷ []) = is_closer c
one_closer _ = false

unfoldable pub ends_arguments : Token → Kinds → Bool
ends_arguments tok k = tok.kind == k.eof || (tok.kind == k.symbol && one_closer (text tok.lexeme))

-- The kind of an operator's node: the registry's, unless there is none or it is unknown.
unfoldable pub op_kind : List Registered → ℕ → AstKind
op_kind registry op = elim (operator_info_lookup registry op) [
  | none ↦ builtin
  | some r ↦ if kind_code r.ast_kind == kind_code unknown then builtin else r.ast_kind
]

-- A literal, which keeps the kind of its token as `op`, or an identifier.
unfoldable pub parse_leaf : Kinds → Token → Outcome AstNode
parse_leaf k tok =
    if tok.kind == k.number || tok.kind == k.number_float || tok.kind == k.string
    then ok (node literal tok.kind tok.lexeme nil)
    else if tok.kind == k.ident
    then ok (node ident 0 tok.lexeme nil)
    else failed

abbrev pub one_semicolon : Bytes → Bool
one_semicolon (c ∷ []) = c == 59
one_semicolon _ = false

abbrev pub is_semicolon : Kinds → Token → Bool
is_semicolon k tok = tok.kind == k.symbol && one_semicolon (text tok.lexeme)

-- An optional semicolon is skipped.
abbrev pub skip_semicolon : Kinds → List Token → List Token
skip_semicolon k [] = []
skip_semicolon k (tok ∷ toks) = if is_semicolon k tok then toks else tok ∷ toks

module _ (k : Kinds) (registry : List Registered) where
  -- `parse_builtin_expr`, and the loop over the arguments of an operator at `depth`.
  unfoldable mutual
    pub parse_expr : ℕ → ℕ → List Token → InternTable → Outcome (AstNode × List Token × InternTable)
    parse_expr zero depth toks t = fault
    parse_expr (suc fuel) depth [] t = failed
    parse_expr (suc fuel) depth (tok ∷ toks) t =
        let operator = interns_intern t tok.lexeme >>= λ op.
        (let parsed = parse_arguments fuel depth toks op.1 in
          if op.0 == 0
          then failed
          else (parsed >>= λ r. ok (node (op_kind registry op.0) op.0 none r.0, r.1, r.2))) in
        if ltb max_depth depth
        then failed
        else if tok.kind == k.eof
        then failed
        else if is_builtin_op tok k
        then operator
        else (parse_leaf k tok >>= λ leaf. ok (leaf, toks, t))

    pub parse_arguments :
        ℕ → ℕ → List Token → InternTable → Outcome (Children × List Token × InternTable)
    parse_arguments zero depth toks t = fault
    parse_arguments (suc fuel) depth [] t = ok (nil, [], t)
    parse_arguments (suc fuel) depth (tok ∷ toks) t =
        let arguments = parse_expr fuel (depth + 1) (tok ∷ toks) t >>= λ c.
        parse_arguments fuel depth c.1 c.2 >>= λ r. ok (cons c.0 r.0, r.1, r.2) in
        if ends_arguments tok k then ok (nil, tok ∷ toks, t) else arguments

  -- The loop of `builtin_parse_ast` over the statements.
  unfoldable pub parse_statements : ℕ → List Token → InternTable → Outcome (Children × InternTable)
  parse_statements zero toks t = fault
  parse_statements (suc fuel) [] t = ok (nil, t)
  parse_statements (suc fuel) (tok ∷ toks) t =
      let statements = parse_expr (2 * suc (length toks) + 1) 0 (tok ∷ toks) t >>= λ c.
      parse_statements fuel (skip_semicolon k c.1) c.2 >>= λ r. ok (cons c.0 r.0, r.1) in
      if tok.kind == k.eof then ok (nil, t) else statements

-- One statement stands for itself, and any other number of them is a block.
abbrev pub root_of : Children → AstNode
root_of (cons c nil) = c
root_of cs = node block 0 none cs

unfoldable pub builtin_parse_expr :
    List Registered → List Token → InternTable → Outcome (AstNode × List Token × InternTable)
builtin_parse_expr registry tokens interns = do
  kinds ← intern_kinds interns
  parse_expr kinds.0 registry (2 * length tokens + 1) 0 tokens kinds.1

unfoldable pub builtin_parse_ast :
    List Registered → List Token → InternTable → Outcome (AstNode × InternTable)
builtin_parse_ast registry tokens interns = do
  kinds ← intern_kinds interns
  statements ← parse_statements kinds.0 registry (length tokens + 1) tokens kinds.1
  ok (root_of statements.0, statements.1)
