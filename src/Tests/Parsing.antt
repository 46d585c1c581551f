-- ===== src/Tests/Parsing.antt =====
-- src/parser/ on small inputs.
use morphl.Prelude.{
  ℕ, ◌≡◌, refl, ◌⊎◌, List, [], ◌∷◌, Bytes, codes, bytes_eq, none, some, Outcome, ok, failed, arith,
}
use morphl.Util.Arena.{arena_init, arena_push}
use morphl.Util.Intern.{InternTable, interns_intern, interns_lookup}
use morphl.Util.Intern.Invariant.{empty_table, empty_table-WellFormed, WellFormed}
use morphl.Ast.{AstNode, node, nil, cons, literal, ident, builtin}
use morphl.Lexer.{Token, Kinds}
use morphl.Parser.Operators.{
  Registered, builtin_ops, operator_registry_init, find_operator, operator_info_lookup,
}
use morphl.Parser.Operators.Registry.{row_named, operator_info_lookup-registry_init}
use morphl.Parser.Builtin.{
  is_builtin_op, ends_arguments, op_kind, parse_leaf, parse_expr, parse_arguments,
}
use morphl.Parser.Builtin.Parsed.{Parsed, parse_expr-Parsed}
use morphl.Parser.Builtin.Statements.{Statements}

abbrev kinds : Kinds
kinds = record { ident = 1; number = 2; number_float = 3; string = 4; symbol = 5; eof = 6 }

abbrev no_strings : InternTable
no_strings = empty_table 4

no_strings-WellFormed : WellFormed no_strings
no_strings-WellFormed = empty_table-WellFormed 4

abbrev token : ℕ → Bytes → Token
token kind s = record { kind = kind; lexeme = some s; row = 1; col = 1 }

-- `$add x 1` and the end.
abbrev sum_tokens : List Token
sum_tokens =
    token 1 (codes "$add")
    ∷ token 1 (codes "x")
    ∷ token 2 (codes "1")
    ∷ record { kind = 6; lexeme = none; row = 1; col = 9 }
    ∷ []

-- The tree of a result.
unfoldable tree_of : Outcome (AstNode × List Token × InternTable) → AstNode
tree_of (ok (n, rest, t)) = n
tree_of _ = node ident 0 none nil

sum_tree :
    tree_of (parse_expr kinds [] 20 0 sum_tokens no_strings)
    ≡ node builtin 1 none (
        cons
          (node ident 0 (some (codes "x")) nil)
          (cons (node literal 2 (some (codes "1")) nil) nil))
unfolding tree_of parse_expr parse_arguments parse_leaf is_builtin_op ends_arguments op_kind
    operator_info_lookup find_operator interns_intern arena_init arena_push bytes_eq
sum_tree = refl

parse_expr-Parsed_example :
    ((n : AstNode) × (rest : List Token) × (t' : InternTable) × (parse_expr kinds [] 20 0 sum_tokens
          no_strings
        ≡ ok (n, rest, t'))
      × Parsed sum_tokens no_strings n rest t')
    ⊎ (parse_expr kinds [] 20 0 sum_tokens no_strings ≡ failed)
parse_expr-Parsed_example =
    parse_expr-Parsed kinds [] 20 0 sum_tokens no_strings (omega arith) no_strings-WellFormed

operator_info_lookup-registry_init_example :
    ((registry : List Registered) × (t' : InternTable) × (operator_registry_init no_strings
        ≡ ok (registry, t'))
      × WellFormed t'
      × ((op : ℕ) (s : Bytes)
          → interns_lookup t' op ≡ some s
          → operator_info_lookup registry op ≡ row_named builtin_ops s))
    ⊎ (operator_registry_init no_strings ≡ failed)
operator_info_lookup-registry_init_example =
    operator_info_lookup-registry_init no_strings no_strings-WellFormed
