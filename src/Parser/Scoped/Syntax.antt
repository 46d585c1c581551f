-- ===== src/Parser/Scoped/Syntax.antt =====
-- Scopes of src/parser/scoped_parser.c and the `$syntax` actions in them.
use morphl.Prelude.{Option, List, [], ◌∷◌, Bytes, Outcome, ok, ◌>>=◌}
use morphl.Ast.{Children}
use morphl.Parser.Grammar.{Grammar}
use morphl.Parser.Scoped.{ScopedParser, pp_action_syntax}

-- The actions of some `$syntax` operators, one after the other, each with its arguments.
unfoldable pub syntax_actions :
    {T : Type 0}
    → (Bytes → Option Bytes)
    → List Children
    → ScopedParser T
    → Outcome (ScopedParser T)
syntax_actions grammar_file [] p = ok p
syntax_actions grammar_file (args ∷ more) p =
    pp_action_syntax grammar_file args p >>= λ q. syntax_actions grammar_file more q
