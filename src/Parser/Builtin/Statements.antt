-- ===== src/Parser/Builtin/Statements.antt =====
-- `builtin_parse_ast` of src/parser/builtin_parser.c: a sequence of statements.
use morphl.Prelude.{◌≡◌, ◌⊎◌, List, [], ◌∷◌, ◌++◌, Outcome, ok, failed}
use morphl.Util.Intern.{InternTable}
use morphl.Util.Intern.Invariant.{WellFormed}
use morphl.Util.Intern.Ids.{Keeps}
use morphl.Ast.{AstNode, Children, nil, cons}
use morphl.Lexer.{Token, Kinds}
use morphl.Parser.Builtin.{skip_semicolon}
use morphl.Parser.Builtin.Spelling.{Spells, lexemes}

module _ (k : Kinds) (t : InternTable) where
  -- The tokens are read as statements, one tree for each, with at most one semicolon behind each of
  -- them, until an end token stands where a statement would begin.
  pub data Statements : List Token → Children → Type 0 where
    no_more : Statements [] nil
    at_end : (tok : Token) (toks : List Token) → tok.kind ≡ k.eof → Statements (tok ∷ toks) nil
    statement :
        (read rest : List Token) (tok : Token) (toks : List Token) (c : AstNode) (cs : Children)
        → (tok.kind ≡ k.eof → ⊥)
        → read ++ rest ≡ tok ∷ toks
        → Spells t c (lexemes read)
        → Statements (skip_semicolon k rest) cs
        → Statements (tok ∷ toks) (cons c cs)

record Read (k : Kinds) (toks : List Token) (t : InternTable) (cs : Children) (t' : InternTable)
    : Type 0 where
  statements : Statements k t' toks cs
  fine : WellFormed t'
  keeps : Keeps t t'

abbrev Result : Kinds → List Token → InternTable → Outcome (Children × InternTable) → Type 0
Result k toks t r =
    ((cs : Children) × (t' : InternTable) × (r ≡ ok (cs, t')) × Read k toks t cs t') ⊎ (r ≡ failed)
