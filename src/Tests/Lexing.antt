-- ===== src/Tests/Lexing.antt =====
-- src/lexer/lexer.c on small sources.
use morphl.Prelude.{ℕ, ◌≡◌, refl, ◌⊎◌, List, [], ◌∷◌, ◌++◌, Bytes, codes, none, some, ok, failed}
use morphl.Util.Intern.{InternTable}
use morphl.Util.Intern.Invariant.{empty_table, empty_table-WellFormed, WellFormed}
use morphl.Lexer.{
  Token, Kinds, intern_kinds, span, string_body, lex_number, lex_string, lex_one, scan,
  lexer_tokenize,
}
use morphl.Lexer.Spelling.{Spelled, Unclosed}
use morphl.Lexer.Tokenize.{Named, lexer_tokenize-Spelled}

abbrev kinds : Kinds
kinds = record { ident = 1; number = 2; number_float = 3; string = 4; symbol = 5; eof = 6 }

-- A declaration over two lines.
abbrev source : Bytes
source = codes "$decl x " ++ (10 ∷ codes "  1.5;")

abbrev token : ℕ → Bytes → ℕ → ℕ → Token
token kind s row col = record { kind = kind; lexeme = some s; row = row; col = col }

source_tokens :
    scan 20 kinds source 1 1
    ≡ ok (
        token 1 (codes "$decl") 1 1
        ∷ token 1 (codes "x") 1 7
        ∷ token 3 (codes "1.5") 2 3
        ∷ token 5 (codes ";") 2 6
        ∷ record { kind = 6; lexeme = none; row = 2; col = 7 }
        ∷ [])
unfolding scan lex_one lex_number lex_string string_body span
source_tokens = refl

-- A string over two lines is given the row where it ends.
string_row :
    scan 20 kinds (34 ∷ 10 ∷ codes "a" ++ (34 ∷ [])) 1 1
    ≡ ok (
        token 4 (34 ∷ 10 ∷ codes "a" ++ (34 ∷ [])) 2 18446744073709551615
        ∷ record { kind = 6; lexeme = none; row = 2; col = 3 }
        ∷ [])
unfolding scan lex_one lex_number lex_string string_body span
string_row = refl

abbrev no_strings : InternTable
no_strings = empty_table 4

no_strings-WellFormed : WellFormed no_strings
no_strings-WellFormed = empty_table-WellFormed 4

lexer_tokenize-Spelled_example :
    ((k : Kinds) × (ts : List Token) × (t' : InternTable) × (lexer_tokenize source no_strings
        ≡ ok (ts, t'))
      × Spelled k 1 1 source ts
      × WellFormed t'
      × Named k t')
    ⊎ ((lexer_tokenize source no_strings ≡ failed)
        × ((intern_kinds no_strings ≡ failed) ⊎ Unclosed source))
lexer_tokenize-Spelled_example = lexer_tokenize-Spelled source no_strings no_strings-WellFormed
