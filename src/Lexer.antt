-- ===== src/Lexer.antt =====
-- src/lexer/lexer.c: the tokenizer. The part of the source that is not read yet stands for the
-- offset. `isalpha`, `isalnum` and `isdigit` are those of the C locale. The file name of a token goes
-- to diagnostics only and is left out. Growing the token array is taken to succeed.
pub mod Position
pub mod Rounds
pub mod Spelling
pub mod Tokenize
use morphl.Prelude.{
  ℕ, zero, suc, ◌+◌, ◌-◌, ◌^◌, Bool, false, ◌&&◌, ◌||◌, List, [], ◌∷◌, ◌++◌, Option, none, some,
  length, Bytes, codes, leb, ◌==◌, if◌then◌else◌, Outcome, ok, failed, fault, ◌>>=◌,
}
use morphl.Util.{Str}
use morphl.Util.Intern.{InternTable, interns_intern}

pub record Token : Type 0 where
  pub kind : ℕ
  pub lexeme : Str
  pub row : ℕ
  pub col : ℕ

-- The interned token kinds.
pub record Kinds : Type 0 where
  pub ident : ℕ
  pub number : ℕ
  pub number_float : ℕ
  pub string : ℕ
  pub symbol : ℕ
  pub eof : ℕ

unfoldable pub intern_kinds : InternTable → Outcome (Kinds × InternTable)
intern_kinds t = do
  ident ← interns_intern t (some (codes "IDENT"))
  number ← interns_intern ident.1 (some (codes "NUMBER"))
  number_float ← interns_intern number.1 (some (codes "FLOAT"))
  string ← interns_intern number_float.1 (some (codes "STRING"))
  symbol ← interns_intern string.1 (some (codes "SYMBOL"))
  eof ← interns_intern symbol.1 (some (codes "EOF"))
  if ident.0 == 0
        || number.0 == 0
        || number_float.0 == 0
        || string.0 == 0
        || symbol.0 == 0
        || eof.0 == 0
      then failed
      else ok (
        record {
          ident = ident.0;
          number = number.0;
          number_float = number_float.0;
          string = string.0;
          symbol = symbol.0;
          eof = eof.0;
        },
        eof.1,
      )

abbrev pub in_range : ℕ → ℕ → ℕ → Bool
in_range low high c = leb low c && leb c high

abbrev pub is_digit : ℕ → Bool
is_digit c = in_range 48 57 c

abbrev pub is_alpha : ℕ → Bool
is_alpha c = in_range 65 90 c || in_range 97 122 c

-- `isalpha(c) || c == '_'`.
abbrev pub starts_word : ℕ → Bool
starts_word c = is_alpha c || c == 95

-- `isalnum(c) || c == '_'`.
abbrev pub continues_word : ℕ → Bool
continues_word c = is_alpha c || is_digit c || c == 95

abbrev pub is_newline : ℕ → Bool
is_newline c = c == 10

-- A space, a tab or a carriage return.
abbrev pub is_space : ℕ → Bool
is_space c = c == 32 || c == 9 || c == 13

-- The loops that run over characters of a class: what they pass, and what is left.
unfoldable pub span : (ℕ → Bool) → Bytes → Bytes × Bytes
span p [] = ([], [])
span p (c ∷ cs) = let (run, rest) = span p cs in if p c then (c ∷ run, rest) else ([], c ∷ cs)

-- What is left to read, and the position of its first character.
pub record Place : Type 0 where
  pub rest : Bytes
  pub row : ℕ
  pub col : ℕ

-- `a - b` in a `size_t`.
abbrev pub sub_size : ℕ → ℕ → ℕ
sub_size a b = if leb b a then a - b else a + 2 ^ 64 - b

-- One round of the loop of `lexer_tokenize`: a skipped character, a token, or the end at a string
-- that is not closed.
pub data Round : Type 0 where
  skipped : Place → Round
  lexed : Token → Place → Round
  unterminated : Round

-- A token, made when the position has moved past it.
abbrev pub make_token : ℕ → Bytes → Place → Round
make_token kind s after =
    lexed
      (record {
        kind = kind;
        lexeme = some s;
        row = after.row;
        col = sub_size after.col (length s);
      })
      after

-- A token within its line.
abbrev pub line_token : ℕ → Bytes → Bytes → ℕ → ℕ → Round
line_token kind s rest row col =
    make_token kind s (record { rest = rest; row = row; col = col + length s })

-- Whether a `.` with a digit behind it follows.
abbrev pub has_fraction : Bytes → Bool
has_fraction (dot ∷ d ∷ cs) = dot == 46 && is_digit d
has_fraction _ = false

abbrev pub behind_dot : Bytes → Bytes
behind_dot [] = []
behind_dot (dot ∷ cs) = cs

unfoldable pub lex_number : Kinds → Bytes → ℕ → ℕ → Round
lex_number k bs row col =
    let (whole, rest) = span is_digit bs in
    let (fraction, rest') = span is_digit (behind_dot rest) in
    if has_fraction rest
    then line_token k.number_float (whole ++ (46 ∷ fraction)) rest' row col
    else line_token k.number whole rest row col

-- The loop of a string literal, behind its opening quote: the characters up to the closing quote,
-- and the place of that quote.
unfoldable pub string_body : Bytes → ℕ → ℕ → Option (Bytes × Place)
string_body [] row col = none
string_body (c ∷ cs) row col =
    let more =
      string_body cs (if is_newline c then row + 1 else row)
        (if is_newline c then 1 else col + 1) in
    if c == 34
    then some ([], record { rest = cs; row = row; col = col })
    else elim more [ none ↦ none | some (body, place) ↦ some (c ∷ body, place) ]

unfoldable pub lex_string : Kinds → Bytes → ℕ → ℕ → Round
lex_string k cs row col = elim (string_body cs row (col + 1)) [
  | none ↦ unterminated
  | some (body, place) ↦
      make_token k.string (34 ∷ (body ++ (34 ∷ []))) (record place { col = place.col + 1 })
]

-- `$` with the start of a word behind it.
abbrev pub is_dollar_word : ℕ → Bytes → Bool
is_dollar_word c [] = false
is_dollar_word c (next ∷ cs) = c == 36 && starts_word next

unfoldable pub lex_one : Kinds → ℕ → Bytes → ℕ → ℕ → Round
lex_one k c cs row col =
    let (name, behind) = span continues_word cs in
    let (word, rest) = span continues_word (c ∷ cs) in
    if is_newline c
    then skipped (record { rest = cs; row = row + 1; col = 1 })
    else if is_space c
    then skipped (record { rest = cs; row = row; col = col + 1 })
    else if is_dollar_word c cs
    then line_token k.ident (c ∷ name) behind row col
    else if starts_word c
    then line_token k.ident word rest row col
    else if is_digit c
    then lex_number k (c ∷ cs) row col
    else if c == 34
    then lex_string k cs row col
    else line_token k.symbol (c ∷ []) cs row col

-- The loop of `lexer_tokenize`; every round reads a character.
unfoldable pub scan : ℕ → Kinds → Bytes → ℕ → ℕ → Outcome (List Token)
scan zero k bs row col = fault
scan (suc fuel) k [] row col =
    ok (record { kind = k.eof; lexeme = none; row = row; col = col } ∷ [])
scan (suc fuel) k (c ∷ cs) row col = elim (lex_one k c cs row col) [
  | skipped p ↦ scan fuel k p.rest p.row p.col
  | lexed t p ↦ scan fuel k p.rest p.row p.col >>= λ ts. ok (t ∷ ts)
  | unterminated ↦ failed
]

unfoldable pub lexer_tokenize : Bytes → InternTable → Outcome (List Token × InternTable)
lexer_tokenize source interns = do
  kinds ← intern_kinds interns
  tokens ← scan (length source + 1) kinds.0 source 1 1
  ok (tokens, kinds.1)
