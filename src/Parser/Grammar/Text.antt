-- ===== src/Parser/Grammar/Text.antt =====
-- src/parser/parser.c: the reading of a grammar's text, character by character. `isspace`, `isalpha`,
-- `isalnum` and `strtoul` are those of the C locale.
use mathlib.Core.Option
use morphl.Prelude.{
  ℕ, suc, ◌+◌, ◌*◌, ◌-◌, ◌%◌, ◌^◌, Bool, true, false, ◌&&◌, Option, none, some, List, [], ◌∷◌,
  Bytes, c_string, ltb, ◌==◌, if◌then◌else◌,
}
use morphl.Lexer.{span, is_digit, starts_word, continues_word}
use morphl.Parser.Grammar.Build.{isspace, not_space, is_empty}

abbrev pub trim_left : Bytes → Bytes
trim_left text = (span isspace text).1

unfoldable pub trim_right : Bytes → Bytes
trim_right [] = []
trim_right (c ∷ cs) =
    let rest = trim_right cs in if is_empty rest && isspace c then [] else c ∷ rest

abbrev pub trim_whitespace : Bytes → Bytes
trim_whitespace text = trim_right (trim_left text)

-- The text starts with `prefix`: `strncmp` on a text that is long enough.
unfoldable pub has_prefix : Bytes → Bytes → Bool
has_prefix [] text = true
has_prefix (c ∷ cs) [] = false
has_prefix (c ∷ cs) (d ∷ ds) = c == d && has_prefix cs ds

-- Where `needle` stands first.
unfoldable pub strstr : Bytes → Bytes → Option ℕ
strstr needle [] = none
strstr needle (c ∷ cs) =
    let later = Option.map suc (strstr needle cs) in
    if has_prefix needle (c ∷ cs) then some 0 else later

abbrev pub unescaped : ℕ → ℕ
unescaped c = if c == 110 then 10 else if c == 116 then 9 else c

abbrev pub with_char : ℕ → Option (Bytes × Bytes) → Option (Bytes × Bytes)
with_char c none = none
with_char c (some (body, rest)) = some (c ∷ body, rest)

-- A quoted literal behind its opening quote, and what stands behind its closing quote.
unfoldable pub quoted : Bytes → Option (Bytes × Bytes)
quoted [] = none
quoted (c ∷ []) = if c == 34 then some ([], []) else none
quoted (c ∷ (e ∷ cs)) =
    let escaped = with_char (unescaped e) (quoted cs) in
    let plain = with_char c (quoted (e ∷ cs)) in
    if c == 34 then some ([], e ∷ cs) else if c == 92 then escaped else plain

-- `parse_literal`, with whether the literal was quoted. It is called on a text that does not start
-- with white space.
unfoldable pub parse_literal : Bytes → Option (Bool × Bytes × Bytes)
parse_literal [] = none
parse_literal (c ∷ cs) =
    let (word, rest) = span not_space (c ∷ cs) in
    if c == 34
    then Option.map (λ (body, behind). (true, body, behind)) (quoted cs)
    else if is_empty word
    then none
    else some (false, word, rest)

-- What a group has up to the parenthesis that closes it, and what stands behind that.
unfoldable pub group_body : ℕ → Bytes → Option (Bytes × Bytes)
group_body depth [] = none
group_body depth (c ∷ cs) =
    let inside = with_char c (group_body depth cs) in
    let opened = with_char c (group_body (depth + 1) cs) in
    let closed = with_char c (group_body (depth - 1) cs) in
    if c == 40
    then opened
    else if c == 41
    then (if depth == 1 then some ([], cs) else closed)
    else inside

-- `ident_like`.
abbrev pub ident_like : Bytes → Bool
ident_like [] = false
ident_like (c ∷ cs) = starts_word c && is_empty (span continues_word cs).1

unfoldable pub digits_value : ℕ → Bytes → ℕ
digits_value acc [] = acc
digits_value acc (c ∷ cs) = digits_value (acc * 10 + (c - 48)) cs

-- `ULONG_MAX` when out of range.
abbrev pub saturated : ℕ → ℕ
saturated n = if ltb n (2 ^ 64) then n else 2 ^ 64 - 1

abbrev pub negated : ℕ → ℕ
negated n = if ltb n (2 ^ 64) then (2 ^ 64 - n) % 2 ^ 64 else 2 ^ 64 - 1

-- The digits of a number with the base 10, and whether they are the whole text; a text without digits
-- is read up to its start.
abbrev pub unsigned_long : (ℕ → ℕ) → Bytes → Bytes → Option ℕ
unsigned_long sign whole text =
    let (digits, rest) = span is_digit text in
    if is_empty digits
    then (if is_empty whole then some 0 else none)
    else if is_empty rest
    then some (sign (digits_value 0 digits))
    else none

abbrev pub signed : Bytes → Bytes → Option ℕ
signed whole [] = unsigned_long saturated whole []
signed whole (c ∷ cs) =
    if c == 45
    then unsigned_long negated whole cs
    else if c == 43
    then unsigned_long saturated whole cs
    else unsigned_long saturated whole (c ∷ cs)

-- `strtoul`, if it reads the whole C string.
unfoldable pub strtoul : Bytes → Option ℕ
strtoul buffer = let whole = c_string buffer in signed whole (trim_left whole)

-- The last character, and those before it.
unfoldable pub last_char : Bytes → Option (Bytes × ℕ)
last_char [] = none
last_char (c ∷ []) = some ([], c)
last_char (c ∷ (d ∷ cs)) = Option.map (λ (before, end). (c ∷ before, end)) (last_char (d ∷ cs))

abbrev pub segment : ℕ → List Bytes → List Bytes
segment c [] = (c ∷ []) ∷ []
segment c (s ∷ ss) = (c ∷ s) ∷ ss

-- The text between the bars.
unfoldable pub segments : Bytes → List Bytes
segments [] = [] ∷ []
segments (c ∷ cs) = let rest = segments cs in if c == 124 then [] ∷ rest else segment c rest
