-- ===== src/Parser/Grammar/Shorter.antt =====
-- How much of a text the readers of src/parser/parser.c leave.
use mathlib.Core.Option
use morphl.Prelude.{
  ℕ, suc, ◌+◌, ◌-◌, ◌≤◌, ◌<◌, inl, inr, Bool, true, ◌&&◌, Bool-cases, Option, none, some, [], ◌∷◌,
  length, Bytes, ◌==◌, arith,
}
use morphl.Lexer.{span}
use morphl.Parser.Grammar.Build.{isspace, not_space, is_empty}
use morphl.Parser.Grammar.Known.{span_le}
use morphl.Parser.Grammar.Text.{
  trim_right, trim_whitespace, with_char, unescaped, quoted, parse_literal, group_body,
}
use morphl.Parser.Grammar.Load.{quantifier, group_start}

-- A text behind another, no longer than `n`.
abbrev pub Fits : ℕ → Option (Bytes × Bytes) → Type 0
Fits n none = Unit
Fits n (some (text, rest)) = length text + length rest ≤ n

trim_right_le : (text : Bytes) → length (trim_right text) ≤ length text
unfolding trim_right
trim_right_le [] = omega arith
trim_right_le (c ∷ cs) = elim (Bool-cases (is_empty (trim_right cs) && isspace c)) [
  | inl e ↦ rw e (omega arith)
  | inr e ↦ rw e (omega (arith, trim_right_le cs))
]

pub trim_whitespace_le : (text : Bytes) → length (trim_whitespace text) ≤ length text
trim_whitespace_le text = omega (arith, trim_right_le (span isspace text).1, span_le isspace text)

with_char-Fits : (c n : ℕ) (r : Option (Bytes × Bytes)) → Fits n r → Fits (suc n) (with_char c r)
with_char-Fits c n none h = tt
with_char-Fits c n (some (text, rest)) h = omega arith

Fits-weaken : (n m : ℕ) (r : Option (Bytes × Bytes)) → n ≤ m → Fits n r → Fits m r
Fits-weaken n m none le h = tt
Fits-weaken n m (some (text, rest)) le h = omega arith

pub quoted-Fits : (text : Bytes) → Fits (length text) (quoted text)
unfolding quoted
quoted-Fits [] = tt
quoted-Fits (c ∷ []) = elim (Bool-cases (c == 34)) [ inl e ↦ rw e (omega arith) | inr e ↦ rw e tt ]
quoted-Fits (c ∷ (e ∷ cs)) = elim (Bool-cases (c == 34)) [
  | inl quote ↦ rw quote (omega arith)
  | inr other ↦ rw other (elim (Bool-cases (c == 92)) [
    | inl slash ↦ rw slash (
        Fits-weaken (suc (length cs)) _ (with_char (unescaped e) (quoted cs)) (omega arith)
          (with_char-Fits (unescaped e) (length cs) (quoted cs) (quoted-Fits cs)))
    | inr plain ↦
        rw plain (with_char-Fits c (suc (length cs)) (quoted (e ∷ cs)) (quoted-Fits (e ∷ cs)))
  ])
]

-- The group and what follows are shorter than the text that they are read from.
abbrev pub FitsBelow : ℕ → Option (Bytes × Bytes) → Type 0
FitsBelow n none = Unit
FitsBelow n (some (text, rest)) = length text + length rest < n

with_char-FitsBelow :
    (c n : ℕ) (r : Option (Bytes × Bytes)) → FitsBelow n r → FitsBelow (suc n) (with_char c r)
with_char-FitsBelow c n none h = tt
with_char-FitsBelow c n (some (text, rest)) h = omega arith

pub group_body-FitsBelow :
    (depth : ℕ) (text : Bytes) → FitsBelow (length text) (group_body depth text)
unfolding group_body
group_body-FitsBelow depth [] = tt
group_body-FitsBelow depth (c ∷ cs) = elim (Bool-cases (c == 40)) [
  | inl e ↦ rw e (
      with_char-FitsBelow c (length cs) (group_body (depth + 1) cs)
        (group_body-FitsBelow (depth + 1) cs))
  | inr e ↦ rw e (elim (Bool-cases (c == 41)) [
    | inl closing ↦ rw closing (elim (Bool-cases (depth == 1)) [
      | inl last ↦ rw last (omega arith)
      | inr inner ↦ rw inner (
          with_char-FitsBelow c (length cs) (group_body (depth - 1) cs)
            (group_body-FitsBelow (depth - 1) cs))
    ])
    | inr other ↦
        rw other
          (with_char-FitsBelow c (length cs) (group_body depth cs) (group_body-FitsBelow depth cs))
  ])
]

-- A word or a quoted literal is read, and the rest is shorter.
abbrev pub LeavesLess : ℕ → Option (Bool × Bytes × Bytes) → Type 0
LeavesLess n none = Unit
LeavesLess n (some (was_quoted, raw, rest)) = length rest < n

quoted-LeavesLess :
    (n : ℕ) (r : Option (Bytes × Bytes))
    → Fits n r
    → LeavesLess (suc n) (Option.map (λ (body, behind). (true, body, behind)) r)
quoted-LeavesLess n none h = tt
quoted-LeavesLess n (some (text, rest)) h = omega arith

pub parse_literal-LeavesLess : (text : Bytes) → LeavesLess (length text) (parse_literal text)
unfolding parse_literal span
parse_literal-LeavesLess [] = tt
parse_literal-LeavesLess (c ∷ cs) = elim (Bool-cases (c == 34)) [
  | inl quote ↦ rw quote (quoted-LeavesLess (length cs) (quoted cs) (quoted-Fits cs))
  | inr other ↦ rw other (elim (Bool-cases (isspace c)) [
    | inl space ↦ rw space tt
    | inr word ↦ rw word (omega (arith, span_le not_space cs))
  ])
]

pub quantifier_le : (text : Bytes) → length (quantifier text).2 ≤ length text
quantifier_le [] = omega arith
quantifier_le (c ∷ cs) = ground arith

abbrev pub Behind : ℕ → Option Bytes → Type 0
Behind n none = Unit
Behind n (some rest) = length rest < n

pub group_start-Behind : (text : Bytes) → Behind (length text) (group_start text)
group_start-Behind [] = tt
group_start-Behind (c ∷ []) = tt
group_start-Behind (c ∷ (d ∷ cs)) = elim (Bool-cases (c == 36 && d == 40)) [
  | inl e ↦ rw e (omega arith)
  | inr e ↦ rw e tt
]
