-- ===== src/Parser/Grammar/Powers.antt =====
-- The numbers in the pattern of a production as src/parser/parser.c reads it.
use morphl.Prelude.{
  ℕ, ◌^◌, ◌<◌, ◌≡◌, refl, inl, inr, Bool-cases, Option, none, some, [], ◌∷◌, Bytes, ltb, ◌==◌,
  if◌then◌else◌, arith, subst, c_string,
}
use morphl.Lexer.{span, is_digit}
use morphl.Parser.Grammar.Build.{is_empty}
use morphl.Parser.Grammar.Text.{
  trim_left, digits_value, saturated, negated, unsigned_long, signed, strtoul, last_char,
}
use morphl.Parser.Grammar.Load.{quantifier, binding_power}
use morphl.Parser.Grammar.Loads.{IsQuantifier}

-- A number in range, if any.
abbrev Small : Option ℕ → Type 0
Small none = Unit
Small (some n) = n < 2 ^ 64

saturated_lt : (n : ℕ) → saturated n < 2 ^ 64
saturated_lt n = ground arith

negated_lt : (n : ℕ) → negated n < 2 ^ 64
negated_lt n = elim (Bool-cases (ltb n (2 ^ 64))) [
  | inl e ↦ rw e (omega arith)
  | inr e ↦ rw e (omega arith)
]

unsigned_long-Small :
    (sign : ℕ → ℕ) (whole text : Bytes)
    → ((n : ℕ) → sign n < 2 ^ 64)
    → Small (unsigned_long sign whole text)
unsigned_long-Small sign whole text small = elim (Bool-cases (is_empty (span is_digit text).0)) [
  | inl e ↦
      rw e (elim (Bool-cases (is_empty whole)) [ inl e' ↦ rw e' (omega arith) | inr e' ↦ rw e' tt ])
  | inr e ↦ rw e (elim (Bool-cases (is_empty (span is_digit text).1)) [
    | inl e' ↦ rw e' (small (digits_value 0 (span is_digit text).0))
    | inr e' ↦ rw e' tt
  ])
]

signed-Small : (whole text : Bytes) → Small (signed whole text)
signed-Small whole [] = unsigned_long-Small saturated whole [] saturated_lt
signed-Small whole (c ∷ cs) = elim (Bool-cases (c == 45)) [
  | inl e ↦ rw e (unsigned_long-Small negated whole cs negated_lt)
  | inr e ↦ rw e (elim (Bool-cases (c == 43)) [
    | inl e' ↦ rw e' (unsigned_long-Small saturated whole cs saturated_lt)
    | inr e' ↦ rw e' (unsigned_long-Small saturated whole (c ∷ cs) saturated_lt)
  ])
]

binding_power-Small : (text : Bytes) → Small (binding_power text)
unfolding binding_power strtoul
binding_power-Small [] = omega arith
binding_power-Small (c ∷ cs) = go (last_char cs)
  where
    go :
        (last : Option (Bytes × ℕ))
        → Small (elim last [
          | none ↦ none
          | some (digits, end) ↦ if end == 93 then strtoul digits else none
        ])
    go none = tt
    go (some (digits, end)) = elim (Bool-cases (end == 93)) [
      | inl e ↦ rw e (signed-Small (c_string digits) (trim_left (c_string digits)))
      | inr e ↦ rw e tt
    ]

pub small_power : (text : Bytes) {bp : ℕ} → binding_power text ≡ some bp → bp < 2 ^ 64
small_power text e = subst Small e (binding_power-Small text)

pub quantifier-IsQuantifier : (text : Bytes) → IsQuantifier (quantifier text).0 (quantifier text).1
quantifier-IsQuantifier [] = (omega arith, inl refl)
quantifier-IsQuantifier (c ∷ cs) = elim (Bool-cases (c == 43)) [
  | inl e ↦ rw e (omega arith, inr refl)
  | inr e ↦ rw e (elim (Bool-cases (c == 42)) [
    | inl e' ↦ rw e' (omega arith, inr refl)
    | inr e' ↦ rw e' (elim (Bool-cases (c == 63)) [
      | inl e'' ↦ rw e'' (omega arith, inl refl)
      | inr e'' ↦ rw e'' (omega arith, inl refl)
    ])
  ])
]
