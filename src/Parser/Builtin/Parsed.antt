-- ===== src/Parser/Builtin/Parsed.antt =====
-- What src/parser/builtin_parser.c parses: the tree spells the tokens that were read.
use morphl.Prelude.{
  ℕ, zero, suc, ◌+◌, ◌*◌, ◌<◌, ◌≡◌, refl, sym, ap, ◌∙◌, subst, ◌⊎◌, inl, inr, Bool, true, false,
  ◌&&◌, ◌||◌, Bool-cases, none, some, List, [], ◌∷◌, ◌++◌, append_assoc, length, length-append,
  Bytes, ltb, ◌==◌, if◌then◌else◌, Outcome, ok, failed, ◌>>=◌, arith,
}
use morphl.Util.{Str, text}
use morphl.Util.Intern.{InternTable, interns_intern}
use morphl.Util.Intern.Invariant.{WellFormed}
use morphl.Util.Intern.Ids.{Next, next, Keeps}
use morphl.Ast.{AstKind, AstNode, Children, node, nil, cons, literal, ident}
use morphl.Lexer.{Token, Kinds}
use morphl.Parser.Operators.{Registered}
use morphl.Parser.Builtin.{
  max_depth, is_builtin_op, ends_arguments, op_kind, parse_leaf, parse_expr, parse_arguments,
}
use morphl.Parser.Builtin.Spelling.{
  Spells, spells_literal, spells_ident, spells_operator, SpellAll, spell_none, spell_more,
  Spells-Keeps, lexemes, lexemes-append,
}

-- The parser has read some tokens, at least one, and the tree spells them.
pub record Parsed (toks : List Token) (t : InternTable) (n : AstNode) (rest : List Token)
    (t' : InternTable) : Type 0 where
  pub read : List Token
  pub splits : read ++ rest ≡ toks
  pub some_token : 0 < length read
  pub spells : Spells t' n (lexemes read)
  pub fine : WellFormed t'
  pub keeps : Keeps t t'

record ParsedAll (toks : List Token) (t : InternTable) (cs : Children) (rest : List Token)
    (t' : InternTable) : Type 0 where
  read : List Token
  splits : read ++ rest ≡ toks
  spells : SpellAll t' cs (lexemes read)
  fine : WellFormed t'
  keeps : Keeps t t'

abbrev Expr : List Token → InternTable → Outcome (AstNode × List Token × InternTable) → Type 0
Expr toks t r =
    ((n : AstNode) × (rest : List Token) × (t' : InternTable) × (r ≡ ok (n, rest, t'))
      × Parsed toks t n rest t')
    ⊎ (r ≡ failed)

abbrev Arguments : List Token → InternTable → Outcome (Children × List Token × InternTable) → Type 0
Arguments toks t r =
    ((cs : Children) × (rest : List Token) × (t' : InternTable) × (r ≡ ok (cs, rest, t'))
      × ParsedAll toks t cs rest t')
    ⊎ (r ≡ failed)

if-Expr :
    (toks : List Token) (t : InternTable) (b : Bool)
    (x y : Outcome (AstNode × List Token × InternTable))
    → (b ≡ true → Expr toks t x)
    → (b ≡ false → Expr toks t y)
    → Expr toks t (if b then x else y)
if-Expr toks t true x y f g = f refl
if-Expr toks t false x y f g = g refl

op_lexeme :
    (tok : Token) (k : Kinds) → is_builtin_op tok k ≡ true → (s : Bytes) × (tok.lexeme ≡ some s)
unfolding is_builtin_op
op_lexeme tok k h = by_lexeme tok.lexeme refl (second (tok.kind == k.ident) _ _ h)
  where
    second : (a b c : Bool) → (a && b && c) ≡ true → b ≡ true
    second true true c h = refl
    second true false c h = cc
    second false b c h = cc

    by_lexeme :
        (l : Str)
        → tok.lexeme ≡ l
        → ltb 1 (length (text tok.lexeme)) ≡ true
        → (s : Bytes) × (tok.lexeme ≡ some s)
    by_lexeme none e h = absurd (
        let short : ltb 1 (length (text none)) ≡ true =
          subst (λ l. ltb 1 (length (text l)) ≡ true) e h in
        cc)
    by_lexeme (some s) e h = (s, e)

leaf-Expr :
    (k : Kinds) (tok : Token) (toks : List Token) (t : InternTable)
    → WellFormed t
    → Expr (tok ∷ toks) t (parse_leaf k tok >>= λ leaf. ok (leaf, toks, t))
unfolding parse_leaf
leaf-Expr k tok toks t w =
    elim (Bool-cases (tok.kind == k.number || tok.kind == k.number_float || tok.kind == k.string)) [
      | inl value ↦
          rw (value, parse_leaf)
            (inl (
              node literal tok.kind tok.lexeme nil,
              toks,
              t,
              refl,
              one (spells_literal tok.kind tok.lexeme),
            ))
      | inr other ↦ elim (Bool-cases (tok.kind == k.ident)) [
        | inl name ↦
            rw (other, name, parse_leaf)
              (inl (node ident 0 tok.lexeme nil, toks, t, refl, one (spells_ident tok.lexeme)))
        | inr neither ↦ rw (other, neither, parse_leaf) (inr refl)
      ]
    ]
  where
    one : {n : AstNode} → Spells t n (tok.lexeme ∷ []) → Parsed (tok ∷ toks) t n toks t
    one s = record {
      read = tok ∷ [];
      splits = refl;
      some_token = omega arith;
      spells = s;
      fine = w;
      keeps = λ id x h. h;
    }

no_arguments : (toks : List Token) (t : InternTable) → WellFormed t → ParsedAll toks t nil toks t
no_arguments toks t w = record {
  read = [];
  splits = refl;
  spells = spell_none;
  fine = w;
  keeps = λ id x h. h;
}

-- An argument and those behind it.
more_arguments :
    (toks : List Token) (t : InternTable) {c : AstNode} {rest : List Token} {t₁ : InternTable}
    {cs : Children} {end : List Token} {t₂ : InternTable}
    → Parsed toks t c rest t₁
    → ParsedAll rest t₁ cs end t₂
    → ParsedAll toks t (cons c cs) end t₂
more_arguments toks t {c} {rest} {t₁} {cs} {end} {t₂} p q = record {
  read = p.read ++ q.read;
  splits = append_assoc p.read q.read end ∙ ap (λ x. p.read ++ x) q.splits ∙ p.splits;
  spells =
      subst (SpellAll t₂ (cons c cs)) (sym (lexemes-append p.read q.read)) (
        spell_more c cs (lexemes p.read) (lexemes q.read) (Spells-Keeps q.keeps p.spells) q.spells);
  fine = q.fine;
  keeps = λ id x h. q.keeps id x (p.keeps id x h);
}

-- An operator and its arguments.
operator-Parsed :
    (tok : Token) (toks : List Token) (t : InternTable) (s : Bytes) (a : Next t s) (kind : AstKind)
    {cs : Children} {rest : List Token} {t' : InternTable}
    → tok.lexeme ≡ some s
    → 0 < a.id
    → ParsedAll toks a.table cs rest t'
    → Parsed (tok ∷ toks) t (node kind a.id none cs) rest t'
operator-Parsed tok toks t s a kind {cs} {rest} {t'} e positive q = record {
  read = tok ∷ q.read;
  splits = ap (◌∷◌ tok) q.splits;
  some_token = omega arith;
  spells =
      subst (λ l. Spells t' (node kind a.id none cs) (l ∷ lexemes q.read)) (sym e)
        (spells_operator kind a.id s cs (lexemes q.read) (q.keeps a.id s (a.named positive))
          q.spells);
  fine = q.fine;
  keeps = λ id x h. q.keeps id x (a.keeps id x h);
}

pub shorter :
    (toks : List Token) (t : InternTable) {n : AstNode} {rest : List Token} {t' : InternTable}
    → Parsed toks t n rest t'
    → length rest < length toks
shorter toks t {rest = rest} p =
    omega (arith, p.some_token, ap length p.splits, length-append {0} p.read rest)

module _ (k : Kinds) (registry : List Registered) where
  operator-Expr :
      (tok : Token) (toks : List Token) (t : InternTable)
      (parse : InternTable → Outcome (Children × List Token × InternTable))
      → WellFormed t
      → is_builtin_op tok k ≡ true
      → ((t₁ : InternTable) → WellFormed t₁ → Arguments toks t₁ (parse t₁))
      → Expr (tok ∷ toks) t (
          interns_intern t tok.lexeme >>= λ op.
          (if op.0 == 0
            then failed
            else (parse op.1 >>= λ r. ok (node (op_kind registry op.0) op.0 none r.0, r.1, r.2))))
  operator-Expr tok toks t parse w is_op arguments =
      let (s, e) = op_lexeme tok k is_op in
      let a = next t s w in
      let by_args : Expr (tok ∷ toks) t (
          if a.id == 0
          then failed
          else (parse a.table >>= λ r. ok (node (op_kind registry a.id) a.id none r.0, r.1, r.2))) =
        elim (Bool-cases (a.id == 0)) [
          | inl full ↦ inr (rw full refl)
          | inr named ↦ elim (arguments a.table a.fine) [
            | inr fails ↦ inr (rw (named, fails) refl)
            | inl (cs, rest, t', runs, q) ↦ inl (
              node (op_kind registry a.id) a.id none cs,
              rest,
              t',
              rw (named, runs) refl,
              operator-Parsed tok toks t s a (op_kind registry a.id) e (ground (arith, named)) q,
            )
          ]
        ] in
      subst
        (λ x. Expr (tok ∷ toks) t (
          x >>= λ op.
          (if op.0 == 0
            then failed
            else (parse op.1 >>= λ r. ok (node (op_kind registry op.0) op.0 none r.0, r.1, r.2)))))
        (sym (ap (interns_intern t) e ∙ a.runs)) by_args

  mutual
    unfolding parse_expr parse_arguments

    parse_expr-Expr :
        (fuel depth : ℕ) (toks : List Token) (t : InternTable)
        → 2 * length toks < fuel
        → WellFormed t
        → Expr toks t (parse_expr k registry fuel depth toks t)
    parse_expr-Expr zero depth toks t h w = absurd (omega (arith, h))
    parse_expr-Expr (suc fuel) depth [] t h w = inr refl
    parse_expr-Expr (suc fuel) depth (tok ∷ toks) t h w =
        let enough : 2 * length toks + 1 < fuel = omega (arith, h) in
        if-Expr (tok ∷ toks) t (ltb max_depth depth) _ _ (λ _. inr refl)
          (λ _.
            if-Expr (tok ∷ toks) t (tok.kind == k.eof) _ _ (λ _. inr refl)
              (λ _.
                if-Expr (tok ∷ toks) t (is_builtin_op tok k) _ _
                  (λ is_op.
                    operator-Expr tok toks t (parse_arguments k registry fuel depth toks) w is_op
                      (λ t₁ w₁. parse_arguments-Arguments fuel depth toks t₁ enough w₁))
                  (λ _. leaf-Expr k tok toks t w)))

    parse_arguments-Arguments :
        (fuel depth : ℕ) (toks : List Token) (t : InternTable)
        → 2 * length toks + 1 < fuel
        → WellFormed t
        → Arguments toks t (parse_arguments k registry fuel depth toks t)
    parse_arguments-Arguments zero depth toks t h w = absurd (omega (arith, h))
    parse_arguments-Arguments (suc fuel) depth [] t h w =
        inl (nil, [], t, refl, no_arguments [] t w)
    parse_arguments-Arguments (suc fuel) depth (tok ∷ toks) t h w =
        elim (Bool-cases (ends_arguments tok k)) [
          | inl ends ↦ inl (nil, tok ∷ toks, t, rw ends refl, no_arguments (tok ∷ toks) t w)
          | inr goes_on ↦
              elim (parse_expr-Expr fuel (depth + 1) (tok ∷ toks) t (omega (arith, h)) w) [
                | inr fails ↦ inr (rw (goes_on, fails) refl)
                | inl (c, rest, t₁, runs, p) ↦
                    let less = shorter (tok ∷ toks) t p in
                    elim (parse_arguments-Arguments fuel depth rest t₁ (omega (arith, h, less))
                      p.fine) [
                        | inr fails ↦ inr (rw (goes_on, runs) (rw fails refl))
                        | inl (cs, end, t₂, runs₂, q) ↦ inl (
                          cons c cs,
                          end,
                          t₂,
                          rw (goes_on, runs) (rw runs₂ refl),
                          more_arguments (tok ∷ toks) t p q,
                        )
                      ]
              ]
        ]

  -- With fuel for twice the tokens, the parser of operator expressions ends. It fails, or it has
  -- read at least one token and gives a tree that spells exactly the tokens that it has read: leaves
  -- their lexemes, operators the names of their symbols. The intern table stays well-formed and
  -- keeps its ids.
  pub parse_expr-Parsed :
      (fuel depth : ℕ) (toks : List Token) (t : InternTable)
      → 2 * length toks < fuel
      → WellFormed t
      → ((n : AstNode) × (rest : List Token) × (t' : InternTable) × (parse_expr k registry fuel
              depth toks t
            ≡ ok (n, rest, t'))
          × Parsed toks t n rest t')
        ⊎ (parse_expr k registry fuel depth toks t ≡ failed)
  parse_expr-Parsed fuel depth toks t h w = parse_expr-Expr fuel depth toks t h w
