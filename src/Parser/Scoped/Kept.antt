-- ===== src/Parser/Scoped/Kept.antt =====
-- `scoped_parse_untyped` of src/parser/scoped_parser.c before it types the tree, for actions of operators
-- other than `$syntax` that keep to the scope.
use morphl.Prelude.{
  ℕ, zero, suc, ◌+◌, ◌*◌, ◌≤◌, ◌<◌, ◌≡◌, refl, sym, subst, ap, ◌∙◌, inl, inr, ◌&&◌, ◌||◌,
  Bool-cases, Option, none, some, List, [], ◌∷◌, length, Bytes, codes, ◌==◌, Outcome, returns,
  fails, Post-bind, Post-if, Post-required, arith,
}
use morphl.Util.{text}
use morphl.Util.Intern.{InternTable}
use morphl.Util.Intern.Invariant.{WellFormed}
use morphl.Util.Intern.Ids.{Keeps, next}
use morphl.Ast.{Children, nil}
use morphl.Lexer.{Token, intern_kinds}
use morphl.Parser.Operators.{OperatorRow, Registered}
use morphl.Parser.Builtin.{builtin_parse_expr, one_semicolon, starts_with}
use morphl.Parser.Builtin.Parsed.{parse_expr-Parsed, shorter}
use morphl.Parser.Grammar.{Grammar}
use morphl.Parser.Grammar.AtomsEnd.{Ends}
use morphl.Parser.Grammar.Leaves.{Names}
use morphl.Parser.Grammar.Productive.{grammar_fuel}
use morphl.Parser.Grammar.Whole.{whole-Holds, all-TokensKnown}
use morphl.Parser.Scoped.{
  ScopedParser, top_is_none, with_names, is_closing_brace, skip_one_semicolon,
  skip_symbol_semicolon, scoped_parser_push_grammar, pop_entry, scoped_parser_pop_grammar,
  scoped_parser_current_grammar, builtin_statement, grammar_statements, parse_contents,
  scoped_parse_block_contents, scoped_parse_untyped,
}
use morphl.Parser.Scoped.Actions.{Inside, FilesFine, Names-Keeps, apply_preprocessor_if_any-Inside}

intern_kinds-Keeps :
    (t : InternTable) → WellFormed t → Ends (λ r. WellFormed r.1 × Keeps t r.1) (intern_kinds t)
unfolding intern_kinds
intern_kinds-Keeps t w =
    let a = next t (codes "IDENT") w in
    let b = next a.table (codes "NUMBER") a.fine in
    let c = next b.table (codes "FLOAT") b.fine in
    let d = next c.table (codes "STRING") c.fine in
    let e = next d.table (codes "SYMBOL") d.fine in
    let f = next e.table (codes "EOF") e.fine in
    rw (a.runs, b.runs, c.runs, d.runs, e.runs, f.runs)
      (Post-if (a.id == 0 || b.id == 0 || c.id == 0 || d.id == 0 || e.id == 0 || f.id == 0)
        (λ _. fails)
        λ _. returns (
          f.fine,
          λ id x h.
              f.keeps id x
                (e.keeps id x (d.keeps id x (c.keeps id x (b.keeps id x (a.keeps id x h))))),
        ))

skip_one_semicolon_le : (toks : List Token) → length (skip_one_semicolon toks) ≤ length toks
skip_one_semicolon_le [] = omega arith
skip_one_semicolon_le (tok ∷ toks) = elim (Bool-cases (one_semicolon (text tok.lexeme))) [
  | inl e ↦ rw e (omega arith)
  | inr e ↦ rw e (omega arith)
]

skip_symbol_semicolon_le :
    (symbol_kind : ℕ) (toks : List Token)
    → length (skip_symbol_semicolon symbol_kind toks) ≤ length toks
skip_symbol_semicolon_le symbol_kind [] = omega arith
skip_symbol_semicolon_le symbol_kind (tok ∷ toks) =
    elim (Bool-cases (tok.kind == symbol_kind && one_semicolon (text tok.lexeme))) [
      | inl e ↦ rw e (omega arith)
      | inr e ↦ rw e (omega arith)
    ]

-- An expression of the built-in syntax reads a token, and keeps the names.
builtin_parse_expr-Keeps :
    (registry : List Registered) (toks : List Token) (t : InternTable)
    → WellFormed t
    → Ends
        (λ r. (length r.1 < length toks) × WellFormed r.2 × Keeps t r.2)
        (builtin_parse_expr registry toks t)
unfolding builtin_parse_expr
builtin_parse_expr-Keeps registry toks t w =
    Post-bind (intern_kinds-Keeps t w) λ (k, t') (w', keeps).
      elim (parse_expr-Parsed k registry (2 * length toks + 1) 0 toks t' (omega arith) w') [
        | inl (n, rest, t'', e, parsed) ↦ rw e (
            returns
              (shorter toks t' parsed, parsed.fine, λ id x h. parsed.keeps id x (keeps id x h)))
        | inr e ↦ rw e fails
      ]

current-top :
    {T : Type 0} (p : ScopedParser T) {top : Option Grammar} {gs : List (Option Grammar)}
    → p.grammar_stack ≡ top ∷ gs
    → scoped_parser_current_grammar p ≡ top
current-top p e = rw e refl

pop-below :
    {T : Type 0} (p : ScopedParser T) {top : Option Grammar} {gs : List (Option Grammar)}
    → p.grammar_stack ≡ top ∷ gs
    → (scoped_parser_pop_grammar p).1
      ≡ record p { grammar_stack = gs; use_builtins = top_is_none gs }
pop-below p e = ap (λ stack. (pop_entry p stack).1) e

module _ {T : Type 0} (number number_float : ℕ) (grammar_file : Bytes → Option Bytes)
    (files : FilesFine grammar_file) (registry : List Registered)
    (others : OperatorRow → Children → ScopedParser T → Outcome (Children × ScopedParser T))
    (others_inside : (gs : List (Option Grammar)) (row : OperatorRow) (args : Children)
        (p : ScopedParser T)
      → Inside number number_float gs p
      → Ends (λ r. Inside number number_float gs r.1) (others row args p)) where
  abbrev In : List (Option Grammar) → ScopedParser T → Type 0
  In gs p = Inside number number_float gs p

  with_names-Inside :
      (gs : List (Option Grammar)) (p : ScopedParser T) (t : InternTable)
      → In gs p
      → Names number number_float t
      → In gs (with_names p t)
  with_names-Inside gs p t i names = record {
    top = i.top;
    stack_is = i.stack_is;
    flag_is = i.flag_is;
    productive = i.productive;
    names = names;
  }

  builtin_statement-Inside :
      (gs : List (Option Grammar)) (toks : List Token) (children : Children) (p : ScopedParser T)
      → In gs p
      → Ends
          (λ r. (length r.1 < length toks) × In gs r.2)
          (builtin_statement grammar_file registry others toks children p)
  unfolding builtin_statement
  builtin_statement-Inside gs toks children p i =
      Post-bind (builtin_parse_expr-Keeps registry toks p.stores.names i.names.fine)
        λ (stmt, rest, t) (less, w, keeps).
          Post-bind
            (apply_preprocessor_if_any-Inside number number_float grammar_file files registry others
              others_inside gs stmt (with_names p t)
              (with_names-Inside gs p t i (Names-Keeps p.stores.names t i.names w keeps)))
            λ r i'. returns (less, i')

  grammar_statements-Inside :
      (gs : List (Option Grammar)) (toks : List Token) (children : Children) (p : ScopedParser T)
      → In gs p
      → Ends (λ r. In gs r.1) (grammar_statements grammar_file registry others toks children p)
  unfolding grammar_statements grammar_fuel
  grammar_statements-Inside gs toks children p i =
      Post-bind (Post-required (scoped_parser_current_grammar p) (λ g e. e)) λ g e.
        let top_is : i.top ≡ some g = sym (current-top p i.stack_is) ∙ e in
        elim (whole-Holds number number_float (λ s. Unit) Unit g registry
          (grammar_fuel g (length toks)) 0 toks p.stores.names (i.productive g top_is) (λ _. tt)
          (omega arith) i.names
          (all-TokensKnown number number_float (λ s. Unit) Unit g registry toks (λ k tok e. tt))) [
            | inl (_, e') ↦ rw e' fails
            | inr (parsed, t, runs, names, _) ↦ rw runs (
                Post-bind (Post-required parsed (λ root e. e))
                  λ root _. returns (with_names-Inside gs p t i names))
          ]

  parse_contents-Inside :
      (gs : List (Option Grammar)) (fuel symbol_kind eof_kind : ℕ) (toks : List Token)
      (children : Children) (p : ScopedParser T)
      → length toks < fuel
      → In gs p
      → Ends
          (λ r. In gs r.1)
          (parse_contents grammar_file registry others fuel symbol_kind eof_kind toks children p)
  unfolding parse_contents
  parse_contents-Inside gs zero symbol_kind eof_kind toks children p f i = elim f [ ]
  parse_contents-Inside gs (suc fuel) symbol_kind eof_kind [] children p f i = returns i
  parse_contents-Inside gs (suc fuel) symbol_kind eof_kind (tok ∷ toks) children p f i =
      Post-if (tok.kind == eof_kind) (λ _. returns i)
        λ _.
          Post-if (is_closing_brace symbol_kind tok) (λ _. returns i)
            λ _.
              Post-if p.use_builtins
                (λ _.
                  Post-bind (builtin_statement-Inside gs (tok ∷ toks) children p i)
                    λ (children', rest, p') (less, i').
                      parse_contents-Inside gs fuel symbol_kind eof_kind
                        (skip_symbol_semicolon symbol_kind rest) children' p'
                        (omega (arith, less, skip_symbol_semicolon_le symbol_kind rest)) i')
                λ _.
                  Post-if (starts_with 36 (text tok.lexeme))
                    (λ _.
                      Post-bind (builtin_statement-Inside gs (tok ∷ toks) children p i)
                        λ (children', rest, p') (less, i').
                          parse_contents-Inside gs fuel symbol_kind eof_kind
                            (skip_one_semicolon rest) children' p'
                            (omega (arith, less, skip_one_semicolon_le rest)) i')
                    (λ _. grammar_statements-Inside gs (tok ∷ toks) children p i)

  block_contents-Inside :
      (gs : List (Option Grammar)) (toks : List Token) (p : ScopedParser T)
      → In gs p
      → Ends (λ r. In gs r.1) (scoped_parse_block_contents grammar_file registry others toks p)
  unfolding scoped_parse_block_contents
  block_contents-Inside gs toks p i =
      let a = next p.stores.names (codes "SYMBOL") i.names.fine in
      let b = next a.table (codes "EOF") a.fine in
      rw (a.runs, b.runs)
        (parse_contents-Inside gs (length toks + 1) a.id b.id toks nil (with_names p b.table)
          (omega arith)
          (with_names-Inside gs p b.table i (
            Names-Keeps p.stores.names b.table i.names b.fine
              (λ id x h. b.keeps id x (a.keeps id x h)))))

-- If the files that `$syntax` loads can be read without leaving them and have grammars that end, the
-- names are well formed and have ids for `NUMBER` and `FLOAT`, and the actions of the other operators
-- end and change nothing of the stack but the entry of the scope, which does not hold of a file that
-- imports itself, then the parser up to the typing of the tree ends, and if it gives a tree, it leaves
-- the stack of grammars as it was, with the flag that fits it.
scoped_parse_untyped-stack :
    {T : Type 0} (number number_float : ℕ) (grammar_file : Bytes → Option Bytes)
    (registry : List Registered)
    (others : OperatorRow → Children → ScopedParser T → Outcome (Children × ScopedParser T))
    (toks : List Token) (p : ScopedParser T)
    → FilesFine grammar_file
    → Names number number_float p.stores.names
    → ((gs : List (Option Grammar)) (row : OperatorRow) (args : Children) (q : ScopedParser T)
        → Inside number number_float gs q
        → Ends (λ r. Inside number number_float gs r.1) (others row args q))
    → Ends
        (λ (root, p').
          (p'.grammar_stack ≡ p.grammar_stack)
          × (p'.use_builtins ≡ top_is_none p.grammar_stack)
          × Names number number_float p'.stores.names)
        (scoped_parse_untyped grammar_file registry others toks p)
unfolding scoped_parse_untyped
scoped_parse_untyped-stack {T} number number_float grammar_file registry others toks p files names
      inside =
    let start : Inside number number_float p.grammar_stack (scoped_parser_push_grammar p none) =
      record {
        top = none;
        stack_is = refl;
        flag_is = refl;
        productive = λ g e. cc;
        names = names;
      } in
    Post-bind
      (block_contents-Inside number number_float grammar_file files registry others inside
        p.grammar_stack toks (scoped_parser_push_grammar p none) start)
      λ (children, p') i. returns (
        ap (λ (q : ScopedParser T). q.grammar_stack) (pop-below p' i.stack_is),
        ap (λ (q : ScopedParser T). q.use_builtins) (pop-below p' i.stack_is),
        subst (λ (q : ScopedParser T). Names number number_float q.stores.names)
            (sym (pop-below p' i.stack_is)) i.names,
      )
