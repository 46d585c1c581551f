-- ===== src/Parser/Scoped.antt =====
-- src/parser/scoped_parser.c: the parser that reads statements with the built-in syntax or with the
-- grammar of the scope, and runs the preprocessor actions of operators; with the action of `$syntax`
-- and `unquote_literal` of src/parser/operators.c. The typing pass that `scoped_parse_ast` ends with
-- is left out, and so is what a call that fails has interned.
pub mod Actions
pub mod Syntax
pub mod Kept
use morphl.Prelude.{
  ℕ, zero, suc, ◌+◌, Bool, true, false, not, ◌&&◌, ◌||◌, Option, none, some, List, [], ◌∷◌, length,
  Bytes, bytes_eq, c_string, codes, leb, ◌==◌, if◌then◌else◌, Outcome, ok, fault, required, ◌>>=◌,
}
use morphl.Util.{Str, text}
use morphl.Util.Intern.{InternTable, interns_intern, interns_lookup}
use morphl.Ast.{
  AstKind, AstNode, Children, null, node, nil, cons, snoc, literal, group, builtin, file, kind_code,
}
use morphl.Lexer.{Token}
use morphl.Parser.Operators.{OperatorRow, Registered, operator_info_lookup}
use morphl.Parser.Builtin.{builtin_parse_expr, one_semicolon, starts_with}
use morphl.Parser.Grammar.{Grammar}
use morphl.Parser.Grammar.Build.{append}
use morphl.Parser.Grammar.Load.{Stores, grammar_load_file}
use morphl.Parser.Grammar.Productive.{grammar_fuel}
use morphl.Parser.Grammar.Text.{last_char}
use morphl.Parser.Grammar.Tree.{grammar_parse_ast}

-- `ScopedParserContext`, the top of the stack first. `none` is the entry of a scope without a grammar.
pub record ScopedParser (T : Type 0) : Type 0 where
  pub grammar_stack : List (Option Grammar)
  pub use_builtins : Bool
  pub stores : Stores
  pub type_context : T

abbrev pub is_none : Option Grammar → Bool
is_none none = true
is_none (some g) = false

-- What `use_builtins` is for a stack.
abbrev pub top_is_none : List (Option Grammar) → Bool
top_is_none [] = true
top_is_none (g ∷ gs) = is_none g

abbrev pub tail_stack : List (Option Grammar) → List (Option Grammar)
tail_stack [] = []
tail_stack (g ∷ gs) = gs

-- The text between the quotes of a literal, if it fits in the buffer.
abbrev pub between_quotes : Bytes → Option Bytes
between_quotes [] = none
between_quotes (c ∷ cs) = elim (last_char cs) [
  | none ↦ none
  | some (body, end) ↦
      if c == 34 && end == 34 && leb (length body + 1) 512 then some (c_string body) else none
]

unfoldable pub unquote_literal : AstNode → Option Bytes
unquote_literal (node literal op (some s) children) = between_quotes s
unquote_literal _ = none

-- The path of `$syntax`, if that is its only argument.
abbrev pub syntax_path : Children → Option Bytes
syntax_path (cons arg nil) = unquote_literal arg
syntax_path _ = none

abbrev pub one_brace : Bytes → Bool
one_brace (c ∷ []) = c == 125
one_brace _ = false

abbrev pub is_closing_brace : ℕ → Token → Bool
is_closing_brace symbol_kind tok = tok.kind == symbol_kind && one_brace (text tok.lexeme)

-- An optional semicolon of any kind is skipped, and one that is a symbol.
abbrev pub skip_one_semicolon : List Token → List Token
skip_one_semicolon [] = []
skip_one_semicolon (tok ∷ toks) = if one_semicolon (text tok.lexeme) then toks else tok ∷ toks

abbrev pub skip_symbol_semicolon : ℕ → List Token → List Token
skip_symbol_semicolon symbol_kind [] = []
skip_symbol_semicolon symbol_kind (tok ∷ toks) =
    if tok.kind == symbol_kind && one_semicolon (text tok.lexeme) then toks else tok ∷ toks

-- The operators whose children stand in the place of the node.
abbrev pub is_spread : InternTable → ℕ → Bool
is_spread t op =
    not (op == 0)
    && (bytes_eq (text (interns_lookup t op)) (codes "$spread")
        || bytes_eq (text (interns_lookup t op)) (codes "$$spread"))

abbrev pub spread_root : InternTable → Children → AstNode → Children
spread_root t children (node builtin op value cs) =
    if is_spread t op then append children cs else snoc children (node builtin op value cs)
spread_root t children root = snoc children root

abbrev pub kept_child : Children → Bool → AstNode → Children
kept_child children keep stmt = if keep then snoc children stmt else children

-- The root: a file, unless there is one child that is no group.
abbrev pub file_root : Children → AstNode
file_root (cons (node group op value cs) nil) = node file 0 none cs
file_root (cons c nil) = c
file_root cs = node file 0 none cs

abbrev pub with_names : {T : Type 0} → ScopedParser T → InternTable → ScopedParser T
with_names p t = record p { stores = record p.stores { names = t } }

module _ {T : Type 0} where
  abbrev pub scoped_parser_push_grammar : ScopedParser T → Option Grammar → ScopedParser T
  scoped_parser_push_grammar p g = record p {
    grammar_stack = g ∷ p.grammar_stack;
    use_builtins = is_none g;
  }

  -- Popping an empty stack fails and changes nothing.
  abbrev pub pop_entry : ScopedParser T → List (Option Grammar) → Bool × ScopedParser T
  pop_entry p [] = (false, p)
  pop_entry p (g ∷ gs) = (true, record p { grammar_stack = gs; use_builtins = top_is_none gs })

  abbrev pub scoped_parser_pop_grammar : ScopedParser T → Bool × ScopedParser T
  scoped_parser_pop_grammar p = pop_entry p p.grammar_stack

  abbrev pub scoped_parser_current_grammar : ScopedParser T → Option Grammar
  scoped_parser_current_grammar p = elim p.grammar_stack [ [] ↦ none | g ∷ gs ↦ g ]

  -- The grammar of the current scope, or of the first one.
  abbrev pub replaced : ScopedParser T → Option Grammar × Stores → Bool × ScopedParser T
  replaced p (none, s) = (false, record p { stores = s })
  replaced p (some g, s) = (
    true,
    record p {
      grammar_stack = some g ∷ tail_stack p.grammar_stack;
      use_builtins = false;
      stores = s;
    },
  )

  -- `grammar_file` is the text of the file that a path stands for in the source, if it can be read.
  module _ (grammar_file : Bytes → Option Bytes) where
    unfoldable pub scoped_parser_replace_grammar :
        ScopedParser T → Bytes → Outcome (Bool × ScopedParser T)
    scoped_parser_replace_grammar p path = elim (grammar_file path) [
      | none ↦ ok (false, p)
      | some contents ↦ grammar_load_file contents p.stores >>= λ r. ok (replaced p r)
    ]

    -- Whether the grammar could be loaded does not matter.
    unfoldable pub pp_action_syntax : Children → ScopedParser T → Outcome (ScopedParser T)
    pp_action_syntax args p = elim (syntax_path args) [
      | none ↦ ok p
      | some path ↦ scoped_parser_replace_grammar p path >>= λ r. ok r.1
    ]

    -- The other actions of the table, `$import` above all, on their row and arguments.
    module _ (registry : List Registered)
        (others : OperatorRow
          → Children
          → ScopedParser T
          → Outcome (Children × ScopedParser T)) where
      abbrev pub action :
          OperatorRow → Children → ScopedParser T → Outcome (Children × ScopedParser T)
      action row args p =
          let syntax = pp_action_syntax args p >>= λ p'. ok (args, p') in
          if bytes_eq row.name (codes "$syntax") then syntax else others row args p

      -- The action of a node whose children have been done: whether the node is kept.
      abbrev pub act_on :
          AstKind → ℕ → Str → Children → ScopedParser T → Outcome (Bool × AstNode × ScopedParser T)
      act_on kind op value cs p = elim (operator_info_lookup registry op) [
        | none ↦ ok (true, node kind op value cs, p)
        | some row ↦
            let acted = action row cs p >>= λ (cs', p').
            ok (not row.drops_node, node kind op value cs', p') in
            if kind_code kind == kind_code builtin && row.is_preprocessor
            then acted
            else ok (true, node kind op value cs, p)
      ]

      unfoldable mutual
        pub apply_preprocessor_if_any :
            AstNode → ScopedParser T → Outcome (Bool × AstNode × ScopedParser T)
        apply_preprocessor_if_any null p = ok (true, null, p)
        apply_preprocessor_if_any (node kind op value cs) p =
            apply_to_children cs p >>= λ (cs', p'). act_on kind op value cs' p'

        pub apply_to_children : Children → ScopedParser T → Outcome (Children × ScopedParser T)
        apply_to_children nil p = ok (nil, p)
        apply_to_children (cons c cs) p = apply_preprocessor_if_any c p >>= λ (keep, c', p').
            apply_to_children cs p' >>= λ (cs', p''). ok (if keep then cons c' cs' else cs', p'')

      -- A statement in the built-in syntax, with its preprocessor actions.
      unfoldable pub builtin_statement :
          List Token → Children → ScopedParser T → Outcome (Children × List Token × ScopedParser T)
      builtin_statement toks children p =
          builtin_parse_expr registry toks p.stores.names >>= λ (stmt, rest, t).
          apply_preprocessor_if_any stmt (with_names p t) >>= λ (keep, stmt', p').
          ok (kept_child children keep stmt', rest, p')

      -- The rest of the tokens, read by the grammar of the scope.
      unfoldable pub grammar_statements :
          List Token → Children → ScopedParser T → Outcome (Children × ScopedParser T)
      grammar_statements toks children p = required (scoped_parser_current_grammar p) >>= λ g.
          grammar_parse_ast (grammar_fuel g (length toks)) g registry 0 toks p.stores.names
          >>= λ (parsed, t).
              required parsed >>= λ root. ok (spread_root t children root, with_names p t)

      -- The loop of `scoped_parse_block_contents`.
      unfoldable pub parse_contents :
          ℕ → ℕ → ℕ → List Token → Children → ScopedParser T → Outcome (Children × ScopedParser T)
      parse_contents zero symbol_kind eof_kind toks children p = fault
      parse_contents (suc fuel) symbol_kind eof_kind [] children p = ok (children, p)
      parse_contents (suc fuel) symbol_kind eof_kind (tok ∷ toks) children p =
          let dollar = builtin_statement (tok ∷ toks) children p >>= λ (children', rest, p').
          parse_contents fuel symbol_kind eof_kind (skip_one_semicolon rest) children' p' in
          let statement = builtin_statement (tok ∷ toks) children p >>= λ (children', rest, p').
          parse_contents fuel symbol_kind eof_kind (skip_symbol_semicolon symbol_kind rest)
            children' p' in
          if tok.kind == eof_kind
          then ok (children, p)
          else if is_closing_brace symbol_kind tok
          then ok (children, p)
          else if p.use_builtins
          then statement
          else if starts_with 36 (text tok.lexeme)
          then dollar
          else grammar_statements (tok ∷ toks) children p

      unfoldable pub scoped_parse_block_contents :
          List Token → ScopedParser T → Outcome (Children × ScopedParser T)
      scoped_parse_block_contents toks p =
          interns_intern p.stores.names (some (codes "SYMBOL")) >>= λ (symbol_kind, t).
          interns_intern t (some (codes "EOF")) >>= λ (eof_kind, t').
          parse_contents (length toks + 1) symbol_kind eof_kind toks nil (with_names p t')

      -- `scoped_parse_ast` before its last step, which types the tree.
      unfoldable pub scoped_parse_untyped :
          List Token → ScopedParser T → Outcome (AstNode × ScopedParser T)
      scoped_parse_untyped toks p =
          scoped_parse_block_contents toks (scoped_parser_push_grammar p none) >>= λ (children, p').
          ok (file_root children, (scoped_parser_pop_grammar p').1)
