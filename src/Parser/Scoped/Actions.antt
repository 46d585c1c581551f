-- ===== src/Parser/Scoped/Actions.antt =====
-- What the parts of src/parser/scoped_parser.c leave of the stack of grammars: the scope's own entry
-- may change, and the entries below it stay.
use morphl.Prelude.{
  ℕ, ◌≡◌, refl, ap, ◌∙◌, inr, Bool, true, false, Option, none, some, List, ◌∷◌, Bytes, codes, ◌==◌,
  Outcome, ok, failed, returns, fails, faults, Post-bind, Post-if, ◌>>=◌, if◌then◌else◌, not, ◌&&◌,
  bytes_eq, fault,
}
use morphl.Util.Intern.{InternTable}
use morphl.Util.Intern.Invariant.{WellFormed}
use morphl.Util.Intern.Ids.{Keeps}
use morphl.Util.{Str}
use morphl.Ast.{AstNode, AstKind, Children, null, node, nil, cons, builtin, kind_code}
use morphl.Parser.Operators.{OperatorRow, Registered, operator_info_lookup}
use morphl.Parser.Grammar.{Grammar}
use morphl.Parser.Grammar.Productive.{rules_productive}
use morphl.Parser.Grammar.AtomsEnd.{Ends}
use morphl.Parser.Grammar.Leaves.{Names}
use morphl.Parser.Grammar.Load.{Stores, grammar_load_file}
use morphl.Parser.Grammar.Loaded.{LinesSafe, load_file-Loads}
use morphl.Parser.Scoped.{
  ScopedParser, is_none, tail_stack, replaced, scoped_parser_replace_grammar, syntax_path,
  pp_action_syntax, action, act_on, apply_preprocessor_if_any, apply_to_children,
}

-- The parser is in a scope above the entries `gs`: the scope has one entry, the flag fits it, its
-- grammar ends, and the kinds that the grammar parser knows have their names.
pub record Inside {T : Type 0} (number number_float : ℕ) (gs : List (Option Grammar))
    (p : ScopedParser T) : Type 0 where
  pub top : Option Grammar
  pub stack_is : p.grammar_stack ≡ top ∷ gs
  pub flag_is : p.use_builtins ≡ is_none top
  pub productive : (g : Grammar) → top ≡ some g → rules_productive g.rules ≡ true
  pub names : Names number number_float p.stores.names

-- The files that are loaded as grammars can be read without leaving them, and their grammars end.
pub record FilesFine (grammar_file : Bytes → Option Bytes) : Type 0 where
  pub safe :
      (path : Bytes) (contents : Bytes) → grammar_file path ≡ some contents → LinesSafe contents
  pub productive :
      (path : Bytes) (contents : Bytes) (s s' : Stores) (g : Grammar)
      → grammar_file path ≡ some contents
      → grammar_load_file contents s ≡ ok (some g, s')
      → rules_productive g.rules ≡ true

pub Names-Keeps :
    {number number_float : ℕ} (t t' : InternTable)
    → Names number number_float t
    → WellFormed t'
    → Keeps t t'
    → Names number number_float t'
Names-Keeps {number} {number_float} t t' n w keeps = record {
  fine = w;
  number_is = keeps number (codes "NUMBER") n.number_is;
  float_is = keeps number_float (codes "FLOAT") n.float_is;
}

-- The result of a call that was made is one that the post-condition holds of.
with_result :
    {A : Type 0} {P : A → Type 0} (r : Outcome A) → Ends P r → Ends (λ a. P a × (r ≡ ok a)) r
with_result (ok a) (returns h) = returns (h, refl)
with_result failed h = fails
with_result fault (faults e) = faults e

module _ {T : Type 0} (number number_float : ℕ) (grammar_file : Bytes → Option Bytes)
    (files : FilesFine grammar_file) where
  replaced-Inside :
      (gs : List (Option Grammar)) (p : ScopedParser T) (r : Option Grammar) (s : Stores)
      → Inside number number_float gs p
      → WellFormed s.names
      → Keeps p.stores.names s.names
      → ((g : Grammar) → r ≡ some g → rules_productive g.rules ≡ true)
      → Inside number number_float gs (replaced p (r, s)).1
  replaced-Inside gs p none s i w keeps ends = record {
    top = i.top;
    stack_is = i.stack_is;
    flag_is = i.flag_is;
    productive = i.productive;
    names = Names-Keeps p.stores.names s.names i.names w keeps;
  }
  replaced-Inside gs p (some g) s i w keeps ends = record {
    top = some g;
    stack_is = ap (λ stack. some g ∷ tail_stack stack) i.stack_is;
    flag_is = refl;
    productive = ends;
    names = Names-Keeps p.stores.names s.names i.names w keeps;
  }

  replace_grammar-Inside :
      (gs : List (Option Grammar)) (p : ScopedParser T) (path : Bytes)
      → Inside number number_float gs p
      → Ends
          (λ r. Inside number number_float gs r.1)
          (scoped_parser_replace_grammar grammar_file p path)
  unfolding scoped_parser_replace_grammar
  replace_grammar-Inside gs p path i = go (grammar_file path) refl
    where
      go :
          (o : Option Bytes)
          → grammar_file path ≡ o
          → Ends {A = Bool × ScopedParser T}
              (λ r. Inside number number_float gs r.1)
              (elim o [
                | none ↦ ok (false, p)
                | some contents ↦ grammar_load_file contents p.stores >>= λ r. ok (replaced p r)
              ])
      go none e = returns i
      go (some contents) e =
          Post-bind
            (with_result (grammar_load_file contents p.stores) (
              (load_file-Loads contents p.stores (inr (files.safe path contents e))).loads
                i.names.fine))
            λ (r, s) ((w, keeps, _), loaded). returns (
              replaced-Inside gs p r s i w keeps λ g given.
                files.productive path contents p.stores s g e (loaded ∙ ap (λ x. ok (x, s)) given))

  pub pp_action_syntax-Inside :
      (gs : List (Option Grammar)) (args : Children) (p : ScopedParser T)
      → Inside number number_float gs p
      → Ends (Inside number number_float gs) (pp_action_syntax grammar_file args p)
  unfolding pp_action_syntax
  pp_action_syntax-Inside gs args p i = go (syntax_path args)
    where
      go :
          (o : Option Bytes)
          → Ends (Inside number number_float gs) (elim o [
            | none ↦ ok p
            | some path ↦ scoped_parser_replace_grammar grammar_file p path >>= λ r. ok r.1
          ])
      go none = returns i
      go (some path) = Post-bind (replace_grammar-Inside gs p path i) λ r i'. returns i'

  module _ (registry : List Registered)
      (others : OperatorRow → Children → ScopedParser T → Outcome (Children × ScopedParser T))
      (others_inside : (gs : List (Option Grammar)) (row : OperatorRow) (args : Children)
          (p : ScopedParser T)
        → Inside number number_float gs p
        → Ends (λ r. Inside number number_float gs r.1) (others row args p)) where
    action-Inside :
        (gs : List (Option Grammar)) (row : OperatorRow) (args : Children) (p : ScopedParser T)
        → Inside number number_float gs p
        → Ends
            (λ r. Inside number number_float gs r.1)
            (action grammar_file registry others row args p)
    action-Inside gs row args p i =
        Post-if (bytes_eq row.name (codes "$syntax"))
          (λ _. Post-bind (pp_action_syntax-Inside gs args p i) λ p' i'. returns i')
          (λ _. others_inside gs row args p i)

    act_on-Inside :
        (gs : List (Option Grammar)) (kind : AstKind) (op : ℕ) (value : Str) (cs : Children)
        (p : ScopedParser T)
        → Inside number number_float gs p
        → Ends
            (λ r. Inside number number_float gs r.2)
            (act_on grammar_file registry others kind op value cs p)
    act_on-Inside gs kind op value cs p i = go (operator_info_lookup registry op)
      where
        go :
            (o : Option OperatorRow)
            → Ends {A = Bool × AstNode × ScopedParser T}
                (λ r. Inside number number_float gs r.2)
                (elim o [
                  | none ↦ ok (true, node kind op value cs, p)
                  | some row ↦
                      let acted = action grammar_file registry others row cs p >>= λ (cs', p').
                      ok (not row.drops_node, node kind op value cs', p') in
                      if kind_code kind == kind_code builtin && row.is_preprocessor
                      then acted
                      else ok (true, node kind op value cs, p)
                ])
        go none = returns i
        go (some row) =
            Post-if (kind_code kind == kind_code builtin && row.is_preprocessor)
              (λ _. Post-bind (action-Inside gs row cs p i) λ r i'. returns i') (λ _. returns i)

    mutual
      unfolding apply_preprocessor_if_any apply_to_children

      pub apply_preprocessor_if_any-Inside :
          (gs : List (Option Grammar)) (n : AstNode) (p : ScopedParser T)
          → Inside number number_float gs p
          → Ends
              (λ r. Inside number number_float gs r.2)
              (apply_preprocessor_if_any grammar_file registry others n p)
      apply_preprocessor_if_any-Inside gs null p i = returns i
      apply_preprocessor_if_any-Inside gs (node kind op value cs) p i =
          Post-bind (apply_to_children-Inside gs cs p i)
            λ (cs', p') i'. act_on-Inside gs kind op value cs' p' i'

      apply_to_children-Inside :
          (gs : List (Option Grammar)) (cs : Children) (p : ScopedParser T)
          → Inside number number_float gs p
          → Ends
              (λ r. Inside number number_float gs r.1)
              (apply_to_children grammar_file registry others cs p)
      apply_to_children-Inside gs nil p i = returns i
      apply_to_children-Inside gs (cons c cs) p i =
          Post-bind (apply_preprocessor_if_any-Inside gs c p i) λ (keep, c', p') i'.
            Post-bind (apply_to_children-Inside gs cs p' i') λ (cs', p'') i''. returns i''
