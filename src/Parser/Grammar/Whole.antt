-- ===== src/Parser/Grammar/Whole.antt =====
-- `grammar_parse_ast` of src/parser/parser.c as a whole.
use morphl.Prelude.{
  ℕ, zero, suc, ◌+◌, ◌≤◌, ◌≡◌, refl, subst, true, Bool-cases, inl, inr, none, some, List, [], ◌∷◌,
  length, get_elem?, codes, ltb, ◌==◌, ok, arith, lt→ltb,
}
use morphl.Util.{Str}
use morphl.Util.Intern.{InternTable, interns_intern}
use morphl.Util.Intern.Ids.{next}
use morphl.Lexer.{Token}
use morphl.Parser.Operators.{Registered}
use morphl.Parser.Grammar.{
  GrammarRule, Grammar, parser_max_depth, find_rule, all_read, drop_end, starting,
}
use morphl.Parser.Grammar.Derives.{Rule}
use morphl.Parser.Grammar.Productive.{rules_productive, levels_fuel}
use morphl.Parser.Grammar.Enough.{find_rule-productive, find_rule-fuel, length-drop_end}
use morphl.Parser.Grammar.Sound.{all_read-nil}
use morphl.Parser.Grammar.Attempts.{Holds, Holds-give, Holds-give_up, Holds-if, Holds-bind, Returns}
use morphl.Parser.Grammar.Known.{Known}
use morphl.Parser.Grammar.Tree.{is_kind_of, or_fail, parse_rule_internal_ast, grammar_parse_ast}
use morphl.Parser.Grammar.Leaves.{NamesFine, Names-keep, TokensKnown, Result}
use morphl.Parser.Grammar.AtomTrees.{or_fail-Holds}
use morphl.Parser.Grammar.Trees.{MayFree, step_down}

-- A rule of the grammar has a production that may free nodes in use.
abbrev pub FreesNodes : Grammar → Type 0
FreesNodes g =
    (symbol : ℕ) × (rule : GrammarRule) × (find_rule g.rules symbol ≡ some rule) × MayFree rule

module _ (number number_float : ℕ) (Q : Str → Type 0) (F : Type 0) (g : Grammar)
    (registry : List Registered) where
  abbrev I : InternTable → Type 0
  I = NamesFine number number_float Q F

  -- A rule that may go `n` levels deep.
  Rule-levels :
      (k n fuel symbol : ℕ) (rule : GrammarRule) (bp : ℕ) (ts : List Token) (depth : ℕ)
      → rules_productive g.rules ≡ true
      → 1 ≤ k
      → find_rule g.rules symbol ≡ some rule
      → (FreesNodes g → F)
      → TokensKnown number number_float Q F ts
      → 129 ≤ depth + n
      → length ts ≤ k
      → levels_fuel k g.rules n ≤ fuel
      → Holds F I
          (Result number number_float Q F (Rule g (is_kind_of number number_float) rule bp) true ts)
          (parse_rule_internal_ast g registry fuel rule bp ts depth)
  unfolding levels_fuel parse_rule_internal_ast
  Rule-levels k zero zero symbol rule bp ts depth p some_tokens found dooms known d l f =
      absurd (omega arith)
  Rule-levels k zero (suc fuel) symbol rule bp ts depth p some_tokens found dooms known d l f =
      let deep : ltb parser_max_depth depth ≡ true = lt→ltb parser_max_depth depth (omega arith) in
      rw deep (Holds-give_up I)
  Rule-levels k (suc n) fuel symbol rule bp ts depth p some_tokens found dooms known d l f =
      step_down number number_float Q F g registry k n (levels_fuel k g.rules n)
        (λ fuel' symbol' rule' bp' ts' depth' found' known' d' l' f'.
          Rule-levels k n fuel' symbol' rule' bp' ts' depth' p some_tokens found' dooms known' d' l'
            f')
        some_tokens fuel rule bp ts depth (find_rule-productive g.rules symbol found p)
        (λ frees. dooms (symbol, rule, found, frees)) known (omega arith) l
        (omega (arith, find_rule-fuel k (levels_fuel k g.rules n) g.rules symbol found))

  drop_end-TokensKnown :
      (eof : ℕ) (ts : List Token)
      → TokensKnown number number_float Q F ts
      → TokensKnown number number_float Q F (drop_end eof ts)
  drop_end-TokensKnown eof [] known = tt
  drop_end-TokensKnown eof (t ∷ []) known = elim (Bool-cases (t.kind == eof)) [
    | inl e ↦ rw e tt
    | inr e ↦ rw e known
  ]
  drop_end-TokensKnown eof (t ∷ (next ∷ ts)) (q, known) =
      (q, drop_end-TokensKnown eof (next ∷ ts) known)

  pub all-TokensKnown :
      (ts : List Token)
      → ((i : ℕ) (t : Token) → get_elem? ts i ≡ some t → Q t.lexeme)
      → TokensKnown number number_float Q F ts
  all-TokensKnown [] h = tt
  all-TokensKnown (t ∷ ts) h = (h 0 t refl, all-TokensKnown ts (λ i u e. h (suc i) u e))

  -- The tokens, less the end token, are an expression of the start rule.
  abbrev Derived : ℕ → List Token → InternTable → Type 0
  Derived start_rule tokens names =
      (eof : ℕ) × (names' : InternTable) × (rule : GrammarRule) × (interns_intern names
          (some (codes "EOF"))
        ≡ ok (eof, names'))
      × (find_rule g.rules (starting g start_rule) ≡ some rule)
      × Rule g (is_kind_of number number_float) rule 0 (drop_end eof tokens) []

  pub whole-Holds :
      (fuel start_rule : ℕ) (tokens : List Token) (names : InternTable)
      → rules_productive g.rules ≡ true
      → (FreesNodes g → F)
      → levels_fuel (suc (length tokens)) g.rules 129 ≤ fuel
      → I names
      → TokensKnown number number_float Q F tokens
      → Returns F I
          (λ root. Derived start_rule tokens names × Known Q root)
          (grammar_parse_ast fuel g registry start_rule tokens names)
  unfolding grammar_parse_ast
  whole-Holds fuel start_rule tokens names p dooms f i known =
      elim (Bool-cases (length g.rules == 0)) [
        | inl e ↦ rw e (inr (none, names, refl, i, tt))
        | inr e ↦
            let n = next names (codes "EOF") i.fine in
            let left = drop_end n.id tokens in
            rw (e, n.runs)
              (Holds-bind I (or_fail (find_rule g.rules (starting g start_rule)))
                (or_fail-Holds I (find_rule g.rules (starting g start_rule)))
                (λ rule found.
                  Holds-bind I (parse_rule_internal_ast g registry fuel rule 0 left 0)
                    (Rule-levels (suc (length tokens)) 129 fuel (starting g start_rule) rule 0 left
                      0 p (omega arith) found dooms (drop_end-TokensKnown n.id tokens known)
                      (omega arith) (omega (arith, length-drop_end n.id tokens)) f)
                    λ (root, rest) (d, h, _, _).
                      Holds-if I (all_read rest)
                        (λ done. Holds-give I root (
                          (
                            n.id,
                            n.table,
                            rule,
                            refl,
                            found,
                            subst (Rule g (is_kind_of number number_float) rule 0 left)
                                (all_read-nil rest done) d,
                          ),
                          h,
                        ))
                        (λ _. Holds-give_up I))
                n.table (Names-keep number number_float Q F names n.table i n.fine n.keeps))
      ]

-- The text of one of the tokens.
abbrev pub IsLexeme : List Token → Str → Type 0
IsLexeme tokens s = (i : ℕ) × (t : Token) × (get_elem? tokens i ≡ some t) × (s ≡ t.lexeme)
