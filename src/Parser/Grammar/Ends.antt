-- ===== src/Parser/Grammar/Ends.antt =====
-- The recogniser of src/parser/parser.c ends.
use morphl.Prelude.{
  ℕ, zero, suc, ◌+◌, ◌≤◌, ◌<◌, ◌≡◌, Bool, true, false, ◌&&◌, &&-eq_true, some, List, [], ◌∷◌,
  length, codes, ltb, leb, ◌==◌, fault, returns, fails, Post-bind, Post-attempt, Post-required,
  Post-if, Post-weaken, of_fault, arith, lt→ltb, ◌≢◌,
}
use morphl.Util.Intern.{InternTable}
use morphl.Util.Intern.Invariant.{WellFormed, interns_intern-Interned}
use morphl.Lexer.{Token}
use morphl.Parser.Grammar.{
  Production, GrammarRule, Grammar, atom_count, parser_max_depth, find_rule, atoms_to_match,
  is_candidate, match_pattern, match_any, extend, parse_rule_internal, all_read, drop_end, starting,
  grammar_parse,
}
use morphl.Parser.Grammar.Productive.{
  are_productive, productions_productive, rules_productive, atoms_fuel, productions_fuel,
  levels_fuel, grammar_fuel,
}
use morphl.Parser.Grammar.Enough.{
  atoms_to_match-fuel, find_rule-productive, find_rule-fuel, length-drop_end,
}
use morphl.Parser.Grammar.AtomsEnd.{Ends, match_atoms-Ends}

module _ (g : Grammar) (k n r : ℕ)
    (rule_ends : (fuel symbol : ℕ) (rule : GrammarRule) (bp : ℕ) (ts : List Token) (depth : ℕ)
      → find_rule g.rules symbol ≡ some rule
      → 129 ≤ depth + n
      → length ts ≤ k
      → r ≤ fuel
      → Ends (λ us. length us < length ts) (parse_rule_internal g fuel rule bp ts depth))
    (some_tokens : 1 ≤ k) where
  match_pattern-Ends :
      (fuel : ℕ) (prod : Production) (ts : List Token) (bp : ℕ) (extending : Bool) (depth : ℕ)
      → are_productive prod.atoms ≡ true
      → 128 ≤ depth + n
      → length ts ≤ k
      → suc (atoms_fuel k r prod.atoms) ≤ fuel
      → Ends (λ us. length us < length ts) (match_pattern g fuel prod ts bp extending depth)
  unfolding match_pattern
  match_pattern-Ends zero prod ts bp extending depth p d l f = absurd (omega arith)
  match_pattern-Ends (suc fuel) prod ts bp extending depth p d l f =
      Post-if (ltb parser_max_depth depth) (λ _. fails)
        λ _. Post-bind (Post-required (atoms_to_match prod bp extending) (λ more e. e)) λ more e.
          let (p', f') = atoms_to_match-fuel k r prod bp extending e p in
          Post-bind
            (match_atoms-Ends g k n r rule_ends some_tokens fuel more ts depth p' d l (omega arith))
            λ us (fewer, _).
              Post-if (extending && leb (atom_count prod.atoms) 1) (λ _. fails)
                λ _.
                  Post-if (length us == length ts) (λ _. fails)
                    λ moved. returns (ground (arith, moved))

  match_any-Ends :
      (fuel : ℕ) (extending : Bool) (prods : List Production) (ts : List Token) (bp depth : ℕ)
      → productions_productive prods ≡ true
      → 127 ≤ depth + n
      → length ts ≤ k
      → productions_fuel k r prods ≤ fuel
      → Ends (λ us. length us < length ts) (match_any g fuel extending prods ts bp depth)
  unfolding match_any productions_productive productions_fuel
  match_any-Ends zero extending [] ts bp depth p d l f = absurd (omega arith)
  match_any-Ends zero extending (prod ∷ prods) ts bp depth p d l f = absurd (omega arith)
  match_any-Ends (suc fuel) extending [] ts bp depth p d l f = fails
  match_any-Ends (suc fuel) extending (prod ∷ prods) ts bp depth p d l f =
      let (this, rest) = &&-eq_true (are_productive prod.atoms) (productions_productive prods) p in
      let others = match_any-Ends fuel extending prods ts bp depth rest d l (omega arith) in
      Post-if (is_candidate extending prod)
        (λ _.
          Post-attempt
            (match_pattern-Ends fuel prod ts bp extending (depth + 1) this (omega arith) l
              (omega arith))
            others λ us less. returns less)
        (λ _. others)

  extend-Ends :
      (fuel : ℕ) (rule : GrammarRule) (bp : ℕ) (ts : List Token) (depth : ℕ)
      → productions_productive rule.productions ≡ true
      → 127 ≤ depth + n
      → length ts ≤ k
      → suc (length ts + productions_fuel k r rule.productions) ≤ fuel
      → Ends (λ us. length us ≤ length ts) (extend g fuel rule bp ts depth)
  unfolding extend
  extend-Ends zero rule bp ts depth p d l f = absurd (omega arith)
  extend-Ends (suc fuel) rule bp ts depth p d l f =
      Post-attempt (match_any-Ends fuel true rule.productions ts bp depth p d l (omega arith))
        (returns (omega arith))
        λ us less.
          Post-weaken (λ vs fewer. omega arith)
            (extend-Ends fuel rule bp us depth p d (omega arith) (omega arith))

  step_down :
      (fuel : ℕ) (rule : GrammarRule) (bp : ℕ) (ts : List Token) (depth : ℕ)
      → productions_productive rule.productions ≡ true
      → 128 ≤ depth + n
      → length ts ≤ k
      → suc (suc (k + productions_fuel k r rule.productions)) ≤ fuel
      → Ends (λ us. length us < length ts) (parse_rule_internal g fuel rule bp ts depth)
  unfolding parse_rule_internal
  step_down zero rule bp ts depth p d l f = absurd (omega arith)
  step_down (suc fuel) rule bp ts depth p d l f =
      Post-if (ltb parser_max_depth depth) (λ _. fails)
        λ _.
          Post-bind
            (match_any-Ends fuel false rule.productions ts bp depth p (omega arith) l (omega arith))
            λ us less.
              Post-weaken (λ vs fewer. omega arith)
                (extend-Ends fuel rule bp us depth p (omega arith) (omega arith) (omega arith))

-- A rule that may go `n` levels deep.
rule-Ends :
    (g : Grammar) (k n fuel symbol : ℕ) (rule : GrammarRule) (bp : ℕ) (ts : List Token) (depth : ℕ)
    → rules_productive g.rules ≡ true
    → 1 ≤ k
    → find_rule g.rules symbol ≡ some rule
    → 129 ≤ depth + n
    → length ts ≤ k
    → levels_fuel k g.rules n ≤ fuel
    → Ends (λ us. length us < length ts) (parse_rule_internal g fuel rule bp ts depth)
unfolding levels_fuel parse_rule_internal
rule-Ends g k zero zero symbol rule bp ts depth p some_tokens found d l f = absurd (omega arith)
rule-Ends g k zero (suc fuel) symbol rule bp ts depth p some_tokens found d l f =
    let deep : ltb parser_max_depth depth ≡ true = lt→ltb parser_max_depth depth (omega arith) in
    rw deep fails
rule-Ends g k (suc n) fuel symbol rule bp ts depth p some_tokens found d l f =
    step_down g k n (levels_fuel k g.rules n)
      (λ fuel' symbol' rule' bp' ts' depth' found' d' l' f'.
        rule-Ends g k n fuel' symbol' rule' bp' ts' depth' p some_tokens found' d' l' f')
      some_tokens fuel rule bp ts depth (find_rule-productive g.rules symbol found p) (omega arith)
      l (omega (arith, find_rule-fuel k (levels_fuel k g.rules n) g.rules symbol found))

-- If each repeated group of the grammar reads a token in every round, or has one round at most, the
-- parser ends: with this much fuel it accepts the input or rejects it.
pub grammar_parse-ne-fault :
    (g : Grammar) (start_rule : ℕ) (tokens : List Token) (names : InternTable)
    → rules_productive g.rules ≡ true
    → WellFormed names
    → grammar_parse (grammar_fuel g (length tokens)) g start_rule tokens names ≢ fault
unfolding grammar_parse grammar_fuel
grammar_parse-ne-fault g start_rule tokens names p w ends_badly =
    let (eof, names', interned, _, _) = interns_intern-Interned names (codes "EOF") w in
    of_fault {P = λ (_ : InternTable). Unit}
      (Post-if (length g.rules == 0) (λ _. fails)
        λ _. rw interned (
          Post-bind (Post-required (find_rule g.rules (starting g start_rule)) (λ rule e. e))
            λ rule found.
              Post-bind
                (rule-Ends g (suc (length tokens)) 129 (grammar_fuel g (length tokens))
                  (starting g start_rule) rule 0 (drop_end eof tokens) 0 p (omega arith) found
                  (omega arith) (omega (arith, length-drop_end eof tokens)) (omega arith))
                λ rest _. Post-if (all_read rest) (λ _. returns tt) (λ _. fails)))
      ends_badly
