-- ===== src/Parser/Grammar/Enough.antt =====
-- What the fuel for a grammar of src/parser/parser.c is enough for.
use morphl.Prelude.{
  ℕ, suc, ◌+◌, ◌≤◌, ◌≡◌, subst, inl, inr, Bool, true, ◌&&◌, &&-eq_true, Bool-cases, some,
  some-injective, List, [], ◌∷◌, length, ltb, ◌==◌, arith,
}
use morphl.Lexer.{Token}
use morphl.Parser.Grammar.{
  Atoms, Production, GrammarRule, no_atoms, more_atoms, min_bp, find_rule, skip_leading,
  atoms_to_match, drop_end,
}
use morphl.Parser.Grammar.Productive.{
  are_productive, productions_productive, rules_productive, atoms_fuel, productions_fuel,
  rules_fuel, atom_fuel, is_productive,
}

skip_leading-fuel :
    (k r : ℕ) (whole : Atoms) (bp : ℕ) {more : Atoms}
    → skip_leading whole bp ≡ some more
    → are_productive whole ≡ true
    → (are_productive more ≡ true) × (atoms_fuel k r more ≤ atoms_fuel k r whole)
unfolding are_productive atoms_fuel
skip_leading-fuel k r no_atoms bp e p =
    subst (λ x. (are_productive x ≡ true) × (atoms_fuel k r x ≤ 1)) (some-injective e)
      (p, omega arith)
skip_leading-fuel k r (more_atoms a others) bp e p = elim (Bool-cases (ltb (min_bp a) bp)) [
  | inl weak ↦ cc (rw weak at e)
  | inr tight ↦
      subst
        (λ x.
          (are_productive x ≡ true)
          × (atoms_fuel k r x ≤ suc (atom_fuel k r a + atoms_fuel k r others)))
        (some-injective (rw tight at e))
        ((&&-eq_true (is_productive a) (are_productive others) p).1, omega arith)
]

pub atoms_to_match-fuel :
    (k r : ℕ) (prod : Production) (bp : ℕ) (extending : Bool) {more : Atoms}
    → atoms_to_match prod bp extending ≡ some more
    → are_productive prod.atoms ≡ true
    → (are_productive more ≡ true) × (atoms_fuel k r more ≤ atoms_fuel k r prod.atoms)
atoms_to_match-fuel k r prod bp extending e p =
    elim (Bool-cases (prod.starts_with_expr && extending)) [
      | inl leading ↦ skip_leading-fuel k r prod.atoms bp (rw leading at e) p
      | inr whole ↦
          subst (λ x. (are_productive x ≡ true) × (atoms_fuel k r x ≤ atoms_fuel k r prod.atoms))
            (some-injective (rw whole at e)) (p, omega arith)
    ]

pub find_rule-productive :
    (rules : List GrammarRule) (symbol : ℕ) {rule : GrammarRule}
    → find_rule rules symbol ≡ some rule
    → rules_productive rules ≡ true
    → productions_productive rule.productions ≡ true
unfolding find_rule rules_productive
find_rule-productive [] symbol found p = cc
find_rule-productive (q ∷ rules) symbol found p =
    let (first, others) =
      &&-eq_true (productions_productive q.productions) (rules_productive rules) p in
    elim (Bool-cases (q.name == symbol)) [
      | inl here ↦
          subst (λ x. productions_productive x.productions ≡ true)
            (some-injective (rw (here, find_rule) at found)) first
      | inr there ↦ find_rule-productive rules symbol (rw (there, find_rule) at found) others
    ]

pub find_rule-fuel :
    (k r : ℕ) (rules : List GrammarRule) (symbol : ℕ) {rule : GrammarRule}
    → find_rule rules symbol ≡ some rule
    → productions_fuel k r rule.productions ≤ rules_fuel k r rules
unfolding find_rule rules_fuel
find_rule-fuel k r [] symbol found = cc
find_rule-fuel k r (q ∷ rules) symbol found = elim (Bool-cases (q.name == symbol)) [
  | inl here ↦
      subst
        (λ x.
          productions_fuel k r x.productions
          ≤ productions_fuel k r q.productions + rules_fuel k r rules)
        (some-injective (rw (here, find_rule) at found)) (omega arith)
  | inr there ↦ omega (arith, find_rule-fuel k r rules symbol (rw (there, find_rule) at found))
]

pub length-drop_end : (eof : ℕ) (toks : List Token) → length (drop_end eof toks) ≤ length toks
length-drop_end eof [] = omega arith
length-drop_end eof (tok ∷ []) = ground arith
length-drop_end eof (tok ∷ (next ∷ toks)) = omega (arith, length-drop_end eof (next ∷ toks))
