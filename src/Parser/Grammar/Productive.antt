-- ===== src/Parser/Grammar/Productive.antt =====
-- The grammars for which the recogniser of src/parser/parser.c ends, and how much fuel it takes.
use morphl.Prelude.{
  ℕ, zero, suc, ◌+◌, ◌≤◌, Bool, true, false, ◌&&◌, ◌||◌, List, [], ◌∷◌, ltb, leb, arith,
}
use morphl.Parser.Grammar.{
  GrammarAtom, Atoms, Production, GrammarRule, Grammar, atom_literal, atom_token_kind, atom_rule,
  atom_repeat, no_atoms, more_atoms, parser_max_depth,
}

-- An atom that matches reads a token: all do but groups that may have no round, or whose rounds may
-- read nothing.
unfoldable mutual
  pub reads : GrammarAtom → Bool
  reads (atom_repeat body least most capture) = ltb 0 least && reads_some body
  reads _ = true

  pub reads_some : Atoms → Bool
  reads_some no_atoms = false
  reads_some (more_atoms a more) = reads a || reads_some more

-- A group with more than one round has rounds that read a token.
unfoldable mutual
  unfolding reads reads_some

  pub is_productive : GrammarAtom → Bool
  is_productive (atom_repeat body least most capture) =
      (reads_some body || leb most 1) && are_productive body
  is_productive _ = true

  pub are_productive : Atoms → Bool
  are_productive no_atoms = true
  are_productive (more_atoms a more) = is_productive a && are_productive more

unfoldable pub productions_productive : List Production → Bool
unfolding are_productive
productions_productive [] = true
productions_productive (p ∷ ps) = are_productive p.atoms && productions_productive ps

unfoldable pub rules_productive : List GrammarRule → Bool
unfolding productions_productive
rules_productive [] = true
rules_productive (r ∷ rs) = productions_productive r.productions && rules_productive rs

-- Fuel for atoms, with `k` tokens left and `r` for a rule.
unfoldable mutual
  pub atom_fuel : ℕ → ℕ → GrammarAtom → ℕ
  atom_fuel k r (atom_literal s capture) = 1
  atom_fuel k r (atom_token_kind kind capture) = 1
  atom_fuel k r (atom_rule symbol bp capture) = suc r
  atom_fuel k r (atom_repeat body least most capture) = k + atoms_fuel k r body + 2

  pub atoms_fuel : ℕ → ℕ → Atoms → ℕ
  atoms_fuel k r no_atoms = 1
  atoms_fuel k r (more_atoms a more) = suc (atom_fuel k r a + atoms_fuel k r more)

unfoldable pub productions_fuel : ℕ → ℕ → List Production → ℕ
unfolding atoms_fuel
productions_fuel k r [] = 1
productions_fuel k r (p ∷ ps) = suc (suc (atoms_fuel k r p.atoms) + productions_fuel k r ps)

unfoldable pub rules_fuel : ℕ → ℕ → List GrammarRule → ℕ
unfolding productions_fuel
rules_fuel k r [] = 0
rules_fuel k r (rule ∷ rules) = productions_fuel k r rule.productions + rules_fuel k r rules

-- Fuel for a rule that may go this many levels deep.
unfoldable pub levels_fuel : ℕ → List GrammarRule → ℕ → ℕ
unfolding rules_fuel
levels_fuel k rules zero = 1
levels_fuel k rules (suc n) = k + rules_fuel k (levels_fuel k rules n) rules + 2

-- More fuel than `grammar_parse` can use on this many tokens.
unfoldable pub grammar_fuel : Grammar → ℕ → ℕ
unfolding levels_fuel
grammar_fuel g k = levels_fuel (suc k) g.rules (suc parser_max_depth)

pub atom_fuel-pos : (k r : ℕ) (a : GrammarAtom) → 1 ≤ atom_fuel k r a
unfolding atom_fuel
atom_fuel-pos k r (atom_repeat body least most capture) = omega arith
atom_fuel-pos k r _ = omega arith

pub atoms_fuel-pos : (k r : ℕ) (more : Atoms) → 1 ≤ atoms_fuel k r more
unfolding atoms_fuel
atoms_fuel-pos k r no_atoms = omega arith
atoms_fuel-pos k r (more_atoms a more) = omega arith
