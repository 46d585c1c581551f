-- ===== src/Parser/Grammar.antt =====
-- src/parser/parser.c and include/parser/parser.h: grammars that are loaded at run time, and the
-- recogniser `grammar_parse`. The tokens behind the cursor stand for it. What is recorded for the
-- message of a failed parse is left out, as are the capacities of the arrays. `fault` stands for a
-- call that runs out of fuel.
pub mod Derives
pub mod Matches
pub mod Sound
pub mod Productive
pub mod Enough
pub mod AtomsEnd
pub mod Ends
pub mod Idle
pub mod Attempts
pub mod Build
pub mod Tree
pub mod Known
pub mod Leaves
pub mod AtomTrees
pub mod Trees
pub mod Whole
pub mod Text
pub mod Load
pub mod Shorter
pub mod Loads
pub mod Powers
pub mod PatternLoads
pub mod RulesLoad
pub mod LinesLoad
pub mod Loaded
use morphl.Prelude.{
  ℕ, zero, suc, ◌+◌, Bool, true, false, not, ◌&&◌, Option, none, some, List, [], ◌∷◌, length, Bytes,
  bytes_eq, codes, ltb, leb, ◌==◌, if◌then◌else◌, Outcome, ok, failed, fault, required, attempt,
  ◌>>=◌,
}
use morphl.Util.{text}
use morphl.Util.Intern.{InternTable, interns_intern}
use morphl.Lexer.{Token}

-- The atoms of a production, each with its capture (0 for none) last. A repeated group has the
-- least and the largest number of its rounds.
mutual
  pub data GrammarAtom : Type 0 where
    atom_literal : Bytes → ℕ → GrammarAtom
    atom_token_kind : ℕ → ℕ → GrammarAtom
    atom_rule : ℕ → ℕ → ℕ → GrammarAtom
    atom_repeat : Atoms → ℕ → ℕ → ℕ → GrammarAtom

  pub data Atoms : Type 0 where
    no_atoms : Atoms
    more_atoms : GrammarAtom → Atoms → Atoms

pub record Production : Type 0 where
  pub atoms : Atoms
  pub templates : List Bytes
  pub starts_with_expr : Bool

pub record GrammarRule : Type 0 where
  pub name : ℕ
  pub productions : List Production

pub record Grammar : Type 0 where
  pub rules : List GrammarRule
  pub start_rule : ℕ

abbrev pub atom_count : Atoms → ℕ
atom_count no_atoms = 0
atom_count (more_atoms a more) = suc (atom_count more)

-- The field `min_bp`, which only a rule reference sets.
abbrev pub min_bp : GrammarAtom → ℕ
min_bp (atom_rule symbol bp capture) = bp
min_bp _ = 0

abbrev pub parser_max_depth : ℕ
parser_max_depth = 128

unfoldable pub find_rule : List GrammarRule → ℕ → Option GrammarRule
find_rule [] name = none
find_rule (r ∷ rs) name = if r.name == name then some r else find_rule rs name

-- One token, if it passes the test.
abbrev pub one_token : (Token → Bool) → List Token → Outcome (List Token)
one_token test [] = failed
one_token test (tok ∷ toks) = if test tok then ok toks else failed

abbrev pub is_literal : Bytes → Token → Bool
is_literal s tok = bytes_eq (text tok.lexeme) s

abbrev pub is_kind : ℕ → Token → Bool
is_kind kind tok = tok.kind == kind

-- The atoms that `match_pattern` matches: the first one is skipped if it stands for the expression
-- that has been parsed, and must bind tightly enough then.
abbrev pub skip_leading : Atoms → ℕ → Option Atoms
skip_leading no_atoms bp = some no_atoms
skip_leading (more_atoms a more) bp = if ltb (min_bp a) bp then none else some more

abbrev pub atoms_to_match : Production → ℕ → Bool → Option Atoms
atoms_to_match prod bp consume_leading =
    if prod.starts_with_expr && consume_leading then skip_leading prod.atoms bp else some prod.atoms

-- The end of `match_pattern`: it must not be the leading expression alone, and must have read a token.
abbrev pub check_progress : Production → Bool → List Token → List Token → Outcome (List Token)
check_progress prod consume_leading toks rest =
    if consume_leading && leb (atom_count prod.atoms) 1
    then failed
    else if length rest == length toks
    then failed
    else ok rest

-- A production for the loop that extends an expression starts with one, and the others do not.
abbrev pub is_candidate : Bool → Production → Bool
is_candidate extending prod = if extending then prod.starts_with_expr else not prod.starts_with_expr

-- The end of the loop over the rounds of a group.
abbrev pub enough_rounds : ℕ → ℕ → List Token → Outcome (List Token)
enough_rounds least count toks = if ltb count least then failed else ok toks

module _ (g : Grammar) where
  -- `match_atom`, its loops over the rounds of a group and over atoms, `match_pattern`, and
  -- `parse_rule_internal` with its loops over the productions and over the extensions.
  unfoldable mutual
    pub match_atom : ℕ → GrammarAtom → List Token → ℕ → Outcome (List Token)
    match_atom zero a toks depth = fault
    match_atom (suc fuel) (atom_literal s capture) toks depth = one_token (is_literal s) toks
    match_atom (suc fuel) (atom_token_kind kind capture) toks depth = one_token (is_kind kind) toks
    match_atom (suc fuel) (atom_rule symbol bp capture) toks depth =
        required (find_rule g.rules symbol) >>= λ target.
        parse_rule_internal fuel target bp toks (depth + 1)
    match_atom (suc fuel) (atom_repeat body least most capture) toks depth =
        match_rounds fuel body least most 0 toks depth

    pub match_rounds : ℕ → Atoms → ℕ → ℕ → ℕ → List Token → ℕ → Outcome (List Token)
    match_rounds zero body least most count toks depth = fault
    match_rounds (suc fuel) body least most count toks depth =
        let round =
          attempt (match_atoms fuel body toks (depth + 1)) (enough_rounds least count toks)
            λ rest. match_rounds fuel body least most (suc count) rest depth in
        if ltb count most then round else enough_rounds least count toks

    pub match_atoms : ℕ → Atoms → List Token → ℕ → Outcome (List Token)
    match_atoms zero more toks depth = fault
    match_atoms (suc fuel) no_atoms toks depth = ok toks
    match_atoms (suc fuel) (more_atoms a more) toks depth =
        match_atom fuel a toks depth >>= λ rest. match_atoms fuel more rest depth

    pub match_pattern : ℕ → Production → List Token → ℕ → Bool → ℕ → Outcome (List Token)
    match_pattern zero prod toks bp consume_leading depth = fault
    match_pattern (suc fuel) prod toks bp consume_leading depth =
        let matched = required (atoms_to_match prod bp consume_leading) >>= λ more.
        match_atoms fuel more toks depth >>= check_progress prod consume_leading toks in
        if ltb parser_max_depth depth then failed else matched

    pub match_any : ℕ → Bool → List Production → List Token → ℕ → ℕ → Outcome (List Token)
    match_any zero extending prods toks bp depth = fault
    match_any (suc fuel) extending [] toks bp depth = failed
    match_any (suc fuel) extending (prod ∷ prods) toks bp depth =
        let others = match_any fuel extending prods toks bp depth in
        let this_one = attempt (match_pattern fuel prod toks bp extending (depth + 1)) others ok in
        if is_candidate extending prod then this_one else others

    pub extend : ℕ → GrammarRule → ℕ → List Token → ℕ → Outcome (List Token)
    extend zero rule bp toks depth = fault
    extend (suc fuel) rule bp toks depth =
        attempt (match_any fuel true rule.productions toks bp depth) (ok toks)
          λ rest. extend fuel rule bp rest depth

    pub parse_rule_internal : ℕ → GrammarRule → ℕ → List Token → ℕ → Outcome (List Token)
    parse_rule_internal zero rule bp toks depth = fault
    parse_rule_internal (suc fuel) rule bp toks depth =
        let parsed = match_any fuel false rule.productions toks bp depth >>= λ rest.
        extend fuel rule bp rest depth in
        if ltb parser_max_depth depth then failed else parsed

abbrev pub drop_end : ℕ → List Token → List Token
drop_end eof [] = []
drop_end eof (tok ∷ []) = if tok.kind == eof then [] else tok ∷ []
drop_end eof (tok ∷ (next ∷ toks)) = tok ∷ drop_end eof (next ∷ toks)

-- The whole input has been read.
abbrev pub all_read : List Token → Bool
all_read [] = true
all_read (tok ∷ toks) = false

abbrev pub starting : Grammar → ℕ → ℕ
starting g start_rule = if start_rule == 0 then g.start_rule else start_rule

-- The result is the table after the end token's kind has been interned.
unfoldable pub grammar_parse : ℕ → Grammar → ℕ → List Token → InternTable → Outcome InternTable
grammar_parse fuel g start_rule tokens names =
    let parsed = interns_intern names (some (codes "EOF")) >>= λ (eof, names').
    required (find_rule g.rules (starting g start_rule)) >>= λ rule.
    parse_rule_internal g fuel rule 0 (drop_end eof tokens) 0 >>= λ rest.
    if all_read rest then ok names' else failed in
    if length g.rules == 0 then failed else parsed
