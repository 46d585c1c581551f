-- ===== src/Tests/Grammars.antt =====
-- The grammar parser of src/parser/parser.c on small inputs.
use morphl.Prelude.{
  ℕ, ◌+◌, ◌≤◌, ◌≡◌, ◌≢◌, refl, ◌⊎◌, inl, inr, List, [], ◌∷◌, Bytes, codes, bytes_eq, some, true,
  false, Outcome, ok, failed, fault, length, zero, suc, ◌^◌, ◌-◌, arith,
}
use morphl.Util.Arena.{arena_init, arena_push}
use morphl.Util.Intern.{InternTable, interns_intern}
use morphl.Util.Intern.Invariant.{empty_table, empty_table-WellFormed, WellFormed}
use morphl.Lexer.{Token}
use morphl.Parser.Grammar.{
  Grammar, GrammarRule, GrammarAtom, atom_literal, atom_token_kind, atom_rule, atom_repeat,
  no_atoms, more_atoms, find_rule, starting, drop_end, grammar_parse, parse_rule_internal,
  match_any, match_pattern, match_atoms, match_atom, extend, is_kind,
}
use morphl.Parser.Grammar.Derives.{Rule}
use morphl.Parser.Grammar.Sound.{grammar_parse-Rule}
use morphl.Parser.Grammar.Productive.{reads, is_productive, rules_productive, grammar_fuel}
use morphl.Parser.Grammar.Ends.{grammar_parse-ne-fault}
use morphl.Parser.Grammar.Known.{Known}
use morphl.Parser.Grammar.Idle.{match_atom_idle}

abbrev no_strings : InternTable
no_strings = empty_table 4

no_strings-WellFormed : WellFormed no_strings
no_strings-WellFormed = empty_table-WellFormed 4

abbrev token : ℕ → Bytes → Token
token kind s = record { kind = kind; lexeme = some s; row = 1; col = 1 }

-- One rule, named 7: `%NUMBER n => $num` and `$expr[0] a "+" $expr[1] b => $add a b`.
abbrev sums : Grammar
sums = record {
  rules =
      record {
        name = 7;
        productions =
            record {
              atoms = more_atoms (atom_token_kind 2 8) no_atoms;
              templates = codes "$num" ∷ [];
              starts_with_expr = false;
            }
            ∷ record {
              atoms = more_atoms (atom_rule 7 0 9) (
                  more_atoms (atom_literal (codes "+") 0) (more_atoms (atom_rule 7 1 10) no_atoms));
              templates = codes "$add a b" ∷ [];
              starts_with_expr = true;
            }
            ∷ [];
      }
      ∷ [];
  start_rule = 7;
}

abbrev one_plus_two : List Token
one_plus_two = token 2 (codes "1") ∷ token 5 (codes "+") ∷ token 2 (codes "2") ∷ []

-- The table that a call leaves.
unfoldable table_of : Outcome (ℕ × InternTable) → InternTable
table_of (ok (id, t)) = t
table_of _ = no_strings

abbrev with_end : InternTable
with_end = table_of (interns_intern no_strings (some (codes "EOF")))

grammar_parse-Rule_example :
    (eof : ℕ) × (r : GrammarRule) × (interns_intern no_strings (some (codes "EOF"))
      ≡ ok (eof, with_end))
    × (find_rule sums.rules (starting sums 0) ≡ some r)
    × Rule sums is_kind r 0 (drop_end eof one_plus_two) []
unfolding table_of grammar_parse parse_rule_internal match_any match_pattern match_atoms match_atom
    extend find_rule interns_intern arena_push arena_init bytes_eq
grammar_parse-Rule_example = grammar_parse-Rule 40 sums 0 one_plus_two no_strings with_end refl

grammar_parse-ne-fault_example :
    grammar_parse (grammar_fuel sums (length one_plus_two)) sums 0 one_plus_two no_strings ≢ fault
unfolding rules_productive is_productive reads
grammar_parse-ne-fault_example =
    grammar_parse-ne-fault sums 0 one_plus_two no_strings refl no_strings-WellFormed

no_comma :
    (fuel : ℕ)
    → (match_atoms sums fuel (more_atoms (atom_literal (codes ",") 0) no_atoms) one_plus_two 2
        ≡ failed)
      ⊎ (match_atoms sums fuel (more_atoms (atom_literal (codes ",") 0) no_atoms) one_plus_two 2
          ≡ fault)
unfolding match_atoms match_atom bytes_eq
no_comma zero = inr refl
no_comma (suc zero) = inr refl
no_comma (suc (suc fuel)) = inl refl

no_comma_later :
    (fuel : ℕ)
    → 2 ≤ fuel
    → match_atoms sums fuel (more_atoms (atom_literal (codes ",") 0) no_atoms) one_plus_two 2
      ≡ failed
unfolding match_atoms match_atom bytes_eq
no_comma_later zero h = absurd (omega (arith, h))
no_comma_later (suc zero) h = absurd (omega (arith, h))
no_comma_later (suc (suc fuel)) h = refl

-- The group `$( $( "," )? )*`.
abbrev commas : GrammarAtom
commas =
    atom_repeat
      (more_atoms (atom_repeat (more_atoms (atom_literal (codes ",") 0) no_atoms) 0 1 0) no_atoms) 0
      (2 ^ 64 - 1) 0

match_atom_idle_example :
    (match_atom sums 1000 commas one_plus_two 0 ≡ fault)
    × (match_atom sums (2 ^ 64 + 6) commas one_plus_two 0 ≡ ok one_plus_two)
match_atom_idle_example =
    match_atom_idle sums (more_atoms (atom_literal (codes ",") 0) no_atoms) 1 0 0 0 2 one_plus_two 0
      no_comma no_comma_later (omega arith) 1000 (2 ^ 64 + 6) (omega arith) (omega arith)

abbrev with_number : InternTable
with_number = table_of (interns_intern no_strings (some (codes "NUMBER")))

abbrev with_kinds : InternTable
with_kinds = table_of (interns_intern with_number (some (codes "FLOAT")))

-- `1.5+2`, where 1 is the kind of numbers, 2 of floats.
abbrev float_sum : List Token
float_sum = token 2 (codes "1.5") ∷ token 5 (codes "+") ∷ token 1 (codes "2") ∷ []

-- The grammar `sums`, with the kind that the table above gives to numbers.
abbrev number_sums : Grammar
number_sums = record sums {
  rules =
      record {
        name = 7;
        productions =
            record {
              atoms = more_atoms (atom_token_kind 1 8) no_atoms;
              templates = codes "$num" ∷ [];
              starts_with_expr = false;
            }
            ∷ record {
              atoms = more_atoms (atom_rule 7 0 9) (
                  more_atoms (atom_literal (codes "+") 0) (more_atoms (atom_rule 7 1 10) no_atoms));
              templates = codes "$add a b" ∷ [];
              starts_with_expr = true;
            }
            ∷ [];
      }
      ∷ [];
}
