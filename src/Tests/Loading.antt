-- ===== src/Tests/Loading.antt =====
-- The loader of src/parser/parser.c on a small text.
use morphl.Prelude.{
  ◌≢◌, refl, ◌++◌, [], ◌∷◌, Bytes, codes, bytes_eq, some, Option, ok, fault, c_string, Outcome,
}
use morphl.Util.Arena.{arena_init, arena_push}
use morphl.Util.Intern.{InternTable, interns_intern}
use morphl.Util.Intern.Invariant.{empty_table, empty_table-WellFormed, WellFormed}
use morphl.Util.Intern.Ids.{Keeps}
use morphl.Lexer.{span}
use morphl.Parser.Grammar.{Grammar}
use morphl.Parser.Grammar.Text.{
  trim_right, has_prefix, strstr, quoted, parse_literal, group_body, last_char, segments,
}
use morphl.Parser.Grammar.Load.{
  Stores, binding_power, atom_for, snoc_atom, attach, parse_atoms, parse_pattern, store_templates,
  split_templates, reset_rule, add_to_rule, rule_name_of, load_line, load_lines, grammar_load_file,
}
use morphl.Parser.Grammar.Loads.{RulesLoaded, CanStart}
use morphl.Parser.Grammar.Loaded.{
  no_line, safe_line, grammar_load_file-Loaded, grammar_load_file-ne-fault,
}

abbrev no_names : InternTable
no_names = empty_table 8

no_names-WellFormed : WellFormed no_names
no_names-WellFormed = empty_table-WellFormed 8

abbrev no_stores : Stores
no_stores = record { names = no_names; arena = arena_init 65536 }

-- Two lines: a rule, and a number that is one.
abbrev number_rule : Bytes
number_rule = codes "rule e:" ++ (10 ∷ codes "%N n => $num")

-- What a load gives.
unfoldable grammar_of : Outcome (Option Grammar × Stores) → Grammar × Stores
grammar_of (ok (some g, s)) = (g, s)
grammar_of _ = (record { rules = []; start_rule = 0 }, no_stores)

abbrev loaded_number : Grammar × Stores
loaded_number = grammar_of (grammar_load_file number_rule no_stores)

grammar_load_file-Loaded_example :
    WellFormed loaded_number.1.names
    × Keeps no_names loaded_number.1.names
    × RulesLoaded loaded_number.1.names loaded_number.0.rules
    × CanStart loaded_number.0
unfolding grammar_of grammar_load_file load_lines load_line span trim_right has_prefix strstr
    c_string rule_name_of last_char reset_rule add_to_rule split_templates store_templates segments
    parse_pattern parse_atoms parse_literal quoted group_body snoc_atom attach atom_for
    binding_power interns_intern arena_push arena_init bytes_eq
grammar_load_file-Loaded_example =
    grammar_load_file-Loaded number_rule no_stores no_names-WellFormed refl

grammar_load_file-ne-fault_example : grammar_load_file number_rule no_stores ≢ fault
unfolding span trim_right has_prefix strstr c_string
grammar_load_file-ne-fault_example =
    grammar_load_file-ne-fault number_rule no_stores no_names-WellFormed
      (safe_line refl (safe_line refl no_line))
