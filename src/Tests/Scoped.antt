-- ===== src/Tests/Scoped.antt =====
-- Scopes of src/parser/scoped_parser.c in which a grammar is to be loaded.
use morphl.Prelude.{ℕ, List, [], ◌∷◌, Bytes, codes, none, some, Option, ok, Outcome, true}
use morphl.Util.Arena.{arena_init}
use morphl.Util.Intern.{InternTable, interns_intern}
use morphl.Util.Intern.Invariant.{empty_table}
use morphl.Ast.{Children, node, nil, cons, literal}
use morphl.Parser.Scoped.{ScopedParser, scoped_parser_push_grammar}

abbrev no_names : InternTable
no_names = empty_table 32

-- The table that a call leaves.
unfoldable table_of : Outcome (ℕ × InternTable) → InternTable
table_of (ok (id, t)) = t
table_of _ = no_names

abbrev number_known : InternTable
number_known = table_of (interns_intern no_names (some (codes "NUMBER")))

abbrev both_known : InternTable
both_known = table_of (interns_intern number_known (some (codes "FLOAT")))

-- Every path leads to a text that is no grammar.
abbrev oops_file : Bytes → Option Bytes
oops_file path = some (codes "oops")

abbrev parser : ScopedParser ℕ
parser = record {
  grammar_stack = [];
  use_builtins = true;
  stores = record { names = both_known; arena = arena_init 65536 };
  type_context = 0;
}

-- A scope with no grammar around the one that is entered.
abbrev outer : ScopedParser ℕ
outer = scoped_parser_push_grammar parser none

-- `$syntax "g"` and a `$syntax` without an argument.
abbrev actions : List Children
actions = cons (node literal 0 (some (34 ∷ (103 ∷ (34 ∷ [])))) nil) nil ∷ (nil ∷ [])
