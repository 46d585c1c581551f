-- ===== src/Tests/Interning.antt =====
-- The intern table of src/util/util.c on small inputs.
use morphl.Prelude.{ℕ, ◌≡◌, refl, some, codes, bytes_eq, Outcome, ok, arith}
use morphl.Util.Arena.{arena_init, arena_push}
use morphl.Util.Intern.{InternTable, interns_intern, interns_lookup}
use morphl.Util.Intern.Invariant.{
  empty_table, empty_table-WellFormed, WellFormed, Interned, interns_intern-Interned,
}
use morphl.Util.Intern.Ids.{
  interned, interns_lookup-interns_intern, interns_lookup-stable, interns_intern-interns_lookup,
}

abbrev no_strings : InternTable
no_strings = empty_table 4

no_strings-WellFormed : WellFormed no_strings
no_strings-WellFormed = empty_table-WellFormed 4

-- The table that a call leaves.
unfoldable table_of : Outcome (ℕ × InternTable) → InternTable
table_of (ok (id, t)) = t
table_of _ = no_strings

unfoldable one_string : InternTable
one_string = table_of (interns_intern no_strings (some (codes "ab")))

one_string-WellFormed : WellFormed one_string
unfolding one_string table_of interns_intern arena_init arena_push bytes_eq
one_string-WellFormed = (interned no_strings (codes "ab") {id = 1} no_strings-WellFormed refl).0

interns_intern-Interned_example :
    (id : ℕ) × (t' : InternTable) × (interns_intern one_string (some (codes "cd")) ≡ ok (id, t'))
    × WellFormed t'
    × Interned one_string (codes "cd") id t'
interns_intern-Interned_example =
    interns_intern-Interned one_string (codes "cd") one_string-WellFormed

interns_lookup-interns_intern_example :
    interns_lookup (table_of (interns_intern one_string (some (codes "cd")))) 2 ≡ some (codes "cd")
unfolding one_string table_of interns_intern arena_init arena_push bytes_eq
interns_lookup-interns_intern_example =
    interns_lookup-interns_intern one_string (codes "cd") {id = 2} one_string-WellFormed refl
      (omega arith)

interns_lookup-stable_example :
    interns_lookup (table_of (interns_intern one_string (some (codes "cd")))) 1 ≡ some (codes "ab")
unfolding one_string table_of interns_intern arena_init arena_push bytes_eq interns_lookup
interns_lookup-stable_example =
    interns_lookup-stable one_string (codes "cd") (codes "ab") 1 {id = 2} one_string-WellFormed refl
      refl

interns_intern-interns_lookup_example :
    (t' : InternTable) × (interns_intern one_string (some (codes "ab")) ≡ ok (1, t'))
    × WellFormed t'
unfolding one_string table_of interns_intern arena_init arena_push bytes_eq interns_lookup
interns_intern-interns_lookup_example =
    interns_intern-interns_lookup one_string (codes "ab") 1 one_string-WellFormed refl
