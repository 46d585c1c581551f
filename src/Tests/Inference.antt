-- ===== src/Tests/Inference.antt =====
-- The types of operators of src/typing/inference.c on a sum.
use morphl.Prelude.{
  ℕ, ◌≡◌, inl, refl, true, false, List, [], ◌∷◌, codes, bytes_eq, some, Outcome, ok,
}
use morphl.Util.Arena.{arena_init, arena_push}
use morphl.Util.Intern.{InternTable, interns_intern, interns_lookup}
use morphl.Util.Intern.Invariant.{empty_table, empty_table-WellFormed, WellFormed}
use morphl.Util.Intern.Ids.{interned}
use morphl.Ast.{builtin}
use morphl.Parser.Operators.{Registered, operator_row, operator_info_lookup, find_operator}
use morphl.Typing.Types.{MorphlType, plain, ref, int, no_type, arena_alloc, plain_code}
use morphl.Typing.Types.Make.{morphl_type_plain}
use morphl.Typing.Context.{TypeContext, empty_scope}
use morphl.Typing.Inference.{
  Inferred, int_arithmetic, unwrap_ref, is_one_of, group_of, morphl_infer_type_for_op,
}
use morphl.Typing.Inference.Typed.{AllGiven, names_of, listed, two_operands, int_two}
use morphl.Typing.Inference.Rules.{In}
use morphl.Typing.Inference.Complete.{Infers, morphl_infer_type_for_op_complete}
use morphl.Typing.Inference.Sound.{InfersBy, morphl_infer_type_for_op_sound}

abbrev no_names : InternTable
no_names = empty_table 32

no_names-WellFormed : WellFormed no_names
no_names-WellFormed = empty_table-WellFormed 32

-- The table that a call leaves.
unfoldable table_of : Outcome (ℕ × InternTable) → InternTable
table_of (ok (id, t)) = t
table_of _ = no_names

abbrev sum_known : InternTable
sum_known = table_of (interns_intern no_names (some (codes "$add")))

abbrev ctx : TypeContext
ctx = record {
  arena = record { cap = 65536; off = 0 };
  functions = [];
  func_capacity = 32;
  scopes = empty_scope ∷ [];
  scope_capacity = 8;
  expected_return_type = no_type;
  pending_func_type = no_type;
  func_stack = [];
  func_stack_capacity = 4;
  file_type = no_type;
  global_type = no_type;
  file_stack = [];
  file_capacity = 4;
  global_stack = [];
  global_capacity = 4;
  this_stack = [];
  this_capacity = 4;
}

abbrev registry : List Registered
registry = record { row = operator_row (codes "$add") builtin true 2 2 false; sym = 1 } ∷ []

-- A mutable integer and an integer.
abbrev operands : List MorphlType
operands = ref (plain int) true false ∷ (plain int ∷ [])

abbrev type_of : Outcome (Inferred × InternTable) → MorphlType
type_of (ok (r, t)) = r.result
type_of _ = no_type

sum_is_int : type_of (morphl_infer_type_for_op registry ctx sum_known 1 operands) ≡ plain int
unfolding morphl_infer_type_for_op operator_info_lookup find_operator group_of is_one_of unwrap_ref
    table_of interns_intern morphl_type_plain arena_alloc arena_push arena_init plain_code bytes_eq
sum_is_int = refl

morphl_infer_type_for_op_sound_example :
    InfersBy ctx 1
      (codes "$add")
      operands
      sum_known
      (morphl_infer_type_for_op registry ctx sum_known 1 operands)
unfolding table_of interns_intern interns_lookup arena_push arena_init AllGiven
morphl_infer_type_for_op_sound_example =
    morphl_infer_type_for_op_sound registry ctx 1 (codes "$add") operands sum_known
      (interned no_names (codes "$add") no_names-WellFormed refl).0 refl (refl, (refl, tt))

morphl_infer_type_for_op_complete_example :
    Infers (plain int) (morphl_infer_type_for_op registry ctx sum_known 1 operands)
unfolding table_of interns_intern interns_lookup arena_push arena_init AllGiven operator_info_lookup
    find_operator arena_alloc names_of In unwrap_ref
morphl_infer_type_for_op_complete_example =
    morphl_infer_type_for_op_complete registry ctx 1 (codes "$add") operands sum_known
      (interned no_names (codes "$add") no_names-WellFormed refl).0 refl refl refl
      (refl, (refl, tt))
      (record { after_type = _; type_fits = refl; after_pointer = _; pointer_fits = refl })
      (listed {g = int_arithmetic} (inl refl) (two_operands int_two refl refl))
