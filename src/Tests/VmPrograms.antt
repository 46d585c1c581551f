-- ===== src/Tests/VmPrograms.antt =====
-- A program of src/backend/vm.c and src/runtime/vm_runtime.c: `x := 4` and the exit code `x + 3`.
use Prim.Native.Nat.{◌-◌}
use morphl.Prelude.{
  ℕ, ◌+◌, ◌≡◌, Bool, false, Option, none, some, [], ◌∷◌, Bytes, codes, bytes_eq, ltb, ok, arith,
  c_string,
}
use morphl.Util.Arena.{arena_init}
use morphl.Util.Intern.{InternTable, interns_lookup}
use morphl.Ast.{AstKind, AstNode, node, nil, cons, literal, ident, decl, builtin, file}
use morphl.Vm.Codec.{
  VmBytes, vm_grow, grow_loop, bytes_push, bytes_push_u8, bytes_push_u16_le, bytes_push_u32_le,
}
use morphl.Vm.Emit.{
  find_string, table_capacity, string_table_add, metadata_add, op_name_from_node, is_one_of,
  is_compile_time_operator, emit_opcode, push_u32, emit_opcode_u32, emit_named, emit_set_slot,
  decl_name, emit_node_meta, emit_node, emit_children, emit_rhs, emit_first, emit_entry,
  emit_metadata, emit_program,
}
use morphl.Vm.Image.{backend_func_vm}
use morphl.Vm.Load.{Program, program_load}
use morphl.Vm.Value.{
  DoubleOps, vm_value_copy, vm_values_copy, vm_stack_push, vm_stack_pop, slot_value,
  vm_resolve_value, vm_set_slot, parse_number, vm_value_to_number, format_number,
}
use morphl.Vm.Machine.{
  exited, execute, pop_group, make_group, assign_slot, pop_two, add_values, execute_add, set_value,
  execute_set, vm_execute_operator, exit_with,
}
use morphl.Vm.Meaning.{eval_node, eval_children, eval_rhs, eval_first}
use morphl.Vm.Correct.Program.{outcome}
use morphl.Vm.Correct.Total.{
  weight, weights, HasOperand, RetsHaveOperands, node_returns, nil_returns, cons_returns,
}
use morphl.Vm.Correct.Compiled.{execute-compiled}

-- Decimal numerals of one digit stand for the numbers; a sum has one digit too.
digit_ops : DoubleOps ℕ
digit_ops = record {
  strtod = one_digit;
  format_g17 = λ n. some ((n + 48) ∷ []);
  add = λ a b. a + b;
  below_zero = λ n. false;
  above_255 = λ n. ltb 255 n;
  to_int = λ n. n;
}
  where
    one_digit : Bytes → ℕ × ℕ × Bool
    one_digit [] = (0, 0, false)
    one_digit (c ∷ cs) = (c - 48, 1, false)

abbrev names : Option InternTable
names =
    some (record { slots = []; arena = arena_init 64; index = codes "$add" ∷ codes "$ret" ∷ [] })

abbrev leaf_ident : Bytes → AstNode
leaf_ident s = node ident 0 (some s) nil

abbrev leaf_literal : Bytes → AstNode
leaf_literal s = node literal 0 (some s) nil

abbrev sum_program : AstNode
sum_program = node file 0 none (
    cons (node decl 0 none (cons (leaf_ident (codes "x")) (cons (leaf_literal (codes "4")) nil))) (
      cons
        (node builtin 2 none (
          cons
            (node builtin 1 none
              (cons (leaf_ident (codes "x")) (cons (leaf_literal (codes "3")) nil)))
            nil))
        nil))

leaf_returns :
    (kind : AstKind) (op : ℕ) (value : Option Bytes)
    → HasOperand names kind op nil
    → RetsHaveOperands names (node kind op value nil)
leaf_returns kind op value h = node_returns kind op value nil h nil_returns

sum_program_returns : RetsHaveOperands names sum_program
sum_program_returns = node_returns file 0 none _ tt (
    cons_returns _ _
      (node_returns decl 0 none _ tt (
        cons_returns _ _ (leaf_returns ident 0 _ tt)
          (cons_returns _ _ (leaf_returns literal 0 _ tt) nil_returns)))
      (cons_returns _ _
        (node_returns builtin 2 none _ (λ _. omega arith)
          (cons_returns _ _
            (node_returns builtin 1 none _ (λ _. omega arith)
              (cons_returns _ _ (leaf_returns ident 0 _ tt)
                (cons_returns _ _ (leaf_returns literal 0 _ tt) nil_returns)))
            nil_returns))
        nil_returns))

execute-compiled_example :
    (f : VmBytes) × (p : Program) × (backend_func_vm names sum_program ≡ ok f)
    × (program_load f.bytes ≡ ok p)
    × (execute digit_ops p 4294967296 ≡ some (exited 7))
unfolding weight weights find_string table_capacity string_table_add metadata_add op_name_from_node
    is_one_of is_compile_time_operator emit_opcode push_u32 emit_opcode_u32 emit_named emit_set_slot
    decl_name emit_node_meta emit_node emit_children emit_rhs emit_first emit_entry emit_metadata
    emit_program vm_grow grow_loop bytes_push bytes_push_u8 bytes_push_u16_le bytes_push_u32_le
    interns_lookup bytes_eq c_string vm_value_copy vm_values_copy vm_stack_push vm_stack_pop
    slot_value vm_resolve_value vm_set_slot parse_number vm_value_to_number format_number pop_group
    make_group assign_slot pop_two add_values execute_add set_value execute_set vm_execute_operator
    exit_with eval_node eval_children eval_rhs eval_first outcome digit_ops
execute-compiled_example =
    execute-compiled digit_ops names sum_program 4294967296 sum_program_returns (omega arith)
      (omega arith)
