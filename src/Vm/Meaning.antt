-- ===== src/Vm/Meaning.antt =====
-- What a syntax tree does on the VM, said of the tree alone: no string table, no byte offsets, no
-- instruction pointer. `called` tells whether a call has been made, after which `$ret` is refused.
use morphl.Prelude.{◌%◌, ◌^◌, Bool, true, false, Option, [], ◌∷◌, codes, bytes_eq, if◌then◌else◌}
use morphl.Util.{text}
use morphl.Util.Intern.{InternTable}
use morphl.Ast.{
  AstNode, Children, null, node, nil, cons, child_count, literal, ident, call, block, group, decl,
  set, builtin, file,
}
use morphl.Vm.Emit.{op_name_from_node, is_compile_time_operator, decl_name}
use morphl.Vm.Value.{
  VmValue, null_value, literal_value, ident_value, Stack, vm_stack_push, DoubleOps,
}
use morphl.Vm.Machine.{
  Step, error, unknown_opcode, return_underflow, node_meta_unsupported, Data, Result, done, refused,
  make_group, assign_slot, vm_execute_operator, exit_with,
}

pub record Mach : Type 0 where
  pub values : Data
  pub called : Bool

-- Going on in a new state, or the end of the run.
pub data Effect : Type 0 where
  next : Mach → Effect
  stops : Step → Effect

infixl 5 ◌▷◌
abbrev pub ◌▷◌ : Effect → (Mach → Effect) → Effect
next m ▷ f = f m
stops s ▷ f = stops s

abbrev pub pushes : VmValue → Mach → Effect
pushes v m = next (record m { values = record m.values { stack = vm_stack_push m.values.stack v } })

-- An operation on the values.
abbrev pub applied : Mach → Result → Effect
applied m (done d) = next (record m { values = d })
applied m (refused e) = stops (error e)

abbrev pub returned : Bool → Stack → Step → Step
returned false stack main = main
returned true [] main = error return_underflow
returned true (v ∷ stack) main = error unknown_opcode

module _ {D : Type 0} (fp : DoubleOps D) (interns : Option InternTable) where
  unfoldable mutual
    pub eval_node : AstNode → Mach → Effect
    eval_node null m = pushes null_value m
    eval_node (node literal op value cs) m = pushes (literal_value (text value)) m
    eval_node (node ident op value cs) m = pushes (ident_value (text value)) m
    eval_node (node group op value cs) m =
        eval_children cs m ▷ λ m'. applied m' (make_group (child_count cs % 2 ^ 32) m'.values)
    eval_node (node call op value cs) m =
        eval_children cs m ▷ λ m'. next (record m' { called = true })
    eval_node (node decl op value cs) m =
        eval_rhs cs m ▷ λ m'. applied m' (assign_slot (decl_name cs) m'.values)
    eval_node (node set op value cs) m =
        eval_children cs m ▷ λ m'. applied m' (vm_execute_operator fp (codes "$set") m'.values)
    eval_node (node builtin op value cs) m =
        let name = text (op_name_from_node interns op) in
        let declared = eval_rhs cs m in
        let result = eval_first cs m in
        let operands = eval_children cs m in
        if is_compile_time_operator name
        then (if bytes_eq name (codes "$decl")
            then (declared ▷ λ m'. applied m' (assign_slot (decl_name cs) m'.values))
            else operands)
        else if bytes_eq name (codes "$ret")
        then (result ▷ λ m'.
            stops (returned m'.called m'.values.stack (exit_with fp m'.values.stack)))
        else (operands ▷ λ m'. applied m' (vm_execute_operator fp name m'.values))
    eval_node (node file op value cs) m = eval_children cs m
    eval_node (node block op value cs) m = eval_children cs m
    eval_node (node kind op value cs) m = stops (error node_meta_unsupported)

    pub eval_children : Children → Mach → Effect
    eval_children nil m = next m
    eval_children (cons c cs) m = eval_node c m ▷ λ m'. eval_children cs m'

    pub eval_rhs : Children → Mach → Effect
    eval_rhs (cons c (cons rhs cs)) m = eval_node rhs m
    eval_rhs _ m = pushes null_value m

    pub eval_first : Children → Mach → Effect
    eval_first nil m = pushes null_value m
    eval_first (cons c cs) m = eval_node c m
