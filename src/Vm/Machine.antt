-- ===== src/Vm/Machine.antt =====
-- The interpreter of src/runtime/vm_runtime.c: operators, calls, and the loop of
-- `morphl_vm_execute`. The messages on the error stream are the values of `RuntimeError`, of
-- which the first one reported is kept.
pub mod Progress
use morphl.Prelude.{
  ℕ, zero, suc, ◌+◌, ◌||◌, Option, none, some, List, [], ◌∷◌, length, take, get_elem?, Bytes, codes,
  bytes_eq, c_string, ltb, ◌==◌, if◌then◌else◌,
}
use morphl.Vm.Op
use morphl.Vm.Load.{Program, u32_at}
use morphl.Vm.Value.{
  VmValue, null_value, literal_value, ident_value, group_value, VmValues, no_values, more_values,
  VmCallFrame, Stack, Slots, vm_stack_push, vm_stack_pop, vm_resolve_value, vm_set_slot,
  vm_value_to_number, format_number, DoubleOps,
}

pub data RuntimeError : Type 0 where
  invalid_vm_state truncated_payload index_out_of_bounds group_arity slot_needs_value : RuntimeError
  add_needs_two add_needs_numbers add_format set_needs_two set_needs_ident : RuntimeError
  unsupported_operator : Bytes → RuntimeError
  exit_underflow exit_code_invalid return_at_top_level return_underflow : RuntimeError
  node_meta_unsupported unknown_opcode no_halt : RuntimeError

pub record Vm : Type 0 where
  pub ip : ℕ
  pub stack : Stack
  pub slots : Slots
  pub call_frames : List VmCallFrame

pub data Step : Type 0 where
  running : Vm → Step
  exited : ℕ → Step
  error : RuntimeError → Step

-- The values and slots that an operator works on.
pub record Data : Type 0 where
  pub stack : Stack
  pub slots : Slots

pub data Result : Type 0 where
  done : Data → Result
  refused : RuntimeError → Result

-- The `arity` topmost values, the deepest first; `none` if there are fewer.
unfoldable pub pop_group : ℕ → Stack → VmValues → Option (VmValues × Stack)
pop_group zero stack items = some (items, stack)
pop_group (suc n) stack items = elim (vm_stack_pop stack) [
  | none ↦ none
  | some (v, stack') ↦ pop_group n stack' (more_values v items)
]

unfoldable pub make_group : ℕ → Data → Result
make_group arity d =
    if ltb (length d.stack) arity
    then refused group_arity
    else elim (pop_group arity d.stack no_values) [
      | none ↦ refused group_arity
      | some (items, stack) ↦ done (record d { stack = vm_stack_push stack (group_value items) })
    ]

unfoldable pub assign_slot : Bytes → Data → Result
assign_slot name d = elim (vm_stack_pop d.stack) [
  | none ↦ refused slot_needs_value
  | some (v, stack) ↦
      done (record { stack = vm_stack_push stack v; slots = vm_set_slot d.slots name v })
]

-- The two operands of an operator: `(lhs, rhs, rest)`.
unfoldable pub pop_two : Stack → Option (VmValue × VmValue × Stack)
pop_two stack = elim (vm_stack_pop stack) [
  | none ↦ none
  | some (rhs, s₁) ↦ elim (vm_stack_pop s₁) [ none ↦ none | some (lhs, s₂) ↦ some (lhs, rhs, s₂) ]
]

module _ {D : Type 0} (fp : DoubleOps D) where
  unfoldable pub add_values : Slots → VmValue → VmValue → Option D
  add_values slots lhs rhs = elim (vm_value_to_number fp (vm_resolve_value slots lhs)) [
    | none ↦ none
    | some a ↦ elim (vm_value_to_number fp (vm_resolve_value slots rhs)) [
      | none ↦ none
      | some b ↦ some (fp.add a b)
    ]
  ]

  unfoldable pub execute_add : Data → Result
  execute_add d = elim (pop_two d.stack) [
    | none ↦ refused add_needs_two
    | some (lhs, rhs, stack) ↦ elim (add_values d.slots lhs rhs) [
      | none ↦ refused add_needs_numbers
      | some sum ↦ elim (format_number fp sum) [
        | none ↦ refused add_format
        | some s ↦ done (record d { stack = vm_stack_push stack (literal_value s) })
      ]
    ]
  ]

-- `$set` on a left operand, by its kind.
unfoldable pub set_value : VmValue → VmValue → Stack → Slots → Result
set_value (ident_value name) rhs stack slots =
    done (record { stack = vm_stack_push stack rhs; slots = vm_set_slot slots name rhs })
set_value _ rhs stack slots = refused set_needs_ident

unfoldable pub execute_set : Data → Result
execute_set d = elim (pop_two d.stack) [
  | none ↦ refused set_needs_two
  | some (lhs, rhs, stack) ↦ set_value lhs rhs stack d.slots
]

module _ {D : Type 0} (fp : DoubleOps D) where
  unfoldable pub vm_execute_operator : Bytes → Data → Result
  vm_execute_operator name d =
      if bytes_eq (c_string name) (codes "$add")
      then execute_add fp d
      else if bytes_eq (c_string name) (codes "$set")
      then execute_set d
      else refused (unsupported_operator (c_string name))

  -- `RET` in the main frame: the exit code.
  unfoldable pub exit_with : Stack → Step
  exit_with stack = elim (vm_stack_pop stack) [
    | none ↦ error exit_underflow
    | some (v, _) ↦ elim (vm_value_to_number fp v) [
      | none ↦ error exit_code_invalid
      | some n ↦
          if fp.below_zero n || fp.above_255 n
          then error exit_code_invalid
          else exited (fp.to_int n)
    ]
  ]

-- `vm_return`. The slots are cut back to `frame->base`, a height of the value stack.
unfoldable pub vm_return : Vm → Step
vm_return vm = elim vm.call_frames [
  | [] ↦ error return_at_top_level
  | frame ∷ frames ↦ elim (vm_stack_pop vm.stack) [
    | none ↦ error return_underflow
    | some (v, stack) ↦ running (record {
      ip = frame.return_ip;
      stack = vm_stack_push stack v;
      slots = take frame.base vm.slots;
      call_frames = frames;
    })
  ]
]

-- `VM_OP_RET`: no `continue` follows a return from a call, and no later test of the loop's body
-- takes the opcode, so it ends in the report of an unknown opcode.
unfoldable pub after_return : Step → Step
after_return (running vm) = error unknown_opcode
after_return (exited n) = exited n
after_return (error e) = error e

abbrev pub top_scope_depth : List VmCallFrame → ℕ
top_scope_depth [] = 0
top_scope_depth (frame ∷ _) = frame.scope_depth + 1

-- `vm_call`: it records a frame, and leaves the instruction pointer behind the call's payload.
unfoldable pub vm_call : Vm → ℕ → Vm
vm_call vm func_index = record vm {
  call_frames =
      record {
        func_index = func_index;
        ip = 0;
        base = length vm.stack;
        local_base = length vm.slots;
        return_ip = vm.ip + 4;
        return_base = length vm.stack;
        return_local_base = length vm.slots;
        scope_depth = top_scope_depth vm.call_frames;
      }
      ∷ vm.call_frames;
}

-- The fields of the main frame that `vm_init_call_frame` leaves unset are zero here.
unfoldable pub vm_init_call_frame : Vm → Vm
vm_init_call_frame vm = record vm {
  call_frames =
      record {
        func_index = 0;
        ip = vm.ip;
        base = 0;
        local_base = 0;
        return_ip = 0;
        return_base = 0;
        return_local_base = 0;
        scope_depth = 0;
      }
      ∷ vm.call_frames;
}

abbrev pub push_value : Vm → VmValue → Vm
push_value vm v = record vm { stack = vm_stack_push vm.stack v }

abbrev pub data_of : Vm → Data
data_of vm = record { stack = vm.stack; slots = vm.slots }

-- The machine goes on with what an operation leaves.
unfoldable pub resume : Vm → Result → Step
resume vm (done d) = running (record vm { stack = d.stack; slots = d.slots })
resume vm (refused e) = error e

-- An instruction with a four-byte payload, at the byte behind its opcode.
unfoldable pub with_payload : Program → Vm → (ℕ → Vm → Step) → Step
with_payload p vm k =
    if ltb (length p.code) (vm.ip + 4)
    then error truncated_payload
    else k (u32_at p.code vm.ip) (record vm { ip = vm.ip + 4 })

-- An instruction whose payload is an index into the string table.
unfoldable pub with_string : Program → Vm → (Bytes → Vm → Step) → Step
with_string p vm k = with_payload p vm λ idx vm'. elim (get_elem? p.strings idx) [
  | none ↦ error index_out_of_bounds
  | some s ↦ k s vm'
]

module _ {D : Type 0} (fp : DoubleOps D) (p : Program) where
  -- `VM_OP_RET`. There is a single frame exactly if the main frame is current.
  unfoldable pub step_ret : Vm → Step
  step_ret vm =
      if length vm.call_frames == 1 then exit_with fp vm.stack else after_return (vm_return vm)

  -- The body of the loop, at the byte behind the opcode.
  unfoldable pub dispatch : ℕ → Vm → Step
  dispatch op vm =
      if op == Op.halt
      then exited 0
      else if op == Op.push_null
      then running (push_value vm null_value)
      else if op == Op.push_literal
      then with_string p vm (λ s v. running (push_value v (literal_value s)))
      else if op == Op.push_ident
      then with_string p vm (λ s v. running (push_value v (ident_value s)))
      else if op == Op.make_group
      then with_payload p vm (λ arity v. resume v (make_group arity (data_of v)))
      else if op == Op.set_slot
      then with_string p vm (λ s v. resume v (assign_slot s (data_of v)))
      else if op == Op.operator
      then with_string p vm (λ s v. resume v (vm_execute_operator fp s (data_of v)))
      else if op == Op.ret
      then step_ret vm
      else if op == Op.call
      then with_payload p vm (λ func_index v. running (vm_call v func_index))
      else if op == Op.node_meta
      then error node_meta_unsupported
      else error unknown_opcode

  -- One round of the loop of `morphl_vm_execute`, its test included.
  unfoldable pub step : Vm → Step
  step vm = elim (get_elem? p.code vm.ip) [
    | none ↦ error no_halt
    | some op ↦ dispatch op (record vm { ip = vm.ip + 1 })
  ]

  -- The loop; `none` when the fuel runs out.
  unfoldable pub run : ℕ → Vm → Option Step
  run zero vm = none
  run (suc fuel) vm = elim (step vm) [
    | running vm' ↦ run fuel vm'
    | exited n ↦ some (exited n)
    | error e ↦ some (error e)
  ]

  -- `morphl_vm_execute` on a new machine. The code pointer of an empty program is NULL.
  unfoldable pub execute : ℕ → Option Step
  execute fuel =
      if length p.code == 0
      then some (error invalid_vm_state)
      else run fuel
          (vm_init_call_frame (record { ip = 0; stack = []; slots = []; call_frames = [] }))

-- The exit code of `morphl_vm_execute`.
abbrev pub exit_code : Step → ℕ
exit_code (exited n) = n
exit_code (error e) = 1
exit_code (running vm) = 1
