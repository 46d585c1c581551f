-- ===== src/Vm/Value.antt =====
-- The values, slots and frames of src/runtime/vm_runtime.c, and the operations on them.
-- The value stack is a list, last pushed first; the slots stand in the order of their creation.
-- Allocation is taken to succeed, and `vm_value_free` has no effect on values held elsewhere.
pub mod Slots
use morphl.Prelude.{
  ℕ, Bool, ◌||◌, not, Option, none, some, List, [], ◌∷◌, length, Bytes, bytes_eq, c_string, leb,
  ◌==◌, if◌then◌else◌,
}

-- Only literals and identifiers hold a `text`.
mutual
  pub data VmValue : Type 0 where
    null_value : VmValue
    literal_value : Bytes → VmValue
    ident_value : Bytes → VmValue
    group_value : VmValues → VmValue

  pub data VmValues : Type 0 where
    no_values : VmValues
    more_values : VmValue → VmValues → VmValues

-- `vm_value_copy`: a text is copied up to its first NUL.
unfoldable mutual
  pub vm_value_copy : VmValue → VmValue
  vm_value_copy null_value = null_value
  vm_value_copy (literal_value s) = literal_value (c_string s)
  vm_value_copy (ident_value s) = ident_value (c_string s)
  vm_value_copy (group_value vs) = group_value (vm_values_copy vs)

  pub vm_values_copy : VmValues → VmValues
  vm_values_copy no_values = no_values
  vm_values_copy (more_values v vs) = more_values (vm_value_copy v) (vm_values_copy vs)

pub record VmSlot : Type 0 where
  pub name : Bytes
  pub value : VmValue

pub record VmCallFrame : Type 0 where
  pub func_index : ℕ
  pub ip : ℕ
  pub base : ℕ
  pub local_base : ℕ
  pub return_ip : ℕ
  pub return_base : ℕ
  pub return_local_base : ℕ
  pub scope_depth : ℕ

abbrev pub Stack : Type 0
Stack = List VmValue

abbrev pub Slots : Type 0
Slots = List VmSlot

unfoldable pub vm_stack_push : Stack → VmValue → Stack
vm_stack_push stack v = vm_value_copy v ∷ stack

unfoldable pub vm_stack_pop : Stack → Option (VmValue × Stack)
vm_stack_pop [] = none
vm_stack_pop (v ∷ stack) = some (v, stack)

-- The value of the first slot of that name, or else `other`.
unfoldable pub slot_value : Slots → Bytes → VmValue → VmValue
slot_value [] name other = other
slot_value (s ∷ slots) name other =
    if bytes_eq (c_string s.name) (c_string name) then s.value else slot_value slots name other

unfoldable pub vm_resolve_value : Slots → VmValue → VmValue
vm_resolve_value slots (ident_value s) = slot_value slots s (ident_value s)
vm_resolve_value slots v = v

-- The first slot of that name is overwritten; a new one goes to the end.
unfoldable pub vm_set_slot : Slots → Bytes → VmValue → Slots
vm_set_slot [] name v = record { name = c_string name; value = vm_value_copy v } ∷ []
vm_set_slot (s ∷ slots) name v =
    if bytes_eq (c_string s.name) (c_string name)
    then record s { value = vm_value_copy v } ∷ slots
    else s ∷ vm_set_slot slots name v

-- `double` and the C library's conversions. `strtod` gives the value, the number of characters
-- read, and whether `errno` was set; `format_g17` is `snprintf` with "%.17g", `none` when it fails.
pub record DoubleOps (D : Type 0) : Type 0 where
  pub strtod : Bytes → D × ℕ × Bool
  pub format_g17 : D → Option Bytes
  pub add : D → D → D
  pub below_zero : D → Bool
  pub above_255 : D → Bool
  pub to_int : D → ℕ

module _ {D : Type 0} (fp : DoubleOps D) where
  unfoldable pub parse_number : Bytes → Option D
  parse_number s =
      let (parsed, end, range_error) = fp.strtod s in
      if range_error || end == 0 || not (end == length s) then none else some parsed

  unfoldable pub vm_value_to_number : VmValue → Option D
  vm_value_to_number (literal_value s) = parse_number (c_string s)
  vm_value_to_number _ = none

  -- The text of a sum in the buffer of 64 characters.
  unfoldable pub format_number : D → Option Bytes
  format_number d = elim (fp.format_g17 d) [
    | none ↦ none
    | some s ↦ if length s == 0 || leb 64 (length s) then none else some s
  ]
