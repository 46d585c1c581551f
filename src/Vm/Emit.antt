-- ===== src/Vm/Emit.antt =====
-- The emitter of src/backend/vm.c: string table, metadata, and code from a syntax tree.
-- `malloc` and `realloc` are taken to succeed.
use morphl.Prelude.{
  ℕ, ◌+◌, ◌%◌, ◌^◌, Bool, false, ◌&&◌, ◌||◌, Option, none, some, List, [], ◌∷◌, ◌++◌, take, length,
  Bytes, codes, bytes_eq, ◌==◌, if◌then◌else◌, Outcome, ok, fault, ◌>>=◌,
}
use morphl.Util.{Str, text}
use morphl.Util.Intern.{InternTable, interns_lookup}
use morphl.Ast.{
  AstKind, AstNode, Children, null, node, nil, cons, child_count, kind_code, literal, ident, call,
  block, group, decl, set, builtin, file,
}
use morphl.Vm.Op
use morphl.Vm.Codec.{VmBytes, no_bytes, vm_grow, bytes_push_u8, bytes_push_u32_le}

pub record VmString : Type 0 where
  pub ptr : Bytes
  pub len : ℕ

pub record VmStringTable : Type 0 where
  pub items : List VmString
  pub capacity : ℕ

pub record VmMetadata : Type 0 where
  pub key_index : ℕ
  pub value_index : ℕ

pub record VmMetadataTable : Type 0 where
  pub items : List VmMetadata
  pub capacity : ℕ

pub record VmEmitter : Type 0 where
  pub strings : VmStringTable
  pub metadata : VmMetadataTable
  pub code : VmBytes
  pub interns : Option InternTable

-- The test of the loop of `string_table_add`.
abbrev pub same_string : VmString → Bytes → Bool
same_string item s = item.len == length s && bytes_eq (take (length s) item.ptr) s

-- The loop of `string_table_add`, from index `i` on.
unfoldable pub find_string : List VmString → ℕ → Bytes → Option ℕ
find_string [] i s = none
find_string (item ∷ items) i s = if same_string item s then some i else find_string items (i + 1) s

abbrev pub truncated : Bytes → VmString
truncated s = record { ptr = s; len = length s % 2 ^ 32 }

-- The capacity that `string_table_add` and `metadata_add` leave for one more item.
unfoldable pub table_capacity : ℕ → ℕ → Outcome ℕ
table_capacity count capacity =
    if count == capacity then vm_grow capacity (count + 1) else ok capacity

unfoldable pub string_table_add : VmStringTable → Bytes → Outcome (ℕ × VmStringTable)
string_table_add table s = elim (find_string table.items 0 s) [
  | some i ↦ ok (i % 2 ^ 32, table)
  | none ↦ table_capacity (length table.items) table.capacity >>= λ c. ok (
    length table.items % 2 ^ 32,
    record { items = table.items ++ (truncated s ∷ []); capacity = c },
  )
]

unfoldable pub metadata_add : VmMetadataTable → ℕ → ℕ → Outcome VmMetadataTable
metadata_add table key value = table_capacity (length table.items) table.capacity >>= λ c.
    ok (record {
      items = table.items ++ (record { key_index = key; value_index = value } ∷ []);
      capacity = c;
    })

-- `op_name_from_node`, of an emitter with this intern table and a node with this `op`.
unfoldable pub op_name_from_node : Option InternTable → ℕ → Str
op_name_from_node interns op = elim interns [
  | none ↦ some (codes "<none>")
  | some t ↦ if op == 0 then some (codes "<none>") else interns_lookup t op
]

abbrev pub compile_time_ops : List Bytes
compile_time_ops =
    codes "$syntax"
    ∷ codes "$import"
    ∷ codes "$prop"
    ∷ codes "$decl"
    ∷ codes "$forward"
    ∷ codes "$file"
    ∷ codes "$global"
    ∷ codes "$inline"
    ∷ codes "$this"
    ∷ []

unfoldable pub is_one_of : List Bytes → Bytes → Bool
is_one_of [] name = false
is_one_of (candidate ∷ rest) name = bytes_eq name candidate || is_one_of rest name

unfoldable pub is_compile_time_operator : Bytes → Bool
is_compile_time_operator name = is_one_of compile_time_ops name

unfoldable pub emit_opcode : VmEmitter → ℕ → Outcome VmEmitter
emit_opcode e opcode = bytes_push_u8 e.code opcode >>= λ c. ok (record e { code = c })

unfoldable pub push_u32 : VmEmitter → ℕ → Outcome VmEmitter
push_u32 e v = bytes_push_u32_le e.code v >>= λ c. ok (record e { code = c })

unfoldable pub emit_opcode_u32 : VmEmitter → ℕ → ℕ → Outcome VmEmitter
emit_opcode_u32 e opcode imm = emit_opcode e opcode >>= λ e'. push_u32 e' imm

-- `string_table_add`, then `emit_opcode_u32` with the index.
unfoldable pub emit_named : VmEmitter → ℕ → Bytes → Outcome VmEmitter
emit_named e opcode name =
    string_table_add e.strings name >>= λ r. emit_opcode_u32 (record e { strings = r.1 }) opcode r.0

unfoldable pub emit_set_slot : VmEmitter → Bytes → Outcome VmEmitter
emit_set_slot e name = emit_named e Op.set_slot name

-- The slot name of a declaration: its first child if that is an identifier.
unfoldable pub decl_name : Children → Bytes
decl_name (cons (node ident _ value _) _) = text value
decl_name _ = codes "<anonymous>"

-- The descriptor in front of the children of a node kind that is not lowered.
unfoldable pub emit_node_meta : VmEmitter → AstKind → ℕ → Children → Outcome VmEmitter
emit_node_meta e kind op cs = do
  r ← string_table_add e.strings (text (op_name_from_node e.interns op))
  e₁ ← emit_opcode (record e { strings = r.1 }) Op.node_meta
  e₂ ← emit_opcode e₁ (kind_code kind)
  e₃ ← push_u32 e₂ r.0
  push_u32 e₃ (child_count cs % 2 ^ 32)

unfoldable mutual
  pub emit_node : VmEmitter → AstNode → Outcome VmEmitter
  emit_node e null = emit_opcode e Op.push_null
  emit_node e (node literal op value cs) = emit_named e Op.push_literal (text value)
  emit_node e (node ident op value cs) = emit_named e Op.push_ident (text value)
  emit_node e (node group op value cs) =
      emit_children e cs >>= λ e'. emit_opcode_u32 e' Op.make_group (child_count cs % 2 ^ 32)
  emit_node e (node call op value cs) =
      emit_children e cs >>= λ e'. emit_named e' Op.call (codes "$call")
  emit_node e (node decl op value cs) = emit_rhs e cs >>= λ e'. emit_set_slot e' (decl_name cs)
  emit_node e (node set op value cs) =
      emit_children e cs >>= λ e'. emit_named e' Op.operator (codes "$set")
  emit_node e (node builtin op value cs) =
      let name = text (op_name_from_node e.interns op) in
      let declared = emit_rhs e cs in
      let returned = emit_first e cs in
      let operands = emit_children e cs in
      if is_compile_time_operator name
      then (if bytes_eq name (codes "$decl")
          then (declared >>= λ e'. emit_set_slot e' (decl_name cs))
          else operands)
      else if bytes_eq name (codes "$ret")
      then (returned >>= λ e'. emit_opcode e' Op.ret)
      else (operands >>= λ e'. emit_named e' Op.operator name)
  emit_node e (node file op value cs) = emit_children e cs
  emit_node e (node block op value cs) = emit_children e cs
  emit_node e (node kind op value cs) = emit_node_meta e kind op cs >>= λ e'. emit_children e' cs

  -- The loop over the children.
  pub emit_children : VmEmitter → Children → Outcome VmEmitter
  emit_children e nil = ok e
  emit_children e (cons c cs) = emit_node e c >>= λ e'. emit_children e' cs

  -- The initial value of a declaration: its second child, or NULL.
  pub emit_rhs : VmEmitter → Children → Outcome VmEmitter
  emit_rhs e (cons c (cons rhs cs)) = emit_node e rhs
  emit_rhs e _ = emit_opcode e Op.push_null

  -- `node->children[0]` of a `$ret`. With no child, `children` is NULL.
  pub emit_first : VmEmitter → Children → Outcome VmEmitter
  emit_first e nil = fault
  emit_first e (cons c cs) = emit_node e c

-- A metadata entry with its two strings.
unfoldable pub emit_entry : VmEmitter → Bytes → Bytes → Outcome VmEmitter
emit_entry e key value = do
  k ← string_table_add e.strings key
  v ← string_table_add k.1 value
  m ← metadata_add e.metadata k.0 v.0
  ok (record e { strings = v.1; metadata = m })

unfoldable pub emit_metadata : VmEmitter → Outcome VmEmitter
emit_metadata e = do
  e₁ ← emit_entry e (codes "backend") (codes "morphl-vm-bytecode")
  e₂ ← emit_entry e₁ (codes "format_version") (codes "1.0")
  emit_entry e₂ (codes "operators") (codes "runtime-verbatim")

abbrev pub new_emitter : Option InternTable → VmEmitter
new_emitter interns = record {
  strings = record { items = []; capacity = 0 };
  metadata = record { items = []; capacity = 0 };
  code = no_bytes;
  interns = interns;
}

-- The three emitting steps of `morphl_backend_func_vm`.
unfoldable pub emit_program : Option InternTable → AstNode → Outcome VmEmitter
emit_program interns tree = do
  e₁ ← emit_node (new_emitter interns) tree
  e₂ ← emit_opcode e₁ Op.halt
  emit_metadata e₂
