-- ===== src/Vm/Correct/Compiled.antt =====
-- The whole way of a tree of moderate size, without assumptions on the emission: src/backend/vm.c
-- writes its program, and src/runtime/vm_runtime.c loads and runs it.
use morphl.Prelude.{
  ℕ, ◌+◌, ◌*◌, ◌%◌, ◌^◌, ◌<◌, ◌≤◌, ◌≡◌, refl, ap, List, [], ◌∷◌, ◌++◌, Option, some, take,
  take-length, length, length-append, codes, ok, arith,
}
use morphl.Util.Intern.{InternTable}
use morphl.Ast.{AstNode}
use morphl.Vm.Op
use morphl.Vm.Codec.{VmBytes, u32_le}
use morphl.Vm.Emit.{VmString, VmMetadata, VmEmitter, new_emitter, emit_metadata, emit_program}
use morphl.Vm.Image.{backend_func_vm}
use morphl.Vm.Image.Layout.{layout, string_bytes, metadata_bytes}
use morphl.Vm.Load.{Program, program_load}
use morphl.Vm.Load.RoundTrip.{AllFit, Fits}
use morphl.Vm.Value.{DoubleOps}
use morphl.Vm.Machine.{execute}
use morphl.Vm.Meaning.{eval_node}
use morphl.Vm.Correct.Room.{
  Room, strings_size, length-strings_size, emit_opcode-Goes, emit_entry-Goes,
}
use morphl.Vm.Correct.Total.{weight, RetsHaveOperands, emit_node-Room}
use morphl.Vm.Correct.Program.{outcome, start, execute-backend_func_vm}

length-string_bytes : (ss : List VmString) → AllFit ss → length (string_bytes ss) ≡ strings_size ss
length-string_bytes [] fit = refl
length-string_bytes (s ∷ ss) fit =
    let whole : take s.len s.ptr ≡ s.ptr = rw fit.0 (take-length s.ptr) in
    omega (
      arith,
      ap length whole,
      length-append {0} (u32_le s.len) (take s.len s.ptr ++ string_bytes ss),
      length-append {0} (take s.len s.ptr) (string_bytes ss),
      length-string_bytes ss fit.2,
    )

length-metadata_bytes : (ms : List VmMetadata) → length (metadata_bytes ms) ≡ 8 * length ms
length-metadata_bytes [] = refl
length-metadata_bytes (m ∷ ms) = omega (arith, length-metadata_bytes ms)

Room-Fits : (interns : Option InternTable) (e : VmEmitter) → Room interns 3 e 0 → Fits e
Room-Fits interns e room = record {
  string_count = omega (arith, room.size, length-strings_size e.strings.items);
  strings = room.fit;
  metadata_count = omega (arith, room.count);
  metadata = room.small;
  code = omega (arith, room.size);
}

length-layout :
    (interns : Option InternTable) (e : VmEmitter) → Room interns 3 e 0 → length (layout e) ≤ 2 ^ 63
length-layout interns e room =
    let strings = length-string_bytes e.strings.items room.fit in
    let metadata = length-metadata_bytes e.metadata.items in
    omega (
      arith,
      room.size,
      room.count,
      strings,
      metadata,
      length-append {0} (string_bytes e.strings.items) (
          u32_le (length e.metadata.items % 2 ^ 32)
          ++ (metadata_bytes e.metadata.items
              ++ (u32_le (length e.code.bytes % 2 ^ 32) ++ e.code.bytes))),
      length-append {0} (metadata_bytes e.metadata.items)
          (u32_le (length e.code.bytes % 2 ^ 32) ++ e.code.bytes),
    )

emit_metadata-Room :
    (interns : Option InternTable) (e : VmEmitter)
    → Room interns 0 e 91
    → (e' : VmEmitter) × (emit_metadata e ≡ ok e') × Room interns 3 e' 0
unfolding emit_metadata
emit_metadata-Room interns e room =
    let (e₁, first, room₁) =
      emit_entry-Goes interns 0 e (codes "backend") (codes "morphl-vm-bytecode") 58 (omega arith)
        room in
    let (e₂, second, room₂) =
      emit_entry-Goes interns 1 e₁ (codes "format_version") (codes "1.0") 33 (omega arith) room₁ in
    let (e₃, third, room₃) =
      emit_entry-Goes interns 2 e₂ (codes "operators") (codes "runtime-verbatim") 0 (omega arith)
        room₂ in
    (e₃, rw (first, second) third, room₃)

emit_program-Room :
    (interns : Option InternTable) (tree : AstNode)
    → RetsHaveOperands interns tree
    → weight interns tree + 92 < 2 ^ 32
    → (e : VmEmitter) × (emit_program interns tree ≡ ok e) × Room interns 3 e 0
unfolding emit_program
emit_program-Room interns tree has h =
    let (e₁, emitted, room₁) = emit_node-Room interns 0 tree (new_emitter interns) 92 has (record {
      size = omega (arith, h);
      fit = tt;
      small = tt;
      count = refl;
      same_interns = refl;
    }) in
    let (e₂, halted, room₂) = emit_opcode-Goes interns 0 e₁ Op.halt 91 room₁ in
    let (e₃, described, room₃) = emit_metadata-Room interns e₂ room₂ in
    (e₃, rw (emitted, halted) described, room₃)

-- Every syntax tree whose `$ret`s have an operand and whose weight is less than 2^32 - 92 is compiled
-- to a program that can be loaded, and that program, run with fuel of at least 2^32, ends as the
-- tree's meaning says: with exit code 0 if the tree runs to its end, else with the exit code or the
-- error at which it stops. The weight counts 40 for each node, and the length of its text and of its
-- operator's name.
pub execute-compiled :
    {D : Type 0} (fp : DoubleOps D) (interns : Option InternTable) (tree : AstNode) (fuel : ℕ)
    → RetsHaveOperands interns tree
    → weight interns tree + 92 < 2 ^ 32
    → 2 ^ 32 ≤ fuel
    → (f : VmBytes) × (p : Program) × (backend_func_vm interns tree ≡ ok f)
      × (program_load f.bytes ≡ ok p)
      × (execute fp p fuel ≡ some (outcome (eval_node fp interns tree start)))
execute-compiled fp interns tree fuel has light enough =
    let (e, emitted, room) = emit_program-Room interns tree has light in
    let fit = Room-Fits interns e room in
    execute-backend_func_vm fp interns tree fuel emitted fit (length-layout interns e room)
      (let short : length e.code.bytes < fuel = omega (arith, fit.code, enough) in short)
