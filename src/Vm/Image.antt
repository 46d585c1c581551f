-- ===== src/Vm/Image.antt =====
-- The file that `morphl_backend_func_vm` (src/backend/vm.c) assembles. Opening and writing the
-- file itself is left out: the result is the buffer handed to `fwrite`.
pub mod Layout
use morphl.Prelude.{
  ℕ, ◌%◌, ◌^◌, Option, List, [], ◌∷◌, length, take, Bytes, codes, Outcome, ok, ◌>>=◌,
}
use morphl.Util.Intern.{InternTable}
use morphl.Ast.{AstNode}
use morphl.Vm.Codec.{VmBytes, no_bytes, bytes_push, bytes_push_u16_le, bytes_push_u32_le}
use morphl.Vm.Emit.{VmString, VmMetadata, VmEmitter, emit_program}

abbrev pub magic : Bytes
magic = codes "MVMB"

abbrev pub version_major : ℕ
version_major = 1

abbrev pub version_minor : ℕ
version_minor = 0

unfoldable pub push_header : VmBytes → Outcome VmBytes
push_header f = do
  f₁ ← bytes_push f magic
  f₂ ← bytes_push_u16_le f₁ version_major
  f₃ ← bytes_push_u16_le f₂ version_minor
  bytes_push_u32_le f₃ 0

unfoldable pub push_strings : VmBytes → List VmString → Outcome VmBytes
push_strings f [] = ok f
push_strings f (s ∷ ss) = do
  f₁ ← bytes_push_u32_le f s.len
  f₂ ← bytes_push f₁ (take s.len s.ptr)
  push_strings f₂ ss

unfoldable pub push_metadata : VmBytes → List VmMetadata → Outcome VmBytes
push_metadata f [] = ok f
push_metadata f (m ∷ ms) = do
  f₁ ← bytes_push_u32_le f m.key_index
  f₂ ← bytes_push_u32_le f₁ m.value_index
  push_metadata f₂ ms

unfoldable pub push_image : VmEmitter → Outcome VmBytes
push_image e = do
  f₁ ← push_header no_bytes
  f₂ ← bytes_push_u32_le f₁ (length e.strings.items % 2 ^ 32)
  f₃ ← push_strings f₂ e.strings.items
  f₄ ← bytes_push_u32_le f₃ (length e.metadata.items % 2 ^ 32)
  f₅ ← push_metadata f₄ e.metadata.items
  f₆ ← bytes_push_u32_le f₅ (length e.code.bytes % 2 ^ 32)
  bytes_push f₆ e.code.bytes

unfoldable pub backend_func_vm : Option InternTable → AstNode → Outcome VmBytes
backend_func_vm interns tree = emit_program interns tree >>= push_image
