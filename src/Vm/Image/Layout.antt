-- ===== src/Vm/Image/Layout.antt =====
-- The layout of a bytecode file, independent of the code that writes it, and that the buffer of
-- `morphl_backend_func_vm` has it.
use morphl.Prelude.{
  ℕ, ◌+◌, ◌%◌, ◌^◌, ◌≤◌, ◌≡◌, refl, sym, ap, ◌∙◌, List, [], ◌∷◌, ◌++◌, append-nil, append_assoc,
  length, length-append, take, Bytes, Outcome, ok, ◌>>=◌, arith,
}
use morphl.Vm.Codec.{
  VmBytes, no_bytes, bytes_push, bytes_push_u16_le, bytes_push_u32_le, u16_le, u32_le,
}
use morphl.Vm.Codec.Growth.{bytes_push-eq}
use morphl.Vm.Emit.{VmString, VmMetadata, VmEmitter}
use morphl.Vm.Image.{
  magic, version_major, version_minor, push_header, push_strings, push_metadata, push_image,
}

abbrev pub header : Bytes
header = magic ++ (u16_le version_major ++ (u16_le version_minor ++ u32_le 0))

abbrev pub string_bytes : List VmString → Bytes
string_bytes [] = []
string_bytes (s ∷ ss) = u32_le s.len ++ (take s.len s.ptr ++ string_bytes ss)

abbrev pub metadata_bytes : List VmMetadata → Bytes
metadata_bytes [] = []
metadata_bytes (m ∷ ms) = u32_le m.key_index ++ (u32_le m.value_index ++ metadata_bytes ms)

abbrev pub code_bytes : Bytes → Bytes
code_bytes code = u32_le (length code % 2 ^ 32) ++ code

abbrev pub layout : VmEmitter → Bytes
layout e =
    header
    ++ (u32_le (length e.strings.items % 2 ^ 32)
        ++ (string_bytes e.strings.items
            ++ (u32_le (length e.metadata.items % 2 ^ 32)
                ++ (metadata_bytes e.metadata.items ++ code_bytes e.code.bytes))))

-- A step of the writer that appends `bs`, and fails only beyond 2^63 bytes.
abbrev pub Writes : (VmBytes → Outcome VmBytes) → Bytes → Type 0
Writes w bs =
    (f : VmBytes)
    → length f.bytes + length bs ≤ 2 ^ 63
    → (f' : VmBytes) × (w f ≡ ok f') × (f'.bytes ≡ f.bytes ++ bs)

Writes-push : (bs : Bytes) → Writes (λ f. bytes_push f bs) bs
Writes-push bs f h =
    let (c, e) = bytes_push-eq f bs h in (record { bytes = f.bytes ++ bs; capacity = c }, e, refl)

-- Two steps in a row.
Writes-then :
    (v : VmBytes → Outcome VmBytes) (w : VmBytes → Outcome VmBytes) (bs cs : Bytes)
    → Writes v bs
    → Writes w cs
    → Writes (λ f. v f >>= w) (bs ++ cs)
Writes-then v w bs cs hv hw f h =
    let room = length-append {0} bs cs in
    let (f₁, e₁, b₁) = hv f (omega arith) in
    let (f₂, e₂, b₂) = hw f₁ (omega (arith, ap length b₁, length-append {0} f.bytes bs)) in
    (f₂, rw e₁ e₂, b₂ ∙ rw b₁ (append_assoc f.bytes bs cs))

push_header-Writes : Writes push_header header
unfolding push_header bytes_push_u16_le bytes_push_u32_le
push_header-Writes = Writes-then _ _ magic _ (Writes-push magic) (
    Writes-then _ _ (u16_le 1) _ (Writes-push (u16_le 1))
      (Writes-then _ _ (u16_le 0) _ (Writes-push (u16_le 0)) (Writes-push (u32_le 0))))

Writes-u32 : (v : ℕ) → Writes (λ f. bytes_push_u32_le f v) (u32_le v)
unfolding bytes_push_u32_le
Writes-u32 v = Writes-push (u32_le v)

push_strings-Writes : (ss : List VmString) → Writes (λ f. push_strings f ss) (string_bytes ss)
unfolding push_strings
push_strings-Writes [] = λ f h. (f, refl, sym (append-nil f.bytes))
push_strings-Writes (s ∷ ss) =
    Writes-then _ _ (u32_le s.len) _ (Writes-u32 s.len)
      (Writes-then _ _ (take s.len s.ptr) _ (Writes-push _) (push_strings-Writes ss))

push_metadata-Writes : (ms : List VmMetadata) → Writes (λ f. push_metadata f ms) (metadata_bytes ms)
unfolding push_metadata
push_metadata-Writes [] = λ f h. (f, refl, sym (append-nil f.bytes))
push_metadata-Writes (m ∷ ms) =
    Writes-then _ _ (u32_le m.key_index) _ (Writes-u32 m.key_index) (
      Writes-then _ _ (u32_le m.value_index) _ (Writes-u32 m.value_index) (push_metadata-Writes ms))

-- The buffer that is written to the file has the documented layout, as long as that is no longer
-- than 2^63 bytes, where the growth of a buffer refuses.
pub push_image-layout :
    (e : VmEmitter)
    → length (layout e) ≤ 2 ^ 63
    → (f : VmBytes) × (push_image e ≡ ok f) × (f.bytes ≡ layout e)
unfolding push_image
push_image-layout e h =
    Writes-then _ _ header _ push_header-Writes
      (Writes-then _ _ _ _ (Writes-u32 (length e.strings.items % 2 ^ 32)) (
        Writes-then _ _ _ _ (push_strings-Writes e.strings.items) (
          Writes-then _ _ _ _ (Writes-u32 (length e.metadata.items % 2 ^ 32)) (
            Writes-then _ _ _ _ (push_metadata-Writes e.metadata.items) (
              Writes-then _ _ _ _ (Writes-u32 (length e.code.bytes % 2 ^ 32))
                (Writes-push e.code.bytes))))))
      no_bytes (omega arith)
